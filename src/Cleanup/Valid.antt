-- ===== src/Cleanup/Valid.antt =====
-- The clean-up of `client_handler_thread` in server_src/client_handler.c keeps the rooms and their
-- games valid, and leaves no slot that points to a client that is freed.
use tmwmf_sem_ups.Base.{
  ℕ, ◌≤◌, ◌≡◌, refl, ◌⊎◌, inl, inr, ◌∙◌, ap, sym, subst, Bool, true, false, Option, none, some, [],
  ◌∷◌, ◌++◌, get_or, leb, points_to, Bool-cases, Option-cases, none-ne-some, some_eq, negsuc,
}
use tmwmf_sem_ups.Client.{Client}
use tmwmf_sem_ups.Game.{Game, game_get_current_player, game_remove_player}
use tmwmf_sem_ups.Game.Players.{Playable}
use tmwmf_sem_ups.Game.Remove.{removed-IsValid, removed-Seated}
use tmwmf_sem_ups.World.{
  World, set_client, client_send_message, room_broadcast_except, player_removed, your_turn,
}
use tmwmf_sem_ups.World.Broadcast.{
  OnlySends, room_broadcast_except-OnlySends, client_send_message-OnlySends,
}
use tmwmf_sem_ups.Leave.{room_remove_player}
use tmwmf_sem_ups.Leave.Steps.{rooms-sent, room-sent, client-sent}
use tmwmf_sem_ups.Leave.Games.{room_remove_player-KeepsGames}
use tmwmf_sem_ups.Leave.Valid.{room_remove_player-WorldOk}
use tmwmf_sem_ups.Lobby.{or_same}
use tmwmf_sem_ups.Play.{set_game, tell_turn}
use tmwmf_sem_ups.Play.Steps.{
  ServerOk, ServerOk-sent, ServerOk-send, ServerOk-set_client, ServerOk-set_game, ServerOk-keeps,
}
use tmwmf_sem_ups.Play.Start.{InTable}
use tmwmf_sem_ups.Server.{Server, close_socket}
use tmwmf_sem_ups.Server.Steps.{ServerOk-close, close_socket-frame, Unseated, homeless-Unseated}
use tmwmf_sem_ups.Timeout.{hang_up}
use tmwmf_sem_ups.Timeout.Valid.{hang_up-ServerOk}
use tmwmf_sem_ups.Cleanup.{
  count_remaining, or_same_game, leave_game, wait_for, lost_in_game, leave_room, is_in_game,
  lost_marked, disconnect, lost_elsewhere, game_in, game_of, lost_from, clean_up,
}

-- A client that leaves its room sits in no slot of any room.
removed_room :
    (w : World) (c r j : ℕ)
    → ServerOk w
    → ((s : ℕ) → (w.client c).room ≡ some s → r ≡ s)
    → get_or w.rooms j none ≡ some r
    → ServerOk (or_same w (room_remove_player w r c))
      × Unseated (or_same w (room_remove_player w r c)) c
removed_room w c r j ok only listed = elim (room_remove_player-WorldOk w r j c ok.world listed) [
  | inl (absent, e) ↦
      subst (λ a. ServerOk (or_same w a) × Unseated (or_same w a) c) (sym e)
        (
          ok,
          λ i s here k h. absent k (
              ap (λ q. get_or (w.room q).players k none)
                (only s ((ok.world.rooms i s here).back k c h))
              ∙ h),
        )
  | inr (i, _, w', e, ok', out) ↦
      let valid = ServerOk-keeps w w' (room_remove_player-KeepsGames w w' r c e) ok' ok in
      subst (λ a. ServerOk (or_same w a) × Unseated (or_same w a) c) (sym e)
        (valid, homeless-Unseated w' c valid (ap (λ (v : Client). v.room) out))
]

Unseated-sent : (w w' : World) (c : ℕ) → OnlySends w w' → Unseated w c → Unseated w' c
Unseated-sent w w' c only free j r listed k h =
    free j r (ap (λ xs. get_or xs j none) (sym (rooms-sent w w' only)) ∙ listed) k
      (ap (λ m. get_or (m r).players k none) (sym (room-sent w w' only)) ∙ h)

tell_turn-Unseated :
    (c : ℕ) (w : World) (p : Option ℕ)
    → ServerOk w × Unseated w c
    → ServerOk (tell_turn w p) × Unseated (tell_turn w p) c
unfolding tell_turn
tell_turn-Unseated c w none both = both
tell_turn-Unseated c w (some d) (ok, free) = (
  ServerOk-send w d your_turn ok,
  Unseated-sent w (client_send_message w d your_turn) c
      (client_send_message-OnlySends w d your_turn) free,
)

leave_room-ServerOk :
    (w : World) (c : ℕ)
    → ServerOk w
    → InTable w c
    → ServerOk (leave_room w c (w.client c).room) × Unseated (leave_room w c (w.client c).room) c
leave_room-ServerOk w c ok in_table = by_room (w.client c).room refl
  where
    by_room :
        (p : Option ℕ)
        → (w.client c).room ≡ p
        → ServerOk (leave_room w c p) × Unseated (leave_room w c p) c
    by_room none e = unfold leave_room in (ok, homeless-Unseated w c ok e)
    by_room (some r) e =
        let (j, listed) = in_table r e in
        unfold leave_room in removed_room w c r j ok (λ s f. some_eq (sym e ∙ f)) listed

module _ (w : World) (c r j : ℕ) (ok : ServerOk w) (home : (w.client c).room ≡ some r)
    (listed : get_or w.rooms j none ≡ some r) where
  wait_for-ServerOk : (now : ℕ) → ServerOk (wait_for w c r now)
  unfolding wait_for
  wait_for-ServerOk now =
      ServerOk-sent hung _ (room_broadcast_except-OnlySends hung r _ (some c))
        (hang_up-ServerOk w1 c (ServerOk-set_client w c marked refl ok))
    where
      marked : Client
      marked = record (w.client c) { is_disconnected = true; disconnect_time = now }

      w1 : World
      w1 = set_client w c marked

      hung : World
      hung = hang_up w1 c

  leave_game-ServerOk :
      (g : Game)
      → (w.room r).game ≡ some g
      → 2 ≤ g.player_count
      → ServerOk (leave_game w c r g) × Unseated (leave_game w c r g) c
  unfolding leave_game
  leave_game-ServerOk g e two = elim (Bool-cases (points_to (game_get_current_player g) c)) [
    | inl t ↦ rw t (tell_turn-Unseated c gone (game_get_current_player g1) left)
    | inr f ↦ rw f left
  ]
    where
      w1 : World
      w1 = room_broadcast_except w r (player_removed (w.client c).nickname) (some c)

      only : OnlySends w w1
      only = room_broadcast_except-OnlySends w r (player_removed (w.client c).nickname) (some c)

      g1 : Game
      g1 = or_same_game g (game_remove_player g c)

      gone : World
      gone = or_same (set_game w1 r g1) (room_remove_player (set_game w1 r g1) r c)

      played : Playable g
      played = ok.games j r g listed e

      valid : (o : Option Game) → game_remove_player g c ≡ o → Playable (or_same_game g o)
      valid none f = played
      valid (some g') f = record {
        valid = removed-IsValid g c played.valid two f;
        seated = removed-Seated g c played.valid played.seated f;
      }

      still_listed : get_or w1.rooms j none ≡ some r
      still_listed = ap (λ xs. get_or xs j none) (rooms-sent w w1 only) ∙ listed

      left : ServerOk gone × Unseated gone c
      left =
          removed_room (set_game w1 r g1) c r j
            (ServerOk-set_game w1 r j (ServerOk-sent w w1 only ok) still_listed g1
              (valid (game_remove_player g c) refl))
            (λ s f. some_eq (sym home ∙ ap (λ m. (m c).room) (sym (client-sent w w1 only)) ∙ f))
            still_listed

-- What the clean-up has done: the client is kept, or it is freed and no slot points to it.
abbrev pub Settled : Server → ℕ → Server → Type 0
Settled s c s' = (s'.freed ≡ s.freed) ⊎ ((s'.freed ≡ s.freed ++ (c ∷ [])) × Unseated s'.world c)

module _ (s : Server) (c now : ℕ) (ok : ServerOk s.world) (in_table : InTable s.world c) where
  disconnect-ServerOk : ServerOk (disconnect s c).world × Settled s c (disconnect s c)
  unfolding disconnect
  disconnect-ServerOk = elim (Bool-cases s.running) [
    | inr f ↦ rw f (gone_ok, inl refl)
    | inl t ↦ rw t (ServerOk-close gone (w.client c).socket_fd gone_ok, inr (refl, closed_free))
  ]
    where
      w : World
      w = leave_room s.world c (s.world.client c).room

      left : ServerOk w × Unseated w c
      left = leave_room-ServerOk s.world c ok in_table

      gone : World
      gone = set_client w c (record (w.client c) { socket_fd = negsuc 0 })

      gone_ok : ServerOk gone
      gone_ok = ServerOk-set_client w c (record (w.client c) { socket_fd = negsuc 0 }) refl left.0

      closed_free : Unseated (close_socket gone (w.client c).socket_fd) c
      closed_free j r listed k h =
          let (_, a, b) = close_socket-frame gone (w.client c).socket_fd in
          left.1 j r (ap (λ xs. get_or xs j none) (sym b) ∙ listed) k
            (ap (λ m. get_or (m r).players k none) (sym a) ∙ h)

  lost_elsewhere-ServerOk : ServerOk (lost_elsewhere s c).world × Settled s c (lost_elsewhere s c)
  unfolding lost_elsewhere lost_marked
  lost_elsewhere-ServerOk = elim (Bool-cases (s.world.client c).is_disconnected) [
    | inr f ↦ rw f disconnect-ServerOk
    | inl t ↦ elim (Bool-cases (is_in_game (s.world.client c).state)) [
      | inl u ↦ rw (t, u) (ok, inl refl)
      | inr f ↦ rw (t, f) ((leave_room-ServerOk s.world c ok in_table).0, inl refl)
    ]
  ]

  lost_in_game-ServerOk :
      (r : ℕ) (g : Game)
      → (s.world.client c).room ≡ some r
      → (s.world.room r).game ≡ some g
      → 2 ≤ g.player_count
      → ServerOk (lost_in_game s c now r g).world × Settled s c (lost_in_game s c now r g)
  unfolding lost_in_game
  lost_in_game-ServerOk r g home e two =
      let (j, listed) = in_table r home in
      let (ok', free) = leave_game-ServerOk s.world c r j ok home listed g e two in
      elim (Bool-cases
        (leb 2 (count_remaining c (s.world.room r).player_count 0 (s.world.room r).players))) [
          | inl t ↦ rw t (ok', inr (refl, free))
          | inr f ↦ rw f (wait_for-ServerOk s.world c r j ok home listed now, inl refl)
        ]

  lost_from-ServerOk :
      (o : Option (ℕ × Game))
      → ((r : ℕ) (g : Game)
          → o ≡ some (r, g)
          → ((s.world.client c).room ≡ some r)
            × ((s.world.room r).game ≡ some g)
            × (2 ≤ g.player_count))
      → ServerOk (lost_from s c now o).world × Settled s c (lost_from s c now o)
  unfolding lost_from
  lost_from-ServerOk none at = lost_elsewhere-ServerOk
  lost_from-ServerOk (some (r, g)) at =
      let (home, e, two) = at r g refl in lost_in_game-ServerOk r g home e two

game_in-some :
    (q : ℕ) (plays : Bool) (o : Option Game) (r : ℕ) (g : Game)
    → game_in q plays o ≡ some (r, g)
    → (q ≡ r) × (o ≡ some g)
unfolding game_in
game_in-some q plays none r g e = absurd (none-ne-some e)
game_in-some q true (some h) r g e =
    let same = some_eq e in (ap (λ (p : ℕ × Game). p.0) same, ap (λ (p : ℕ × Game). some p.1) same)
game_in-some q false (some h) r g e = absurd (none-ne-some e)

game_of-some :
    (w : World) (v : Client) (r : ℕ) (g : Game)
    → game_of w v ≡ some (r, g)
    → (v.room ≡ some r) × ((w.room r).game ≡ some g)
unfolding game_of
game_of-some w v r g e = elim (Option-cases v.room) [
  | inl f ↦ absurd (none-ne-some (rw f at e))
  | inr (q, f) ↦
      let (same, h) = game_in-some q (is_in_game v.state) (w.room q).game r g (rw f at e) in
      (f ∙ ap some same, ap (λ x. (w.room x).game) (sym same) ∙ h)
]

-- When the connection of a client is lost, in whatever state, the rooms of the table and their
-- games are valid after the clean-up, and if the client is freed, no slot of a room of the table
-- points to it. The room of the client, if it is in one, is in the table, and the game in it, if it
-- has one, has two players or more.
pub clean_up-ServerOk :
    (s : Server) (c now : ℕ)
    → ServerOk s.world
    → InTable s.world c
    → ((r : ℕ) (g : Game)
        → (s.world.client c).room ≡ some r
        → (s.world.room r).game ≡ some g
        → 2 ≤ g.player_count)
    → ServerOk (clean_up s c now).world × Settled s c (clean_up s c now)
unfolding clean_up
clean_up-ServerOk s c now ok in_table two =
    lost_from-ServerOk s c now ok in_table (game_of s.world (s.world.client c)) (λ r g e.
      let (home, at_room) = game_of-some s.world (s.world.client c) r g e in
      (home, at_room, two r g home at_room))
