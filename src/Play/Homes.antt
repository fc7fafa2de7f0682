-- ===== src/Play/Homes.antt =====
-- START_GAME, READY and FLIP of server_src/client_handler.c keep every client that is in a room in
-- a slot of that room, and the room in the table.
use tmwmf_sem_ups.Base.{
  ℕ, zero, suc, ◌+◌, ◌≡◌, refl, inl, inr, ◌∙◌, ap, sym, Option, none, some, List, [], ◌∷◌, ◌++◌,
  get_or, Bool-cases, eq_or_ne, ltb, leb, ◌==◌, is_null,
}
use tmwmf_sem_ups.Client.{Client, store_self, store_ne}
use tmwmf_sem_ups.Protocol.{max_error_count}
use tmwmf_sem_ups.Game.{
  Game, Env, game_player_ready, game_all_players_ready, game_start, game_get_current_player,
}
use tmwmf_sem_ups.World.{
  World, Room, set_client, set_room, Message, Failure, client_send_message, room_broadcast,
  finished, playing, error,
}
use tmwmf_sem_ups.World as W
use tmwmf_sem_ups.Leave.Homes.{
  KeepsHomes, KeepsHomes-same, KeepsHomes-set_room, send-KeepsHomes, broadcast-KeepsHomes,
}
use tmwmf_sem_ups.Play.{
  send_error_and_count, set_game, tell_turn, into_game, all_into_game, announce_start, when_ready,
  ready_in, handle_ready, created, start_in, handle_start_game,
}

-- A client changes, but not its room.
pub KeepsHomes-set_client :
    (w : World) (c : ℕ) (v : Client) → v.room ≡ (w.client c).room → KeepsHomes w (set_client w c v)
KeepsHomes-set_client w c v same =
    KeepsHomes-same w (set_client w c v)
      (λ d. elim (eq_or_ne c d) [
        | inl e ↦
            ap (λ q. ((set_client w c v).client q).room) (sym e)
            ∙ ap (λ (x : Client). x.room) (store_self w.client c v)
            ∙ same
            ∙ ap (λ q. (w.client q).room) e
        | inr ne ↦ ap (λ (x : Client). x.room) (store_ne w.client c d v ne)
      ])
      refl refl

pub set_game-KeepsHomes : (w : World) (r : ℕ) (g : Game) → KeepsHomes w (set_game w r g)
set_game-KeepsHomes w r g = KeepsHomes-set_room w r (record (w.room r) { game = some g }) refl

tell_turn-KeepsHomes : (w : World) (p : Option ℕ) → KeepsHomes w (tell_turn w p)
unfolding tell_turn
tell_turn-KeepsHomes w none = λ d home. home
tell_turn-KeepsHomes w (some c) = send-KeepsHomes w c _

-- The third error also closes the socket.
pub send_error-KeepsHomes :
    (w : World) (c : ℕ) (failure : Failure) → KeepsHomes w (send_error_and_count w c failure)
unfolding send_error_and_count
send_error-KeepsHomes w c failure =
    elim (Bool-cases (leb max_error_count ((w1.client c).invalid_message_count + 1))) [
      | inl t ↦ rw t (λ d home.
          KeepsHomes-same w2 (record w2 { closed = w2.closed ++ ((w2.client c).socket_fd ∷ []) })
            (λ x. refl) refl refl d (counted d home))
      | inr f ↦ rw f counted
    ]
  where
    w1 : World
    w1 = client_send_message w c (error failure)

    more : Client
    more = record (w1.client c) { invalid_message_count = (w1.client c).invalid_message_count + 1 }

    w2 : World
    w2 = set_client w1 c more

    counted : KeepsHomes w w2
    counted d home =
        KeepsHomes-set_client w1 c more refl d (send-KeepsHomes w c (error failure) d home)

into_game-KeepsHomes : (w : World) (p : Option ℕ) → KeepsHomes w (into_game w p)
into_game-KeepsHomes w none = λ d home. home
into_game-KeepsHomes w (some c) = KeepsHomes-set_client w c _ refl

all_into_game-KeepsHomes :
    (n i : ℕ) (players : List (Option ℕ)) (w : World) → KeepsHomes w (all_into_game n i players w)
unfolding all_into_game
all_into_game-KeepsHomes zero i players w = λ d home. home
all_into_game-KeepsHomes (suc n) i players w = λ d home.
    all_into_game-KeepsHomes n (i + 1) players (into_game w (get_or players i none)) d
      (into_game-KeepsHomes w (get_or players i none) d home)

announce_start-KeepsHomes :
    (w : World) (r : ℕ) (o : Option Game) → KeepsHomes w (announce_start w r o)
unfolding announce_start
announce_start-KeepsHomes w r none = λ d home. home
announce_start-KeepsHomes w r (some g) = λ d home.
    tell_turn-KeepsHomes (room_broadcast w2 r _) (game_get_current_player g) d (
      broadcast-KeepsHomes w2 r _ d (
        all_into_game-KeepsHomes (w1.room r).player_count 0 (w1.room r).players w1 d
          (KeepsHomes-set_room w r _ refl d home)))
  where
    w1 : World
    w1 = set_room w r (record (w.room r) { game = some g; state = playing })

    w2 : World
    w2 = all_into_game (w1.room r).player_count 0 (w1.room r).players w1

when_ready-KeepsHomes : (w : World) (r c : ℕ) (o : Option Game) → KeepsHomes w (when_ready w r c o)
unfolding when_ready
when_ready-KeepsHomes w r c none = send-KeepsHomes w c _
when_ready-KeepsHomes w r c (some g) = elim (Bool-cases (game_all_players_ready g)) [
  | inl t ↦ rw t (λ d home. announce_start-KeepsHomes _ r (game_start g) d (told d home))
  | inr f ↦ rw f told
]
  where
    w1 : World
    w1 = client_send_message (set_game w r g) c W.ready_ok

    told : KeepsHomes w (room_broadcast w1 r (W.player_ready (w1.client c).nickname))
    told d home =
        broadcast-KeepsHomes w1 r _ d
          (send-KeepsHomes (set_game w r g) c _ d (set_game-KeepsHomes w r g d home))

pub handle_ready-KeepsHomes : (w : World) (c : ℕ) → KeepsHomes w (handle_ready w c)
unfolding handle_ready
handle_ready-KeepsHomes w c = at (w.client c).room
  where
    at : (p : Option ℕ) → KeepsHomes w (ready_in w c p)
    at none = unfold ready_in in send-KeepsHomes w c _
    at (some r) = unfold ready_in in playing_in (w.room r).game
      where
        playing_in :
            (o : Option Game)
            → KeepsHomes w (elim o [
              | none ↦ client_send_message w c (error W.game_not_started)
              | some g ↦ when_ready w r c (game_player_ready g c)
            ])
        playing_in none = send-KeepsHomes w c _
        playing_in (some g) = when_ready-KeepsHomes w r c (game_player_ready g c)

created-KeepsHomes : (w : World) (r c : ℕ) (o : Option Game) → KeepsHomes w (created w r c o)
unfolding created
created-KeepsHomes w r c none = send-KeepsHomes w c _
created-KeepsHomes w r c (some g) =
    λ d home. broadcast-KeepsHomes (set_game w r g) r _ d (set_game-KeepsHomes w r g d home)

pub handle_start_game-KeepsHomes :
    (env : Env) (w : World) (c : ℕ) → KeepsHomes w (handle_start_game env w c)
unfolding handle_start_game
handle_start_game-KeepsHomes env w c = at (w.client c).room
  where
    at : (p : Option ℕ) → KeepsHomes w (start_in env w c p)
    at none = unfold start_in in send-KeepsHomes w c _
    at (some r) =
        unfold start_in in
        elim (Bool-cases ((w.room r).owner == c)) [
          | inr f ↦ rw f (send-KeepsHomes w c _)
          | inl t ↦ elim (Bool-cases (is_null (w.room r).game)) [
            | inr g ↦ rw (t, g) (send-KeepsHomes w c _)
            | inl u ↦ elim (Bool-cases (ltb (w.room r).player_count (w.room r).max_players)) [
              | inl v ↦ rw (t, u, v) (send-KeepsHomes w c _)
              | inr v ↦ rw (t, u, v) (created-KeepsHomes w r c _)
            ]
          ]
        ]
