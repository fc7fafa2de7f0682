-- ===== src/Play/Start.antt =====
-- `handle_start_game` and `handle_ready` of server_src/client_handler.c.
use tmwmf_sem_ups.Base.{
  none-ne-some, some_eq, ℕ, zero, suc, ◌+◌, ◌%◌, ◌<◌, ◌≤◌, ◌≡◌, ◌≢◌, refl, ◌⊎◌, inl, inr, Option,
  none, some, List, get_or, get_elem?, get_elem?-eq-get_or, ◌∙◌, ap, sym, subst, Bool-cases,
  Option-cases, ltb, ◌==◌, arith, is_null,
}
use tmwmf_sem_ups.Protocol.{in_game}
use tmwmf_sem_ups.Game.{
  Game, GameState, waiting, playing, finished, Env, game_create, game_player_ready, game_start,
  game_all_players_ready, game_get_current_player,
}
use tmwmf_sem_ups.Game.Valid.{IsValid, Seated}
use tmwmf_sem_ups.Game.Players.{
  Playable, SameSeats-Seated, game_player_ready-SameSeats, game_start-SameSeats,
}
use tmwmf_sem_ups.Game.Create.{game_create-IsValid}
use tmwmf_sem_ups.Game.Ready.{ReadyOutcome, game_player_ready_lem, game_start_lem}
use tmwmf_sem_ups.World.{
  World, Room, Message, set_room, set_client, room_broadcast, client_send_message, ready_ok,
  player_ready, your_turn, error, already_ready, creation_failed, game_created, not_in_room,
  not_room_owner, already_started, need_more_players, game_not_started,
}
use tmwmf_sem_ups.World as W
use tmwmf_sem_ups.World.Broadcast.{room_broadcast-OnlySends, client_send_message-OnlySends}
use tmwmf_sem_ups.Room.Valid.{SlotsOk, full_slots, count_le_max}
use tmwmf_sem_ups.Leave.Steps.{rooms-sent}
use tmwmf_sem_ups.Play.{
  handle_ready, ready_in, when_ready, announce_start, tell_turn, into_game, all_into_game,
  player_names, handle_start_game, start_in, created, set_game,
}
use tmwmf_sem_ups.Play.Steps.{
  ServerOk, ServerOk-send, ServerOk-broadcast, ServerOk-set_client, ServerOk-set_room,
  ServerOk-set_game,
}

waiting_or_not : (s : GameState) → (s ≡ waiting) ⊎ (s ≢ waiting)
waiting_or_not waiting = inl refl
waiting_or_not playing = inr (λ e. absurd (cc))
waiting_or_not finished = inr (λ e. absurd (cc))

ready-IsValid : (g g' : Game) (c : ℕ) → IsValid g → game_player_ready g c ≡ some g' → IsValid g'
ready-IsValid g g' c v e = elim (waiting_or_not g.state) [
  | inl w ↦ outcome ((game_player_ready_lem g c v).1 w)
  | inr ne ↦ absurd (none-ne-some (sym ((game_player_ready_lem g c v).0 ne) ∙ e))
]
  where
    outcome : ReadyOutcome g c → IsValid g'
    outcome (inl (_, refused)) = absurd (none-ne-some (sym refused ∙ e))
    outcome (inr (_, g'', f, _, _, _, v', _)) = subst IsValid (some_eq (sym f ∙ e)) v'

start-IsValid : (g g' : Game) → IsValid g → game_start g ≡ some g' → IsValid g'
start-IsValid g g' v e = elim (waiting_or_not g.state) [
  | inl w ↦ outcome ((game_start_lem g v).1 w)
  | inr ne ↦ absurd (none-ne-some (sym ((game_start_lem g v).0 ne) ∙ e))
]
  where
    outcome :
        ((g'' : Game) × (game_start g ≡ some g'')
          × (g''.state ≡ playing)
          × (g''.current_player_index ≡ 0)
          × (g''.flips_this_turn ≡ 0)
          × (g''.players ≡ g.players)
          × (g''.player_count ≡ g.player_count)
          × IsValid g'')
        → IsValid g'
    outcome (g'', f, _, _, _, _, _, v') = subst IsValid (some_eq (sym f ∙ e)) v'

ready-Playable : (g g' : Game) (c : ℕ) → Playable g → game_player_ready g c ≡ some g' → Playable g'
ready-Playable g g' c v e = record {
  valid = ready-IsValid g g' c v.valid e;
  seated = SameSeats-Seated g g' (game_player_ready-SameSeats g g' c e) v.seated;
}

pub start-Playable : (g g' : Game) → Playable g → game_start g ≡ some g' → Playable g'
start-Playable g g' v e = record {
  valid = start-IsValid g g' v.valid e;
  seated = SameSeats-Seated g g' (game_start-SameSeats g g' e) v.seated;
}

-- The game that START_GAME creates in a full room is valid and has a client in every seat: the
-- slots below `player_count` are the ones that the code copies, and none of them is NULL.
pub game_create-Seated :
    (env : Env) (room : Room) {g : Game}
    → SlotsOk room.max_players room.player_count room.players
    → room.max_players ≤ room.player_count
    → room.board_size % 2 ≡ 0
    → game_create env room.board_size room.players room.player_count ≡ some g
    → IsValid g × Seated g
game_create-Seated env room {g} ok full even e =
    let (v, _, _, seats) =
      game_create-IsValid env room.board_size room.players room.player_count even e in
    (v, seats held)
  where
    same : room.player_count ≡ room.max_players
    same = omega (arith, count_le_max ok)

    held : (i : ℕ) → i < room.player_count → (c : ℕ) × (get_elem? room.players i ≡ some (some c))
    held i lt =
        let (c, h) = full_slots ok same i (omega (arith, lt, same)) in
        (
          c,
          get_elem?-eq-get_or room.players i none (omega (arith, lt, same, ok.size, ok.limit))
              ∙ ap some h,
        )

module _ (r j c : ℕ) where
  created-ServerOk :
      (w : World) (p : Option Game)
      → ServerOk w
      → get_or w.rooms j none ≡ some r
      → ((g : Game) → p ≡ some g → Playable g)
      → ServerOk (created w r c p)
  unfolding created
  created-ServerOk w none ok listed valid = ServerOk-send w c (error creation_failed) ok
  created-ServerOk w (some g) ok listed valid =
      ServerOk-broadcast (set_game w r g) r (game_created g.board_size)
        (ServerOk-set_game w r j ok listed g (valid g refl))

  start_in-ServerOk :
      (env : Env) (w : World)
      → ServerOk w
      → get_or w.rooms j none ≡ some r
      → ServerOk (start_in env w c (some r))
  unfolding start_in
  start_in-ServerOk env w ok listed = elim (Bool-cases ((w.room r).owner == c)) [
    | inr f ↦ rw f (ServerOk-send w c (error not_room_owner) ok)
    | inl t ↦ elim (Bool-cases (is_null (w.room r).game)) [
      | inr f ↦ rw (t, f) (ServerOk-send w c (error already_started) ok)
      | inl u ↦ elim (Bool-cases (ltb (w.room r).player_count (w.room r).max_players)) [
        | inl l ↦ rw (t, u, l) (ServerOk-send w c (error need_more_players) ok)
        | inr l ↦
            rw (t, u, l)
              (created-ServerOk w
                (game_create env (w.room r).board_size (w.room r).players (w.room r).player_count)
                ok listed
                (λ g e.
                  let (valid, seated) =
                    game_create-Seated env (w.room r) (ok.world.rooms j r listed).slots
                      (ground arith) (ok.boards j r listed) e in
                  record { valid = valid; seated = seated }))
      ]
    ]
  ]

  all_into_game-ServerOk :
      (n i : ℕ) (players : List (Option ℕ)) (w : World)
      → ServerOk w
      → ServerOk (all_into_game n i players w)
  unfolding all_into_game
  all_into_game-ServerOk zero i players w ok = ok
  all_into_game-ServerOk (suc n) i players w ok =
      all_into_game-ServerOk n (i + 1) players (into_game w (get_or players i none))
        (one (get_or players i none))
    where
      one : (p : Option ℕ) → ServerOk (into_game w p)
      one none = ok
      one (some d) = ServerOk-set_client w d (record (w.client d) { state = in_game }) refl ok

  tell_turn-ServerOk : (w : World) (p : Option ℕ) → ServerOk w → ServerOk (tell_turn w p)
  unfolding tell_turn
  tell_turn-ServerOk w none ok = ok
  tell_turn-ServerOk w (some d) ok = ServerOk-send w d your_turn ok

  announce_start-ServerOk :
      (w : World) (p : Option Game)
      → ServerOk w
      → get_or w.rooms j none ≡ some r
      → ((g : Game) → p ≡ some g → Playable g)
      → ServerOk (announce_start w r p)
  unfolding announce_start
  announce_start-ServerOk w none ok listed valid = ok
  announce_start-ServerOk w (some g) ok listed valid =
      tell_turn-ServerOk (room_broadcast w2 r told) (game_get_current_player g) (
        ServerOk-broadcast w2 r told (
          all_into_game-ServerOk (w1.room r).player_count 0 (w1.room r).players w1 (
            ServerOk-set_room w r j ok listed
              (record (w.room r) { game = some g; state = W.RoomState.playing }) refl
              (ok.world.rooms j r listed).slots refl refl
              (λ h e. subst Playable (some_eq e) (valid g refl)))))
    where
      w1 : World
      w1 = set_room w r (record (w.room r) { game = some g; state = W.RoomState.playing })

      w2 : World
      w2 = all_into_game (w1.room r).player_count 0 (w1.room r).players w1

      told : Message
      told = W.game_start g.board_size (player_names w2.client g.player_count 0 g.players)

  when_ready-ServerOk :
      (w : World) (p : Option Game)
      → ServerOk w
      → get_or w.rooms j none ≡ some r
      → ((g : Game) → p ≡ some g → Playable g)
      → ServerOk (when_ready w r c p)
  unfolding when_ready
  when_ready-ServerOk w none ok listed valid = ServerOk-send w c (error already_ready) ok
  when_ready-ServerOk w (some g) ok listed valid = elim (Bool-cases (game_all_players_ready g)) [
    | inl t ↦ rw t (
        announce_start-ServerOk w2 (game_start g) w2_ok w2_listed
          (λ g' e. start-Playable g g' (valid g refl) e))
    | inr f ↦ rw f w2_ok
  ]
    where
      w0 : World
      w0 = set_game w r g

      w1 : World
      w1 = client_send_message w0 c ready_ok

      told : Message
      told = player_ready (w1.client c).nickname

      w2 : World
      w2 = room_broadcast w1 r told

      w2_ok : ServerOk w2
      w2_ok =
          ServerOk-broadcast w1 r told
            (ServerOk-send w0 c ready_ok (ServerOk-set_game w r j ok listed g (valid g refl)))

      w2_listed : get_or w2.rooms j none ≡ some r
      w2_listed =
          ap (λ xs. get_or xs j none) (rooms-sent w1 w2 (room_broadcast-OnlySends w1 r told))
          ∙ ap (λ xs. get_or xs j none)
              (rooms-sent w0 w1 (client_send_message-OnlySends w0 c ready_ok))
          ∙ listed

  ready_in-ServerOk :
      (w : World) → ServerOk w → get_or w.rooms j none ≡ some r → ServerOk (ready_in w c (some r))
  unfolding ready_in
  ready_in-ServerOk w ok listed = elim (Option-cases (w.room r).game) [
    | inl e ↦ rw (e, ready_in) (ServerOk-send w c (error game_not_started) ok)
    | inr (g, e) ↦
        rw (e, ready_in)
          (when_ready-ServerOk w (game_player_ready g c) ok listed
            (λ g' f. ready-Playable g g' c (ok.games j r g listed e) f))
  ]

-- The room of the client, if it is in one, is in the table.
abbrev pub InTable : World → ℕ → Type 0
InTable w c = (r : ℕ) → (w.client c).room ≡ some r → (j : ℕ) × (get_or w.rooms j none ≡ some r)

-- START_GAME and READY keep the rooms of the table and their games valid, on every branch, the last
-- READY that starts the game included. The room of the client, if it is in one, has to be in the
-- table.
pub start_and_ready-ServerOk :
    (env : Env) (w : World) (c : ℕ)
    → ServerOk w
    → InTable w c
    → ServerOk (handle_start_game env w c) × ServerOk (handle_ready w c)
unfolding handle_start_game handle_ready start_in ready_in
start_and_ready-ServerOk env w c ok in_table = elim (Option-cases (w.client c).room) [
  | inl e ↦
      rw e (ServerOk-send w c (error not_in_room) ok, ServerOk-send w c (error not_in_room) ok)
  | inr (r, e) ↦
      let (j, listed) = in_table r e in
      rw e (start_in-ServerOk r j c env w ok listed, ready_in-ServerOk r j c w ok listed)
]
