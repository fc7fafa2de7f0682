-- ===== src/Reconnect/Outcome.antt =====
-- What RECONNECT of server_src/client_handler.c does to the rooms and their games.
use tmwmf_sem_ups.Base.{
  ℕ, ◌<◌, ◌≡◌, ◌≢◌, refl, ◌⊎◌, inl, inr, ◌∙◌, ap, sym, subst, Option, none, some, List, get_or,
  points_to, Bool-cases, Option-cases, none-ne-some, arith, ℤ, pos, negsuc, ltb, ◌==◌,
}
use tmwmf_sem_ups.Protocol.{reconnect_timeout}
use tmwmf_sem_ups.Client.{Client, store_self}
use tmwmf_sem_ups.Text.{atoi}
use tmwmf_sem_ups.Game.{Game, GameState, game_get_current_player}
use tmwmf_sem_ups.ClientList.{client_list_find_by_id}
use tmwmf_sem_ups.World.{
  World, Message, set_client, client_send_message, room_broadcast, error, not_found,
  already_connected, session_expired, invalid_params, player_reconnected, your_turn, game_created,
  room_joined, welcome_back,
}
use tmwmf_sem_ups.World.Broadcast.{
  OnlySends, OnlySends-trans, client_send_message-OnlySends, room_broadcast-OnlySends,
}
use tmwmf_sem_ups.Play.Steps.{ServerOk, ServerOk-sent, ServerOk-send, ServerOk-reseat}
use tmwmf_sem_ups.Server.{Server, close_socket}
use tmwmf_sem_ups.Server.Steps.{
  ServerOk-close, ServerOk-homeless, homeless-Unseated, close_socket-frame,
}
use tmwmf_sem_ups.Reconnect.{
  handle_reconnect, reconnect_id, reconnect_found, reconnect_as, moved, swap_in_room, take_over,
  resume, resume_game, resume_state, game_format_state_message, tell_own_turn, refuse, away,
  is_present, swap_players, swap_in_game,
}
use tmwmf_sem_ups.Reconnect.Swap.{
  swapped, swap_players-all, swap_players-SlotsOk, swap_in_game-Playable,
}

-- The room of the client, if it is in one, is in the table, and the client sits in it only below
-- `player_count`.
abbrev pub SitsLow : World → ℕ → Type 0
SitsLow w o =
    (r : ℕ)
    → (w.client o).room ≡ some r
    → ((j : ℕ) × (get_or w.rooms j none ≡ some r))
      × ((k : ℕ) → get_or (w.room r).players k none ≡ some o → k < (w.room r).player_count)

-- The exchange in the room, once the new client has the room of the old one.
swap_in_room-ServerOk :
    (w : World) (c old r j : ℕ)
    → ServerOk w
    → (w.client c).room ≡ some r
    → get_or w.rooms j none ≡ some r
    → ((k : ℕ) → get_or (w.room r).players k none ≢ some c)
    → ((k : ℕ) → get_or (w.room r).players k none ≡ some old → k < (w.room r).player_count)
    → ServerOk (swap_in_room w old c (some r))
unfolding swap_in_room
swap_in_room-ServerOk w c old r j ok here listed absent within =
    ServerOk-reseat w r j ok listed
      (record (w.room r) {
        players = swap_players old c (w.room r).player_count 0 (w.room r).players;
        game = swap_in_game old c (w.room r).game;
      })
      refl
      (swap_players-SlotsOk old c (w.room r).max_players (w.room r).player_count (w.room r).players
        within (ok.world.rooms j r listed).slots absent)
      back refl (swap_in_game-Playable old c (w.room r).game (λ g. ok.games j r g listed))
  where
    held : (d : ℕ) (p : Option ℕ) → swapped old c p ≡ some d → (d ≡ c) ⊎ (p ≡ some d)
    held d none e = absurd (none-ne-some e)
    held d (some a) e = ground arith

    back :
        (i d : ℕ)
        → get_or (swap_players old c (w.room r).player_count 0 (w.room r).players) i none ≡ some d
        → (w.client d).room ≡ some r
    back i d h =
        elim (held d (get_or (w.room r).players i none) (
          sym (
            swap_players-all old c (w.room r).max_players (w.room r).player_count (w.room r).players
              within i)
          ∙ h)) [
            | inl e ↦ subst (λ q. (w.client q).room ≡ some r) (sym e) here
            | inr k ↦ (ok.world.rooms j r listed).back i d k
          ]

module _ (w : World) (c old now : ℕ) (ok : ServerOk w) (apart : c ≢ old)
    (homeless : (w.client c).room ≡ none) (low : SitsLow w old) where
  abbrev heir : Client
  heir = take_over (w.client c) (w.client old) now

  abbrev entered : World
  entered = close_socket (set_client w c heir) ((set_client w c heir).client old).socket_fd

  entered-ServerOk : ServerOk entered
  entered-ServerOk =
      ServerOk-close (set_client w c heir) ((set_client w c heir).client old).socket_fd
        (ServerOk-homeless w c heir homeless ok)

  moved-ServerOk : ServerOk (moved w c old now)
  unfolding moved
  moved-ServerOk = elim (Option-cases (w.client old).room) [
    | inl e ↦
        subst (λ p. ServerOk (swap_in_room entered old c p)) (sym e)
          (unfold swap_in_room in entered-ServerOk)
    | inr (r, e) ↦ subst (λ p. ServerOk (swap_in_room entered old c p)) (sym e) (in_room r e)
  ]
    where
      in_room :
          (r : ℕ) → (w.client old).room ≡ some r → ServerOk (swap_in_room entered old c (some r))
      in_room r e =
          let (same_clients, same_room, same_rooms) =
            close_socket-frame (set_client w c heir) ((set_client w c heir).client old).socket_fd in
          let ((j, listed), within) = low r e in
          swap_in_room-ServerOk entered c old r j entered-ServerOk
            (ap (λ m. (m c).room) same_clients
              ∙ ap (λ (v : Client). v.room) (store_self w.client c heir)
              ∙ e)
            (ap (λ xs. get_or xs j none) same_rooms ∙ listed)
            (λ k h.
              homeless-Unseated w c ok homeless j r listed k
                (ap (λ m. get_or (m r).players k none) (sym same_room) ∙ h))
            (λ k h.
              subst (λ m. k < (m r).player_count) (sym same_room)
                (within k (ap (λ m. get_or (m r).players k none) (sym same_room) ∙ h)))

-- Only messages are sent to bring the client up to date.
resume_state-OnlySends :
    (w : World) (c r : ℕ) (g : Game) (x : GameState) → OnlySends w (resume_state w c r g x)
unfolding resume_state tell_own_turn
resume_state-OnlySends w c r g GameState.playing =
    elim (Bool-cases (points_to (game_get_current_player g) c)) [
      | inl t ↦ rw t (
          OnlySends-trans w told (client_send_message told c your_turn)
            (client_send_message-OnlySends w c (game_format_state_message w.client g))
            (client_send_message-OnlySends told c your_turn))
      | inr f ↦ rw f (client_send_message-OnlySends w c (game_format_state_message w.client g))
    ]
  where
    told : World
    told = client_send_message w c (game_format_state_message w.client g)
resume_state-OnlySends w c r g GameState.waiting =
    OnlySends-trans w told (client_send_message told c (game_created g.board_size))
      (client_send_message-OnlySends w c (room_joined (w.room r).room_id (w.room r).name))
      (client_send_message-OnlySends told c (game_created g.board_size))
  where
    told : World
    told = client_send_message w c (room_joined (w.room r).room_id (w.room r).name)
resume_state-OnlySends w c r g GameState.finished = refl

resume_game-OnlySends : (w : World) (c r : ℕ) (o : Option Game) → OnlySends w (resume_game w c r o)
unfolding resume_game
resume_game-OnlySends w c r none =
    client_send_message-OnlySends w c (room_joined (w.room r).room_id (w.room r).name)
resume_game-OnlySends w c r (some g) = resume_state-OnlySends w c r g g.state

resume-OnlySends : (w : World) (c : ℕ) (p : Option ℕ) → OnlySends w (resume w c p)
unfolding resume
resume-OnlySends w c none = refl
resume-OnlySends w c (some r) =
    OnlySends-trans w told (resume_game told c r (told.room r).game)
      (room_broadcast-OnlySends w r (player_reconnected (w.client c).nickname))
      (resume_game-OnlySends told c r (told.room r).game)
  where
    told : World
    told = room_broadcast w r (player_reconnected (w.client c).nickname)

-- After the exchange only messages are sent.
pub reconnect_as-OnlySends :
    (s : Server) (c old now : ℕ)
    → OnlySends (moved s.world c old now) (reconnect_as s c old now).world
unfolding reconnect_as
reconnect_as-OnlySends s c old now =
    OnlySends-trans w1 w2 (resume w2 c (w2.client c).room)
      (client_send_message-OnlySends w1 c (welcome_back (w1.client c).client_id))
      (resume-OnlySends w2 c (w2.client c).room)
  where
    w1 : World
    w1 = moved s.world c old now

    w2 : World
    w2 = client_send_message w1 c (welcome_back (w1.client c).client_id)

module _ (s : Server) (c now : ℕ) (ok : ServerOk s.world)
    (homeless : (s.world.client c).room ≡ none) where
  refused : (message : Message) → ServerOk (refuse s c message).world
  unfolding refuse
  refused message = ServerOk-send s.world c message ok

  reconnect_found-ServerOk :
      (p : Option ℕ)
      → ((o : ℕ) → p ≡ some o → (c ≢ o) × SitsLow s.world o)
      → ServerOk (reconnect_found s c now p).world
  unfolding reconnect_found
  reconnect_found-ServerOk none low = refused (error not_found)
  reconnect_found-ServerOk (some o) low = elim (Bool-cases (is_present (s.world.client o))) [
    | inl t ↦ rw t (refused (error already_connected))
    | inr f ↦ elim (Bool-cases (ltb reconnect_timeout (away (s.world.client o) now))) [
      | inl late ↦ rw (f, late) (refused (error session_expired))
      | inr in_time ↦
          rw (f, in_time)
            (ServerOk-sent (moved s.world c o now) (reconnect_as s c o now).world
              (reconnect_as-OnlySends s c o now)
              (moved-ServerOk s.world c o now ok (low o refl).0 homeless (low o refl).1))
    ]
  ]

-- RECONNECT with any text keeps the rooms of the table and their games valid, on every branch, also
-- when the new client takes the slot of the old one in a room and in its game: if the new client is
-- in no room, and the client with an id is never the new one and sits, if in a room, in a room of
-- the table, in a slot below `player_count`.
pub handle_reconnect-ServerOk :
    (s : Server) (c : ℕ) (params : List ℕ) (now : ℕ)
    → ServerOk s.world
    → (s.world.client c).room ≡ none
    → ((id o : ℕ)
        → client_list_find_by_id s.world.client s.list id ≡ some o
        → atoi params ≡ pos id
        → (c ≢ o) × SitsLow s.world o)
    → ServerOk (handle_reconnect s c params now).world
unfolding handle_reconnect
handle_reconnect-ServerOk s c params now ok homeless low = by_id (atoi params) refl
  where
    by_id : (id : ℤ) → atoi params ≡ id → ServerOk (reconnect_id s c now id).world
    by_id (negsuc _) e = unfold reconnect_id in refused s c now ok homeless (error invalid_params)
    by_id (pos id) e =
        unfold reconnect_id in
        elim (Bool-cases (id == 0)) [
          | inl t ↦ rw t (refused s c now ok homeless (error invalid_params))
          | inr f ↦ rw f (
              reconnect_found-ServerOk s c now ok homeless
                (client_list_find_by_id s.world.client s.list id) (λ o h. low id o h e))
        ]
