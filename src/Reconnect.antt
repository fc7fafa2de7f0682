-- ===== src/Reconnect.antt =====
-- RECONNECT of server_src/client_handler.c, and the message of server_src/game.c that tells the
-- state of a game. The client that sends it takes the place of one whose connection was lost.
pub mod Swap
pub mod Outcome
pub mod Secret
pub mod Reads
pub mod Accept
pub mod Tests
use tmwmf_sem_ups.Base.{
  ℕ, zero, suc, ◌+◌, ◌-◌, Bool, true, false, not, ◌&&◌, Option, none, some, List, [], ◌∷◌, get_or,
  get_elem?, set, ltb, ◌==◌, if◌then◌else◌, points_to, ℤ, pos, negsuc, is_negative,
}
use tmwmf_sem_ups.Protocol.{reconnect_timeout}
use tmwmf_sem_ups.Client.{Client, Memory, nickname_at}
use tmwmf_sem_ups.Text.{atoi}
use tmwmf_sem_ups.Game.{
  Game, GameState, Card, CardState, hidden, revealed, matched, current_player,
  game_get_current_player,
}
use tmwmf_sem_ups.Game as G
use tmwmf_sem_ups.ClientList.{ClientList, client_list_find_by_id, client_list_replace}
use tmwmf_sem_ups.World.{
  Room, World, set_client, set_room, Message, game_state, error, client_send_message,
  room_broadcast, invalid_params, not_found, already_connected, session_expired, welcome_back,
  player_reconnected, your_turn, room_joined, game_created,
}
use tmwmf_sem_ups.Server.{Server, with_world, free_client, close_socket}

-- `-n`, and the number that stands for a card: 0 while it is hidden, its value once it is matched,
-- and the negative value while it is revealed.
abbrev pub negate : ℕ → ℤ
negate zero = pos 0
negate (suc n) = negsuc n

pub state_number : CardState → ℕ → ℤ
state_number hidden value = pos 0
state_number revealed value = negate value
state_number matched value = pos value

abbrev pub card_number : Card → ℤ
card_number card = state_number card.state card.value

-- The number for an element of the array; `none` stands for a read outside of it.
abbrev pub card_number_at : Option Card → Option ℤ
card_number_at none = none
card_number_at (some card) = some (card_number card)

-- The loop over the cards.
unfoldable pub card_numbers : ℕ → ℕ → List Card → List (Option ℤ)
unfolding state_number
card_numbers zero i cards = []
card_numbers (suc n) i cards = card_number_at (get_elem? cards i) ∷ card_numbers n (i + 1) cards

-- The loop over the players.
unfoldable pub names_and_scores :
    Memory Client → ℕ → ℕ → List (Option ℕ) → List ℕ → List (Option (List ℕ) × ℕ)
names_and_scores mem zero i players scores = []
names_and_scores mem (suc n) i players scores =
    (nickname_at mem (get_or players i none), get_or scores i 0)
    ∷ names_and_scores mem n (i + 1) players scores

-- `game_format_state_message`. The buffer is taken to be large enough.
unfoldable pub game_format_state_message : Memory Client → Game → Message
unfolding card_numbers names_and_scores
game_format_state_message mem g =
    game_state g.board_size (nickname_at mem (current_player g))
      (names_and_scores mem g.player_count 0 g.players g.player_scores)
      (card_numbers g.total_cards 0 g.cards)

-- The loop over the first slots: each that holds the old client gets the new one.
unfoldable pub swap_players : ℕ → ℕ → ℕ → ℕ → List (Option ℕ) → List (Option ℕ)
swap_players old_client new_client zero i players = players
swap_players old_client new_client (suc n) i players =
    swap_players old_client new_client n (i + 1) (
      if points_to (get_or players i none) old_client
      then set players i (some new_client)
      else players)

unfoldable pub swap_in_game : ℕ → ℕ → Option Game → Option Game
unfolding swap_players
swap_in_game old_client new_client none = none
swap_in_game old_client new_client (some g) =
    some (record g { players = swap_players old_client new_client g.player_count 0 g.players })

unfoldable pub swap_in_room : World → ℕ → ℕ → Option ℕ → World
unfolding swap_players swap_in_game
swap_in_room w old_client new_client none = w
swap_in_room w old_client new_client (some r) = set_room w r (record (w.room r) {
  players = swap_players old_client new_client (w.room r).player_count 0 (w.room r).players;
  game = swap_in_game old_client new_client (w.room r).game;
})

-- The new client with what it takes over from the old one.
abbrev pub take_over : Client → Client → ℕ → Client
take_over v old now = record v {
  nickname = old.nickname;
  state = old.state;
  room = old.room;
  client_id = old.client_id;
  last_activity = now;
  is_disconnected = false;
  disconnect_time = 0;
  waiting_for_pong = false;
  last_pong_time = now;
  last_ping_time = 0;
}

-- YOUR_TURN, if the client is on turn.
pub tell_own_turn : World → ℕ → Option ℕ → World
tell_own_turn w c p = if points_to p c then client_send_message w c your_turn else w

pub resume_state : World → ℕ → ℕ → Game → GameState → World
unfolding tell_own_turn
resume_state w c r g G.GameState.playing =
    tell_own_turn (client_send_message w c (game_format_state_message w.client g)) c
      (game_get_current_player g)
resume_state w c r g G.GameState.waiting =
    client_send_message (client_send_message w c (room_joined (w.room r).room_id (w.room r).name)) c
      (game_created g.board_size)
resume_state w c r g G.GameState.finished = w

pub resume_game : World → ℕ → ℕ → Option Game → World
unfolding resume_state
resume_game w c r none = client_send_message w c (room_joined (w.room r).room_id (w.room r).name)
resume_game w c r (some g) = resume_state w c r g g.state

-- The room is told, and the client gets the state of its game.
pub resume : World → ℕ → Option ℕ → World
unfolding resume_game
resume w c none = w
resume w c (some r) =
    let w1 = room_broadcast w r (player_reconnected (w.client c).nickname) in
    resume_game w1 c r (w1.room r).game

-- What is done with the shared state before any message is sent.
pub moved : World → ℕ → ℕ → ℕ → World
unfolding swap_in_room
moved w c old_client now =
    let v = take_over (w.client c) (w.client old_client) now in
    let w1 = set_client w c v in
    swap_in_room (close_socket w1 (w1.client old_client).socket_fd) old_client c v.room

pub reconnect_as : Server → ℕ → ℕ → ℕ → Server
unfolding moved resume
reconnect_as s c old_client now =
    let w1 = moved s.world c old_client now in
    let s1 = free_client (record s { list = client_list_replace s.list old_client c }) old_client in
    let w2 = client_send_message w1 c (welcome_back (w1.client c).client_id) in
    with_world s1 (resume w2 c (w2.client c).room)

-- `now - disconnect_time`, or `now - last_activity` where the connection is closed but not marked.
abbrev pub away : Client → ℕ → ℕ
away old now = if old.is_disconnected then now - old.disconnect_time else now - old.last_activity

pub refuse : Server → ℕ → Message → Server
refuse s c message = with_world s (client_send_message s.world c message)

-- Neither marked as disconnected nor without a socket.
abbrev pub is_present : Client → Bool
is_present old = not old.is_disconnected && not (is_negative old.socket_fd)

pub reconnect_found : Server → ℕ → ℕ → Option ℕ → Server
unfolding refuse reconnect_as
reconnect_found s c now none = refuse s c (error not_found)
reconnect_found s c now (some old_client) =
    let old = s.world.client old_client in
    if is_present old
    then refuse s c (error already_connected)
    else if ltb reconnect_timeout (away old now)
    then refuse s c (error session_expired)
    else reconnect_as s c old_client now

pub reconnect_id : Server → ℕ → ℕ → ℤ → Server
unfolding reconnect_found refuse
reconnect_id s c now (negsuc _) = refuse s c (error invalid_params)
reconnect_id s c now (pos id) =
    if id == 0
    then refuse s c (error invalid_params)
    else reconnect_found s c now (client_list_find_by_id s.world.client s.list id)

unfoldable pub handle_reconnect : Server → ℕ → List ℕ → ℕ → Server
unfolding reconnect_id
handle_reconnect s c params now = reconnect_id s c now (atoi params)
