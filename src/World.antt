-- ===== src/World.antt =====
-- The state that server_src/room.c and client_handler.c share: the rooms, the clients that they
-- point to, and the messages that have been sent.
pub mod Broadcast
use tmwmf_sem_ups.Base.{
  ℕ, zero, suc, ◌+◌, Bool, true, false, not, ◌||◌, Option, none, some, List, [], ◌∷◌, ◌++◌, get_or,
  if◌then◌else◌, points_to, ℤ, is_negative,
}
use tmwmf_sem_ups.Protocol.{ClientState}
use tmwmf_sem_ups.Client.{Client, Memory, store}
use tmwmf_sem_ups.Game.{Game}

pub data RoomState : Type 0 where
  waiting playing finished : RoomState

-- `room_t`. The game of a room is no one else's, so it stands in the room in place of its pointer.
pub record Room : Type 0 where
  pub room_id : ℕ
  pub name : List ℕ
  pub players : List (Option ℕ)
  pub player_count : ℕ
  pub max_players : ℕ
  pub board_size : ℕ
  pub state : RoomState
  pub owner : ℕ
  pub game : Option Game

-- One line of the list of rooms.
pub record RoomInfo : Type 0 where
  pub room_id : ℕ
  pub name : List ℕ
  pub player_count : ℕ
  pub max_players : ℕ
  pub playing : Bool
  pub board_size : ℕ

-- The errors that a client is told of, by their codes; the texts that follow a code are left out.
pub data Failure : Type 0 where
  invalid_command invalid_syntax invalid_params invalid_move invalid_card : Failure
  not_authenticated already_authenticated already_in_room room_limit room_not_found : Failure
  room_full not_in_room not_room_owner game_not_started need_more_players : Failure
  already_ready already_started creation_failed not_found already_connected session_expired :
      Failure

-- The messages of the server by their formats. A nickname or a name is the list of its bytes.
pub data Message : Type 0 where
  room_list : List RoomInfo → Message
  room_created room_joined : ℕ → List ℕ → Message
  player_joined player_left player_ready player_reconnected : List ℕ → Message
  room_owner_changed mismatch : List ℕ → Message
  player_removed player_waits : List ℕ → Message
  game_created : ℕ → Message
  game_start : ℕ → List (Option (List ℕ)) → Message
  game_state : ℕ → Option (List ℕ) → List (Option (List ℕ) × ℕ) → List (Option ℤ) → Message
  game_end game_end_forfeit : List (List ℕ × ℕ) → Message
  card_reveal : ℕ → ℕ → List ℕ → Message
  match : List ℕ → ℕ → Message
  welcome welcome_back : ℕ → Message
  your_turn left_room ready_ok room_closed mismatch_end ping server_shutdown : Message
  error : Failure → Message

-- `closed` lists the sockets that the server has closed. `next_room_id` counts up from 1; `rooms`
-- is the table, `room` what stands at each address.
pub record World : Type 0 where
  pub client : Memory Client
  pub room : Memory Room
  pub rooms : List (Option ℕ)
  pub max_rooms : ℕ
  pub next_room_id : ℕ
  pub outbox : List (ℕ × Message)
  pub closed : List ℤ

-- Clients and rooms are changed through these.
abbrev pub set_client : World → ℕ → Client → World
set_client w c v = record w { client = store w.client c v }

abbrev pub set_room : World → ℕ → Room → World
set_room w r v = record w { room = store w.room r v }

-- `client_send_message`: nothing goes to a client that is disconnected or has no socket.
abbrev pub can_receive : Client → Bool
can_receive c = not (c.is_disconnected || is_negative c.socket_fd)

unfoldable pub client_send_message : World → ℕ → Message → World
client_send_message w c message =
    if can_receive (w.client c) then record w { outbox = w.outbox ++ ((c, message) ∷ []) } else w

-- The address differs from that of the client that is left out, if one is.
abbrev pub is_other : Option ℕ → ℕ → Bool
is_other exclude c = not (points_to exclude c)

send_to : World → Option ℕ → Message → Option ℕ → World
unfolding client_send_message
send_to w none message exclude = w
send_to w (some c) message exclude =
    if is_other exclude c then client_send_message w c message else w

-- The loop of `room_broadcast_except_locked` over the player slots.
broadcast_loop : ℕ → ℕ → World → List (Option ℕ) → Message → Option ℕ → World
unfolding send_to
broadcast_loop zero i w players message exclude = w
broadcast_loop (suc n) i w players message exclude =
    broadcast_loop n (i + 1) (send_to w (get_or players i none) message exclude) players message
      exclude

unfoldable pub room_broadcast_except : World → ℕ → Message → Option ℕ → World
unfolding broadcast_loop
room_broadcast_except w r message exclude = broadcast_loop 4 0 w (w.room r).players message exclude

unfoldable pub room_broadcast : World → ℕ → Message → World
unfolding room_broadcast_except
room_broadcast w r message = room_broadcast_except w r message none
