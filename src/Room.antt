-- ===== src/Room.antt =====
-- server_src/room.c: the table of rooms and the players in each. A room or a client is given by its
-- address. A call that answers -1 or NULL does so before it has changed anything, and is `none`;
-- the lock makes each call one step. What stands at the address of a freed room is not read any
-- more.
pub mod Slots
pub mod Valid
pub mod Add
pub mod Table
pub mod Destroy
pub mod Enter
pub mod Create
pub mod Find
pub mod Init
mod Tests
use tmwmf_sem_ups.Base.{
  ℕ, zero, suc, ◌+◌, ◌-◌, ◌%◌, Bool, true, false, not, ◌&&◌, ◌||◌, Option, none, some, List, [],
  ◌∷◌, replicate, get_or, set, ltb, leb, ◌==◌, if◌then◌else◌, points_to, is_null, ℤ, pos, negsuc,
}
use tmwmf_sem_ups.Protocol.{in_lobby, in_room}
use tmwmf_sem_ups.Client.{Client, Memory}
use tmwmf_sem_ups.Game.{Game, find_player}
use tmwmf_sem_ups.Forfeit.{forfeit_scores, final_scores}
use tmwmf_sem_ups.World.{
  Room, RoomInfo, RoomState, waiting, playing, finished, World, set_client, set_room,
  room_broadcast, room_owner_changed, room_closed, game_end_forfeit,
}

abbrev pub max_room_name_length : ℕ
max_room_name_length = 64

-- `room_system_init(max_rooms_count)`; the flag says whether `calloc` succeeds, and false is -1.
unfoldable pub room_system_init : World → ℕ → Bool → World × Bool
room_system_init w max_rooms_count true =
    (record w { max_rooms = max_rooms_count; rooms = replicate max_rooms_count none }, true)
room_system_init w max_rooms_count false =
    (record w { max_rooms = max_rooms_count; rooms = [] }, false)

-- Each room that is left is freed with its game; no player is looked at.
pub free_rooms : ℕ → ℕ → World → World
free_rooms zero i w = w
free_rooms (suc n) i w = elim (get_or w.rooms i none) [
  | none ↦ free_rooms n (i + 1) w
  | some r ↦
      free_rooms n (i + 1)
        (record (set_room w r (record (w.room r) { game = none })) { rooms = set w.rooms i none })
]

unfoldable pub room_system_shutdown : World → World
unfolding free_rooms
room_system_shutdown w = record (free_rooms w.max_rooms 0 w) { rooms = [] }

-- The first NULL from `i` on, in the rounds that are left.
unfoldable pub find_free : ℕ → ℕ → List (Option ℕ) → Option ℕ
find_free zero i slots = none
find_free (suc n) i slots =
    if is_null (get_or slots i none) then some i else find_free n (i + 1) slots

-- At most the first `n` bytes.
unfoldable pub take {ℓ} : {A : Type ℓ} → ℕ → List A → List A
take zero xs = []
take (suc n) [] = []
take (suc n) (x ∷ xs) = x ∷ take n xs

unfoldable pub valid_max_players : ℕ → Bool
valid_max_players n = not (ltb n 2 || ltb 4 n)

unfoldable pub valid_board_size : ℕ → Bool
valid_board_size n = not (ltb n 4 || ltb 8 n || not (n % 2 == 0))

unfoldable pub new_room : ℕ → List ℕ → ℕ → ℕ → ℕ → Room
unfolding take
new_room id name max_players board_size owner = record {
  room_id = id;
  name = take (max_room_name_length - 1) name;
  players = set (replicate 4 none) 0 (some owner);
  player_count = 1;
  max_players = max_players;
  board_size = board_size;
  state = waiting;
  owner = owner;
  game = none;
}

-- The client stands in the room, or back in the lobby.
abbrev pub enter : Client → ℕ → Client
enter v r = record v { room = some r; state = in_room }

abbrev pub leave : Client → Client
leave v = record v { room = none; state = in_lobby }

-- The room is filled in at the address that `calloc` gave, and entered in the free slot.
unfoldable pub install : World → ℕ → ℕ → ℕ → Room → World
install w slot r owner room =
    record (set_client (set_room w r room) owner (enter (w.client owner) r)) {
      rooms = set w.rooms slot (some r);
      next_room_id = w.next_room_id + 1;
    }

-- `alloc` is the address of the new room, if there is memory for it.
unfoldable pub create_at : World → List ℕ → ℕ → ℕ → ℕ → Option ℕ → Option ℕ → Option (World × ℕ)
unfolding new_room install
create_at w name max_players board_size owner none alloc = none
create_at w name max_players board_size owner (some slot) none = none
create_at w name max_players board_size owner (some slot) (some r) =
    some (install w slot r owner (new_room w.next_room_id name max_players board_size owner), r)

unfoldable pub room_create : World → List ℕ → ℤ → ℤ → ℕ → Option ℕ → Option (World × ℕ)
unfolding valid_max_players valid_board_size find_free create_at
room_create w name (pos max_players) (pos board_size) owner alloc =
    if not (valid_max_players max_players)
    then none
    else if not (valid_board_size board_size)
    then none
    else create_at w name max_players board_size owner (find_free w.max_rooms 0 w.rooms) alloc
room_create w name (pos max_players) (negsuc _) owner alloc = none
room_create w name (negsuc _) board_size owner alloc = none

-- `rooms[i] != NULL && rooms[i]->room_id == room_id`
abbrev pub has_room_id : Memory Room → ℕ → Option ℕ → Bool
has_room_id mem id none = false
has_room_id mem id (some r) = (mem r).room_id == id

pub find_room : ℕ → ℕ → World → ℕ → Option ℕ
find_room zero i w id = none
find_room (suc n) i w id =
    if has_room_id w.room id (get_or w.rooms i none)
    then get_or w.rooms i none
    else find_room n (i + 1) w id

unfoldable pub room_get_by_id : World → ℕ → Option ℕ
unfolding find_room
room_get_by_id w id = find_room w.max_rooms 0 w id

-- `room->players[i] = client`, and the fields that go with it.
unfoldable pub seat : World → ℕ → ℕ → ℕ → World
seat w r c i =
    set_client
      (set_room w r (record (w.room r) {
        players = set (w.room r).players i (some c);
        player_count = (w.room r).player_count + 1;
      }))
      c (enter (w.client c) r)

-- The two searches: whether the client is in the room already, and where the free slot is.
unfoldable pub seat_at : World → ℕ → ℕ → Option ℕ → Option ℕ → Option World
unfolding seat
seat_at w r c (some _) free = none
seat_at w r c none none = none
seat_at w r c none (some i) = some (seat w r c i)

unfoldable pub room_add_player : World → ℕ → ℕ → Option World
unfolding seat_at find_player find_free
room_add_player w r c =
    if leb (w.room r).max_players (w.room r).player_count
    then none
    else seat_at w r c (find_player 4 0 (w.room r).players c) (find_free 4 0 (w.room r).players)

-- `players[i]->room = NULL; players[i]->state = STATE_IN_LOBBY`, for each of the slots that are
-- left.
abbrev pub dismiss : World → Option ℕ → World
dismiss w none = w
dismiss w (some c) = set_client w c (leave (w.client c))

unfoldable pub dismiss_all : ℕ → ℕ → List (Option ℕ) → World → World
dismiss_all zero i players w = w
dismiss_all (suc n) i players w = dismiss_all n (i + 1) players (dismiss w (get_or players i none))

-- The first slot of the table that holds the room becomes free.
unfoldable pub clear_slot : Option ℕ → List (Option ℕ) → List (Option ℕ)
clear_slot none slots = slots
clear_slot (some i) slots = set slots i none

unfoldable pub room_destroy : World → ℕ → World
unfolding dismiss_all find_player clear_slot
room_destroy w r =
    let w' = dismiss_all 4 0 (w.room r).players w in
    record w' { rooms = clear_slot (find_player w'.max_rooms 0 w'.rooms r) w'.rooms }

pub count_rooms : ℕ → ℕ → List (Option ℕ) → ℕ
count_rooms zero i slots = 0
count_rooms (suc n) i slots =
    (if is_null (get_or slots i none) then 0 else 1) + count_rooms n (i + 1) slots

unfoldable pub room_get_all : World → List (Option ℕ) × ℕ
unfolding count_rooms
room_get_all w = (w.rooms, count_rooms w.max_rooms 0 w.rooms)

abbrev pub is_room_playing : RoomState → Bool
is_room_playing playing = true
is_room_playing waiting = false
is_room_playing finished = false

abbrev pub is_room_finished : RoomState → Bool
is_room_finished finished = true
is_room_finished waiting = false
is_room_finished playing = false

abbrev pub room_line : Room → RoomInfo
room_line r = record {
  room_id = r.room_id;
  name = r.name;
  player_count = r.player_count;
  max_players = r.max_players;
  playing = is_room_playing r.state;
  board_size = r.board_size;
}

pub list_rooms : ℕ → ℕ → World → List RoomInfo
list_rooms zero i w = []
list_rooms (suc n) i w =
    let rest = list_rooms n (i + 1) w in
    elim (get_or w.rooms i none) [
      | none ↦ rest
      | some r ↦ if is_room_finished (w.room r).state then rest else room_line (w.room r) ∷ rest
    ]

-- The lines of the message, whose first number is their count. The buffer is taken to be large
-- enough.
unfoldable pub room_get_list_message : World → List RoomInfo
unfolding list_rooms
room_get_list_message w = list_rooms w.max_rooms 0 w
