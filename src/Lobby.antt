-- ===== src/Lobby.antt =====
-- The handlers of server_src/client_handler.c for the lobby: HELLO, LIST_ROOMS, CREATE_ROOM,
-- JOIN_ROOM, LEAVE_ROOM and PONG. `params` is the text behind the command.
pub mod Valid
pub mod Games
pub mod Enter
pub mod Homes
use tmwmf_sem_ups.Base.{
  ℕ, zero, suc, Bool, true, false, not, Option, none, some, List, [], ◌∷◌, ltb, ◌==◌, if◌then◌else◌,
  ℤ, pos, negsuc, is_null,
}
use tmwmf_sem_ups.Protocol.{ClientState, connected, in_lobby, rank}
use tmwmf_sem_ups.Client.{Client}
use tmwmf_sem_ups.Text.{is_space, skip_spaces, starts_with_digit, strtol, to_int, atoi}
use tmwmf_sem_ups.World.{
  World, set_client, client_send_message, room_broadcast, error, welcome, room_list, room_created,
  room_joined, player_joined, left_room, player_left, already_authenticated, invalid_params,
  not_authenticated, already_in_room, room_limit, room_not_found, room_full, not_in_room,
}
use tmwmf_sem_ups.Room.{
  take, valid_max_players, valid_board_size, room_create, room_get_by_id, room_add_player,
  room_get_list_message,
}
use tmwmf_sem_ups.Leave.{room_remove_player}

-- `%<width>s` of `sscanf`: a word of at most `width` bytes, and what follows it.
pub scan_chars : ℕ → List ℕ → List ℕ × List ℕ
scan_chars zero s = ([], s)
scan_chars (suc width) [] = ([], [])
scan_chars (suc width) (b ∷ s) =
    let (word, rest) = scan_chars width s in if is_space b then ([], b ∷ s) else (b ∷ word, rest)

pub scan_word : ℕ → List ℕ → Option (List ℕ × List ℕ)
unfolding scan_chars skip_spaces
scan_word width s = elim (skip_spaces s) [ [] ↦ none | b ∷ s' ↦ some (scan_chars width (b ∷ s')) ]

-- `%d` of `sscanf`, which fails where there is no number.
pub has_number : List ℕ → Bool
unfolding starts_with_digit
has_number [] = false
has_number (b ∷ s) =
    if b == 45
    then starts_with_digit s
    else if b == 43
    then starts_with_digit s
    else starts_with_digit (b ∷ s)

pub scan_int : List ℕ → Option (ℤ × List ℕ)
unfolding has_number skip_spaces
scan_int s =
    let (number, rest) = strtol s in
    if has_number (skip_spaces s) then some (to_int number, rest) else none

-- The name, the number of players and the size of the board; the numbers are 4 where none is given.
pub last_number : List ℕ → ℤ → Option (ℤ × List ℕ) → List ℕ × ℤ × ℤ
last_number name max_players none = (name, max_players, pos 4)
last_number name max_players (some (board_size, _)) = (name, max_players, board_size)

pub numbers : List ℕ → Option (ℤ × List ℕ) → List ℕ × ℤ × ℤ
unfolding last_number scan_int
numbers name none = (name, pos 4, pos 4)
numbers name (some (max_players, rest)) = last_number name max_players (scan_int rest)

unfoldable pub parse_room : List ℕ → Option (List ℕ × ℤ × ℤ)
unfolding numbers scan_int scan_word
parse_room params = elim (scan_word 63 params) [
  | none ↦ none
  | some (name, rest) ↦ some (numbers name (scan_int rest))
]

-- `client->state < STATE_IN_LOBBY`
abbrev pub is_stranger : Client → Bool
is_stranger v = ltb (rank v.state) (rank in_lobby)

abbrev pub is_connecting : ClientState → Bool
is_connecting connected = true
is_connecting _ = false

-- The word that the code reads; `junk` is what stands in its array where it reads none.
pub nickname_of : List ℕ → Option (List ℕ × List ℕ) → List ℕ
nickname_of junk none = junk
nickname_of junk (some (word, _)) = word

unfoldable pub handle_hello : World → ℕ → List ℕ → List ℕ → World
unfolding nickname_of scan_word
handle_hello w c params junk =
    if not (is_connecting (w.client c).state)
    then client_send_message w c (error already_authenticated)
    else elim params [
      | [] ↦ client_send_message w c (error invalid_params)
      | b ∷ s ↦
          let w1 = set_client w c (record (w.client c) {
            nickname = take 31 (nickname_of junk (scan_word 31 (b ∷ s)));
            state = in_lobby;
          }) in
          client_send_message w1 c (welcome (w1.client c).client_id)
    ]

unfoldable pub handle_list_rooms : World → ℕ → World
handle_list_rooms w c =
    if is_stranger (w.client c)
    then client_send_message w c (error not_authenticated)
    else client_send_message w c (room_list (room_get_list_message w))

-- `!(max_players < 2 || max_players > MAX_PLAYERS_PER_ROOM)`, and the test of the board's size
pub allows_players : ℤ → Bool
allows_players (pos n) = valid_max_players n
allows_players (negsuc _) = false

pub allows_board : ℤ → Bool
allows_board (pos n) = valid_board_size n
allows_board (negsuc _) = false

pub answer_create : World → ℕ → Option (World × ℕ) → World
answer_create w c none = client_send_message w c (error room_limit)
answer_create w c (some (w1, r)) =
    client_send_message w1 c (room_created (w1.room r).room_id (w1.room r).name)

pub create_parsed : World → ℕ → Option ℕ → Option (List ℕ × ℤ × ℤ) → World
unfolding answer_create allows_players allows_board
create_parsed w c alloc none = client_send_message w c (error invalid_params)
create_parsed w c alloc (some (name, max_players, board_size)) =
    if not (allows_players max_players)
    then client_send_message w c (error invalid_params)
    else if not (allows_board board_size)
    then client_send_message w c (error invalid_params)
    else answer_create w c (room_create w name max_players board_size c alloc)

-- `alloc` is the address that `calloc` gives for a room, if it gives one.
unfoldable pub handle_create_room : World → ℕ → List ℕ → Option ℕ → World
unfolding create_parsed parse_room
handle_create_room w c params alloc =
    if is_stranger (w.client c)
    then client_send_message w c (error not_authenticated)
    else if not (is_null (w.client c).room)
    then client_send_message w c (error already_in_room)
    else create_parsed w c alloc (parse_room params)

pub answer_join : World → ℕ → ℕ → Option World → World
answer_join w c r none = client_send_message w c (error room_full)
answer_join w c r (some w1) =
    let w2 = client_send_message w1 c (room_joined (w1.room r).room_id (w1.room r).name) in
    room_broadcast w2 r (player_joined (w2.client c).nickname)

pub join_found : World → ℕ → Option ℕ → World
unfolding answer_join
join_found w c none = client_send_message w c (error room_not_found)
join_found w c (some r) = answer_join w c r (room_add_player w r c)

pub join_id : World → ℕ → ℤ → World
unfolding join_found
join_id w c (negsuc _) = client_send_message w c (error invalid_params)
join_id w c (pos id) =
    if id == 0
    then client_send_message w c (error invalid_params)
    else join_found w c (room_get_by_id w id)

unfoldable pub handle_join_room : World → ℕ → List ℕ → World
unfolding join_id
handle_join_room w c params =
    if is_stranger (w.client c)
    then client_send_message w c (error not_authenticated)
    else if not (is_null (w.client c).room)
    then client_send_message w c (error already_in_room)
    else join_id w c (atoi params)

-- The result of the removal is not looked at.
abbrev pub or_same : World → Option World → World
or_same w none = w
or_same w (some w') = w'

pub tell_left : World → ℕ → Option ℕ → World
tell_left w c none = w
tell_left w c (some r) = room_broadcast w r (player_left (w.client c).nickname)

pub leave_in : World → ℕ → Option ℕ → World
unfolding tell_left
leave_in w c none = client_send_message w c (error not_in_room)
leave_in w c (some r) =
    let w1 = or_same w (room_remove_player w r c) in
    let w2 = client_send_message w1 c left_room in
    tell_left w2 c (room_get_by_id w2 (w.room r).room_id)

unfoldable pub handle_leave_room : World → ℕ → World
unfolding leave_in
handle_leave_room w c = leave_in w c (w.client c).room

-- `now` is what `time` answers, twice.
unfoldable pub handle_pong : World → ℕ → ℕ → World
handle_pong w c now =
    set_client w c
      (record (w.client c) { last_activity = now; last_pong_time = now; waiting_for_pong = false })
