-- ===== src/Cleanup.antt =====
-- The end of `client_handler_thread` in server_src/client_handler.c, when the connection of a
-- client is lost.
pub mod Valid
mod Tests
use tmwmf_sem_ups.Base.{
  ℕ, zero, suc, ◌+◌, Bool, true, false, not, ◌&&◌, Option, none, some, List, get_or, leb,
  if◌then◌else◌, points_to, ℤ, negsuc, is_negative,
}
use tmwmf_sem_ups.Protocol.{ClientState, in_game}
use tmwmf_sem_ups.Client.{Client}
use tmwmf_sem_ups.Game.{Game, game_get_current_player, game_remove_player}
use tmwmf_sem_ups.Forfeit.{remains}
use tmwmf_sem_ups.ClientList.{client_list_remove}
use tmwmf_sem_ups.World.{
  World, set_client, client_send_message, room_broadcast_except, player_removed, player_waits,
  your_turn,
}
use tmwmf_sem_ups.Leave.{room_remove_player}
use tmwmf_sem_ups.Lobby.{or_same}
use tmwmf_sem_ups.Play.{set_game, tell_turn}
use tmwmf_sem_ups.Timeout.{hang_up}
use tmwmf_sem_ups.Server.{Server, with_world, free_client, close_socket}

-- The players that are left, in the first `player_count` slots.
pub count_remaining : ℕ → ℕ → ℕ → List (Option ℕ) → ℕ
count_remaining c zero i players = 0
count_remaining c (suc n) i players =
    (if remains (get_or players i none) c then 1 else 0) + count_remaining c n (i + 1) players

abbrev pub or_same_game : Game → Option Game → Game
or_same_game g none = g
or_same_game g (some g') = g'

-- `client_list_remove(client); free(client)`
abbrev pub drop_client : Server → ℕ → Server
drop_client s c = free_client (record s { list = client_list_remove s.list c }) c

-- Two players or more are left: the game goes on without the client.
pub leave_game : World → ℕ → ℕ → Game → World
leave_game w c r g =
    let w1 = room_broadcast_except w r (player_removed (w.client c).nickname) (some c) in
    let g1 = or_same_game g (game_remove_player g c) in
    let w2 = set_game w1 r g1 in
    let w3 = or_same w2 (room_remove_player w2 r c) in
    if points_to (game_get_current_player g) c
    then tell_turn w3 (game_get_current_player g1)
    else w3

-- Fewer are left: the game waits for the client.
pub wait_for : World → ℕ → ℕ → ℕ → World
wait_for w c r now =
    let w1 =
      set_client w c (record (w.client c) { is_disconnected = true; disconnect_time = now }) in
    let w2 = hang_up w1 c in
    room_broadcast_except w2 r (player_waits (w.client c).nickname) (some c)

pub lost_in_game : Server → ℕ → ℕ → ℕ → Game → Server
unfolding count_remaining leave_game wait_for
lost_in_game s c now r g =
    if leb 2 (count_remaining c (s.world.room r).player_count 0 (s.world.room r).players)
    then drop_client (with_world s (leave_game s.world c r g)) c
    else with_world s (wait_for s.world c r now)

-- The client leaves its room, if it is in one.
pub leave_room : World → ℕ → Option ℕ → World
leave_room w c none = w
leave_room w c (some r) = or_same w (room_remove_player w r c)

abbrev pub is_in_game : ClientState → Bool
is_in_game in_game = true
is_in_game _ = false

-- A client that is marked as disconnected is kept.
pub lost_marked : Server → ℕ → Server
unfolding leave_room
lost_marked s c =
    if is_in_game (s.world.client c).state
    then s
    else with_world s (leave_room s.world c (s.world.client c).room)

-- The client leaves; while the server stops, it is left to `client_list_shutdown`.
pub disconnect : Server → ℕ → Server
unfolding leave_room
disconnect s c =
    let w = leave_room s.world c (s.world.client c).room in
    let fd = (w.client c).socket_fd in
    let gone = set_client w c (record (w.client c) { socket_fd = negsuc 0 }) in
    if not s.running
    then with_world s gone
    else free_client
        (record (with_world s (close_socket gone fd)) { list = client_list_remove s.list c }) c

pub lost_elsewhere : Server → ℕ → Server
unfolding lost_marked disconnect
lost_elsewhere s c = if (s.world.client c).is_disconnected then lost_marked s c else disconnect s c

-- The game that the client plays in, if it does.
pub game_in : ℕ → Bool → Option Game → Option (ℕ × Game)
game_in r plays none = none
game_in r true (some g) = some (r, g)
game_in r false (some g) = none

pub game_of : World → Client → Option (ℕ × Game)
unfolding game_in
game_of w v = elim v.room [ none ↦ none | some r ↦ game_in r (is_in_game v.state) (w.room r).game ]

pub lost_from : Server → ℕ → ℕ → Option (ℕ × Game) → Server
unfolding lost_in_game lost_elsewhere
lost_from s c now none = lost_elsewhere s c
lost_from s c now (some (r, g)) = lost_in_game s c now r g

unfoldable pub clean_up : Server → ℕ → ℕ → Server
unfolding game_of lost_from
clean_up s c now = lost_from s c now (game_of s.world (s.world.client c))
