-- ===== src/Timeout.antt =====
-- `timeout_checker_thread_func` of server_src/server.c: one round over the clients of the table.
pub mod Expiry
pub mod Valid
mod Tests
use tmwmf_sem_ups.Base.{
  ℕ, zero, suc, ◌-◌, Bool, true, false, ◌&&◌, Option, none, some, List, [], ◌∷◌, ltb, leb, ◌==◌,
  if◌then◌else◌, ℤ, pos, negsuc, is_negative, not,
}
use tmwmf_sem_ups.Protocol.{rank, authenticated, pong_timeout, reconnect_timeout}
use tmwmf_sem_ups.Client.{Client, is_closed}
use tmwmf_sem_ups.Game.{Game}
use tmwmf_sem_ups.Forfeit.{forfeit_scores, final_scores}
use tmwmf_sem_ups.ClientList.{client_list_get_all, client_list_remove}
use tmwmf_sem_ups.World.{World, set_client, room_broadcast_except, game_end_forfeit}
use tmwmf_sem_ups.Leave.{empty_room}
use tmwmf_sem_ups.Server.{Server, with_world, free_client, close_socket}

-- `timeout_threshold`, in seconds
abbrev pub timeout_threshold : ℕ
timeout_threshold = 120

-- `socket_fd < -1`
abbrev pub is_invalid : ℤ → Bool
is_invalid (pos _) = false
is_invalid (negsuc n) = ltb 0 n

-- `state >= STATE_AUTHENTICATED && socket_fd >= 0`
abbrev pub is_watched : Client → Bool
is_watched v = leb (rank authenticated) (rank v.state) && not (is_negative v.socket_fd)

-- A PING has not been answered for more than `PONG_TIMEOUT` seconds.
abbrev pub is_silent : Client → ℕ → Bool
is_silent v now = is_watched v && (v.waiting_for_pong && ltb pong_timeout (now - v.last_ping_time))

abbrev pub is_inactive : Client → ℕ → Bool
is_inactive v now = is_watched v && ltb timeout_threshold (now - v.last_activity)

-- The time for a reconnect is over.
abbrev pub is_expired : Client → ℕ → Bool
is_expired v now =
    v.is_disconnected && is_closed v.socket_fd && ltb reconnect_timeout (now - v.disconnect_time)

abbrev pub mark : Client → ℕ → Client
mark v now =
    if v.is_disconnected then v else record v { is_disconnected = true; disconnect_time = now }

-- The socket is shut down and forgotten.
unfoldable pub hang_up : World → ℕ → World
hang_up w c = set_client (close_socket w (w.client c).socket_fd) c (
    if is_negative (w.client c).socket_fd
    then w.client c
    else record (w.client c) { socket_fd = negsuc 0 })

-- The game of the client ends by forfeit. The scores are sent to the others, its own among them.
pub forfeit_game : World → ℕ → ℕ → Option Game → World
forfeit_game w c r none = w
forfeit_game w c r (some g) =
    empty_room
      (room_broadcast_except w r
        (game_end_forfeit (final_scores w.client g.player_count 0 g.players (forfeit_scores g c)))
        (some c))
      r

pub forfeit_room : World → ℕ → Option ℕ → World
unfolding forfeit_game
forfeit_room w c none = w
forfeit_room w c (some r) = forfeit_game w c r (w.room r).game

-- The client is removed from the table and freed.
unfoldable pub expire : Server → ℕ → Server
unfolding forfeit_room
expire s c =
    let w = forfeit_room s.world c (s.world.client c).room in
    free_client (record (with_world s w) { list = client_list_remove s.list c }) c

-- One client. What the tests read was copied before; a client with a socket has not expired.
unfoldable pub check_client : Server → ℕ → ℕ → Server
unfolding hang_up expire
check_client s now c =
    let v = s.world.client c in
    let s1 = if is_inactive v now then with_world s (hang_up s.world c) else s in
    if is_invalid v.socket_fd
    then s
    else if is_silent v now
    then with_world s (hang_up (set_client s.world c (mark v now)) c)
    else if is_expired v now
    then expire s1 c
    else s1

unfoldable pub check_all : Server → ℕ → List ℕ → Server
unfolding check_client
check_all s now [] = s
check_all s now (c ∷ clients) = check_all (check_client s now c) now clients

-- One round at the time `now`.
unfoldable pub timeout_round : Server → ℕ → Server
unfolding check_all
timeout_round s now = check_all s now (client_list_get_all s.list s.max_clients)
