-- ===== src/Ping.antt =====
-- `ping_thread_func` of server_src/server.c: one round over the clients of the table.
pub mod Round
mod Tests
use tmwmf_sem_ups.Base.{
  ℕ, ◌-◌, Bool, true, false, not, ◌&&◌, List, [], ◌∷◌, leb, if◌then◌else◌, is_negative,
}
use tmwmf_sem_ups.Protocol.{rank, authenticated, pong_wait_interval}
use tmwmf_sem_ups.Client.{Client}
use tmwmf_sem_ups.ClientList.{client_list_get_all}
use tmwmf_sem_ups.World.{World, set_client, client_send_message, ping}
use tmwmf_sem_ups.Server.{Server, with_world}

-- `state >= STATE_AUTHENTICATED && !is_disconnected && socket_fd >= 0`
abbrev pub is_reachable : Client → Bool
is_reachable v =
    leb (rank authenticated) (rank v.state)
    && (not v.is_disconnected && not (is_negative v.socket_fd))

-- The three tests before a PING.
abbrev pub wants_ping : Client → ℕ → Bool
wants_ping v now =
    is_reachable v && (not v.waiting_for_pong && leb pong_wait_interval (now - v.last_pong_time))

abbrev pub pinged : Client → ℕ → Client
pinged v now = record v { waiting_for_pong = true; last_ping_time = now }

unfoldable pub ping_client : World → ℕ → ℕ → World
unfolding client_send_message
ping_client w now c =
    if wants_ping (w.client c) now
    then set_client (client_send_message w c ping) c
        (pinged ((client_send_message w c ping).client c) now)
    else w

-- The loop over the clients that were copied out of the table.
unfoldable pub ping_all : World → ℕ → List ℕ → World
unfolding ping_client
ping_all w now [] = w
ping_all w now (c ∷ clients) = ping_all (ping_client w now c) now clients

-- One round at the time `now`.
unfoldable pub ping_round : Server → ℕ → Server
unfolding ping_all client_list_get_all
ping_round s now = with_world s (ping_all s.world now (client_list_get_all s.list s.max_clients))
