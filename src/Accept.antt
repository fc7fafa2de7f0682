-- ===== src/Accept.antt =====
-- `server_init`, `server_run` and `server_shutdown` of server_src/server.c, and the check of the
-- arguments in server_src/main.c.
pub mod Admit
pub mod Arguments
mod Tests
use tmwmf_sem_ups.Base.{
  ℕ, zero, suc, ◌+◌, Bool, true, false, not, ◌||◌, ◌&&◌, Option, none, some, List, [], ◌∷◌, ◌++◌,
  ltb, leb, ◌==◌, if◌then◌else◌, ℤ, pos, negsuc, is_negative,
}
use tmwmf_sem_ups.Protocol.{connected}
use tmwmf_sem_ups.Client.{Client}
use tmwmf_sem_ups.Text.{atoi}
use tmwmf_sem_ups.ClientList.{
  ClientList, client_list_init, client_list_add, client_list_remove, client_list_get_all,
  client_list_shutdown,
}
use tmwmf_sem_ups.World.{World, set_client, client_send_message, server_shutdown}
use tmwmf_sem_ups.Room.{room_system_init, room_system_shutdown}
use tmwmf_sem_ups.Server.{Server, with_world, free_client, close_socket}

-- What the system answers while the server starts.
pub record Setup : Type 0 where
  pub listen_fd : ℤ
  pub address_ok : Bool
  pub bind_ok : Bool
  pub listen_ok : Bool
  pub rooms_alloc : Bool
  pub clients_alloc : Bool
  pub ping_thread_ok : Bool
  pub timeout_thread_ok : Bool

-- Once there is a socket that listens. The flag of `room_system_init` is that of its allocation.
pub init_tables : World → ℕ → ℕ → Setup → Option Server
init_tables w max_rooms max_clients setup =
    let (w1, rooms_ok) = room_system_init w max_rooms setup.rooms_alloc in
    if not rooms_ok then none else elim (client_list_init max_clients setup.clients_alloc) [
      | none ↦ none
      | some l ↦
          if not setup.ping_thread_ok || not setup.timeout_thread_ok
          then none
          else some (record {
            world = w1;
            list = l;
            running = true;
            max_clients = max_clients;
            next_client_id = 1;
            listen_fd = setup.listen_fd;
            freed = [];
            threads = [];
          })
    ]

-- `server_init`: the server that is ready to run, or `none` for -1, after which the program ends.
unfoldable pub server_init : World → ℕ → ℕ → Setup → Option Server
unfolding init_tables
server_init w max_rooms max_clients setup =
    if is_negative setup.listen_fd
    then none
    else if not setup.address_ok || not setup.bind_ok || not setup.listen_ok
    then none
    else init_tables w max_rooms max_clients setup

-- What the system answers in one round of `server_run`: the socket of `accept`, the time, the
-- address from `malloc`, and whether the thread starts.
pub record Connection : Type 0 where
  pub client_fd : ℤ
  pub now : ℕ
  pub alloc : Option ℕ
  pub thread_ok : Bool

abbrev pub new_client : ℤ → ℕ → ℕ → Client
new_client fd now id = record {
  socket_fd = fd;
  nickname = [];
  state = connected;
  last_activity = now;
  invalid_message_count = 0;
  client_id = id;
  room = none;
  is_disconnected = false;
  disconnect_time = 0;
  waiting_for_pong = false;
  last_ping_time = 0;
  last_pong_time = now;
}

-- A client that cannot be served: its socket is closed, and it is freed.
abbrev pub turn_away : Server → ℕ → ℤ → Server
turn_away s c fd = free_client (with_world s (close_socket s.world fd)) c

abbrev pub freed_with : List ℕ → Option ℕ → List ℕ
freed_with freed none = freed
freed_with freed (some z) = freed ++ (z ∷ [])

-- Once `client_list_add` has answered: the table, and the zombie that it has freed.
pub admit : Server → ℕ → Connection → Option (ClientList × Option ℕ) → Server
admit s c conn none = turn_away s c conn.client_fd
admit s c conn (some (l, zombie)) =
    let s1 = record s { list = l; freed = freed_with s.freed zombie } in
    if conn.thread_ok
    then record s1 { threads = s1.threads ++ (c ∷ []) }
    else turn_away (record s1 { list = client_list_remove l c }) c conn.client_fd

pub admit_at : Server → Connection → Option ℕ → Server
unfolding admit
admit_at s conn none = with_world s (close_socket s.world conn.client_fd)
admit_at s conn (some c) =
    let w = set_client s.world c (new_client conn.client_fd conn.now s.next_client_id) in
    let s1 = record (with_world s w) { next_client_id = s.next_client_id + 1 } in
    admit s1 c conn (client_list_add w.client s.list c)

-- One round of the loop of `server_run`.
unfoldable pub accept_connection : Server → Connection → Server
unfolding admit_at
accept_connection s conn = if is_negative conn.client_fd then s else admit_at s conn conn.alloc

-- The first half of `server_shutdown`: the clients are told, and their sockets are shut down.
pub tell_shutdown : List ℕ → World → World
tell_shutdown [] w = w
tell_shutdown (c ∷ clients) w =
    tell_shutdown clients
      (if (w.client c).is_disconnected then w else client_send_message w c server_shutdown)

pub shut_sockets : List ℕ → World → World
shut_sockets [] w = w
shut_sockets (c ∷ clients) w = shut_sockets clients (close_socket w (w.client c).socket_fd)

unfoldable pub announce_shutdown : Server → Server
unfolding tell_shutdown shut_sockets
announce_shutdown s =
    let clients = client_list_get_all s.list s.max_clients in
    record s { running = false; world = shut_sockets clients (tell_shutdown clients s.world) }

-- The second half, once the threads have ended: rooms and clients are freed.
unfoldable pub finish_shutdown : Server → Server
finish_shutdown s =
    let w = room_system_shutdown s.world in
    let (freed, sockets, l) = client_list_shutdown w.client s.list in
    record s {
      world = close_socket (record w { closed = w.closed ++ sockets }) s.listen_fd;
      list = l;
      freed = s.freed ++ freed;
      listen_fd = if is_negative s.listen_fd then s.listen_fd else negsuc 0;
    }

-- `port <= 0 || port > 65535`, `max_rooms <= 0` and `max_clients <= 0`
abbrev pub is_port : ℤ → Bool
is_port (pos n) = not (n == 0 || ltb 65535 n)
is_port (negsuc _) = false

abbrev pub is_positive : ℤ → Bool
is_positive (pos n) = not (n == 0)
is_positive (negsuc _) = false

pub checked_arguments : List ℕ → ℤ → ℤ → ℤ → Option (List ℕ × ℤ × ℤ × ℤ)
checked_arguments ip port max_rooms max_clients =
    if not (is_port port)
    then none
    else if not (is_positive max_rooms)
    then none
    else if not (is_positive max_clients)
    then none
    else some (ip, port, max_rooms, max_clients)

-- The arguments of `main` behind the name of the program: the address, the port, and the numbers of
-- rooms and of clients, or `none` where the program ends with an error.
unfoldable pub parse_arguments : List (List ℕ) → Option (List ℕ × ℤ × ℤ × ℤ)
unfolding checked_arguments
parse_arguments (ip ∷ port ∷ max_rooms ∷ max_clients ∷ []) =
    checked_arguments ip (atoi port) (atoi max_rooms) (atoi max_clients)
parse_arguments _ = none
