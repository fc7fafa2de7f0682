-- ===== src/Server.antt =====
-- What the threads of the server share: the world of rooms and clients, the table of clients of
-- server_src/client_list.c, and the part of `server_config` of server_src/server.c that changes.
pub mod Steps
use tmwmf_sem_ups.Base.{ℕ, Bool, List, [], ◌∷◌, ◌++◌, ℤ, is_negative, if◌then◌else◌}
use tmwmf_sem_ups.ClientList.{ClientList}
use tmwmf_sem_ups.World.{World}

-- `freed` lists the clients that have been freed, `threads` those that a handler thread was started
-- for.
pub record Server : Type 0 where
  pub world : World
  pub list : ClientList
  pub running : Bool
  pub max_clients : ℕ
  pub next_client_id : ℕ
  pub listen_fd : ℤ
  pub freed : List ℕ
  pub threads : List ℕ

abbrev pub with_world : Server → World → Server
with_world s w = record s { world = w }

-- `free(client)`
abbrev pub free_client : Server → ℕ → Server
free_client s c = record s { freed = s.freed ++ (c ∷ []) }

-- `close` or `shutdown` of a socket, if it is open.
abbrev pub close_socket : World → ℤ → World
close_socket w fd = if is_negative fd then w else record w { closed = w.closed ++ (fd ∷ []) }
