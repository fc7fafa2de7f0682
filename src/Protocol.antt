-- ===== src/Protocol.antt =====
-- server_src/protocol.h: the limits, the error codes and the states of a client.
use tmwmf_sem_ups.Base.{ℕ}

abbrev pub reconnect_timeout : ℕ
reconnect_timeout = 90

abbrev pub pong_timeout : ℕ
pong_timeout = 5

abbrev pub pong_wait_interval : ℕ
pong_wait_interval = 5

abbrev pub max_error_count : ℕ
max_error_count = 3

abbrev pub max_message_length : ℕ
max_message_length = 1024

pub data ClientState : Type 0 where
  disconnected connected authenticated in_lobby in_room in_game : ClientState

-- The number of the enumerator, by which C compares states.
abbrev pub rank : ClientState → ℕ
rank disconnected = 0
rank connected = 1
rank authenticated = 2
rank in_lobby = 3
rank in_room = 4
rank in_game = 5
