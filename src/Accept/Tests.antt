-- ===== src/Accept/Tests.antt =====
-- A connection, and the arguments of the program, at concrete data.
use tmwmf_sem_ups.Base.{◌<◌, ◌≤◌, ◌≡◌, ◌↔◌, true, some, none, [], ◌∷◌, pos, arith}
use tmwmf_sem_ups.Text.Decimal.{print_number}
use tmwmf_sem_ups.Play.Tests.{off}
use tmwmf_sem_ups.Server.{Server}
use tmwmf_sem_ups.Accept.{Connection, parse_arguments}
use tmwmf_sem_ups.Accept.Arguments.{parse_arguments_iff}

abbrev empty : Server
empty = record {
  world = off;
  list = record { client_array = none ∷ none ∷ []; max_clients = 2; client_count = 0 };
  running = true;
  max_clients = 2;
  next_client_id = 1;
  listen_fd = pos 3;
  freed = [];
  threads = [];
}

abbrev first : Connection
first = record { client_fd = pos 5; now = 100; alloc = some 40; thread_ok = true }

parse_arguments_iff_example :
    (parse_arguments ((49 ∷ []) ∷ print_number 10000 ∷ print_number 10 ∷ print_number 50 ∷ [])
      ≡ some (49 ∷ [], pos 10000, pos 10, pos 50))
    ↔ ((0 < 10000) × (10000 ≤ 65535) × (0 < 10) × (0 < 50))
parse_arguments_iff_example =
    parse_arguments_iff (49 ∷ []) 10000 10 50 (omega arith) (omega arith) (omega arith)
