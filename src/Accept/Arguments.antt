-- ===== src/Accept/Arguments.antt =====
-- The arguments of server_src/main.c.
use tmwmf_sem_ups.Base.{ℕ, ◌≤◌, ◌<◌, ◌≡◌, ◌↔◌, some, List, [], ◌∷◌, arith, pos}
use tmwmf_sem_ups.Text.Decimal.{print_number, atoi-print_number}
use tmwmf_sem_ups.Accept.{parse_arguments, checked_arguments}

-- The four arguments with numbers in decimal are accepted, with those numbers, exactly when the
-- port is from 1 to 65535 and there is to be a room and a client. The numbers are below 2^31.
pub parse_arguments_iff :
    (ip : List ℕ) (port max_rooms max_clients : ℕ)
    → port < 2147483648
    → max_rooms < 2147483648
    → max_clients < 2147483648
    → (parse_arguments
          (ip ∷ print_number port ∷ print_number max_rooms ∷ print_number max_clients ∷ [])
        ≡ some (ip, pos port, pos max_rooms, pos max_clients))
      ↔ ((0 < port) × (port ≤ 65535) × (0 < max_rooms) × (0 < max_clients))
unfolding parse_arguments checked_arguments
parse_arguments_iff ip port max_rooms max_clients a b c =
    rw (atoi-print_number port a, atoi-print_number max_rooms b, atoi-print_number max_clients c)
      (ground arith)
