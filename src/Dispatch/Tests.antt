-- ===== src/Dispatch/Tests.antt =====
-- Lines at a server with a game of two, one of whose players is away.
use tmwmf_sem_ups.Base.{
  ℕ, ◌≡◌, refl, ◌∙◌, ap, sym, subst, Option, none, some, List, [], ◌∷◌, ◌++◌, map, get_or,
  none-ne-some, some_eq, arith,
}
use tmwmf_sem_ups.Play.Tests.{env}
use tmwmf_sem_ups.Reconnect.Tests.{server, waiting_for-ServerOk}
use tmwmf_sem_ups.Play.Steps.{ServerOk}
use tmwmf_sem_ups.Leave.Homes.{Home}
use tmwmf_sem_ups.Server.{Server}
use tmwmf_sem_ups.Dispatch.Homes.{handle_message-Home}
use tmwmf_sem_ups.Framing.{receive_all}
use tmwmf_sem_ups.Framing.Lines.{encode, joined}
use tmwmf_sem_ups.Dispatch.{Inputs, handle_message, split_space, next_line, line_too_long}
use tmwmf_sem_ups.Dispatch.Requests.{
  Request, leave_room, pong, list_rooms, print, serve_all, receive_all-serve_all,
}
use tmwmf_sem_ups.Dispatch.Valid.{AsksReconnect}

abbrev inputs : Inputs
inputs = record { now = 150; alloc = none; env = env; junk = [] }

no_reconnect : (params : List ℕ) → ¬ AsksReconnect (print leave_room) params
no_reconnect params (command, e, _) = none-ne-some (sym cut ∙ ap behind e)
  where
    behind : List ℕ × Option (List ℕ) → Option (List ℕ)
    behind p = p.1

    cut : behind (split_space (print leave_room)) ≡ none
    cut = unfold split_space in refl

seated_client :
    (c k : ℕ)
    → get_or (server.world.room 100).players k none ≡ some c
    → (server.world.client c).room ≡ some 100
    → Home server.world c
seated_client c k seated here r e =
    subst
      (λ q.
        ((j : ℕ) × (get_or server.world.rooms j none ≡ some q))
        × ((l : ℕ) × (get_or (server.world.room q).players l none ≡ some c)))
      (some_eq (sym here ∙ e)) ((0, refl), (k, seated))

-- One of the two players leaves, and the game ends.
handle_message-Home_example :
    (s : Server) × (handle_message inputs server 7 (print leave_room) ≡ some s)
    × ServerOk s.world
    × Home s.world 8
handle_message-Home_example =
    handle_message-Home inputs server 7 8 waiting_for-ServerOk (λ r e. absurd (none-ne-some e))
      (seated_client 7 0 refl refl) (seated_client 8 1 refl refl) (print leave_room) no_reconnect

abbrev requests : List Request
requests = list_rooms ∷ pong ∷ []

-- "LIST_ROOMS" and "PONG", in two pieces
abbrev pieces : List (List ℕ)
pieces = (print list_rooms ++ (10 ∷ 80 ∷ [])) ∷ (79 ∷ 78 ∷ 71 ∷ 10 ∷ []) ∷ []

sent : joined pieces ≡ encode (map print requests)
unfolding joined encode
sent = refl

receive_all-serve_all_example :
    receive_all (next_line (λ _. inputs) 9) (line_too_long 9) ((0, some server), []) pieces
    ≡ (serve_all (λ _. inputs) 9 (0, some server) requests, [])
receive_all-serve_all_example =
    receive_all-serve_all (λ _. inputs) 9 0 server requests pieces
      (ground arith, (ground arith, tt)) sent
