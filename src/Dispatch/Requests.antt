-- ===== src/Dispatch/Requests.antt =====
-- The protocol of requests that `handle_message` of server_src/client_handler.c is to implement, by
-- itself and behind the framing of lines.
use tmwmf_sem_ups.Base.{
  ℕ, ◌+◌, ◌≡◌, refl, ◌∙◌, ap, Option, none, some, List, [], ◌∷◌, ◌++◌, map, All,
}
use tmwmf_sem_ups.World.{set_client}
use tmwmf_sem_ups.Room.{take}
use tmwmf_sem_ups.Lobby.{
  handle_hello, handle_list_rooms, handle_create_room, handle_join_room, handle_leave_room,
  handle_pong,
}
use tmwmf_sem_ups.Play.{handle_ready, handle_start_game, handle_flip}
use tmwmf_sem_ups.Server.{Server, with_world}
use tmwmf_sem_ups.Reconnect.{handle_reconnect}
use tmwmf_sem_ups.Framing.{receive_all}
use tmwmf_sem_ups.Framing.Lines.{Fits, encode, joined, handle_all, receive_all-encode}
use tmwmf_sem_ups.Dispatch.{
  Inputs, codes, same_text, split_space, with_answer, dispatch, dispatch_params, dispatch_plain,
  handle_message, handle_line, next_line, line_too_long,
}

-- What a client can ask for; parameters are any bytes.
pub data Request : Type 0 where
  hello reconnect create_room join_room flip : List ℕ → Request
  list_rooms leave_room ready start_game pong : Request

-- The line that asks for it.
abbrev pub print : Request → List ℕ
print (hello params) = codes "HELLO " ++ params
print (reconnect params) = codes "RECONNECT " ++ params
print (create_room params) = codes "CREATE_ROOM " ++ params
print (join_room params) = codes "JOIN_ROOM " ++ params
print (flip params) = codes "FLIP " ++ params
print list_rooms = codes "LIST_ROOMS"
print leave_room = codes "LEAVE_ROOM"
print ready = codes "READY"
print start_game = codes "START_GAME"
print pong = codes "PONG"

-- The handler for each.
abbrev pub serve : Inputs → Server → ℕ → Request → Option Server
serve i s c (hello params) = some (with_world s (handle_hello s.world c params i.junk))
serve i s c (reconnect params) = some (handle_reconnect s c params i.now)
serve i s c (create_room params) = some (with_world s (handle_create_room s.world c params i.alloc))
serve i s c (join_room params) = some (with_world s (handle_join_room s.world c params))
serve i s c (flip params) = with_answer s (handle_flip s.world c params)
serve i s c list_rooms = some (with_world s (handle_list_rooms s.world c))
serve i s c leave_room = some (with_world s (handle_leave_room s.world c))
serve i s c ready = some (with_world s (handle_ready s.world c))
serve i s c start_game = some (with_world s (handle_start_game i.env s.world c))
serve i s c pong = some (with_world s (handle_pong s.world c i.now))

handle_message-print :
    (i : Inputs) (s : Server) (c : ℕ) (q : Request) → handle_message i s c (print q) ≡ serve i s c q
unfolding handle_message dispatch dispatch_params dispatch_plain split_space same_text take
handle_message-print i s c (hello params) = refl
handle_message-print i s c (reconnect params) = refl
handle_message-print i s c (create_room params) = refl
handle_message-print i s c (join_room params) = refl
handle_message-print i s c (flip params) = refl
handle_message-print i s c list_rooms = refl
handle_message-print i s c leave_room = refl
handle_message-print i s c ready = refl
handle_message-print i s c start_game = refl
handle_message-print i s c pong = refl

-- A request notes the time of the client's activity, and is served.
abbrev pub seen : Inputs → ℕ → Server → Server
seen i c s =
    with_world s (set_client s.world c (record (s.world.client c) { last_activity = i.now }))

abbrev pub serve_next : (ℕ → Inputs) → ℕ → ℕ × Option Server → Request → ℕ × Option Server
serve_next inputs c (n, none) q = (n, none)
serve_next inputs c (n, some s) q = (n + 1, serve (inputs n) (seen (inputs n) c s) c q)

abbrev pub serve_all : (ℕ → Inputs) → ℕ → ℕ × Option Server → List Request → ℕ × Option Server
serve_all inputs c p [] = p
serve_all inputs c p (q ∷ qs) = serve_all inputs c (serve_next inputs c p q) qs

next_line-print :
    (inputs : ℕ → Inputs) (c : ℕ) (p : ℕ × Option Server) (q : Request)
    → next_line inputs c p (print q) ≡ serve_next inputs c p q
unfolding next_line handle_line
next_line-print inputs c (n, none) q = refl
next_line-print inputs c (n, some s) q =
    ap (λ (o : Option Server). (n + 1, o))
      (handle_message-print (inputs n) (seen (inputs n) c s) c q)

handle_all-print :
    (inputs : ℕ → Inputs) (c : ℕ) (p : ℕ × Option Server) (qs : List Request)
    → handle_all (next_line inputs c) (line_too_long c) p (map print qs) ≡ serve_all inputs c p qs
handle_all-print inputs c p [] = refl
handle_all-print inputs c p (q ∷ qs) =
    ap (λ p'. handle_all (next_line inputs c) (line_too_long c) p' (map print qs))
      (next_line-print inputs c p q)
    ∙ handle_all-print inputs c (serve_next inputs c p q) qs

-- The thread of a client implements the protocol: whatever pieces the lines of its requests arrive
-- in, the requests are served in the order sent, each by its own handler and with its own
-- parameters, and nothing is left over. Each line fits in the buffer and has no NUL, newline or
-- carriage return.
pub receive_all-serve_all :
    (inputs : ℕ → Inputs) (c n : ℕ) (s : Server) (qs : List Request) (chunks : List (List ℕ))
    → All Fits (map print qs)
    → joined chunks ≡ encode (map print qs)
    → receive_all (next_line inputs c) (line_too_long c) ((n, some s), []) chunks
      ≡ (serve_all inputs c (n, some s) qs, [])
receive_all-serve_all inputs c n s qs chunks fits e =
    receive_all-encode (next_line inputs c) (line_too_long c) (n, some s) (map print qs) chunks fits
      e
    ∙ ap (λ p. (p, [])) (handle_all-print inputs c (n, some s) qs)
