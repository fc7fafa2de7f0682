-- ===== src/Dispatch.antt =====
-- `handle_message` of server_src/client_handler.c, which finds the handler for a line, and the loop
-- of `client_handler_thread` with it.
pub mod Valid
pub mod Homes
pub mod Requests
mod Tests
use Prim.Native.Char.{code}
use Prim.Native.String.{String}
use tmwmf_sem_ups.Base.{
  ℕ, zero, suc, ◌+◌, Bool, true, false, ◌&&◌, Option, none, some, List, [], ◌∷◌, ◌==◌,
  if◌then◌else◌,
}
use tmwmf_sem_ups.Game.{Env}
use tmwmf_sem_ups.Client.{Client}
use tmwmf_sem_ups.World.{World, set_client, invalid_command}
use tmwmf_sem_ups.Room.{take}
use tmwmf_sem_ups.Lobby.{
  handle_hello, handle_list_rooms, handle_create_room, handle_join_room, handle_leave_room,
  handle_pong,
}
use tmwmf_sem_ups.Play.{send_error_and_count, handle_ready, handle_start_game, handle_flip}
use tmwmf_sem_ups.Server.{Server, with_world}
use tmwmf_sem_ups.Reconnect.{handle_reconnect}
use tmwmf_sem_ups.Framing.{receive}

-- The bytes of a command word of server_src/protocol.h.
abbrev pub codes : String → List ℕ
codes String.[] = []
codes (String.◌∷◌ c s) = code c ∷ codes s

-- `strcmp(s, t) == 0`
unfoldable pub same_text : List ℕ → List ℕ → Bool
same_text [] [] = true
same_text [] (_ ∷ _) = false
same_text (_ ∷ _) [] = false
same_text (a ∷ s) (b ∷ t) = let rest = same_text s t in if a == b then rest else false

-- What stands before the first space, and what stands behind it, if there is one.
unfoldable pub split_space : List ℕ → List ℕ × Option (List ℕ)
split_space [] = ([], none)
split_space (b ∷ s) =
    let (before, behind) = split_space s in if b == 32 then ([], some s) else (b ∷ before, behind)

-- What the program asks of the system while a message is handled: the time, an address from
-- `calloc` for a room, what `rand` and `malloc` answer, and the content of an array that is not
-- set.
pub record Inputs : Type 0 where
  pub now : ℕ
  pub alloc : Option ℕ
  pub env : Env
  pub junk : List ℕ

abbrev pub with_answer : Server → Option World → Option Server
with_answer s none = none
with_answer s (some w) = some (with_world s w)

-- A command with parameters.
unfoldable pub dispatch_params : Inputs → Server → ℕ → List ℕ → List ℕ → Option Server
unfolding same_text
dispatch_params i s c command params =
    if same_text command (codes "HELLO")
    then some (with_world s (handle_hello s.world c params i.junk))
    else if same_text command (codes "RECONNECT")
    then some (handle_reconnect s c params i.now)
    else if same_text command (codes "CREATE_ROOM")
    then some (with_world s (handle_create_room s.world c params i.alloc))
    else if same_text command (codes "JOIN_ROOM")
    then some (with_world s (handle_join_room s.world c params))
    else if same_text command (codes "FLIP")
    then with_answer s (handle_flip s.world c params)
    else some (with_world s (send_error_and_count s.world c invalid_command))

-- A command without parameters.
unfoldable pub dispatch_plain : Inputs → Server → ℕ → List ℕ → Option Server
unfolding same_text
dispatch_plain i s c command =
    if same_text command (codes "LIST_ROOMS")
    then some (with_world s (handle_list_rooms s.world c))
    else if same_text command (codes "LEAVE_ROOM")
    then some (with_world s (handle_leave_room s.world c))
    else if same_text command (codes "READY")
    then some (with_world s (handle_ready s.world c))
    else if same_text command (codes "START_GAME")
    then some (with_world s (handle_start_game i.env s.world c))
    else if same_text command (codes "PONG")
    then some (with_world s (handle_pong s.world c i.now))
    else some (with_world s (send_error_and_count s.world c invalid_command))

-- At most 63 bytes of the command are looked at.
pub dispatch : Inputs → Server → ℕ → List ℕ × Option (List ℕ) → Option Server
unfolding dispatch_params dispatch_plain
dispatch i s c (command, none) = dispatch_plain i s c (take 63 command)
dispatch i s c (command, some params) = dispatch_params i s c (take 63 command) params

-- The server after the call; `none` is a read outside the array of cards.
unfoldable pub handle_message : Inputs → Server → ℕ → List ℕ → Option Server
unfolding dispatch split_space
handle_message i s c [] = some s
handle_message i s c (b ∷ message) = dispatch i s c (split_space (b ∷ message))

-- A line of the client: the time of its last activity, and then the message.
unfoldable pub handle_line : ℕ → Inputs → Server → List ℕ → Option Server
unfolding handle_message
handle_line c i s message =
    handle_message i
      (with_world s (set_client s.world c (record (s.world.client c) { last_activity = i.now }))) c
      message

-- The lines that are handled are numbered, since each has its own answers of the system.
pub next_line : (ℕ → Inputs) → ℕ → ℕ × Option Server → List ℕ → ℕ × Option Server
unfolding handle_line
next_line inputs c (n, none) message = (n, none)
next_line inputs c (n, some s) message = (n + 1, handle_line c (inputs n) s message)

abbrev pub count_error : Client → Client
count_error v = record v { invalid_message_count = v.invalid_message_count + 1 }

-- A line that is too long is counted as an error, and no more.
pub line_too_long : ℕ → ℕ × Option Server → ℕ × Option Server
line_too_long c (n, none) = (n, none)
line_too_long c (n, some s) =
    (n, some (with_world s (set_client s.world c (count_error (s.world.client c)))))

-- The loop of `client_handler_thread` over the bytes of one `recv`.
unfoldable pub receive_bytes :
    (ℕ → Inputs) → ℕ → (ℕ × Option Server) × List ℕ → List ℕ → (ℕ × Option Server) × List ℕ
unfolding next_line line_too_long
receive_bytes inputs c = receive (next_line inputs c) (line_too_long c)
