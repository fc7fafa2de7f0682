-- ===== src/Lib.antt =====
-- A development on the server of Pexeso (concentration), a network game of two to four players:
-- server_src/. Clients connect, create and join rooms, and play a game in a room.
--
-- Parts and files. Base holds the shared names, C arrays as lists, the tally of a list and the
-- integers. Protocol: the limits and states of server_src/protocol.h. Deck: the pairs and the
-- shuffle that `game_create` deals with. Game: the record `game_t` and the functions of
-- server_src/game.c; its children are about validity (Valid), creation (Create), readiness and
-- start (Ready), flips (Flip), the match check (Match, Turns), the winners (Winners), removal of a
-- player (Seats, Remove), the seats that stay filled (Players), and the way to the end of a game
-- (Progress). Client: the record `client_t` of server_src/client_handler.h and the memory of
-- clients. ClientList: server_src/client_list.c. World: the state that rooms and handlers share,
-- and the broadcasts. Room: server_src/room.c but for `room_remove_player`, which is in Leave;
-- Forfeit is the arithmetic of its forfeit. The handlers of server_src/client_handler.c are in
-- Lobby (HELLO, LIST_ROOMS, CREATE_ROOM, JOIN_ROOM, LEAVE_ROOM, PONG), Play (START_GAME, READY,
-- FLIP) and Reconnect (RECONNECT, with the message of server_src/game.c that tells the state of a
-- game; Reads is about what the messages read); Text is what they use of the C library to read
-- numbers. The thread of a client there is Framing (bytes into lines), Dispatch (lines to handlers;
-- Requests is the protocol that this implements, Homes is about where clients sit) and Cleanup
-- (what follows when the connection is lost). Server is the state that the threads of
-- server_src/server.c share; Ping and Timeout are one round of its two threads, Accept its start,
-- one round of `server_run`, its shutdown, and the check of the arguments in server_src/main.c.
-- Each Tests module holds runs and the theorems at concrete data.
--
-- Correspondence. A definition has the name of its C function; a helper is one loop or one block of
-- it. A pointer is an address, `none` for NULL; what stands at an address is a function from
-- addresses. The game of a room is pointed to by that room alone and stands in it as a value. A
-- function that answers -1 or NULL has changed nothing by then, and is `none`; only
-- `room_system_init` answers a flag, since it has set the size. A loop over an array is a recursion
-- on the rounds that are left, with the index counted up; so it needs no fuel. A write outside an
-- array changes nothing and a read there gives a default, except in `game_check_match`, which has
-- no result then, and in the messages that tell of the start and the state of a game, which hold
-- `none` for a read outside the cards or through NULL. The mutexes make each call of client_list.c
-- and room.c one step.
--
-- Numbers. Counts, ids and scores are natural numbers: they start at 0 or 1 and grow by one, and
-- 2^31 calls are not reached. Where the C code counts down, the subtraction stops at 0. The
-- arguments that a client chooses (a card index, the size of a board, the number of players) are
-- integers. `rand`, `malloc` and `calloc` are arguments: what they answer is arbitrary.
--
-- Interleavings. The threads share a Server. A handled line, a round of a loop for one client, and
-- a clean-up are each one function on it; the code takes no lock between its calls, so an
-- interleaving inside one of them is not described. `free` adds the address to a list: what is
-- freed twice or used afterwards is stated with that list and with the slots that still point to
-- it.
--
-- Not modelled. The logger writes and changes no state. NULL arguments are refused by every
-- function at once and have no counterpart. `client_send_message` refuses a message longer than
-- 1024 bytes and reports failures of `send`: here a message that is sent goes to the outbox, and a
-- PING counts as sent. The list of rooms and the messages of a game are not cut at their buffers.
-- `close` and `shutdown` of a socket are not told apart. The sleeps, the joining of threads, the
-- signal handler, and the address and port that the socket is bound to are left out. The Java
-- client is not part of this development.
pub mod Base
pub mod Protocol
pub mod Deck
pub mod Game
pub mod Client
pub mod ClientList
pub mod World
pub mod Forfeit
pub mod Room
pub mod Leave
pub mod Text
pub mod Lobby
pub mod Play
pub mod Framing
pub mod Server
pub mod Reconnect
pub mod Dispatch
pub mod Ping
pub mod Timeout
pub mod Cleanup
pub mod Accept
