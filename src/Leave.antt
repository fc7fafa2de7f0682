-- ===== src/Leave.antt =====
-- `room_remove_player` of server_src/room.c: a player leaves, and with that the game may end by
-- forfeit, the room change its owner, or the room close.
pub mod Steps
pub mod Games
pub mod Homes
pub mod Keeps
pub mod Valid
pub mod Stays
pub mod Owner
use tmwmf_sem_ups.Base.{
  ℕ, zero, suc, ◌+◌, ◌-◌, Bool, true, false, not, ◌&&◌, Option, none, some, List, get_or, set, ltb,
  ◌==◌, if◌then◌else◌,
}
use tmwmf_sem_ups.Client.{Client, Memory}
use tmwmf_sem_ups.Game.{Game, find_player}
use tmwmf_sem_ups.Forfeit.{forfeit_scores, final_scores}
use tmwmf_sem_ups.World.{
  Room, waiting, World, set_client, set_room, room_broadcast, room_owner_changed, room_closed,
  game_end_forfeit,
}
use tmwmf_sem_ups.Room.{leave, dismiss, dismiss_all, room_destroy}

-- The slot is cleared; the client goes to the lobby.
pub vacate : World → ℕ → ℕ → ℕ → World
vacate w r c i =
    set_client
      (set_room w r (record (w.room r) {
        players = set (w.room r).players i none;
        player_count = (w.room r).player_count - 1;
      }))
      c (leave (w.client c))

-- Each player that is left goes to the lobby, and its slot is cleared.
pub release : ℕ → ℕ → ℕ → World → World
release zero j r w = w
release (suc n) j r w = release n (j + 1) r (
    set_room (dismiss w (get_or (w.room r).players j none)) r
      (record (w.room r) { players = set (w.room r).players j none }))

-- The game is freed, the room is emptied and destroyed.
unfoldable pub empty_room : World → ℕ → World
unfolding release room_destroy
empty_room w r =
    let w1 = set_room w r (record (w.room r) { game = none; state = waiting }) in
    let w2 = release 4 0 r w1 in
    room_destroy (set_room w2 r (record (w2.room r) { player_count = 0 })) r

-- The game ends: the pairs that are left are given away, the scores are sent, the room is emptied
-- and destroyed.
pub forfeit : World → ℕ → ℕ → Game → World
unfolding room_broadcast forfeit_scores final_scores empty_room
forfeit w r c g =
    let scores = forfeit_scores g c in
    empty_room
      (room_broadcast w r
        (game_end_forfeit (final_scores w.client g.player_count 0 g.players scores)))
      r

-- `players[j] != NULL && !players[j]->is_disconnected`
abbrev pub is_connected : Memory Client → Option ℕ → Bool
is_connected mem none = false
is_connected mem (some c) = not (mem c).is_disconnected

-- The first connected player from slot `j` on.
pub find_connected : Memory Client → ℕ → ℕ → List (Option ℕ) → Option ℕ
find_connected mem zero j players = none
find_connected mem (suc n) j players =
    if is_connected mem (get_or players j none)
    then get_or players j none
    else find_connected mem n (j + 1) players

-- That player becomes the owner, and all are told.
pub hand_over : World → ℕ → Option ℕ → World
unfolding room_broadcast
hand_over w r none = w
hand_over w r (some o) =
    room_broadcast (set_room w r (record (w.room r) { owner = o })) r
      (room_owner_changed (w.client o).nickname)

-- Nobody can own the room: it is closed.
pub close_room : World → ℕ → World
unfolding room_broadcast dismiss_all room_destroy
close_room w r =
    let w' = room_broadcast w r room_closed in
    room_destroy (dismiss_all 4 0 (w'.room r).players w') r

pub destroy_if_empty : World → ℕ → World
unfolding room_destroy
destroy_if_empty w r = if (w.room r).player_count == 0 then room_destroy w r else w

-- The owner has left and others are in the room.
pub after_owner : World → ℕ → ℕ → World
unfolding hand_over find_connected close_room destroy_if_empty
after_owner w r c =
    let w' = hand_over w r (find_connected w.client 4 0 (w.room r).players) in
    if (w'.room r).owner == c then close_room w' r else destroy_if_empty w' r

-- What follows once the player has left: `was_owner` says whether it owned the room.
pub after_leave : World → ℕ → ℕ → Bool → Option Game → World
unfolding forfeit after_owner destroy_if_empty
after_leave w r c was_owner none =
    if was_owner && ltb 0 (w.room r).player_count then after_owner w r c else destroy_if_empty w r
after_leave w r c was_owner (some g) =
    if ltb (w.room r).player_count 2
    then forfeit w r c g
    else if was_owner && ltb 0 (w.room r).player_count
    then after_owner w r c
    else destroy_if_empty w r

pub remove_from : World → ℕ → ℕ → Option ℕ → Option World
unfolding vacate after_leave
remove_from w r c none = none
remove_from w r c (some i) =
    some (after_leave (vacate w r c i) r c ((w.room r).owner == c) (w.room r).game)

unfoldable pub room_remove_player : World → ℕ → ℕ → Option World
unfolding find_player remove_from
room_remove_player w r c = remove_from w r c (find_player 4 0 (w.room r).players c)
