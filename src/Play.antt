-- ===== src/Play.antt =====
-- The handlers of server_src/client_handler.c that play a game: START_GAME, READY and FLIP.
pub mod Steps
pub mod Flip
pub mod Start
pub mod Homes
pub mod Ends
pub mod Tests
use tmwmf_sem_ups.Base.{
  ℕ, zero, suc, ◌+◌, Bool, true, false, not, Option, none, some, List, [], ◌∷◌, ◌++◌, get_or, ltb,
  leb, ◌==◌, ◌||◌, if◌then◌else◌, ℤ, pos, negsuc, is_null,
}
use tmwmf_sem_ups.Protocol.{max_error_count, in_game}
use tmwmf_sem_ups.Client.{Client, Memory, nickname_at}
use tmwmf_sem_ups.Text.{strtol, to_int}
use tmwmf_sem_ups.Game.{
  Game, Env, no_card, game_create, game_player_ready, game_all_players_ready, game_start,
  game_get_current_player, game_flip_card, game_check_match, game_is_finished,
}
use tmwmf_sem_ups.Forfeit.{final_scores}
use tmwmf_sem_ups.World.{
  Room, playing, finished, World, set_client, set_room, Failure, Message, error,
  client_send_message, room_broadcast, not_in_room, game_not_started, already_ready,
  already_started, not_room_owner, need_more_players, creation_failed, invalid_syntax, invalid_move,
  invalid_card, ready_ok, player_ready, game_created, your_turn, card_reveal, match, mismatch,
  mismatch_end, game_end,
}
use tmwmf_sem_ups.World as W
use tmwmf_sem_ups.Room.{dismiss_all, room_destroy}

-- `send_error_and_count`: the third error closes the socket.
unfoldable pub send_error_and_count : World → ℕ → Failure → World
send_error_and_count w c failure =
    let w1 = client_send_message w c (error failure) in
    let count : ℕ = (w1.client c).invalid_message_count + 1 in
    let w2 = set_client w1 c (record (w1.client c) { invalid_message_count = count }) in
    if leb max_error_count count
    then record w2 { closed = w2.closed ++ ((w2.client c).socket_fd ∷ []) }
    else w2

-- The game that the room points to changes.
abbrev pub set_game : World → ℕ → Game → World
set_game w r g = set_room w r (record (w.room r) { game = some g })

-- `client_send_message` to the player on turn, if there is one.
unfoldable pub tell_turn : World → Option ℕ → World
tell_turn w none = w
tell_turn w (some c) = client_send_message w c your_turn

-- Each player of the room, in the first `player_count` slots, is in the game.
abbrev pub into_game : World → Option ℕ → World
into_game w none = w
into_game w (some c) = set_client w c (record (w.client c) { state = in_game })

pub all_into_game : ℕ → ℕ → List (Option ℕ) → World → World
all_into_game zero i players w = w
all_into_game (suc n) i players w =
    all_into_game n (i + 1) players (into_game w (get_or players i none))

-- The names in the message of `game_format_start_message`; `none` stands for a read through NULL.
unfoldable pub player_names : Memory Client → ℕ → ℕ → List (Option ℕ) → List (Option (List ℕ))
player_names mem zero i players = []
player_names mem (suc n) i players =
    nickname_at mem (get_or players i none) ∷ player_names mem n (i + 1) players

pub announce_start : World → ℕ → Option Game → World
unfolding all_into_game player_names tell_turn
announce_start w r none = w
announce_start w r (some g) =
    let w1 = set_room w r (record (w.room r) { game = some g; state = playing }) in
    let w2 = all_into_game (w1.room r).player_count 0 (w1.room r).players w1 in
    let w3 =
      room_broadcast w2 r
        (W.game_start g.board_size (player_names w2.client g.player_count 0 g.players)) in
    tell_turn w3 (game_get_current_player g)

pub when_ready : World → ℕ → ℕ → Option Game → World
unfolding announce_start
when_ready w r c none = client_send_message w c (error already_ready)
when_ready w r c (some g) =
    let w1 = client_send_message (set_game w r g) c ready_ok in
    let w2 = room_broadcast w1 r (player_ready (w1.client c).nickname) in
    if game_all_players_ready g then announce_start w2 r (game_start g) else w2

pub ready_in : World → ℕ → Option ℕ → World
unfolding when_ready
ready_in w c none = client_send_message w c (error not_in_room)
ready_in w c (some r) = elim (w.room r).game [
  | none ↦ client_send_message w c (error game_not_started)
  | some g ↦ when_ready w r c (game_player_ready g c)
]

unfoldable pub handle_ready : World → ℕ → World
unfolding ready_in
handle_ready w c = ready_in w c (w.client c).room

pub created : World → ℕ → ℕ → Option Game → World
created w r c none = client_send_message w c (error creation_failed)
created w r c (some g) = room_broadcast (set_game w r g) r (game_created g.board_size)

pub start_in : Env → World → ℕ → Option ℕ → World
unfolding created
start_in env w c none = client_send_message w c (error not_in_room)
start_in env w c (some r) =
    let room : Room = w.room r in
    if not (room.owner == c)
    then client_send_message w c (error not_room_owner)
    else if not (is_null room.game)
    then client_send_message w c (error already_started)
    else if ltb room.player_count room.max_players
    then client_send_message w c (error need_more_players)
    else created w r c (game_create env room.board_size room.players room.player_count)

-- `env` is what `rand` and `malloc` answer during the call of `game_create`.
unfoldable pub handle_start_game : Env → World → ℕ → World
unfolding start_in
handle_start_game env w c = start_in env w c (w.client c).room

-- The game is over: all scores are sent, the game is freed, the players go to the lobby, and the
-- room is destroyed.
pub end_game : World → ℕ → Game → World
end_game w r g =
    let w1 =
      room_broadcast w r
        (game_end (final_scores w.client g.player_count 0 g.players g.player_scores)) in
    let w2 = set_room w1 r (record (w1.room r) { game = none; state = finished }) in
    room_destroy (dismiss_all (w2.room r).player_count 0 (w2.room r).players w2) r

pub pass_on : World → ℕ → Option ℕ → World
pass_on w r none = room_broadcast w r mismatch_end
pass_on w r (some next) =
    client_send_message (room_broadcast w r (mismatch (w.client next).nickname)) next your_turn

-- What follows the match check. A check that reads outside the board has no result.
pub after_check : World → ℕ → ℕ → Option (Game × Bool) → Option World
unfolding end_game pass_on
after_check w r c none = none
after_check w r c (some (g, true)) =
    let w1 =
      room_broadcast (set_game w r g) r
        (match (w.client c).nickname (get_or g.player_scores g.current_player_index 0)) in
    some (if game_is_finished g then end_game w1 r g else client_send_message w1 c your_turn)
after_check w r c (some (g, false)) = some (pass_on (set_game w r g) r (game_get_current_player g))

pub flipped : World → ℕ → ℕ → ℕ → Game → Option World
unfolding after_check
flipped w r c i g =
    let w1 =
      room_broadcast (set_game w r g) r
        (card_reveal i (get_or g.cards i no_card).value (w.client c).nickname) in
    if g.flips_this_turn == 2 then after_check w1 r c (game_check_match g) else some w1

pub flip_card : World → ℕ → ℕ → ℕ → Option Game → Option World
unfolding flipped
flip_card w r c i none = some (send_error_and_count w c invalid_card)
flip_card w r c i (some g) = flipped w r c i g

pub flip_index : World → ℕ → ℕ → Game → ℤ → Option World
unfolding flip_card
flip_index w r c g (negsuc _) = some (send_error_and_count w c invalid_move)
flip_index w r c g (pos i) =
    if leb g.total_cards i
    then some (send_error_and_count w c invalid_move)
    else flip_card w r c i (game_flip_card g c (pos i))

-- `*endptr` is NUL, a space or a newline.
pub ends_number : List ℕ → Bool
ends_number [] = true
ends_number (b ∷ _) = b == 32 || b == 10

pub flip_in : World → ℕ → List ℕ → Option ℕ → Option World
unfolding flip_index ends_number
flip_in w c params none = some (send_error_and_count w c not_in_room)
flip_in w c params (some r) = elim (w.room r).game [
  | none ↦ some (send_error_and_count w c game_not_started)
  | some g ↦ elim params [
    | [] ↦ some (send_error_and_count w c invalid_syntax)
    | b ∷ s ↦
        let (index, rest) = strtol (b ∷ s) in
        if not (ends_number rest)
        then some (send_error_and_count w c invalid_syntax)
        else flip_index w r c g (to_int index)
  ]
]

-- The world after the call; `none` is a read outside the array of cards.
unfoldable pub handle_flip : World → ℕ → List ℕ → Option World
unfolding flip_in
handle_flip w c params = flip_in w c params (w.client c).room
