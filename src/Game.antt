-- ===== src/Game.antt =====
-- server_src/game.c and game.h: one game of Pexeso. A client is the address of its `client_t`, and
-- an entry of `players` is NULL (`none`) or such an address. A function that can answer -1 does so
-- before it has changed anything: it returns the game after the call, or `none` for -1.
pub mod Valid
pub mod Flip
pub mod Match
pub mod Players
pub mod Turns
pub mod Progress
pub mod Create
pub mod Winners
pub mod Seats
pub mod Remove
pub mod Ready
mod Tests
use tmwmf_sem_ups.Base.{
  ℕ, zero, suc, ◌+◌, ◌-◌, ◌*◌, ◌/◌, ◌%◌, ◌≤◌, ◌<◌, Bool, true, false, not, ◌&&◌, ◌||◌, Option, none,
  some, List, [], ◌∷◌, map, ltb, leb, ◌==◌, if◌then◌else◌, points_to, get_or, set, length,
  replicate, ℤ, pos, negsuc, index?,
}
use tmwmf_sem_ups.Deck.{fill_pairs, malloc_words, shuffle_array}

pub data CardState : Type 0 where
  hidden revealed matched : CardState

pub record Card : Type 0 where
  pub value : ℕ
  pub state : CardState

pub data GameState : Type 0 where
  waiting playing finished : GameState

pub record Game : Type 0 where
  pub board_size : ℕ
  pub total_cards : ℕ
  pub total_pairs : ℕ
  pub cards : List Card
  pub players : List (Option ℕ)
  pub player_count : ℕ
  pub player_scores : List ℕ
  pub player_ready : List Bool
  pub current_player_index : ℕ
  pub first_card_index : ℤ
  pub second_card_index : ℤ
  pub flips_this_turn : ℕ
  pub matched_pairs : ℕ
  pub state : GameState

abbrev pub min_board_size : ℕ
min_board_size = 4

abbrev pub max_board_size : ℕ
max_board_size = 8

abbrev pub max_players_per_room : ℕ
max_players_per_room = 4

-- What the C library answers during one call: whether each allocation succeeds, what a fresh array
-- holds, and what the k-th `rand` returns.
pub record Env : Type 0 where
  pub game_alloc : Bool
  pub cards_alloc : Bool
  pub values_alloc : Bool
  pub junk : ℕ → ℕ
  pub rand : ℕ → ℕ

-- `game->players[i] = players[i]`, for the rounds that are left
pub copy_players : ℕ → ℕ → List (Option ℕ) → List (Option ℕ) → List (Option ℕ)
copy_players zero i from to = to
copy_players (suc n) i from to = copy_players n (i + 1) from (set to i (get_or from i none))

abbrev pub face_down : ℕ → Card
face_down v = record { value = v; state = hidden }

-- The values of the cards of a new game: filled with pairs, then shuffled.
pub deal : Env → ℕ → ℕ → List ℕ
deal env total_cards total_pairs =
    shuffle_array env.rand (fill_pairs total_pairs 0 (malloc_words env.junk total_cards))
      total_cards

-- The game that `game_create` returns when it refuses nothing.
unfoldable pub new_game : Env → ℕ → List (Option ℕ) → ℕ → Game
unfolding copy_players deal
new_game env board_size players player_count = record {
  board_size = board_size;
  total_cards = board_size * board_size;
  total_pairs = board_size * board_size / 2;
  cards = map face_down (deal env (board_size * board_size) (board_size * board_size / 2));
  players = copy_players player_count 0 players (replicate max_players_per_room none);
  player_count = player_count;
  player_scores = replicate max_players_per_room 0;
  player_ready = replicate max_players_per_room false;
  current_player_index = 0;
  first_card_index = negsuc 0;
  second_card_index = negsuc 0;
  flips_this_turn = 0;
  matched_pairs = 0;
  state = waiting;
}

unfoldable pub game_create : Env → ℕ → List (Option ℕ) → ℕ → Option Game
unfolding new_game
game_create env board_size players player_count =
    if ltb board_size min_board_size || ltb max_board_size board_size
    then none
    else if ltb player_count 2 || ltb max_players_per_room player_count
    then none
    else if not env.game_alloc
    then none
    else if not env.cards_alloc
    then none
    else if not env.values_alloc
    then none
    else some (new_game env board_size players player_count)

-- The search loop: the first index from `i` on, in the rounds that are left, that holds the client.
unfoldable pub find_player : ℕ → ℕ → List (Option ℕ) → ℕ → Option ℕ
find_player zero i players client = none
find_player (suc n) i players client =
    if points_to (get_or players i none) client
    then some i
    else find_player n (i + 1) players client

-- `array[i] = array[i + 1]`, for the rounds that are left
pub shift_down {ℓ} : {A : Type ℓ} → A → ℕ → ℕ → List A → List A
shift_down d zero i xs = xs
shift_down d (suc n) i xs = shift_down d n (i + 1) (set xs i (get_or xs (i + 1) d))

-- Shift the entries behind `index` down, and clear the last slot.
pub close_gap {ℓ} : {A : Type ℓ} → A → ℕ → ℕ → List A → List A
unfolding shift_down
close_gap d player_count index xs =
    set (shift_down d (player_count - 1 - index) index xs) (player_count - 1) d

-- `current_player_index` after the removal, with the new count.
pub adjust_current : ℕ → ℕ → ℕ → ℕ
adjust_current current count index =
    if leb count current then 0 else if ltb index current then current - 1 else current

pub remove_at : Game → ℕ → Game
unfolding close_gap adjust_current
remove_at g index = record g {
  players = close_gap none g.player_count index g.players;
  player_scores = close_gap 0 g.player_count index g.player_scores;
  player_ready = close_gap false g.player_count index g.player_ready;
  player_count = g.player_count - 1;
  current_player_index = adjust_current g.current_player_index (g.player_count - 1) index;
}

unfoldable pub game_remove_player : Game → ℕ → Option Game
unfolding remove_at find_player
game_remove_player g client = elim (find_player g.player_count 0 g.players client) [
  | none ↦ none
  | some index ↦ some (remove_at g index)
]

pub mark_ready : Game → Option ℕ → Option Game
mark_ready g none = none
mark_ready g (some i) = some (record g { player_ready = set g.player_ready i true })

unfoldable pub game_player_ready : Game → ℕ → Option Game
unfolding mark_ready find_player
game_player_ready g client = elim g.state [
  | waiting ↦ mark_ready g (find_player g.player_count 0 g.players client)
  | _ ↦ none
]

-- The loop of `game_all_players_ready` from index `i`, for the rounds that are left.
pub all_ready : ℕ → ℕ → List Bool → Bool
all_ready zero i ready = true
all_ready (suc n) i ready = if get_or ready i false then all_ready n (i + 1) ready else false

unfoldable pub game_all_players_ready : Game → Bool
unfolding all_ready
game_all_players_ready g = all_ready g.player_count 0 g.player_ready

unfoldable pub game_start : Game → Option Game
game_start g = elim g.state [
  | waiting ↦ some (record g { state = playing; current_player_index = 0 })
  | _ ↦ none
]

abbrev pub is_hidden : CardState → Bool
is_hidden hidden = true
is_hidden revealed = false
is_hidden matched = false

abbrev pub is_playing : GameState → Bool
is_playing waiting = false
is_playing playing = true
is_playing finished = false

abbrev pub no_card : Card
no_card = record { value = 0; state = hidden }

-- `players[current_player_index]`
abbrev pub current_player : Game → Option ℕ
current_player g = get_or g.players g.current_player_index none

-- The flip itself, once every check has passed.
pub reveal : Game → ℕ → Game
reveal g i =
    let g' : Game = record g {
      cards = set g.cards i (record (get_or g.cards i no_card) { state = revealed });
      flips_this_turn = g.flips_this_turn + 1;
    } in
    if g.flips_this_turn + 1 == 1
    then record g' { first_card_index = pos i }
    else record g' { second_card_index = pos i }

unfoldable pub game_flip_card : Game → ℕ → ℤ → Option Game
unfolding reveal
game_flip_card g client card_index =
    if not (is_playing g.state)
    then none
    else if not (points_to (current_player g) client)
    then none
    else if leb 2 g.flips_this_turn
    then none
    else elim card_index [
      | negsuc _ ↦ none
      | pos i ↦
          if leb g.total_cards i
          then none
          else if not (is_hidden (get_or g.cards i no_card).state)
          then none
          else some (reveal g i)
    ]

-- `cards[index].state = state`
pub set_state : List Card → ℤ → CardState → List Card
set_state cards (pos i) s = set cards i (record (get_or cards i no_card) { state = s })
set_state cards (negsuc _) s = cards

-- The two cards have the same value: the same player goes on.
pub score_match : Game → Game
unfolding set_state
score_match g = record g {
  cards = set_state (set_state g.cards g.first_card_index matched) g.second_card_index matched;
  player_scores =
      set g.player_scores g.current_player_index
        (get_or g.player_scores g.current_player_index 0 + 1);
  matched_pairs = g.matched_pairs + 1;
  first_card_index = negsuc 0;
  second_card_index = negsuc 0;
  flips_this_turn = 0;
  state = if g.matched_pairs + 1 == g.total_pairs then finished else g.state;
}

-- The two cards differ: they are turned back, and the next player goes on.
pub pass_turn : Game → Game
unfolding set_state
pass_turn g = record g {
  cards = set_state (set_state g.cards g.first_card_index hidden) g.second_card_index hidden;
  current_player_index = (g.current_player_index + 1) % g.player_count;
  first_card_index = negsuc 0;
  second_card_index = negsuc 0;
  flips_this_turn = 0;
}

-- The game after the call and whether the cards match; `none` is a read outside the array of cards.
unfoldable pub game_check_match : Game → Option (Game × Bool)
unfolding score_match pass_turn
game_check_match g =
    if not (g.flips_this_turn == 2)
    then some (g, false)
    else elim (index? g.cards g.first_card_index) [
      | none ↦ none
      | some first ↦ elim (index? g.cards g.second_card_index) [
        | none ↦ none
        | some second ↦
            if first.value == second.value
            then some (score_match g, true)
            else some (pass_turn g, false)
      ]
    ]

unfoldable pub game_get_current_player : Game → Option ℕ
game_get_current_player g = elim g.state [ playing ↦ current_player g | _ ↦ none ]

unfoldable pub game_is_finished : Game → Bool
game_is_finished g = elim g.state [ finished ↦ true | _ ↦ false ]

-- The loop that finds the maximum: `best` is the largest score before index `i`.
pub max_score : ℕ → ℕ → List ℕ → ℕ → ℕ
max_score zero i scores best = best
max_score (suc n) i scores best =
    max_score n (i + 1) scores (if ltb best (get_or scores i 0) then get_or scores i 0 else best)

-- The loop that collects the players with the score `best`, in order.
pub collect : ℕ → ℕ → List ℕ → List (Option ℕ) → ℕ → List (Option ℕ)
collect zero i scores players best = []
collect (suc n) i scores players best =
    let rest = collect n (i + 1) scores players best in
    if get_or scores i 0 == best then get_or players i none ∷ rest else rest

-- The winners that are stored, in order; the count returned is their number.
unfoldable pub game_get_winners : Game → List (Option ℕ)
unfolding max_score collect
game_get_winners g = elim g.state [
  | finished ↦
      collect g.player_count 0 g.player_scores g.players
        (max_score g.player_count 0 g.player_scores 0)
  | _ ↦ []
]
