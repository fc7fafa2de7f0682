-- ===== src/Game/Tests.antt =====
-- Runs of the game functions, and their theorems at concrete games.
use tmwmf_sem_ups.Base.{
  ℕ, zero, suc, ◌+◌, ◌*◌, ◌%◌, ◌<◌, ◌≡◌, ◌≢◌, ◌↔◌, ◌⊎◌, inl, inr, refl, Option, none, some, List,
  [], ◌∷◌, Bool, true, false, map, arith, pos, negsuc, get_or, get_elem?, tally, if◌then◌else◌, ltb,
  leb, ◌&&◌, subst, sym, set,
}
use tmwmf_sem_ups.Deck.{shuffle_array, fill_pairs, malloc_words}
use tmwmf_sem_ups.Deck.Shuffle.{tally-shuffle_array}
use tmwmf_sem_ups.Deck.Fill.{is_value}
use tmwmf_sem_ups.Game.{
  face_down, revealed, matched, Game, waiting, playing, finished, Env, new_game, game_start,
  game_flip_card, game_check_match, game_get_winners, game_remove_player, game_player_ready,
  current_player,
}
use tmwmf_sem_ups.Game.Valid.{IsValid, Seated, in_play, none_up}
use tmwmf_sem_ups.Game.Create.{MayCreate, create_accepts, game_create-IsValid}
use tmwmf_sem_ups.Game.Flip.{MayFlip, game_flip_card_iff, game_flip_card-IsValid}
use tmwmf_sem_ups.Game.Match.{game_check_match-IsValid}
use tmwmf_sem_ups.Game.Turns.{Scored, Passed, game_check_match_turn}
use tmwmf_sem_ups.Game.Winners.{IsBest, game_get_winners-IsBest}
use tmwmf_sem_ups.Game.Progress.{Reach, game_can_finish}
use tmwmf_sem_ups.Game.Remove.{SeatOf, game_remove_player_turn, game_remove_player_loses_turn}
use tmwmf_sem_ups.Game.Ready.{ReadyOutcome, game_player_ready_lem, game_start_lem}

abbrev env : Env
env = record {
  game_alloc = true;
  cards_alloc = true;
  values_alloc = true;
  junk = λ _. 99;
  rand = λ k. 7 * k + 3;
}

abbrev three : List (Option ℕ)
three = some 10 ∷ some 20 ∷ some 30 ∷ none ∷ []

-- A new game of three on a 4 × 4 board.
abbrev made : Game
made = new_game env 4 three 3

may_make : MayCreate env 4 3
may_make = record {
  board_min = omega arith;
  board_max = omega arith;
  count_min = omega arith;
  count_max = omega arith;
  game_memory = refl;
  cards_memory = refl;
  values_memory = refl;
}

-- The same game, written out.
abbrev at_rest : Game
at_rest = record {
  board_size = 4;
  total_cards = 16;
  total_pairs = 8;
  cards = map face_down (3 ∷ 2 ∷ 5 ∷ 4 ∷ 1 ∷ 1 ∷ 5 ∷ 7 ∷ 7 ∷ 8 ∷ 3 ∷ 4 ∷ 6 ∷ 8 ∷ 6 ∷ 2 ∷ []);
  players = three;
  player_count = 3;
  player_scores = 0 ∷ 0 ∷ 0 ∷ 0 ∷ [];
  player_ready = false ∷ false ∷ false ∷ false ∷ [];
  current_player_index = 0;
  first_card_index = negsuc 0;
  second_card_index = negsuc 0;
  flips_this_turn = 0;
  matched_pairs = 0;
  state = waiting;
}

made-at_rest : made ≡ at_rest
unfolding new_game shuffle_array fill_pairs malloc_words
made-at_rest = refl

game_create-IsValid_example :
    IsValid made
    × (made.state ≡ waiting)
    × ((v : ℕ) → tally (in_play v) made.cards ≡ (if ltb 0 v && leb v 8 then 2 else 0))
    × (((i : ℕ) → i < 3 → (c : ℕ) × (get_elem? three i ≡ some (some c))) → Seated made)
game_create-IsValid_example =
    game_create-IsValid env 4 three 3 refl (create_accepts env 4 three 3 may_make)

three_seated : (i : ℕ) → i < 3 → (c : ℕ) × (get_elem? three i ≡ some (some c))
three_seated zero h = (10, refl)
three_seated (suc zero) h = (20, refl)
three_seated (suc (suc zero)) h = (30, refl)
three_seated (suc (suc (suc i))) h = absurd (omega arith)

at_rest-IsValid : IsValid at_rest
at_rest-IsValid = subst IsValid made-at_rest game_create-IsValid_example.0

game_player_ready_lem_example :
    (at_rest.state ≢ waiting → game_player_ready at_rest 20 ≡ none)
    × (at_rest.state ≡ waiting → ReadyOutcome at_rest 20)
game_player_ready_lem_example = game_player_ready_lem at_rest 20 at_rest-IsValid

ready_runs :
    game_player_ready at_rest 20
    ≡ some (record at_rest { player_ready = false ∷ true ∷ false ∷ false ∷ [] })
unfolding game_player_ready
ready_runs = refl

-- The game after `game_start`.
abbrev started : Game
started = record at_rest { state = playing; current_player_index = 0 }

start_runs : game_start at_rest ≡ some started
unfolding game_start
start_runs = refl

started-IsValid : IsValid started
started-IsValid =
    let (g', e, _, _, _, _, _, v) = (game_start_lem at_rest at_rest-IsValid).1 refl in
    same g' (start_runs' g' e) v
  where
    start_runs' : (g' : Game) → game_start at_rest ≡ some g' → started ≡ g'
    start_runs' g' e = cc (start_runs)

    same : (g' : Game) → started ≡ g' → IsValid g' → IsValid started
    same g' e v = subst IsValid (sym e) v

started-Seated : Seated started
started-Seated zero h = (10, refl)
started-Seated (suc zero) h = (20, refl)
started-Seated (suc (suc zero)) h = (30, refl)
started-Seated (suc (suc (suc i))) h = absurd (omega arith)

game_can_finish_example : (g' : Game) × Reach started g' × (g'.state ≡ finished)
game_can_finish_example = game_can_finish started started-IsValid started-Seated refl refl

-- Client 10 turns card 4, then card 5: both have the value 1.
abbrev one_card : Game
one_card = record started {
  cards = set started.cards 4 (record { value = 1; state = revealed });
  flips_this_turn = 1;
  first_card_index = pos 4;
}

abbrev two_cards : Game
two_cards = record one_card {
  cards = set one_card.cards 5 (record { value = 1; state = revealed });
  flips_this_turn = 2;
  second_card_index = pos 5;
}

first_flip : game_flip_card started 10 (pos 4) ≡ some one_card
unfolding game_flip_card
first_flip = refl

second_flip : game_flip_card one_card 10 (pos 5) ≡ some two_cards
unfolding game_flip_card
second_flip = refl

game_flip_card_iff_example :
    (((g' : Game) × (game_flip_card started 10 (pos 4) ≡ some g')) ↔ MayFlip started 10 4)
    × (game_flip_card started 10 (negsuc 4) ≡ none)
game_flip_card_iff_example = game_flip_card_iff started 10 4

game_flip_card-IsValid_example : IsValid one_card
game_flip_card-IsValid_example = game_flip_card-IsValid started 10 4 started-IsValid first_flip

two_cards-IsValid : IsValid two_cards
two_cards-IsValid = game_flip_card-IsValid one_card 10 5 game_flip_card-IsValid_example' second_flip
  where
    game_flip_card-IsValid_example' : IsValid one_card
    game_flip_card-IsValid_example' = game_flip_card-IsValid started 10 4 started-IsValid first_flip

game_check_match-IsValid_example :
    (g' : Game) × (m : Bool) × (game_check_match two_cards ≡ some (g', m)) × IsValid g'
game_check_match-IsValid_example = game_check_match-IsValid two_cards two_cards-IsValid

-- The pair is scored, and client 10 stays on turn.
abbrev scored : Game
scored = record two_cards {
  cards =
      set (set two_cards.cards 4 (record { value = 1; state = matched })) 5
        (record { value = 1; state = matched });
  player_scores = 1 ∷ 0 ∷ 0 ∷ 0 ∷ [];
  matched_pairs = 1;
  first_card_index = negsuc 0;
  second_card_index = negsuc 0;
  flips_this_turn = 0;
}

match_runs : game_check_match two_cards ≡ some (scored, true)
unfolding game_check_match
match_runs = refl

game_check_match_turn_example :
    (((◌≡◌ {A = Bool} true true) × (◌≡◌ {A = ℕ} 1 1) × Scored two_cards scored)
      ⊎ ((◌≡◌ {A = Bool} true false) × (¬ (◌≡◌ {A = ℕ} 1 1)) × Passed two_cards scored))
    × (scored.flips_this_turn ≡ 0)
    × (scored.players ≡ three)
    × (scored.player_count ≡ 3)
    × (scored.total_pairs ≡ 8)
game_check_match_turn_example =
    game_check_match_turn two_cards scored true (record { value = 1; state = revealed })
      (record { value = 1; state = revealed }) refl refl refl match_runs

-- A finished game in which clients 10 and 30 tie.
abbrev tied : Game
tied = record started { state = finished; player_scores = 3 ∷ 2 ∷ 3 ∷ 0 ∷ [] }

winners_run : game_get_winners tied ≡ some 10 ∷ some 30 ∷ []
unfolding game_get_winners
winners_run = refl

game_get_winners-IsBest_example :
    ((k : ℕ)
      → IsBest tied k
      → (p : ℕ) × (get_elem? (game_get_winners tied) p ≡ some (get_or three k none)))
    × ((p : ℕ) (x : Option ℕ)
        → get_elem? (game_get_winners tied) p ≡ some x
        → (k : ℕ) × IsBest tied k × (x ≡ get_or three k none))
game_get_winners-IsBest_example = game_get_winners-IsBest tied refl

-- Client 30, in the last seat, is on turn.
abbrev last_on_turn : Game
last_on_turn = record started { current_player_index = 2 }

abbrev after_removal : Game
after_removal = record last_on_turn {
  players = some 20 ∷ some 30 ∷ none ∷ none ∷ [];
  player_count = 2;
  current_player_index = 0;
}

removal_runs : game_remove_player last_on_turn 10 ≡ some after_removal
unfolding game_remove_player
removal_runs = refl

last_on_turn-IsValid : IsValid last_on_turn
last_on_turn-IsValid = record {
  sizes = omega (arith, started-IsValid.sizes);
  counts = ground (arith, started-IsValid.counts);
  flipped = none_up refl refl refl;
  paired = started-IsValid.paired;
}

first_seat : SeatOf last_on_turn 10 0
first_seat = (omega arith, omega arith, refl, λ j lo hi. absurd (omega arith))

seat_pairs :
    (j k : ℕ) → j < k → k < 3 → ((j ≡ 0) × (k ≡ 1)) ⊎ (((j ≡ 0) × (k ≡ 2)) ⊎ ((j ≡ 1) × (k ≡ 2)))
seat_pairs j k lo hi = omega arith

other_client : (a b : ℕ) → a ≢ b → some a ≢ some b
other_client a b ne e = ground arith

distinct_seats : (j k : ℕ) → j < k → k < 3 → get_or three j none ≢ get_or three k none
distinct_seats j k lo hi = elim (seat_pairs j k lo hi) [
  | inl (a, b) ↦ rw (a, b) (other_client 10 20 (omega arith))
  | inr (inl (a, b)) ↦ rw (a, b) (other_client 10 30 (omega arith))
  | inr (inr (a, b)) ↦ rw (a, b) (other_client 20 30 (omega arith))
]

game_remove_player_turn_example :
    (◌≢◌ {A = ℕ} 2 0
      → (0 < 2 → 2 + 1 < 3)
      → current_player after_removal ≡ current_player last_on_turn)
    × (◌≡◌ {A = ℕ} 2 0 → current_player after_removal ≡ get_or three ((0 + 1) % 3) none)
    × (after_removal.cards ≡ last_on_turn.cards)
    × (after_removal.matched_pairs ≡ 0)
    × (after_removal.flips_this_turn ≡ 0)
    × (after_removal.first_card_index ≡ negsuc 0)
game_remove_player_turn_example =
    game_remove_player_turn last_on_turn 10 0 last_on_turn-IsValid (omega arith) removal_runs
      first_seat

game_remove_player_loses_turn_example :
    (current_player after_removal ≡ get_or after_removal.players 0 none)
    × (current_player after_removal ≢ current_player last_on_turn)
game_remove_player_loses_turn_example =
    game_remove_player_loses_turn last_on_turn 10 0 last_on_turn-IsValid (omega arith) removal_runs
      first_seat (omega arith) (omega arith) distinct_seats

tally-shuffle_array_example : tally (is_value 5) (shuffle_array (λ k. k) (5 ∷ 6 ∷ 5 ∷ []) 3) ≡ 2
tally-shuffle_array_example =
    tally-shuffle_array (λ k. k) (is_value 5) (5 ∷ 6 ∷ 5 ∷ []) 3 (omega arith) (omega arith)
