-- ===== src/Game/Create.antt =====
-- `game_create` of server_src/game.c: what it refuses, and the game that it makes.
use tmwmf_sem_ups.Base.{
  ℕ, zero, suc, ◌+◌, ◌*◌, ◌/◌, ◌%◌, ◌≤◌, ◌<◌, ◌≡◌, ◌↔◌, refl, ◌⊎◌, inl, inr, Option, none, some,
  List, [], ◌∷◌, map, length, length-set, get_elem?, get_or, get_or-eq, get_elem?-set_self,
  get_elem?-set_ne, set, tally, arith, sym, ◌∙◌, ap, if◌then◌else◌, leb, ltb, ◌&&◌, true, replicate,
}
use tmwmf_sem_ups.Deck.{malloc_words, shuffle_array}
use tmwmf_sem_ups.Deck.Fill.{
  is_value, pairs_from, length-malloc_words, fill_pairs_lem, tally-pairs_from,
}
use tmwmf_sem_ups.Deck.Shuffle.{length-shuffle_array, tally-shuffle_array}
use tmwmf_sem_ups.Game.{Game, waiting, Env, face_down, deal, new_game, copy_players, game_create}
use tmwmf_sem_ups.Game.Valid.{
  IsValid, Sizes, Counts, none_up, Paired, in_play, state_is_matched, state_is_revealed, Seated,
}

length-pairs_from : (n i : ℕ) → length (pairs_from n i) ≡ n * 2
length-pairs_from zero i = refl
length-pairs_from (suc n) i = omega (arith, length-pairs_from n (i + 1))

length-face_down : (xs : List ℕ) → length (map face_down xs) ≡ length xs
length-face_down [] = refl
length-face_down (x ∷ xs) = ap suc (length-face_down xs)

tally-face_down :
    (v : ℕ) (xs : List ℕ) → tally (in_play v) (map face_down xs) ≡ tally (is_value v) xs
tally-face_down v [] = refl
tally-face_down v (x ∷ xs) = ground (arith, tally-face_down v xs)

none_matched : (xs : List ℕ) → tally state_is_matched (map face_down xs) ≡ 0
none_matched [] = refl
none_matched (x ∷ xs) = omega (arith, none_matched xs)

none_revealed : (xs : List ℕ) → tally state_is_revealed (map face_down xs) ≡ 0
none_revealed [] = refl
none_revealed (x ∷ xs) = omega (arith, none_revealed xs)

module _ (env : Env) (total pairs : ℕ) (even : total ≡ pairs * 2) where
  deal_of_pairs : deal env total pairs ≡ shuffle_array env.rand (pairs_from pairs 0) total
  unfolding deal
  deal_of_pairs =
      ap (λ xs. shuffle_array env.rand xs total)
        (fill_pairs_lem pairs (malloc_words env.junk total)
          (length-malloc_words env.junk total ∙ even))

  length-deal : length (deal env total pairs) ≡ total
  length-deal = rw deal_of_pairs (
      length-shuffle_array env.rand (pairs_from pairs 0) total
      ∙ length-pairs_from pairs 0
      ∙ sym even)

  tally-deal :
      (v : ℕ)
      → 0 < total
      → tally (is_value v) (deal env total pairs) ≡ (if ltb 0 v && leb v pairs then 2 else 0)
  tally-deal v h = rw deal_of_pairs (
      tally-shuffle_array env.rand (is_value v) (pairs_from pairs 0) total h
        (omega (arith, length-pairs_from pairs 0))
      ∙ ground (arith, tally-pairs_from v pairs 0))

even_square : (b : ℕ) → 4 ≤ b → b ≤ 8 → b % 2 ≡ 0 → (b * b ≡ b * b / 2 * 2) × (0 < b * b / 2)
even_square b lo hi e = elim (sizes b lo hi e) [
  | inl p ↦ rw p (omega arith)
  | inr (inl p) ↦ rw p (omega arith)
  | inr (inr p) ↦ rw p (omega arith)
]
  where
    sizes : (b : ℕ) → 4 ≤ b → b ≤ 8 → b % 2 ≡ 0 → (b ≡ 4) ⊎ ((b ≡ 6) ⊎ (b ≡ 8))
    sizes b lo hi e = omega arith

module _ (from : List (Option ℕ)) where
  length-copy_players :
      (n i : ℕ) (to : List (Option ℕ)) → length (copy_players n i from to) ≡ length to
  unfolding copy_players
  length-copy_players zero i to = refl
  length-copy_players (suc n) i to =
      length-copy_players n (i + 1) (set to i (get_or from i none))
      ∙ length-set to i (get_or from i none)

  copy_kept :
      (n i k : ℕ) (to : List (Option ℕ))
      → k < i
      → get_elem? (copy_players n i from to) k ≡ get_elem? to k
  unfolding copy_players
  copy_kept zero i k to h = refl
  copy_kept (suc n) i k to h =
      copy_kept n (i + 1) k (set to i (get_or from i none)) (omega arith)
      ∙ get_elem?-set_ne to i k (get_or from i none) (omega arith)

  copied :
      (n i k : ℕ) (to : List (Option ℕ))
      → i ≤ k
      → k < i + n
      → k < length to
      → get_elem? (copy_players n i from to) k ≡ some (get_or from k none)
  unfolding copy_players
  copied zero i k to lo hi h = absurd (omega arith)
  copied (suc n) i k to lo hi h = elim (split lo) [
    | inl p ↦
        copied n (i + 1) k (set to i (get_or from i none)) (omega arith) (omega arith)
          (omega (arith, length-set to i (get_or from i none)))
    | inr p ↦
        copy_kept n (i + 1) k (set to i (get_or from i none)) (omega arith)
        ∙ (rw p (get_elem?-set_self to k (get_or from k none) h))
  ]
    where
      split : i ≤ k → (i < k) ⊎ (i ≡ k)
      split h = omega arith

-- What `game_create` asks of its arguments and of the allocator.
pub record MayCreate (env : Env) (board_size player_count : ℕ) : Type 0 where
  pub board_min : 4 ≤ board_size
  pub board_max : board_size ≤ 8
  pub count_min : 2 ≤ player_count
  pub count_max : player_count ≤ 4
  pub game_memory : env.game_alloc ≡ true
  pub cards_memory : env.cards_alloc ≡ true
  pub values_memory : env.values_alloc ≡ true

pub create_accepts :
    (env : Env) (b : ℕ) (players : List (Option ℕ)) (n : ℕ)
    → MayCreate env b n
    → game_create env b players n ≡ some (new_game env b players n)
unfolding game_create
create_accepts env b players n m = ground arith

create_accepted :
    (env : Env) (b : ℕ) (players : List (Option ℕ)) (n : ℕ) {g : Game}
    → game_create env b players n ≡ some g
    → MayCreate env b n × (g ≡ new_game env b players n)
unfolding game_create
create_accepted env b players n h = ground arith

module _ (env : Env) (b : ℕ) (players : List (Option ℕ)) (n : ℕ) (m : MayCreate env b n)
    (even : b % 2 ≡ 0) where
  new_game-Sizes : Sizes (new_game env b players n)
  unfolding new_game
  new_game-Sizes =
      let (pairs, _) = even_square b m.board_min m.board_max even in
      record {
        cards_size = length-face_down _ ∙ length-deal env (b * b) (b * b / 2) pairs;
        pairs_size = pairs;
        players_size = length-copy_players players n 0 (replicate 4 none);
        scores_size = refl;
        ready_size = refl;
        count_max = m.count_max;
        current_seated = omega (arith, m.count_min);
      }

  new_game-Counts : Counts (new_game env b players n)
  unfolding new_game
  new_game-Counts =
      let (_, some_pairs) = even_square b m.board_min m.board_max even in
      record {
        matched_cards = none_matched _;
        revealed_cards = none_revealed _;
        scored = omega arith;
        not_begun = λ _. refl;
        not_over = λ _. some_pairs;
        over = λ e. absurd (cc);
      }

  -- How often a value stands on the cards of the new game.
  new_game_values :
      (v : ℕ)
      → tally (in_play v) (new_game env b players n).cards
        ≡ (if ltb 0 v && leb v (b * b / 2) then 2 else 0)
  unfolding new_game
  new_game_values v =
      let (pairs, some_pairs) = even_square b m.board_min m.board_max even in
      tally-face_down v (deal env (b * b) (b * b / 2))
      ∙ tally-deal env (b * b) (b * b / 2) pairs v (omega arith)

  new_game-Paired : Paired (new_game env b players n).cards
  new_game-Paired v = ground (arith, new_game_values v)

  new_game-IsValid : IsValid (new_game env b players n)
  unfolding new_game
  new_game-IsValid = record {
    sizes = new_game-Sizes;
    counts = new_game-Counts;
    flipped = none_up refl refl refl;
    paired = new_game-Paired;
  }

  new_game-Seated :
      ((i : ℕ) → i < n → (c : ℕ) × (get_elem? players i ≡ some (some c)))
      → Seated (new_game env b players n)
  unfolding new_game
  new_game-Seated full i h =
      let (c, e) = full i h in
      (
        c,
        copied players n 0 i (replicate 4 none) (omega arith) (omega arith)
              (omega (arith, m.count_max))
            ∙ (rw (get_or-eq players i none e)),
      )

-- `game_create` answers NULL exactly when the board size is not 4 to 8, the player count is not 2
-- to 4, or an allocation fails.
pub game_create_iff :
    (env : Env) (b : ℕ) (players : List (Option ℕ)) (n : ℕ)
    → ((g : Game) × (game_create env b players n ≡ some g)) ↔ MayCreate env b n
game_create_iff env b players n =
    ((λ h. (create_accepted env b players n h.1).0), (λ m. (_, create_accepts env b players n m)))

pub game_create-IsValid :
    (env : Env) (b : ℕ) (players : List (Option ℕ)) (n : ℕ) {g : Game}
    → b % 2 ≡ 0
    → game_create env b players n ≡ some g
    → IsValid g
      × (g.state ≡ waiting)
      × ((v : ℕ) → tally (in_play v) g.cards ≡ (if ltb 0 v && leb v (b * b / 2) then 2 else 0))
      × (((i : ℕ) → i < n → (c : ℕ) × (get_elem? players i ≡ some (some c))) → Seated g)
game_create-IsValid env b players n even h =
    let (m, e) = create_accepted env b players n h in
    rw e (
      new_game-IsValid env b players n m even,
      (unfold new_game in refl),
      new_game_values env b players n m even,
      new_game-Seated env b players n m even,
    )
