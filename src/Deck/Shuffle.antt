-- ===== src/Deck/Shuffle.antt =====
-- `shuffle_array` of server_src/game.c only permutes.
use tmwmf_sem_ups.Base.{
  ℕ, zero, suc, ◌+◌, ◌-◌, ◌%◌, ◌≤◌, ◌<◌, ◌≡◌, refl, ◌∙◌, List, arith, length, length-set, get_elem?,
  get_or, set, get_elem?-eq-get_or, get_elem?-set_self, get_elem?-set_ne, tally, tally-set, some,
  Bool-cases, inl, inr, ◌==◌, ==_iff,
}
use tmwmf_sem_ups.Deck.{swap, shuffle_from, shuffle_array}

-- After the first write of a swap, the second place still holds what it held.
get_elem?-swapped :
    (xs : List ℕ) (i j : ℕ)
    → i < length xs
    → j < length xs
    → get_elem? (set xs i (get_or xs j 0)) j ≡ some (get_or xs j 0)
get_elem?-swapped xs i j hi hj = elim (Bool-cases (i == j)) [
  | inl e ↦
      let same : i ≡ j = (==_iff i j).0 e in rw same (get_elem?-set_self xs j (get_or xs j 0) hj)
  | inr e ↦ get_elem?-set_ne xs i j (get_or xs j 0) (ground arith) ∙ get_elem?-eq-get_or xs j 0 hj
]

length-swap : (xs : List ℕ) (i j : ℕ) → length (swap xs i j) ≡ length xs
unfolding swap
length-swap xs i j =
    length-set (set xs i (get_or xs j 0)) j (get_or xs i 0) ∙ length-set xs i (get_or xs j 0)

tally-swap :
    (w : ℕ → ℕ) (xs : List ℕ) (i j : ℕ)
    → i < length xs
    → j < length xs
    → tally w (swap xs i j) ≡ tally w xs
unfolding swap
tally-swap w xs i j hi hj = omega (
  arith,
  tally-set w xs i (get_or xs i 0) (get_or xs j 0) (get_elem?-eq-get_or xs i 0 hi),
  tally-set w (set xs i (get_or xs j 0)) j (get_or xs j 0) (get_or xs i 0)
      (get_elem?-swapped xs i j hi hj),
)

module _ (rand : ℕ → ℕ) where
  length-shuffle_from : (i k : ℕ) (xs : List ℕ) → length (shuffle_from rand i k xs) ≡ length xs
  unfolding shuffle_from
  length-shuffle_from zero k xs = refl
  length-shuffle_from (suc i) k xs =
      length-shuffle_from i (k + 1) (swap xs (suc i) (rand k % (suc i + 1)))
      ∙ length-swap xs (suc i) (rand k % (suc i + 1))

  tally-shuffle_from :
      (w : ℕ → ℕ) (i k : ℕ) (xs : List ℕ)
      → i < length xs
      → tally w (shuffle_from rand i k xs) ≡ tally w xs
  unfolding shuffle_from
  tally-shuffle_from w zero k xs h = refl
  tally-shuffle_from w (suc i) k xs h =
      let j : ℕ = rand k % (suc i + 1) in
      let small : j < suc i + 1 = omega arith in
      tally-shuffle_from w i (k + 1) (swap xs (suc i) j) (omega (arith, length-swap xs (suc i) j))
      ∙ tally-swap w xs (suc i) j h (omega arith)

  pub length-shuffle_array : (xs : List ℕ) (n : ℕ) → length (shuffle_array rand xs n) ≡ length xs
  unfolding shuffle_array
  length-shuffle_array xs n = length-shuffle_from (n - 1) 0 xs

  -- Every weight has the same sum over the shuffled array as over the array: each value stays, and
  -- as often.
  pub tally-shuffle_array :
      (w : ℕ → ℕ) (xs : List ℕ) (size : ℕ)
      → 0 < size
      → size ≤ length xs
      → tally w (shuffle_array rand xs size) ≡ tally w xs
  unfolding shuffle_array
  tally-shuffle_array w xs size h hs = tally-shuffle_from w (size - 1) 0 xs (omega arith)
