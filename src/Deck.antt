-- ===== src/Deck.antt =====
-- The array of card values of server_src/game.c: `shuffle_array`, and the loop of `game_create`
-- that fills the array with pairs. `rand k` is what the k-th call of `rand` returns.
pub mod Fill
pub mod Shuffle
use tmwmf_sem_ups.Base.{ℕ, zero, suc, ◌+◌, ◌-◌, ◌*◌, ◌%◌, List, [], ◌∷◌, get_or, set}

-- `temp = array[i]; array[i] = array[j]; array[j] = temp`
swap : List ℕ → ℕ → ℕ → List ℕ
swap xs i j = let temp = get_or xs i 0 in set (set xs i (get_or xs j 0)) j temp

module _ (rand : ℕ → ℕ) where
  -- `i` counts down to 1; `k` calls of `rand` were made.
  shuffle_from : ℕ → ℕ → List ℕ → List ℕ
  unfolding swap
  shuffle_from zero k xs = xs
  shuffle_from (suc i) k xs = shuffle_from i (k + 1) (swap xs (suc i) (rand k % (suc i + 1)))

  unfoldable pub shuffle_array : List ℕ → ℕ → List ℕ
  unfolding shuffle_from
  shuffle_array xs size = shuffle_from (size - 1) 0 xs

-- `values[i * 2] = i + 1; values[i * 2 + 1] = i + 1`, for the rounds that are left
unfoldable pub fill_pairs : ℕ → ℕ → List ℕ → List ℕ
fill_pairs zero i xs = xs
fill_pairs (suc n) i xs = fill_pairs n (i + 1) (set (set xs (i * 2) (i + 1)) (i * 2 + 1) (i + 1))

-- A fresh array of `n` words, which `malloc` leaves with any contents.
unfoldable pub malloc_words : (ℕ → ℕ) → ℕ → List ℕ
malloc_words junk zero = []
malloc_words junk (suc n) = junk n ∷ malloc_words junk n
