-- ===== src/Deck/Fill.antt =====
-- The loop of `game_create` in server_src/game.c that fills the values: each value twice.
use mathlib.Core.List.{append_assoc}
use tmwmf_sem_ups.Base.{
  ℕ, zero, suc, ◌+◌, ◌*◌, ◌≡◌, refl, ap, ◌∙◌, sym, List, [], ◌∷◌, ◌++◌, arith, length,
  length-append, set, set-append, tally, ◌==◌, leb, ltb, ◌&&◌, if◌then◌else◌,
}
use tmwmf_sem_ups.Deck.{fill_pairs, malloc_words}

-- i + 1, i + 1, i + 2, i + 2, …, i + n, i + n
abbrev pub pairs_from : ℕ → ℕ → List ℕ
pairs_from zero i = []
pairs_from (suc n) i = (i + 1) ∷ (i + 1) ∷ pairs_from n (i + 1)

pub length-malloc_words : (junk : ℕ → ℕ) (n : ℕ) → length (malloc_words junk n) ≡ n
unfolding malloc_words
length-malloc_words junk zero = refl
length-malloc_words junk (suc n) = ap suc (length-malloc_words junk n)

-- One round, past the prefix that earlier rounds wrote.
fill_round :
    (done : List ℕ) (a b : ℕ) (rest : List ℕ) (i v : ℕ)
    → length done ≡ i * 2
    → set (set (done ++ (a ∷ b ∷ rest)) (i * 2) v) (i * 2 + 1) v ≡ (done ++ (v ∷ v ∷ [])) ++ rest
fill_round done a b rest i v e = rw (set-append done a (b ∷ rest) (i * 2) v (sym e)) (
    rw (← append_assoc done (v ∷ []) (b ∷ rest)) (
      set-append (done ++ (v ∷ [])) b rest (i * 2 + 1) v
        (omega (arith, length-append done (v ∷ [])))
      ∙ regroup))
  where
    regroup : (done ++ (v ∷ [])) ++ (v ∷ rest) ≡ (done ++ (v ∷ v ∷ [])) ++ rest
    regroup = simp append_assoc

fill_pairs-append :
    (n i : ℕ) (done rest : List ℕ)
    → length done ≡ i * 2
    → length rest ≡ n * 2
    → fill_pairs n i (done ++ rest) ≡ done ++ pairs_from n i
unfolding fill_pairs
fill_pairs-append zero i done [] e f = refl
fill_pairs-append zero i done (a ∷ rest) e f = absurd (omega arith)
fill_pairs-append (suc n) i done [] e f = absurd (omega arith)
fill_pairs-append (suc n) i done (a ∷ []) e f = absurd (omega arith)
fill_pairs-append (suc n) i done (a ∷ b ∷ rest) e f = rw (fill_round done a b rest i (i + 1) e) (
    fill_pairs-append n (i + 1) (done ++ ((i + 1) ∷ (i + 1) ∷ [])) rest
      (omega (arith, length-append done ((i + 1) ∷ (i + 1) ∷ []))) (omega arith)
    ∙ append_assoc done ((i + 1) ∷ (i + 1) ∷ []) (pairs_from n (i + 1)))

-- The whole loop overwrites an array of 2 n words, whatever it held.
pub fill_pairs_lem : (n : ℕ) (xs : List ℕ) → length xs ≡ n * 2 → fill_pairs n 0 xs ≡ pairs_from n 0
fill_pairs_lem n xs e = fill_pairs-append n 0 [] xs refl e

abbrev pub is_value : ℕ → ℕ → ℕ
is_value v x = if x == v then 1 else 0

-- A value from i + 1 to i + n stands twice among the pairs, any other not at all.
pub tally-pairs_from :
    (v n i : ℕ) → tally (is_value v) (pairs_from n i) ≡ (if ltb i v && leb v (i + n) then 2 else 0)
tally-pairs_from v zero i = ground arith
tally-pairs_from v (suc n) i = ground (arith, tally-pairs_from v n (i + 1))
