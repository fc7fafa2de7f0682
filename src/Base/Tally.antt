-- ===== src/Base/Tally.antt =====
-- The sum of a weight over a list. With a weight of 0 or 1 it counts; it does not see the order.
use Prim.Native.Nat.{ℕ, zero, suc, ◌+◌, ◌*◌, ◌≤◌, ◌<◌}
use mathlib.Core.Path.{◌≡◌, refl, ap}
use mathlib.Core.Logic.{◌≢◌, ◌⊎◌, inl, inr}
use mathlib.Core.List.{List, [], ◌∷◌, ◌++◌}
use mathlib.Core.Option.{Option, none, some}
use native.Mathlib.Omega.{arith}
use tmwmf_sem_ups.Base.Lists.{length, get_elem?, get_or, set, replicate}

module _ {ℓ} {A : Type ℓ} where
  abbrev pub tally : (A → ℕ) → List A → ℕ
  tally w [] = 0
  tally w (x ∷ xs) = w x + tally w xs

module _ {ℓ} {A : Type ℓ} (w : A → ℕ) where
  -- A write exchanges the weight of the old entry for that of the new one.
  pub tally-set :
      (xs : List A) (i : ℕ) (old new : A)
      → get_elem? xs i ≡ some old
      → tally w (set xs i new) + w old ≡ tally w xs + w new
  tally-set [] i old new h = absurd (cc)
  tally-set (x ∷ xs) zero old new h = omega (arith, ap w (some_eq h))
    where
      some_eq : some x ≡ some old → x ≡ old
      some_eq e = cc
  tally-set (x ∷ xs) (suc i) old new h = omega (arith, tally-set xs i old new h)

  pub tally-append : (xs ys : List A) → tally w (xs ++ ys) ≡ tally w xs + tally w ys
  tally-append [] ys = omega arith
  tally-append (x ∷ xs) ys = omega (arith, tally-append xs ys)

  pub tally-replicate : (n : ℕ) (a : A) → tally w (replicate n a) ≡ n * w a
  tally-replicate zero a = omega arith
  tally-replicate (suc n) a = grind (arith, tally-replicate n a)

  -- A positive tally has an entry of positive weight.
  pub tally_witness :
      (xs : List A) → 0 < tally w xs → (i : ℕ) × (x : A) × (get_elem? xs i ≡ some x) × (0 < w x)
  tally_witness [] h = elim h [ ]
  tally_witness (x ∷ xs) h = elim (split (w x) refl) [
    | inl p ↦ (0, x, refl, p)
    | inr z ↦ let (i, y, e, p) = tally_witness xs (omega arith) in (suc i, y, e, p)
  ]
    where
      split : (n : ℕ) → w x ≡ n → (0 < w x) ⊎ (w x ≡ 0)
      split zero e = inr e
      split (suc n) e = inl (omega arith)

  pub le-tally : (xs : List A) (i : ℕ) (x : A) → get_elem? xs i ≡ some x → w x ≤ tally w xs
  le-tally [] i x h = absurd (cc)
  le-tally (y ∷ xs) zero x h = omega (arith, ap w (some_eq h))
    where
      some_eq : some y ≡ some x → y ≡ x
      some_eq e = cc
  le-tally (y ∷ xs) (suc i) x h = omega (arith, le-tally xs i x h)

-- A slot holds an address, or NULL.
abbrev pub occupied : Option ℕ → ℕ
occupied none = 0
occupied (some _) = 1

-- As many slots are occupied as there are in a full prefix, and more only behind it.
pub le-tally-occupied :
    (m : ℕ) (slots : List (Option ℕ))
    → m ≤ length slots
    → ((k : ℕ) → k < m → get_or slots k none ≢ none)
    → m ≤ tally occupied slots
le-tally-occupied zero slots h all = omega arith
le-tally-occupied (suc m) [] h all = elim h [ ]
le-tally-occupied (suc m) (none ∷ slots) h all = absurd (all 0 (omega arith) refl)
le-tally-occupied (suc m) (some c ∷ slots) h all =
    omega (arith, le-tally-occupied m slots (omega arith) (λ k lt. all (suc k) (omega arith)))

pub tally-occupied-le :
    (m : ℕ) (slots : List (Option ℕ))
    → ((k : ℕ) → m ≤ k → get_or slots k none ≡ none)
    → tally occupied slots ≤ m
tally-occupied-le m [] empty = omega arith
tally-occupied-le zero (x ∷ slots) empty = omega (
  arith,
  ap occupied (empty 0 (omega arith)),
  tally-occupied-le zero slots (λ k h. empty (suc k) (omega arith)),
)
tally-occupied-le (suc m) (none ∷ slots) empty =
    omega (arith, tally-occupied-le m slots (λ k h. empty (suc k) (omega arith)))
tally-occupied-le (suc m) (some c ∷ slots) empty =
    omega (arith, tally-occupied-le m slots (λ k h. empty (suc k) (omega arith)))
