-- ===== src/Room/Slots.antt =====
-- The search of server_src/room.c for a free slot, among the rooms or among the players of a room.
use tmwmf_sem_ups.Base.{
  split_le, ℕ, zero, suc, ◌+◌, ◌≤◌, ◌<◌, ◌≡◌, ◌≢◌, refl, inl, inr, Option, none, some, List, get_or,
  arith, Bool-cases, is_null, true, false,
}
use tmwmf_sem_ups.Room.{find_free}

-- What the search finds: the first slot from `i` on that is NULL, or that no slot is.
abbrev pub FirstFree : ℕ → ℕ → List (Option ℕ) → Option ℕ → Type 0
FirstFree n i slots none = (k : ℕ) → i ≤ k → k < i + n → get_or slots k none ≢ none
FirstFree n i slots (some k) =
    (i ≤ k)
    × (k < i + n)
    × (get_or slots k none ≡ none)
    × ((j : ℕ) → i ≤ j → j < k → get_or slots j none ≢ none)

is_null_iff : (p : Option ℕ) → is_null p ≡ true → p ≡ none
is_null_iff none h = refl
is_null_iff (some c) h = absurd (cc)

is_null_not : (p : Option ℕ) → is_null p ≡ false → p ≢ none
is_null_not p h e = ground arith

FirstFree-suc :
    (n i : ℕ) (slots : List (Option ℕ)) (r : Option ℕ)
    → get_or slots i none ≢ none
    → FirstFree n (i + 1) slots r
    → FirstFree (suc n) i slots r
FirstFree-suc n i slots none taken rest = λ k lo hi. elim (split_le i k lo) [
  | inl e ↦ rw (← e) taken
  | inr later ↦ rest k later (omega arith)
]
FirstFree-suc n i slots (some k) taken (lo, hi, e, before) = (
  omega arith,
  omega arith,
  e,
  λ j jlo jhi. elim (split_le i j jlo) [ inl p ↦ rw (← p) taken | inr later ↦ before j later jhi ],
)

pub find_free-FirstFree :
    (n i : ℕ) (slots : List (Option ℕ)) → FirstFree n i slots (find_free n i slots)
unfolding find_free
find_free-FirstFree zero i slots = λ k lo hi. absurd (omega arith)
find_free-FirstFree (suc n) i slots = elim (Bool-cases (is_null (get_or slots i none))) [
  | inl t ↦ rw t (
    omega arith,
    omega arith,
    is_null_iff (get_or slots i none) t,
    λ j lo hi. absurd (omega arith),
  )
  | inr f ↦ rw f (
      FirstFree-suc n i slots _ (is_null_not (get_or slots i none) f)
        (find_free-FirstFree n (i + 1) slots))
]
