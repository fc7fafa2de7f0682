-- ===== src/Base/Int.antt =====
-- Signed integers, as far as the program needs them: `negsuc n` is -(n + 1).
use Prim.Native.Nat.{ℕ}
use mathlib.Core.Bool.{Bool, true, false}
use mathlib.Core.List.{List}
use mathlib.Core.Option.{Option, none}
use tmwmf_sem_ups.Base.Lists.{get_elem?}

pub data ℤ : Type 0 where
  pos : ℕ → ℤ
  negsuc : ℕ → ℤ

-- `array[i]`; `none` is an access out of range.
abbrev pub index? {ℓ} : {A : Type ℓ} → List A → ℤ → Option A
index? xs (pos i) = get_elem? xs i
index? xs (negsuc _) = none

abbrev pub is_negative : ℤ → Bool
is_negative (pos _) = false
is_negative (negsuc _) = true
