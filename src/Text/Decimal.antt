-- ===== src/Text/Decimal.antt =====
-- Decimal numbers, as `%d` of the C library writes them into the messages of server_src/ and as
-- server_src/client_handler.c reads them back.
use tmwmf_sem_ups.Base.{
  ℕ, zero, suc, ◌+◌, ◌*◌, ◌/◌, ◌%◌, ◌≤◌, ◌<◌, ◌≡◌, refl, ◌∙◌, ap, sym, subst, inl, inr, true, false,
  List, [], ◌∷◌, ltb, ◌==◌, if◌then◌else◌, Bool-cases, arith, pos,
}
use tmwmf_sem_ups.Text.{
  is_space, is_digit, skip_spaces, read_digits, to_long, starts_with_digit, read_signed, after_sign,
  strtol, to_int, atoi,
}

-- The digits of a number in front of a text; the fuel is more than their number.
unfoldable pub digits : ℕ → ℕ → List ℕ → List ℕ
digits zero n rest = rest
digits (suc fuel) n rest =
    let more = digits fuel (n / 10) ((48 + n % 10) ∷ rest) in
    if ltb n 10 then (48 + n) ∷ rest else more

-- The number as a text.
abbrev pub print_number : ℕ → List ℕ
print_number n = digits (n + 1) n []

div_facts : (n : ℕ) → 10 ≤ n → (n / 10 * 10 + n % 10 ≡ n) × (n % 10 < 10) × (n / 10 < n)
div_facts n h = omega arith

read_digits_digit :
    (n d : ℕ) (s : List ℕ) → d < 10 → read_digits n ((48 + d) ∷ s) ≡ read_digits (n * 10 + d) s
unfolding read_digits
read_digits_digit n d s h = rw (digit) (ap (λ x. read_digits (n * 10 + x) s) (omega arith))
  where
    digit : is_digit (48 + d) ≡ true
    digit = ground arith

read_digits-digits :
    (fuel n : ℕ) (rest : List ℕ)
    → n < fuel
    → read_digits 0 (digits fuel n rest) ≡ read_digits n rest
unfolding digits
read_digits-digits zero n rest h = absurd (omega arith)
read_digits-digits (suc fuel) n rest h = elim (Bool-cases (ltb n 10)) [
  | inl t ↦
      rw t (read_digits_digit 0 n rest (ground arith) ∙ ap (λ x. read_digits x rest) (omega arith))
  | inr f ↦
      let (whole, small, less) = div_facts n (ground arith) in
      rw f (
        read_digits-digits fuel (n / 10) ((48 + n % 10) ∷ rest) (omega arith)
        ∙ read_digits_digit (n / 10) (n % 10) rest small
        ∙ ap (λ x. read_digits x rest) whole)
]

-- A text that starts with a digit.
abbrev StartsWithDigit : List ℕ → Type 0
StartsWithDigit s = (d : ℕ) × (t : List ℕ) × (d < 10) × (s ≡ (48 + d) ∷ t)

digits-StartsWithDigit :
    (fuel n : ℕ) (rest : List ℕ) → n < fuel → StartsWithDigit (digits fuel n rest)
unfolding digits
digits-StartsWithDigit zero n rest h = absurd (omega arith)
digits-StartsWithDigit (suc fuel) n rest h = elim (Bool-cases (ltb n 10)) [
  | inl t ↦ rw t (n, rest, ground arith, refl)
  | inr f ↦
      let (_, _, less) = div_facts n (ground arith) in
      rw f (digits-StartsWithDigit fuel (n / 10) ((48 + n % 10) ∷ rest) (omega arith))
]

-- A number without a sign is read at once.
strtol_digit :
    (d : ℕ) (t : List ℕ)
    → d < 10
    → (strtol ((48 + d) ∷ t)).0 ≡ to_long false (read_digits 0 ((48 + d) ∷ t)).0
unfolding strtol skip_spaces after_sign read_signed starts_with_digit
strtol_digit d t h = rw (no_space, no_minus, no_plus, digit) refl
  where
    no_space : is_space (48 + d) ≡ false
    no_space = ground arith

    no_minus : ((48 + d) == 45) ≡ false
    no_minus = ground arith

    no_plus : ((48 + d) == 43) ≡ false
    no_plus = ground arith

    digit : is_digit (48 + d) ≡ true
    digit = ground arith

strtol-StartsWithDigit :
    (s : List ℕ) → StartsWithDigit s → (strtol s).0 ≡ to_long false (read_digits 0 s).0
strtol-StartsWithDigit s (d, t, h, e) =
    subst (λ x. (strtol x).0 ≡ to_long false (read_digits 0 x).0) (sym e) (strtol_digit d t h)

-- `atoi` reads back every number that `%d` writes, as long as it is an `int`.
pub atoi-print_number : (n : ℕ) → n < 2147483648 → atoi (print_number n) ≡ pos n
unfolding atoi
atoi-print_number n h =
    ap to_int (
      strtol-StartsWithDigit (print_number n) (digits-StartsWithDigit (n + 1) n [] (omega arith))
      ∙ ap (λ (p : ℕ × List ℕ). to_long false p.0) (read_digits-digits (n + 1) n [] (omega arith)))
    ∙ ground arith
