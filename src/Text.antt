-- ===== src/Text.antt =====
-- The numbers in the text of a command, as `strtol` and `atoi` of the C library read them in
-- server_src/client_handler.c. A text is the list of its bytes, without the NUL at its end.
pub mod Decimal
use tmwmf_sem_ups.Base.{
  ℕ, zero, suc, ◌+◌, ◌-◌, ◌*◌, ◌%◌, Bool, true, false, ◌&&◌, ◌||◌, List, [], ◌∷◌, ltb, leb, ◌==◌,
  if◌then◌else◌, ℤ, pos, negsuc,
}

abbrev pub is_space : ℕ → Bool
is_space b = b == 32 || (leb 9 b && leb b 13)

abbrev pub is_digit : ℕ → Bool
is_digit b = leb 48 b && leb b 57

unfoldable pub skip_spaces : List ℕ → List ℕ
skip_spaces [] = []
skip_spaces (b ∷ s) = let rest = skip_spaces s in if is_space b then rest else b ∷ s

-- The digits at the start, read into `n`, and what follows them.
unfoldable pub read_digits : ℕ → List ℕ → ℕ × List ℕ
read_digits n [] = (n, [])
read_digits n (b ∷ s) =
    let rest = read_digits (n * 10 + (b - 48)) s in if is_digit b then rest else (n, b ∷ s)

-- The range of `long`, which `strtol` does not leave.
abbrev pub long_max : ℕ
long_max = 9223372036854775807

pub to_long : Bool → ℕ → ℤ
to_long false n = pos (if ltb long_max n then long_max else n)
to_long true zero = pos 0
to_long true (suc n) = negsuc (if ltb long_max n then long_max else n)

unfoldable pub starts_with_digit : List ℕ → Bool
starts_with_digit [] = false
starts_with_digit (b ∷ _) = is_digit b

-- The digits with their sign; without a digit nothing is read, and the end is the start of the
-- text.
pub read_signed : List ℕ → Bool → List ℕ → ℤ × List ℕ
unfolding read_digits to_long starts_with_digit
read_signed whole negative s =
    let (n, rest) = read_digits 0 s in
    if starts_with_digit s then (to_long negative n, rest) else (pos 0, whole)

pub after_sign : List ℕ → List ℕ → ℤ × List ℕ
unfolding read_signed
after_sign whole [] = (pos 0, whole)
after_sign whole (b ∷ s) =
    if b == 45
    then read_signed whole true s
    else if b == 43
    then read_signed whole false s
    else read_signed whole false (b ∷ s)

-- `strtol(s, &endptr, 10)`: the number, and the text from `endptr` on.
unfoldable pub strtol : List ℕ → ℤ × List ℕ
unfolding skip_spaces after_sign
strtol s = after_sign s (skip_spaces s)

-- `(int)` of a `long`: the low 32 bits, in two's complement.
unfoldable pub to_int : ℤ → ℤ
to_int (pos n) =
    let low : ℕ = n % 4294967296 in
    if ltb low 2147483648 then pos low else negsuc (4294967295 - low)
to_int (negsuc n) =
    let low : ℕ = n % 4294967296 in
    if ltb low 2147483648 then negsuc low else pos (4294967295 - low)

unfoldable pub atoi : List ℕ → ℤ
unfolding strtol to_int
atoi s = to_int (strtol s).0
