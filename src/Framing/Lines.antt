-- ===== src/Framing/Lines.antt =====
-- The lines of `client_handler_thread` in server_src/client_handler.c.
use tmwmf_sem_ups.Base.{
  ℕ, ◌+◌, ◌-◌, ◌<◌, ◌≡◌, ◌≢◌, refl, ◌∙◌, ap, sym, List, [], ◌∷◌, ◌++◌, length, All, arith, subst,
}
use mathlib.Core.List.{append-nil, append_assoc}
use tmwmf_sem_ups.Protocol.{max_message_length}
use tmwmf_sem_ups.Framing.{c_string, end_line, receive_byte, receive, receive_all}

-- Bytes that end no line and no string.
abbrev pub IsText : List ℕ → Type 0
IsText = All (λ b. (b ≢ 0) × (b ≢ 10) × (b ≢ 13))

-- What a client sends: each message with a newline behind it.
unfoldable pub encode : List (List ℕ) → List ℕ
encode [] = []
encode (m ∷ ms) = m ++ (10 ∷ encode ms)

-- All the bytes that have come in, in order.
unfoldable pub joined : List (List ℕ) → List ℕ
joined [] = []
joined (chunk ∷ chunks) = chunk ++ joined chunks

-- A message that is not empty and fits in the buffer with its NUL.
abbrev pub Fits : List ℕ → Type 0
Fits m = IsText m × (0 < length m) × (length m < max_message_length)

snoc_length : (line : List ℕ) (b : ℕ) → length (line ++ (b ∷ [])) ≡ length line + 1
snoc_length [] b = refl
snoc_length (x ∷ line) b = omega (arith, snoc_length line b)

c_string-text : (m : List ℕ) → IsText m → c_string m ≡ m
unfolding c_string
c_string-text [] h = refl
c_string-text (b ∷ m) ((h, _, _), rest) = ground (arith, c_string-text m rest)

module _ {S : Type 0} (handle : S → List ℕ → S) (too_long : S → S) where
  abbrev pub handle_all : S → List (List ℕ) → S
  handle_all s [] = s
  handle_all s (m ∷ ms) = handle_all (handle s m) ms

  -- A byte of a text that the buffer has room for.
  receive_byte-text :
      (s : S) (line : List ℕ) (b : ℕ)
      → b ≢ 10
      → b ≢ 13
      → length line < max_message_length - 1
      → receive_byte handle too_long (s, line) b ≡ (s, line ++ (b ∷ []))
  unfolding receive_byte
  receive_byte-text s line b h k room = ground arith

  receive-text :
      (s : S) (line m rest : List ℕ)
      → IsText m
      → length line + length m < max_message_length
      → receive handle too_long (s, line) (m ++ rest) ≡ receive handle too_long (s, line ++ m) rest
  unfolding receive
  receive-text s line [] rest h room =
      ap (λ xs. receive handle too_long (s, xs) rest) (sym (append-nil line))
  receive-text s line (b ∷ m) rest ((_, h, k), text) room =
      ap (λ p. receive handle too_long p (m ++ rest)) (receive_byte-text s line b h k (omega arith))
      ∙ receive-text s (line ++ (b ∷ [])) m rest text (omega (arith, snoc_length line b))
      ∙ ap (λ xs. receive handle too_long (s, xs) rest) (append_assoc line (b ∷ []) m)

  end_line-text :
      (s : S) (m : List ℕ) → IsText m → 0 < length m → end_line handle too_long s m ≡ handle s m
  unfolding end_line
  end_line-text s [] h k = absurd (omega arith)
  end_line-text s (b ∷ m) h k = ap (handle s) (c_string-text (b ∷ m) h)

  -- A newline ends the line.
  receive-newline :
      (s : S) (m rest : List ℕ)
      → Fits m
      → receive handle too_long (s, m) (10 ∷ rest) ≡ receive handle too_long (handle s m, []) rest
  unfolding receive receive_byte
  receive-newline s m rest (text, some_byte, _) =
      ap (λ t. receive handle too_long (t, []) rest) (end_line-text s m text some_byte)

  receive-message :
      (s : S) (m rest : List ℕ)
      → Fits m
      → receive handle too_long (s, []) (m ++ (10 ∷ rest))
        ≡ receive handle too_long (handle s m, []) rest
  receive-message s m rest (text, some_byte, fits) =
      receive-text s [] m (10 ∷ rest) text (omega arith)
      ∙ receive-newline s m rest (text, some_byte, fits)

  receive-encode :
      (s : S) (ms : List (List ℕ))
      → All Fits ms
      → receive handle too_long (s, []) (encode ms) ≡ (handle_all s ms, [])
  unfolding encode receive
  receive-encode s [] h = refl
  receive-encode s (m ∷ ms) (fits, rest) =
      receive-message s m (encode ms) fits ∙ receive-encode (handle s m) ms rest

  receive-append :
      (p : S × List ℕ) (xs ys : List ℕ)
      → receive handle too_long p (xs ++ ys)
        ≡ receive handle too_long (receive handle too_long p xs) ys
  unfolding receive
  receive-append p [] ys = refl
  receive-append p (b ∷ xs) ys = receive-append (receive_byte handle too_long p b) xs ys

  receive_all-joined :
      (p : S × List ℕ) (chunks : List (List ℕ))
      → receive_all handle too_long p chunks ≡ receive handle too_long p (joined chunks)
  unfolding receive_all joined receive
  receive_all-joined p [] = refl
  receive_all-joined p (chunk ∷ chunks) =
      receive_all-joined (receive handle too_long p chunk) chunks
      ∙ sym (receive-append p chunk (joined chunks))

  -- Whatever pieces the messages of a client arrive in, each is handled once, unchanged and in the
  -- order sent, and nothing is left in the buffer. A message is not empty, fits in the buffer and
  -- has no NUL, newline or carriage return; a newline is sent behind each.
  pub receive_all-encode :
      (s : S) (ms : List (List ℕ)) (chunks : List (List ℕ))
      → All Fits ms
      → joined chunks ≡ encode ms
      → receive_all handle too_long (s, []) chunks ≡ (handle_all s ms, [])
  receive_all-encode s ms chunks fits e =
      receive_all-joined (s, []) chunks
      ∙ ap (receive handle too_long (s, [])) e
      ∙ receive-encode s ms fits

  receive_byte-bounded :
      (p : S × List ℕ) (b : ℕ)
      → length p.1 < max_message_length
      → length (receive_byte handle too_long p b).1 < max_message_length
  unfolding receive_byte
  receive_byte-bounded (s, line) b h = ground (arith, snoc_length line b)

  receive-bounded :
      (p : S × List ℕ) (bytes : List ℕ)
      → length p.1 < max_message_length
      → length (receive handle too_long p bytes).1 < max_message_length
  unfolding receive
  receive-bounded p [] h = h
  receive-bounded p (b ∷ bytes) h =
      receive-bounded (receive_byte handle too_long p b) bytes (receive_byte-bounded p b h)

  -- Whatever bytes arrive, `line_pos` stays below the size of `line_buffer`: each byte of a line
  -- is stored inside the array, and so is the NUL at its end.
  pub receive_all_bounded :
      (s : S) (chunks : List (List ℕ))
      → length (receive_all handle too_long (s, []) chunks).1 < max_message_length
  receive_all_bounded s chunks =
      subst (λ (p : S × List ℕ). length p.1 < max_message_length)
        (sym (receive_all-joined (s, []) chunks))
        (receive-bounded (s, []) (joined chunks) (omega arith))

  receive_byte-full :
      (s : S) (line : List ℕ) (b : ℕ)
      → b ≢ 10
      → b ≢ 13
      → length line ≡ max_message_length - 1
      → receive_byte handle too_long (s, line) b ≡ (too_long s, [])
  unfolding receive_byte
  receive_byte-full s line b h k full = ground arith

  -- A line of 1024 bytes or more is not refused as a whole: its first 1024 bytes are dropped and
  -- counted as one error, and a message behind them is handled as if it were a line of its own.
  pub receive_overlong :
      (s : S) (start : List ℕ) (b : ℕ) (m : List ℕ)
      → IsText start
      → length start ≡ max_message_length - 1
      → IsText (b ∷ [])
      → Fits m
      → receive handle too_long (s, []) (start ++ (b ∷ (m ++ (10 ∷ []))))
        ≡ (handle (too_long s) m, [])
  unfolding receive
  receive_overlong s start b m text full ((_, h, k), _) fits =
      receive-text s [] start (b ∷ (m ++ (10 ∷ []))) text (omega arith)
      ∙ ap (λ p. receive handle too_long p (m ++ (10 ∷ []))) (receive_byte-full s start b h k full)
      ∙ receive-message (too_long s) m [] fits
