-- ===== src/Framing/Tests.antt =====
-- Lines at concrete bytes; the state is the list of the lines handled.
use tmwmf_sem_ups.Base.{
  ℕ, zero, suc, ◌≡◌, ◌<◌, refl, List, [], ◌∷◌, ◌++◌, length, replicate, length-replicate, arith,
}
use tmwmf_sem_ups.Protocol.{max_message_length}
use tmwmf_sem_ups.Framing.{receive, receive_all}
use tmwmf_sem_ups.Framing.Lines.{
  IsText, Fits, encode, joined, receive_all-encode, receive_all_bounded, receive_overlong,
}

abbrev log_line : List (List ℕ) → List ℕ → List (List ℕ)
log_line s m = s ++ (m ∷ [])

abbrev log_too_long : List (List ℕ) → List (List ℕ)
log_too_long s = s ++ ([] ∷ [])

-- "READY" and "PONG", in three pieces
abbrev ready : List ℕ
ready = 82 ∷ 69 ∷ 65 ∷ 68 ∷ 89 ∷ []

abbrev pong : List ℕ
pong = 80 ∷ 79 ∷ 78 ∷ 71 ∷ []

abbrev pieces : List (List ℕ)
pieces = (82 ∷ 69 ∷ []) ∷ (65 ∷ 68 ∷ 89 ∷ 10 ∷ 80 ∷ []) ∷ (79 ∷ 78 ∷ 71 ∷ 10 ∷ []) ∷ []

sent : joined pieces ≡ encode (ready ∷ pong ∷ [])
unfolding joined encode
sent = refl

ready-Fits : Fits ready
ready-Fits = ground arith

pong-Fits : Fits pong
pong-Fits = ground arith

receive_all-encode_example :
    receive_all log_line log_too_long ([], []) pieces ≡ (ready ∷ pong ∷ [], [])
receive_all-encode_example =
    receive_all-encode log_line log_too_long [] (ready ∷ pong ∷ []) pieces
      (ready-Fits, (pong-Fits, tt)) sent

receive_all_bounded_example :
    length (receive_all log_line log_too_long ([], []) (replicate 3 (replicate 700 65))).1
    < max_message_length
receive_all_bounded_example =
    receive_all_bounded log_line log_too_long [] (replicate 3 (replicate 700 65))

replicate-IsText : (n : ℕ) → IsText (replicate n 65)
replicate-IsText zero = tt
replicate-IsText (suc n) = (ground arith, replicate-IsText n)

receive_overlong_example :
    receive log_line log_too_long ([], []) (replicate 1023 65 ++ (65 ∷ (pong ++ (10 ∷ []))))
    ≡ ([] ∷ pong ∷ [], [])
receive_overlong_example =
    receive_overlong log_line log_too_long [] (replicate 1023 65) 65 pong (replicate-IsText 1023)
      (length-replicate {A = ℕ} 1023 65) (ground arith) pong-Fits
