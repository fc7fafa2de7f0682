-- ===== src/Framing.antt =====
-- The lines that `client_handler_thread` of server_src/client_handler.c cuts from the bytes it
-- receives. What is done with a line, and with one that is too long, is a parameter here.
pub mod Lines
mod Tests
use tmwmf_sem_ups.Base.{ℕ, ◌+◌, ◌-◌, Bool, List, [], ◌∷◌, ◌++◌, length, ltb, ◌==◌, if◌then◌else◌}
use tmwmf_sem_ups.Protocol.{max_message_length}

-- What `line_buffer` holds as a string of C: the bytes before the first NUL.
unfoldable pub c_string : List ℕ → List ℕ
c_string [] = []
c_string (b ∷ s) = let rest = c_string s in if b == 0 then [] else b ∷ rest

module _ {S : Type 0} (handle : S → List ℕ → S) (too_long : S → S) where
  -- The end of a line; an empty line is not handled.
  pub end_line : S → List ℕ → S
  unfolding c_string
  end_line s [] = s
  end_line s (b ∷ line) = handle s (c_string (b ∷ line))

  -- One byte: the state, and the first `line_pos` bytes of `line_buffer`.
  unfoldable pub receive_byte : S × List ℕ → ℕ → S × List ℕ
  unfolding end_line
  receive_byte (s, line) b =
      if b == 10
      then (end_line s line, [])
      else if b == 13
      then (s, line)
      else if ltb (length line) (max_message_length - 1)
      then (s, line ++ (b ∷ []))
      else (too_long s, [])

  -- The loop over the bytes of one `recv`.
  unfoldable pub receive : S × List ℕ → List ℕ → S × List ℕ
  unfolding receive_byte
  receive p [] = p
  receive p (b ∷ bytes) = receive (receive_byte p b) bytes

  -- One `recv` after another.
  unfoldable pub receive_all : S × List ℕ → List (List ℕ) → S × List ℕ
  unfolding receive
  receive_all p [] = p
  receive_all p (chunk ∷ chunks) = receive_all (receive p chunk) chunks
