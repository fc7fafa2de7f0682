-- ===== src/Reconnect/Secret.antt =====
-- `game_format_state_message` of server_src/game.c: what it tells of the cards.
use tmwmf_sem_ups.Base.{
  ℕ, zero, suc, ◌+◌, ◌≤◌, ◌<◌, ◌≡◌, ◌≢◌, refl, ◌↔◌, ◌∙◌, ap, sym, subst, List, ◌∷◌, ◌⊎◌, Option,
  some, some_eq, length, get_or, get_elem?, get_elem?-eq-get_or, get_or-ge, ℤ, pos, negsuc, arith,
  split_le, inl, inr,
}
use tmwmf_sem_ups.Client.{Client, Memory, nickname_at}
use tmwmf_sem_ups.Game.{Game, Card, CardState, hidden, revealed, matched, no_card, current_player}
use tmwmf_sem_ups.World.{game_state}
use tmwmf_sem_ups.Reconnect.{
  state_number, card_number, card_number_at, card_numbers, negate, names_and_scores,
  game_format_state_message,
}

-- The two cards are in the same state, and have the same value unless they are hidden.
abbrev pub SameFace : Card → Card → Type 0
SameFace a b = (a.state ≡ b.state) × (a.state ≢ hidden → a.value ≡ b.value)

same_number : (x : CardState) (n m : ℕ) → (x ≢ hidden → n ≡ m) → state_number x n ≡ state_number x m
unfolding state_number
same_number hidden n m f = refl
same_number revealed n m f = ap negate (f (λ e. absurd (cc)))
same_number matched n m f = ap pos (f (λ e. absurd (cc)))

zero-ne-pos : (n : ℕ) → pos 0 ≡ pos (suc n) → ⊥
zero-ne-pos n e = absurd (omega (arith, ap magnitude e))
  where
    magnitude : ℤ → ℕ
    magnitude (pos k) = k
    magnitude (negsuc k) = 0

cons_eq : {a b : Option ℤ} {xs ys : List (Option ℤ)} → a ∷ xs ≡ b ∷ ys → (a ≡ b) × (xs ≡ ys)
cons_eq e = (cc, cc)

same_face :
    (x y : CardState) (n m : ℕ)
    → 0 < n
    → 0 < m
    → state_number x n ≡ state_number y m
    → (x ≡ y) × (x ≢ hidden → n ≡ m)
unfolding state_number
same_face x y zero m h k e = absurd (omega arith)
same_face x y (suc n) zero h k e = absurd (omega arith)
same_face hidden hidden (suc n) (suc m) h k e = (refl, λ f. absurd (f refl))
same_face hidden revealed (suc n) (suc m) h k e = absurd (cc)
same_face hidden matched (suc n) (suc m) h k e = absurd (zero-ne-pos m e)
same_face revealed hidden (suc n) (suc m) h k e = absurd (cc)
same_face revealed revealed (suc n) (suc m) h k e = (refl, λ f. cc)
same_face revealed matched (suc n) (suc m) h k e = absurd (cc)
same_face matched hidden (suc n) (suc m) h k e = absurd (zero-ne-pos n (sym e))
same_face matched revealed (suc n) (suc m) h k e = absurd (cc)
same_face matched matched (suc n) (suc m) h k e = (refl, λ f. cc)

-- A card with a positive value is an element of the array.
positive_in_range :
    (cards : List Card) (i : ℕ)
    → 0 < (get_or cards i no_card).value
    → card_number_at (get_elem? cards i) ≡ some (card_number (get_or cards i no_card))
unfolding state_number
positive_in_range cards i h = elim (split i (length cards)) [
  | inl lt ↦ ap card_number_at (get_elem?-eq-get_or cards i no_card lt)
  | inr ge ↦
      absurd (omega (arith, h, ap (λ (card : Card). card.value) (get_or-ge cards i no_card ge)))
]
  where
    split : (a b : ℕ) → (a < b) ⊎ (b ≤ a)
    split a b = omega arith

numbers-SameFace :
    (n i : ℕ) (xs ys : List Card)
    → ((k : ℕ) → i ≤ k → k < i + n → 0 < (get_or xs k no_card).value)
    → ((k : ℕ) → i ≤ k → k < i + n → 0 < (get_or ys k no_card).value)
    → ((k : ℕ) → i ≤ k → k < i + n → SameFace (get_or xs k no_card) (get_or ys k no_card))
    → card_numbers n i xs ≡ card_numbers n i ys
unfolding card_numbers
numbers-SameFace zero i xs ys px py same = refl
numbers-SameFace (suc n) i xs ys px py same = cc (
  positive_in_range xs i (px i (omega arith) (omega arith)),
  positive_in_range ys i (py i (omega arith) (omega arith)),
  same_number (get_or xs i no_card).state (get_or xs i no_card).value (get_or ys i no_card).value
        (same i (omega arith) (omega arith)).1
      ∙ ap (λ x. state_number x (get_or ys i no_card).value) (same i (omega arith) (omega arith)).0,
  numbers-SameFace n (i + 1) xs ys (λ k lo hi. px k (omega arith) (omega arith))
      (λ k lo hi. py k (omega arith) (omega arith)) (λ k lo hi. same k (omega arith) (omega arith)),
)

SameFace-numbers :
    (n i : ℕ) (xs ys : List Card)
    → ((k : ℕ) → i ≤ k → k < i + n → 0 < (get_or xs k no_card).value)
    → ((k : ℕ) → i ≤ k → k < i + n → 0 < (get_or ys k no_card).value)
    → card_numbers n i xs ≡ card_numbers n i ys
    → (k : ℕ) → i ≤ k
    → k < i + n
    → SameFace (get_or xs k no_card) (get_or ys k no_card)
unfolding card_numbers
SameFace-numbers zero i xs ys px py e k lo hi = absurd (omega arith)
SameFace-numbers (suc n) i xs ys px py e k lo hi = elim (split_le i k lo) [
  | inl f ↦
      subst (λ q. SameFace (get_or xs q no_card) (get_or ys q no_card)) f
        (same_face (get_or xs i no_card).state (get_or ys i no_card).state
          (get_or xs i no_card).value (get_or ys i no_card).value (px i (omega arith) (omega arith))
          (py i (omega arith) (omega arith))
          (some_eq (
            sym (positive_in_range xs i (px i (omega arith) (omega arith)))
            ∙ (cons_eq e).0
            ∙ positive_in_range ys i (py i (omega arith) (omega arith)))))
  | inr later ↦
      SameFace-numbers n (i + 1) xs ys (λ q a b. px q (omega arith) (omega arith))
        (λ q a b. py q (omega arith) (omega arith)) (cons_eq e).1 k later (omega arith)
]

-- The message says which card is in which state and the values of the cards that are not hidden,
-- and nothing of the hidden ones: for a game and the same game with other cards it is the same
-- exactly when the cards of each index are in the same state and have the same value if they are
-- not hidden. The values are positive.
pub game_format_state_message_iff :
    (mem : Memory Client) (g : Game) (cards : List Card)
    → ((k : ℕ) → k < g.total_cards → 0 < (get_or g.cards k no_card).value)
    → ((k : ℕ) → k < g.total_cards → 0 < (get_or cards k no_card).value)
    → (game_format_state_message mem g ≡ game_format_state_message mem (record g { cards = cards }))
      ↔ ((k : ℕ) → k < g.total_cards → SameFace (get_or g.cards k no_card) (get_or cards k no_card))
unfolding game_format_state_message
game_format_state_message_iff mem g cards px py = (
  λ e k h.
      SameFace-numbers g.total_cards 0 g.cards cards (λ q a b. px q (omega arith))
        (λ q a b. py q (omega arith)) (same_numbers e) k (omega arith) (omega arith),
  λ same.
      ap
        (game_state g.board_size (nickname_at mem (current_player g))
          (names_and_scores mem g.player_count 0 g.players g.player_scores))
        (numbers-SameFace g.total_cards 0 g.cards cards (λ q a b. px q (omega arith))
          (λ q a b. py q (omega arith)) (λ k a b. same k (omega arith))),
)
  where
    same_numbers :
        {b : ℕ} {nick : Option (List ℕ)} {scores : List (Option (List ℕ) × ℕ)}
        {xs ys : List (Option ℤ)}
        → game_state b nick scores xs ≡ game_state b nick scores ys
        → xs ≡ ys
    same_numbers e = cc
