-- ===== src/Game/Flip.antt =====
-- `game_flip_card` of server_src/game.c: when it accepts a flip, and that it keeps a game valid.
use tmwmf_sem_ups.Base.{
  ℕ, ◌+◌, ◌<◌, ◌≡◌, ◌≢◌, ◌↔◌, refl, none, some, length-set, get_elem?, get_or, get_or-eq,
  get_elem?-eq-get_or, get_elem?-set_self, get_elem?-set_ne, set, tally-set, arith, pos, negsuc,
  sym,
}
use tmwmf_sem_ups.Game.{
  hidden, revealed, Card, Game, playing, no_card, reveal, current_player, game_flip_card,
}
use tmwmf_sem_ups.Game.Valid.{
  IsValid, Sizes, Counts, Flipped, none_up, one_up, two_up, Paired, in_play, state_is_matched,
  state_is_revealed,
}

-- What `game_flip_card` asks of the game, the client and the card.
pub record MayFlip (g : Game) (client i : ℕ) : Type 0 where
  pub running : g.state ≡ playing
  pub on_turn : current_player g ≡ some client
  pub one_left : g.flips_this_turn < 2
  pub on_board : i < g.total_cards
  pub face_down : (get_or g.cards i no_card).state ≡ hidden

pub flip_accepts :
    (g : Game) (client i : ℕ)
    → MayFlip g client i
    → game_flip_card g client (pos i) ≡ some (reveal g i)
unfolding game_flip_card
flip_accepts g client i m = ground arith

pub flip_accepted :
    (g : Game) (client i : ℕ) {g' : Game}
    → game_flip_card g client (pos i) ≡ some g'
    → MayFlip g client i × (g' ≡ reveal g i)
unfolding game_flip_card
flip_accepted g client i h = ground arith

-- A flip is accepted exactly when the game is running, it is this client's turn with a flip left,
-- and the index is that of a hidden card; a negative index never is.
pub game_flip_card_iff :
    (g : Game) (client i : ℕ)
    → (((g' : Game) × (game_flip_card g client (pos i) ≡ some g')) ↔ MayFlip g client i)
      × (game_flip_card g client (negsuc i) ≡ none)
unfolding game_flip_card
game_flip_card_iff g client i = (
  ((λ h. (flip_accepted g client i h.1).0), (λ m. (reveal g i, flip_accepts g client i m))),
  ground arith,
)

-- The card at `i`, face up.
abbrev pub shown : Game → ℕ → Card
shown g i = record (get_or g.cards i no_card) { state = revealed }

pub record RevealFields (g : Game) (i : ℕ) (r : Game) : Type 0 where
  pub cards_after : r.cards ≡ set g.cards i (shown g i)
  pub flips_after : r.flips_this_turn ≡ g.flips_this_turn + 1
  pub state_after : r.state ≡ g.state
  pub matched_after : r.matched_pairs ≡ g.matched_pairs
  pub scores_after : r.player_scores ≡ g.player_scores
  pub total_pairs_after : r.total_pairs ≡ g.total_pairs
  pub total_cards_after : r.total_cards ≡ g.total_cards
  pub players_after : r.players ≡ g.players
  pub count_after : r.player_count ≡ g.player_count
  pub ready_after : r.player_ready ≡ g.player_ready
  pub current_after : r.current_player_index ≡ g.current_player_index
  pub first_after : g.flips_this_turn ≡ 0 → r.first_card_index ≡ pos i
  pub second_after :
      g.flips_this_turn ≡ 1
      → (r.first_card_index ≡ g.first_card_index) × (r.second_card_index ≡ pos i)

pub reveal_fields : (g : Game) (i : ℕ) → RevealFields g i (reveal g i)
unfolding reveal
reveal_fields g i = ground arith

module _ (g : Game) (client i : ℕ) (m : MayFlip g client i) (v : IsValid g) where
  at : get_elem? g.cards i ≡ some (get_or g.cards i no_card)
  at = get_elem?-eq-get_or g.cards i no_card (omega (arith, v.sizes.cards_size, m.on_board))

  reveal-Sizes : Sizes (reveal g i)
  reveal-Sizes = ground (arith, v.sizes, reveal_fields g i, length-set g.cards i (shown g i))

  reveal-Counts : Counts (reveal g i)
  reveal-Counts = ground (
    arith,
    v.counts,
    m,
    reveal_fields g i,
    tally-set state_is_matched g.cards i (get_or g.cards i no_card) (shown g i) at,
    tally-set state_is_revealed g.cards i (get_or g.cards i no_card) (shown g i) at,
  )

  reveal-Paired : Paired (reveal g i).cards
  reveal-Paired val = ground (
    arith,
    v.paired val,
    m,
    reveal_fields g i,
    tally-set (in_play val) g.cards i (get_or g.cards i no_card) (shown g i) at,
  )

  get_elem?-shown : get_elem? (set g.cards i (shown g i)) i ≡ some (shown g i)
  get_elem?-shown =
      get_elem?-set_self g.cards i (shown g i) (omega (arith, v.sizes.cards_size, m.on_board))

  -- A card that lies face up is another one than the card turned now.
  apart : (j : ℕ) (a : Card) → get_elem? g.cards j ≡ some a → a.state ≡ revealed → j ≢ i
  apart j a e r p = ground (arith, m.face_down, get_or-eq g.cards j no_card e)

  reveal-Flipped : Flipped g → Flipped (reveal g i)
  unfolding reveal
  reveal-Flipped (none_up f a b) =
      one_up i (shown g i) (ground arith) (ground arith) (ground arith)
        (ground (arith, get_elem?-shown, reveal_fields g i)) refl
  reveal-Flipped (one_up j a f fst snd e r) =
      two_up j i a (shown g i) (apart j a e r) (ground arith) (ground arith) (ground arith)
        (ground (
          arith,
          reveal_fields g i,
          get_elem?-set_ne g.cards i j (shown g i) (λ p. apart j a e r (sym p)),
          e,
        ))
        (ground (arith, get_elem?-shown, reveal_fields g i)) r refl
  reveal-Flipped (two_up j k a b ne f fst snd ea eb ra rb) = absurd (omega (arith, m.one_left))

  reveal-IsValid : IsValid (reveal g i)
  reveal-IsValid = record {
    sizes = reveal-Sizes;
    counts = reveal-Counts;
    flipped = reveal-Flipped v.flipped;
    paired = reveal-Paired;
  }

-- A flip that is accepted keeps the game valid.
pub game_flip_card-IsValid :
    (g : Game) (client i : ℕ) {g' : Game}
    → IsValid g
    → game_flip_card g client (pos i) ≡ some g'
    → IsValid g'
game_flip_card-IsValid g client i v h =
    let (m, e) = flip_accepted g client i h in rw e (reveal-IsValid g client i m v)
