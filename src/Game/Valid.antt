-- ===== src/Game/Valid.antt =====
-- What holds of a game between two calls of server_src/game.c.
use tmwmf_sem_ups.Base.{
  ℕ, ◌+◌, ◌*◌, ◌≤◌, ◌<◌, ◌≡◌, ◌≢◌, refl, ◌⊎◌, some, List, length, length-set, get_elem?, get_or-eq,
  get_elem?-set_ne, set, tally, tally-set, arith, ℤ, pos, negsuc, ◌∙◌,
}
use tmwmf_sem_ups.Deck.Fill.{is_value}
use tmwmf_sem_ups.Game.{
  CardState, revealed, matched, Card, Game, waiting, finished, set_state, no_card,
}

abbrev pub state_is_matched : Card → ℕ
state_is_matched c = elim c.state [ matched ↦ 1 | _ ↦ 0 ]

abbrev pub state_is_revealed : Card → ℕ
state_is_revealed c = elim c.state [ revealed ↦ 1 | _ ↦ 0 ]

-- 1 for a card of the value `v` that is still in play.
abbrev pub in_play : ℕ → Card → ℕ
in_play v c = elim c.state [ matched ↦ 0 | _ ↦ is_value v c.value ]

abbrev pub itself : ℕ → ℕ
itself n = n

-- The cards that lie face up in this turn, and the indices that name them.
pub data Flipped (g : Game) : Type 0 where
  none_up :
      g.flips_this_turn ≡ 0
      → g.first_card_index ≡ negsuc 0
      → g.second_card_index ≡ negsuc 0
      → Flipped g
  one_up :
      (i : ℕ) (a : Card)
      → g.flips_this_turn ≡ 1
      → g.first_card_index ≡ pos i
      → g.second_card_index ≡ negsuc 0
      → get_elem? g.cards i ≡ some a
      → a.state ≡ revealed
      → Flipped g
  two_up :
      (i j : ℕ) (a b : Card)
      → i ≢ j
      → g.flips_this_turn ≡ 2
      → g.first_card_index ≡ pos i
      → g.second_card_index ≡ pos j
      → get_elem? g.cards i ≡ some a
      → get_elem? g.cards j ≡ some b
      → a.state ≡ revealed
      → b.state ≡ revealed
      → Flipped g

-- The arrays have the sizes that the loops assume, and the turn is that of a player.
pub record Sizes (g : Game) : Type 0 where
  pub cards_size : length g.cards ≡ g.total_cards
  pub pairs_size : g.total_cards ≡ g.total_pairs * 2
  pub players_size : length g.players ≡ 4
  pub scores_size : length g.player_scores ≡ 4
  pub ready_size : length g.player_ready ≡ 4
  pub count_max : g.player_count ≤ 4
  pub current_seated : g.current_player_index < g.player_count

-- The counters agree with the cards on the table and with the phase of the game.
pub record Counts (g : Game) : Type 0 where
  pub matched_cards : tally state_is_matched g.cards ≡ g.matched_pairs * 2
  pub revealed_cards : tally state_is_revealed g.cards ≡ g.flips_this_turn
  pub scored : tally itself g.player_scores ≤ g.matched_pairs
  pub not_begun : g.state ≡ waiting → g.matched_pairs + g.flips_this_turn ≡ 0
  pub not_over : g.state ≢ finished → g.matched_pairs < g.total_pairs
  pub over : g.state ≡ finished → (g.matched_pairs ≡ g.total_pairs) × (g.flips_this_turn ≡ 0)

-- Every value is on no card in play, or on exactly two.
abbrev pub Paired : List Card → Type 0
Paired cards = (v : ℕ) → (tally (in_play v) cards ≡ 0) ⊎ (tally (in_play v) cards ≡ 2)

pub record IsValid (g : Game) : Type 0 where
  pub sizes : Sizes g
  pub counts : Counts g
  pub flipped : Flipped g
  pub paired : Paired g.cards

-- Every slot below `player_count` holds a player.
abbrev pub Seated : Game → Type 0
Seated g = (i : ℕ) → i < g.player_count → (c : ℕ) × (get_elem? g.players i ≡ some (some c))

pub length-set_state :
    (cards : List Card) (k : ℤ) (s : CardState) → length (set_state cards k s) ≡ length cards
unfolding set_state
length-set_state cards (pos i) s = length-set cards i _
length-set_state cards (negsuc _) s = refl

-- Two cards change their state: every weight changes by those of the two cards.
pub tally-set_state_twice :
    (w : Card → ℕ) (cards : List Card) (i j : ℕ) (a b : Card) (s : CardState)
    → i ≢ j
    → get_elem? cards i ≡ some a
    → get_elem? cards j ≡ some b
    → tally w (set_state (set_state cards (pos i) s) (pos j) s) + w a + w b
      ≡ tally w cards + w (record a { state = s }) + w (record b { state = s })
unfolding set_state
tally-set_state_twice w cards i j a b s ne ha hb = rw (get_or-eq cards i no_card ha) (
    rw (get_or-eq (set cards i a') j no_card still)
      (omega (arith, tally-set w cards i a a' ha, tally-set w (set cards i a') j b b' still)))
  where
    a' : Card
    a' = record a { state = s }

    b' : Card
    b' = record b { state = s }

    still : get_elem? (set cards i a') j ≡ some b
    still = get_elem?-set_ne cards i j a' ne ∙ hb
