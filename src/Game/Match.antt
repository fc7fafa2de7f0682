-- ===== src/Game/Match.antt =====
-- `game_check_match` of server_src/game.c: it reads no card outside the board, keeps the game
-- valid, and scores or passes the turn.
use tmwmf_sem_ups.Base.{
  ℕ, ◌+◌, ◌<◌, ◌≡◌, ◌≢◌, refl, inl, inr, some, length, length-set, get_elem?, get_or,
  get_elem?-eq-get_or, tally, tally-set, arith, pos, ◌∙◌, if◌then◌else◌, ◌==◌, Bool, true, false,
  Bool-cases,
}
use tmwmf_sem_ups.Game.{
  CardState, hidden, revealed, matched, Card, Game, finished, set_state, score_match, pass_turn,
  game_check_match,
}
use tmwmf_sem_ups.Game.Valid.{
  IsValid, Sizes, Counts, Flipped, none_up, one_up, two_up, Paired, in_play, itself,
  state_is_matched, state_is_revealed, length-set_state, tally-set_state_twice,
}

-- Cards `i` and `j` lie face up, and are all that this turn has turned.
record BothUp (g : Game) (i j : ℕ) (a b : Card) : Type 0 where
  apart : i ≢ j
  flips : g.flips_this_turn ≡ 2
  first : g.first_card_index ≡ pos i
  second : g.second_card_index ≡ pos j
  first_card : get_elem? g.cards i ≡ some a
  second_card : get_elem? g.cards j ≡ some b
  first_up : a.state ≡ revealed
  second_up : b.state ≡ revealed

check_match_lem :
    (g : Game) (i j : ℕ) (a b : Card)
    → BothUp g i j a b
    → game_check_match g
      ≡ (if a.value == b.value then some (score_match g, true) else some (pass_turn g, false))
unfolding game_check_match
check_match_lem g i j a b u = ground arith

module _ (g : Game) (i j : ℕ) (a b : Card) (u : BothUp g i j a b) (v : IsValid g) where
  -- The cards after both have been given the state `s`.
  both_set :
      (w : Card → ℕ) (s : CardState)
      → tally w (set_state (set_state g.cards g.first_card_index s) g.second_card_index s)
          + w a
          + w b
        ≡ tally w g.cards + w (record a { state = s }) + w (record b { state = s })
  both_set w s =
      rw (u.first, u.second)
        (tally-set_state_twice w g.cards i j a b s u.apart u.first_card u.second_card)

  length-both_set :
      (s : CardState)
      → length (set_state (set_state g.cards g.first_card_index s) g.second_card_index s)
        ≡ length g.cards
  length-both_set s =
      length-set_state (set_state g.cards g.first_card_index s) g.second_card_index s
      ∙ length-set_state g.cards g.first_card_index s

  score : ℕ
  score = get_or g.player_scores g.current_player_index 0

  score_at :
      get_elem? g.player_scores g.current_player_index
      ≡ some (get_or g.player_scores g.current_player_index 0)
  score_at = get_elem?-eq-get_or g.player_scores g.current_player_index 0 (omega (arith, v.sizes))

  not_finished : g.state ≢ finished
  not_finished e = omega (arith, (v.counts.over e).1, u.flips)

  score_match-Sizes : Sizes (score_match g)
  unfolding score_match
  score_match-Sizes = ground (
    arith,
    v.sizes,
    length-both_set matched,
    length-set g.player_scores g.current_player_index
        (get_or g.player_scores g.current_player_index 0 + 1),
  )

  score_match-Counts : Counts (score_match g)
  unfolding score_match
  score_match-Counts = ground (
    arith,
    v.counts,
    u,
    v.counts.not_over not_finished,
    not_finished,
    both_set state_is_matched matched,
    both_set state_is_revealed matched,
    tally-set itself g.player_scores g.current_player_index
        (get_or g.player_scores g.current_player_index 0)
        (get_or g.player_scores g.current_player_index 0 + 1) score_at,
  )

  score_match-Paired : a.value ≡ b.value → Paired (score_match g).cards
  unfolding score_match
  score_match-Paired same val = ground (arith, v.paired val, u, both_set (in_play val) matched)

  pass_turn-Sizes : Sizes (pass_turn g)
  unfolding pass_turn
  pass_turn-Sizes = ground (arith, v.sizes, length-both_set hidden)

  pass_turn-Counts : Counts (pass_turn g)
  unfolding pass_turn
  pass_turn-Counts = ground (
    arith,
    v.counts,
    u,
    v.counts.not_over not_finished,
    not_finished,
    both_set state_is_matched hidden,
    both_set state_is_revealed hidden,
  )

  pass_turn-Paired : Paired (pass_turn g).cards
  unfolding pass_turn
  pass_turn-Paired val = ground (arith, v.paired val, u, both_set (in_play val) hidden)

  score_match-IsValid : a.value ≡ b.value → IsValid (score_match g)
  unfolding score_match
  score_match-IsValid same = record {
    sizes = score_match-Sizes;
    counts = score_match-Counts;
    flipped = none_up refl refl refl;
    paired = score_match-Paired same;
  }

  pass_turn-IsValid : IsValid (pass_turn g)
  unfolding pass_turn
  pass_turn-IsValid = record {
    sizes = pass_turn-Sizes;
    counts = pass_turn-Counts;
    flipped = none_up refl refl refl;
    paired = pass_turn-Paired;
  }

-- The call after two flips: which of the two outcomes, and the game that it leaves.
check_match_two :
    (g : Game) (i j : ℕ) (a b : Card)
    → BothUp g i j a b
    → IsValid g
    → (g' : Game) × (m : Bool) × (game_check_match g ≡ some (g', m)) × IsValid g'
check_match_two g i j a b u v = elim (Bool-cases (a.value == b.value)) [
  | inl e ↦ (
    score_match g,
    true,
    check_match_lem g i j a b u ∙ (rw e),
    score_match-IsValid g i j a b u v (ground arith),
  )
  | inr e ↦
      (pass_turn g, false, check_match_lem g i j a b u ∙ (rw e), pass_turn-IsValid g i j a b u v)
]

check_match_early : (g : Game) → g.flips_this_turn < 2 → game_check_match g ≡ some (g, false)
unfolding game_check_match
check_match_early g h = ground arith

check_match_total :
    (g : Game)
    → IsValid g
    → Flipped g
    → (g' : Game) × (m : Bool) × (game_check_match g ≡ some (g', m)) × IsValid g'
check_match_total g v (none_up f p q) = (g, false, check_match_early g (omega arith), v)
check_match_total g v (one_up i a f p q e r) = (g, false, check_match_early g (omega arith), v)
check_match_total g v (two_up i j a b ne f fst snd ea eb ra rb) =
    check_match_two g i j a b
      (record {
        apart = ne;
        flips = f;
        first = fst;
        second = snd;
        first_card = ea;
        second_card = eb;
        first_up = ra;
        second_up = rb;
      })
      v

-- In a valid game `game_check_match` reads no card outside the board, and it leaves a valid game.
pub game_check_match-IsValid :
    (g : Game)
    → IsValid g
    → (g' : Game) × (m : Bool) × (game_check_match g ≡ some (g', m)) × IsValid g'
game_check_match-IsValid g v = check_match_total g v v.flipped
