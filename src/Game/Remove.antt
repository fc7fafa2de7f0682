-- ===== src/Game/Remove.antt =====
-- `game_remove_player` of server_src/game.c: it closes the gap in the seats, keeps the game valid,
-- and hands the turn on, rightly in all cases but one.
use native.Mathlib.Nat.{mod-eq_of_lt}
use tmwmf_sem_ups.Base.{
  ℕ, ◌+◌, ◌-◌, ◌%◌, ◌≤◌, ◌<◌, ◌≡◌, ◌≢◌, refl, ◌⊎◌, inl, inr, none, some, get_elem?, get_or,
  get_or-eq, get_elem?-eq-get_or, arith, sym, ◌∙◌, ap, Option-cases, false, if◌then◌else◌, ◌==◌,
  Bool-cases, subst,
}
use tmwmf_sem_ups.Game.{
  Game, find_player, remove_at, adjust_current, current_player, game_remove_player,
}
use tmwmf_sem_ups.Game.Valid.{
  IsValid, Sizes, Counts, Flipped, none_up, one_up, two_up, Seated, itself,
}
use tmwmf_sem_ups.Game.Seats.{
  FirstSeat, find_player-FirstSeat, length-close_gap, close_gap_before, close_gap_from,
  tally-close_gap,
}

adjust_current-lt : (current n index : ℕ) → 1 ≤ n → adjust_current current n index < n
unfolding adjust_current
adjust_current-lt current n index h = ground arith

module _ (g : Game) (index : ℕ) (h : index < g.player_count) (v : IsValid g) where
  remove_at-Sizes : 2 ≤ g.player_count → Sizes (remove_at g index)
  unfolding remove_at
  remove_at-Sizes two = omega (
    arith,
    v.sizes,
    length-close_gap none g.player_count index g.players,
    length-close_gap 0 g.player_count index g.player_scores,
    length-close_gap false g.player_count index g.player_ready,
    adjust_current-lt g.current_player_index (g.player_count - 1) index,
  )

  remove_at-Counts : Counts (remove_at g index)
  unfolding remove_at
  remove_at-Counts = ground (
    arith,
    v.counts,
    tally-close_gap 0 itself g.player_count index (get_or g.player_scores index 0) g.player_scores
        (get_elem?-eq-get_or g.player_scores index 0 (omega (arith, v.sizes))) h
        (omega (arith, v.sizes)),
  )

  remove_at-Flipped : Flipped g → Flipped (remove_at g index)
  unfolding remove_at
  remove_at-Flipped (none_up a b c) = none_up a b c
  remove_at-Flipped (one_up i a e f k l m) = one_up i a e f k l m
  remove_at-Flipped (two_up i j a b ne f k l m n o p) = two_up i j a b ne f k l m n o p

  remove_at-IsValid : 2 ≤ g.player_count → IsValid (remove_at g index)
  unfolding remove_at
  remove_at-IsValid two = record {
    sizes = remove_at-Sizes two;
    counts = remove_at-Counts;
    flipped = remove_at-Flipped v.flipped;
    paired = v.paired;
  }

  -- A seat of the game after the removal, before the gap and from it on.
  seat_before :
      (k : ℕ) → k < index → get_elem? (remove_at g index).players k ≡ get_elem? g.players k
  unfolding remove_at
  seat_before k lt = close_gap_before none g.player_count index k g.players h lt

  seat_from :
      (k : ℕ)
      → index ≤ k
      → k + 1 < g.player_count
      → get_elem? (remove_at g index).players k ≡ get_elem? g.players (k + 1)
  unfolding remove_at
  seat_from k lo hi =
      close_gap_from none g.player_count index k g.players lo hi (omega (arith, v.sizes))

  remove_at-Seated : Seated g → Seated (remove_at g index)
  unfolding remove_at
  remove_at-Seated s k hk = elim (split k index) [
    | inl lt ↦ let (c, e) = s k (omega arith) in (c, seat_before k lt ∙ e)
    | inr ge ↦ let (c, e) = s (k + 1) (omega arith) in (c, seat_from k ge (omega arith) ∙ e)
  ]
    where
      split : (a b : ℕ) → (a < b) ⊎ (b ≤ a)
      split a b = omega arith

  -- The same, for the player on turn.
  turn_before :
      (k : ℕ)
      → k < index
      → (remove_at g index).current_player_index ≡ k
      → current_player (remove_at g index) ≡ get_or g.players k none
  turn_before k lt e = rw e (
      get_or-eq (remove_at g index).players k none
        (seat_before k lt ∙ get_elem?-eq-get_or g.players k none (omega (arith, v.sizes))))

  turn_from :
      (k : ℕ)
      → index ≤ k
      → k + 1 < g.player_count
      → (remove_at g index).current_player_index ≡ k
      → current_player (remove_at g index) ≡ get_or g.players (k + 1) none
  turn_from k lo hi e = rw e (
      get_or-eq (remove_at g index).players k none
        (seat_from k lo hi ∙ get_elem?-eq-get_or g.players (k + 1) none (omega (arith, v.sizes))))

  current_after :
      (remove_at g index).current_player_index
      ≡ adjust_current g.current_player_index (g.player_count - 1) index
  unfolding remove_at
  current_after = refl

  adjust_keep :
      (k : ℕ)
      → (k < index) ⊎ ((index ≡ k) × (k + 1 < g.player_count))
      → adjust_current k (g.player_count - 1) index ≡ k
  unfolding adjust_current
  adjust_keep k c = ground arith

  adjust_back :
      (k : ℕ)
      → index < k
      → k + 1 < g.player_count
      → adjust_current k (g.player_count - 1) index ≡ k - 1
  unfolding adjust_current
  adjust_back k lo hi = ground arith

  adjust_wrap : (k : ℕ) → k + 1 ≡ g.player_count → adjust_current k (g.player_count - 1) index ≡ 0
  unfolding adjust_current
  adjust_wrap k e = ground arith

  turn_kept :
      (k : ℕ)
      → g.current_player_index ≡ k
      → (k < index) ⊎ ((index < k) × (k + 1 < g.player_count))
      → current_player (remove_at g index) ≡ get_or g.players k none
  turn_kept k e (inl lt) = turn_before k lt (current_after ∙ rw e (adjust_keep k (inl lt)))
  turn_kept k e (inr (lo, hi)) =
      turn_from (k - 1) (omega arith) (omega arith) (current_after ∙ rw e (adjust_back k lo hi))
      ∙ ap (λ n. get_or g.players n none) (omega arith)

  turn_next :
      2 ≤ g.player_count
      → g.current_player_index ≡ index
      → current_player (remove_at g index) ≡ get_or g.players ((index + 1) % g.player_count) none
  turn_next two e = elim (split (index + 1) g.player_count (omega arith)) [
    | inl lt ↦
        turn_from index (omega arith) lt (current_after ∙ rw e (adjust_keep index (inr (refl, lt))))
        ∙ ap (λ n. get_or g.players n none) (sym (mod-eq_of_lt lt))
    | inr last ↦
        turn_before 0 (omega arith) (current_after ∙ rw e (adjust_wrap index last))
        ∙ ap (λ n. get_or g.players n none) (rw last (grind arith))
  ]
    where
      split : (a b : ℕ) → a ≤ b → (a < b) ⊎ (a ≡ b)
      split a b h = omega arith

  turn_lost :
      3 ≤ g.player_count
      → index < g.current_player_index
      → g.current_player_index + 1 ≡ g.player_count
      → current_player (remove_at g index) ≡ get_or g.players (if index == 0 then 1 else 0) none
  turn_lost three lo last = elim (Bool-cases (index == 0)) [
    | inl z ↦ rw z (
        turn_from 0 (ground arith) (omega arith)
          (current_after ∙ adjust_wrap g.current_player_index last))
    | inr nz ↦
        rw nz
          (turn_before 0 (ground arith) (current_after ∙ adjust_wrap g.current_player_index last))
  ]

-- What the call does: nothing for a client that no seat holds; else the first such seat is removed.
remove_cases :
    (g : Game) (client : ℕ)
    → ((find_player g.player_count 0 g.players client ≡ none)
        × (game_remove_player g client ≡ none))
      ⊎ ((index : ℕ) × (find_player g.player_count 0 g.players client ≡ some index)
          × (game_remove_player g client ≡ some (remove_at g index)))
unfolding game_remove_player
remove_cases g client = elim (Option-cases (find_player g.player_count 0 g.players client)) [
  | inl e ↦ inl (e, rw (e, game_remove_player))
  | inr (index, e) ↦ inr (index, e, rw (e, game_remove_player))
]

-- The first seat that holds the client.
abbrev pub SeatOf : Game → ℕ → ℕ → Type 0
SeatOf g client index = FirstSeat g.player_count 0 g.players client (some index)

pub removed :
    (g : Game) (client : ℕ) {g' : Game}
    → game_remove_player g client ≡ some g'
    → (index : ℕ) × SeatOf g client index × (g' ≡ remove_at g index)
removed g client h = elim (remove_cases g client) [
  | inl (_, e) ↦ absurd (cc)
  | inr (index, f, e) ↦ (
    index,
    subst (FirstSeat g.player_count 0 g.players client) f
        (find_player-FirstSeat g.player_count 0 g.players client),
    cc,
  )
]

removed_is :
    (g : Game) (client index : ℕ) {g' : Game}
    → game_remove_player g client ≡ some g'
    → SeatOf g client index
    → g' ≡ remove_at g index
removed_is g client index e seat =
    let (i, first, p) = removed g client e in p ∙ ap (remove_at g) (first_unique i first)
  where
    tri : (a b : ℕ) → (a < b) ⊎ ((a ≡ b) ⊎ (b < a))
    tri a b = omega arith

    first_unique : (i : ℕ) → SeatOf g client i → i ≡ index
    first_unique i first = elim (tri i index) [
      | inl lt ↦ absurd (seat.3 i (omega arith) lt first.2)
      | inr (inl same) ↦ same
      | inr (inr gt) ↦ absurd (first.3 index (omega arith) gt seat.2)
    ]

-- The game after any removal that is not refused, also when some seat is empty.
pub removed-IsValid :
    (g : Game) (client : ℕ) {g' : Game}
    → IsValid g
    → 2 ≤ g.player_count
    → game_remove_player g client ≡ some g'
    → IsValid g'
removed-IsValid g client v two e =
    let (index, (_, h, _, _), f) = removed g client e in
    subst IsValid (sym f) (remove_at-IsValid g index (omega (arith, h)) v two)

pub removed-Seated :
    (g : Game) (client : ℕ) {g' : Game}
    → IsValid g
    → Seated g
    → game_remove_player g client ≡ some g'
    → Seated g'
removed-Seated g client v s e =
    let (index, (_, h, _, _), f) = removed g client e in
    subst Seated (sym f) (remove_at-Seated g index (omega (arith, h)) v s)

-- When a player is removed, the turn stays with the player on turn, or goes to the next one in the
-- circle if it is the player on turn who is removed, provided that the player on turn does not sit
-- in the last seat behind the removed one. The cards, the pairs and the open flips of the turn stay
-- as they are.
pub game_remove_player_turn :
    (g : Game) (client index : ℕ) {g' : Game}
    → IsValid g
    → 2 ≤ g.player_count
    → game_remove_player g client ≡ some g'
    → SeatOf g client index
    → (g.current_player_index ≢ index
        → (index < g.current_player_index → g.current_player_index + 1 < g.player_count)
        → current_player g' ≡ current_player g)
      × (g.current_player_index ≡ index
          → current_player g' ≡ get_or g.players ((index + 1) % g.player_count) none)
      × (g'.cards ≡ g.cards)
      × (g'.matched_pairs ≡ g.matched_pairs)
      × (g'.flips_this_turn ≡ g.flips_this_turn)
      × (g'.first_card_index ≡ g.first_card_index)
game_remove_player_turn g client index v two e seat = rw (removed_is g client index e seat) (
  (λ ne last.
      turn_kept g index (omega (arith, seat.1)) v g.current_player_index refl
        (omega (arith, ne, last))),
  (λ same. turn_next g index (omega (arith, seat.1)) v two same),
  (unfold remove_at in refl),
  (unfold remove_at in refl),
  (unfold remove_at in refl),
  (unfold remove_at in refl),
)

-- When the player on turn sits in the last of three or more seats and a player before that seat is
-- removed, the turn goes to the first remaining seat: to another player, if no two seats hold the
-- same one.
pub game_remove_player_loses_turn :
    (g : Game) (client index : ℕ) {g' : Game}
    → IsValid g
    → 3 ≤ g.player_count
    → game_remove_player g client ≡ some g'
    → SeatOf g client index
    → index < g.current_player_index
    → g.current_player_index + 1 ≡ g.player_count
    → ((j k : ℕ) → j < k → k < g.player_count → get_or g.players j none ≢ get_or g.players k none)
    → (current_player g' ≡ get_or g'.players 0 none) × (current_player g' ≢ current_player g)
game_remove_player_loses_turn g client index v three e seat lo last distinct =
    rw (removed_is g client index e seat) (
      ap (λ n. get_or (remove_at g index).players n none)
          (current_after g index h v ∙ adjust_wrap g index h v g.current_player_index last),
      λ same.
          distinct (if index == 0 then 1 else 0) g.current_player_index (ground arith) (omega arith)
            (sym (turn_lost g index h v three lo last) ∙ same),
    )
  where
    h : index < g.player_count
    h = omega (arith, seat.1)
