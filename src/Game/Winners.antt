-- ===== src/Game/Winners.antt =====
-- `game_get_winners` of server_src/game.c: exactly the players with the best score.
use tmwmf_sem_ups.Base.{
  ℕ, zero, suc, ◌+◌, ◌≤◌, ◌<◌, ◌≡◌, refl, ◌⊎◌, inl, inr, Option, none, some, List, get_elem?,
  get_or, arith, sym, if◌then◌else◌, ◌==◌, ltb, Bool-cases, ==_iff,
}
use tmwmf_sem_ups.Game.{Game, finished, max_score, collect, game_get_winners}

-- The score that the loop finds is no less than any score it has seen, and is one of them unless it
-- is the start.
module _ (scores : List ℕ) where
  max_score-ge : (n i best : ℕ) → best ≤ max_score n i scores best
  unfolding max_score
  max_score-ge zero i best = omega arith
  max_score-ge (suc n) i best = ground (
    arith,
    max_score-ge n (i + 1) (if ltb best (get_or scores i 0) then get_or scores i 0 else best),
  )

  max_score_bound :
      (n i best k : ℕ) → i ≤ k → k < i + n → get_or scores k 0 ≤ max_score n i scores best
  unfolding max_score
  max_score_bound zero i best k lo hi = absurd (omega arith)
  max_score_bound (suc n) i best k lo hi = elim (split lo) [
    | inl p ↦ max_score_bound n (i + 1) _ k (omega arith) (omega arith)
    | inr p ↦ rw (← p) (
        ground (
          arith,
          max_score-ge n (i + 1) (if ltb best (get_or scores i 0) then get_or scores i 0 else best),
        ))
  ]
    where
      split : i ≤ k → (i < k) ⊎ (i ≡ k)
      split h = omega arith

  max_score_reached :
      (n i best : ℕ)
      → (max_score n i scores best ≡ best)
        ⊎ ((k : ℕ) × (i ≤ k) × (k < i + n) × (get_or scores k 0 ≡ max_score n i scores best))
  unfolding max_score
  max_score_reached zero i best = inl refl
  max_score_reached (suc n) i best = elim (Bool-cases (ltb best (get_or scores i 0))) [
    | inl t ↦ rw t (up (max_score_reached n (i + 1) (get_or scores i 0)))
    | inr f ↦ rw f (same (max_score_reached n (i + 1) best))
  ]
    where
      up :
          (max_score n (i + 1) scores (get_or scores i 0) ≡ get_or scores i 0)
            ⊎ ((k : ℕ) × (i + 1 ≤ k)
                × (k < i + 1 + n)
                × (get_or scores k 0 ≡ max_score n (i + 1) scores (get_or scores i 0)))
          → (max_score n (i + 1) scores (get_or scores i 0) ≡ best)
            ⊎ ((k : ℕ) × (i ≤ k)
                × (k < i + suc n)
                × (get_or scores k 0 ≡ max_score n (i + 1) scores (get_or scores i 0)))
      up (inl e) = inr (i, omega arith, omega arith, sym e)
      up (inr (k, lo, hi, e)) = inr (k, omega arith, omega arith, e)

      same :
          (max_score n (i + 1) scores best ≡ best)
            ⊎ ((k : ℕ) × (i + 1 ≤ k)
                × (k < i + 1 + n)
                × (get_or scores k 0 ≡ max_score n (i + 1) scores best))
          → (max_score n (i + 1) scores best ≡ best)
            ⊎ ((k : ℕ) × (i ≤ k)
                × (k < i + suc n)
                × (get_or scores k 0 ≡ max_score n (i + 1) scores best))
      same (inl e) = inl e
      same (inr (k, lo, hi, e)) = inr (k, omega arith, omega arith, e)

  module _ (players : List (Option ℕ)) (best : ℕ) where
    collect_has :
        (n i k : ℕ)
        → i ≤ k
        → k < i + n
        → get_or scores k 0 ≡ best
        → (p : ℕ) × (get_elem? (collect n i scores players best) p ≡ some (get_or players k none))
    unfolding collect
    collect_has zero i k lo hi e = absurd (omega arith)
    collect_has (suc n) i k lo hi e = elim (split lo) [
      | inl later ↦
          let (p, at) = collect_has n (i + 1) k (omega arith) (omega arith) e in
          elim (Bool-cases (get_or scores i 0 == best)) [
            | inl t ↦ rw t (suc p, at)
            | inr f ↦ rw f (p, at)
          ]
      | inr here ↦ rw here (rw ((==_iff (get_or scores k 0) best).1 e) (0, refl))
    ]
      where
        split : i ≤ k → (i < k) ⊎ (i ≡ k)
        split h = omega arith

    -- The collected entry at `p` is that of a seat with the best score.
    abbrev FromSeat : ℕ → ℕ → Option ℕ → Type 0
    FromSeat n i x =
        (k : ℕ) × (i ≤ k) × (k < i + n) × (x ≡ get_or players k none) × (get_or scores k 0 ≡ best)

    later : (n i : ℕ) (x : Option ℕ) → FromSeat n (i + 1) x → FromSeat (suc n) i x
    later n i x (k, lo, hi, e, b) = (k, omega arith, omega arith, e, b)

    collect_from :
        (n i p : ℕ) (x : Option ℕ)
        → get_elem? (collect n i scores players best) p ≡ some x
        → FromSeat n i x
    unfolding collect
    collect_from zero i p x h = absurd (cc)
    collect_from (suc n) i zero x h = elim (Bool-cases (get_or scores i 0 == best)) [
      | inl t ↦
          let e : some (get_or players i none) ≡ some x = rw t at h in
          (i, omega arith, omega arith, (cc), (==_iff (get_or scores i 0) best).0 t)
      | inr f ↦ later n i x (collect_from n (i + 1) zero x (rw f at h))
    ]
    collect_from (suc n) i (suc p) x h = elim (Bool-cases (get_or scores i 0 == best)) [
      | inl t ↦ later n i x (collect_from n (i + 1) p x (rw t at h))
      | inr f ↦ later n i x (collect_from n (i + 1) (suc p) x (rw f at h))
    ]

-- Seat `k` has the best score of the game.
abbrev pub IsBest : Game → ℕ → Type 0
IsBest g k =
    (k < g.player_count)
    × ((j : ℕ) → j < g.player_count → get_or g.player_scores j 0 ≤ get_or g.player_scores k 0)

module _ (g : Game) (over : g.state ≡ finished) where
  top : ℕ
  top = max_score g.player_count 0 g.player_scores 0

  winners_lem : game_get_winners g ≡ collect g.player_count 0 g.player_scores g.players top
  unfolding game_get_winners top
  winners_lem = rw (over, game_get_winners)

  -- A seat holds the maximum exactly when no seat has more.
  top_of_IsBest : (k : ℕ) → IsBest g k → get_or g.player_scores k 0 ≡ top
  unfolding top
  top_of_IsBest k (h, all) = elim (max_score_reached g.player_scores g.player_count 0 0) [
    | inl z ↦
        omega
          (arith, max_score_bound g.player_scores g.player_count 0 0 k (omega arith) (omega arith))
    | inr (j, lo, hi, e) ↦ omega (
      arith,
      e,
      all j (omega arith),
      max_score_bound g.player_scores g.player_count 0 0 k (omega arith) (omega arith),
    )
  ]

  IsBest-of_top : (k : ℕ) → k < g.player_count → get_or g.player_scores k 0 ≡ top → IsBest g k
  unfolding top
  IsBest-of_top k h e = (
    h,
    λ j hj.
        omega
          (arith, max_score_bound g.player_scores g.player_count 0 0 j (omega arith) (omega arith)),
  )

-- In a finished game the winners are the players of exactly those seats whose score no seat
-- exceeds: each such seat's player is among them, and each of them has such a seat.
pub game_get_winners-IsBest :
    (g : Game)
    → g.state ≡ finished
    → ((k : ℕ)
        → IsBest g k
        → (p : ℕ) × (get_elem? (game_get_winners g) p ≡ some (get_or g.players k none)))
      × ((p : ℕ) (x : Option ℕ)
          → get_elem? (game_get_winners g) p ≡ some x
          → (k : ℕ) × IsBest g k × (x ≡ get_or g.players k none))
game_get_winners-IsBest g over = rw (winners_lem g over) (
  (λ k b.
      collect_has g.player_scores g.players (top g over) g.player_count 0 k (omega arith)
        (omega (arith, b.0)) (top_of_IsBest g over k b)),
  (λ p x h.
      let (k, lo, hi, e, t) =
        collect_from g.player_scores g.players (top g over) g.player_count 0 p x h in
      (k, IsBest-of_top g over k (omega arith) t, e)),
)
