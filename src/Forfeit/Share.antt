-- ===== src/Forfeit/Share.antt =====
-- A forfeit gives away exactly the pairs that are left, among the best of those who remain.
use native.Mathlib.Nat.{div-add-mod, mod-lt}
use mathlib.Core.Path.{subst₂}
use tmwmf_sem_ups.Base.{
  split_le, ℕ, zero, suc, ◌+◌, ◌-◌, ◌*◌, ◌/◌, ◌%◌, ◌≤◌, ◌<◌, ◌≡◌, refl, ◌⊎◌, inl, inr, Bool, true,
  false, ◌&&◌, Option, none, some, List, length, length-set, get_or, get_elem?-eq-get_or,
  get_or-set_ne, set, ltb, if◌then◌else◌, Bool-cases, tally, tally-set, arith, ◌∙◌, sym, ap, subst,
}
use tmwmf_sem_ups.Game.{Game}
use tmwmf_sem_ups.Game.Valid.{itself}
use tmwmf_sem_ups.Forfeit.{
  remains, beats, equals, next_highest, next_count, find_highest, distribute, forfeit_scores,
}

module _ (players : List (Option ℕ)) (client : ℕ) where
  abbrev wins : ℕ → List ℕ → Option ℕ → Bool
  wins k scores highest =
      remains (get_or players k none) client && equals (get_or scores k 0) highest

  -- How many remaining players have the score, from seat `k` on.
  abbrev winners : ℕ → ℕ → List ℕ → Option ℕ → ℕ
  winners zero k scores highest = 0
  winners (suc n) k scores highest =
      (if wins k scores highest then 1 else 0) + winners n (k + 1) scores highest

  winners-set :
      (n k j x : ℕ) (scores : List ℕ) (highest : Option ℕ)
      → j < k
      → winners n k (set scores j x) highest ≡ winners n k scores highest
  winners-set zero k j x scores highest h = refl
  winners-set (suc n) k j x scores highest h = ground (
    arith,
    get_or-set_ne scores j k x 0 (omega arith),
    winners-set n (k + 1) j x scores highest (omega arith),
  )

  -- A write at seat `k` exchanges its score for another.
  raise_score :
      (k x : ℕ) (scores : List ℕ)
      → k < length scores
      → tally itself (set scores k x) + get_or scores k 0 ≡ tally itself scores + x
  raise_score k x scores h =
      tally-set itself scores k (get_or scores k 0) x (get_elem?-eq-get_or scores k 0 h)

  -- What the second loop adds in all.
  tally-distribute :
      (n k : ℕ) (scores : List ℕ) (highest : Option ℕ) (bonus extra : ℕ)
      → k + n ≤ length scores
      → extra ≤ winners n k scores highest
      → tally itself (distribute players client n k scores highest bonus extra)
        ≡ tally itself scores + winners n k scores highest * bonus + extra
  unfolding distribute
  tally-distribute zero k scores highest bonus extra room few = omega arith
  tally-distribute (suc n) k scores highest bonus extra room few =
      elim (Bool-cases (wins k scores highest)) [
        | inl w ↦ elim (Bool-cases (ltb 0 extra)) [
          | inl m ↦
              rw (w, m)
                (ground (
                  arith,
                  w,
                  m,
                  raise_score k (get_or scores k 0 + bonus + 1) scores (omega arith),
                  winners-set n (k + 1) k (get_or scores k 0 + bonus + 1) scores highest
                      (omega arith),
                  length-set scores k (get_or scores k 0 + bonus + 1),
                  tally-distribute n (k + 1) (set scores k (get_or scores k 0 + bonus + 1)) highest
                      bonus (extra - 1),
                ))
          | inr z ↦
              rw (w, z)
                (ground (
                  arith,
                  w,
                  z,
                  raise_score k (get_or scores k 0 + bonus + 0) scores (omega arith),
                  winners-set n (k + 1) k (get_or scores k 0 + bonus + 0) scores highest
                      (omega arith),
                  length-set scores k (get_or scores k 0 + bonus + 0),
                  tally-distribute n (k + 1) (set scores k (get_or scores k 0 + bonus + 0)) highest
                      bonus extra,
                ))
        ]
        | inr l ↦ rw l (ground (arith, l, tally-distribute n (k + 1) scores highest bonus extra))
      ]

  -- Nobody who remains beats the score, from seat `k` on.
  abbrev Unbeaten : ℕ → ℕ → List ℕ → Option ℕ → Type 0
  Unbeaten n k scores highest =
      (j : ℕ)
      → k ≤ j
      → j < k + n
      → remains (get_or players j none) client ≡ true
      → beats (get_or scores j 0) highest ≡ false

  -- The first loop ends with the old maximum and more who have it, or with a higher one and its
  -- count.
  abbrev Highest : ℕ → ℕ → List ℕ → Option ℕ → ℕ → Option ℕ × ℕ → Type 0
  Highest n k scores old count r =
      ((r.0 ≡ old) × (r.1 ≡ count + winners n k scores old) × Unbeaten n k scores old)
      ⊎ ((s : ℕ) × (r.0 ≡ some s)
          × (beats s old ≡ true)
          × (0 < r.1)
          × (r.1 ≡ winners n k scores (some s))
          × Unbeaten n k scores (some s))

  Unbeaten-suc :
      (n k : ℕ) (scores : List ℕ) (highest : Option ℕ)
      → (remains (get_or players k none) client ≡ true → beats (get_or scores k 0) highest ≡ false)
      → Unbeaten n (k + 1) scores highest
      → Unbeaten (suc n) k scores highest
  Unbeaten-suc n k scores highest here rest j lo hi = elim (split_le k j lo) [
    | inl e ↦
        subst
          (λ j.
            remains (get_or players j none) client ≡ true
            → beats (get_or scores j 0) highest ≡ false)
          e here
    | inr later ↦ rest j later (omega arith)
  ]

  beats_trans :
      (s t : ℕ) (o : Option ℕ) → beats s (some t) ≡ true → beats t o ≡ true → beats s o ≡ true
  beats_trans s t none h k = refl
  beats_trans s t (some u) h k = ground arith

  module _ (n k : ℕ) (scores : List ℕ) (old : Option ℕ) (count : ℕ) (r : Option ℕ × ℕ) where
    Highest-higher :
        remains (get_or players k none) client ≡ true
        → beats (get_or scores k 0) old ≡ true
        → Highest n (k + 1) scores (some (get_or scores k 0)) 1 r
        → Highest (suc n) k scores old count r
    Highest-higher here b (inl (e, c, u)) = inr (
      get_or scores k 0,
      e,
      b,
      omega (arith, c),
      ground (arith, here, c),
      Unbeaten-suc n k scores (some (get_or scores k 0)) (λ _. ground arith) u,
    )
    Highest-higher here b (inr (s, e, t, p, c, u)) = inr (
      s,
      e,
      beats_trans s (get_or scores k 0) old t b,
      p,
      ground (arith, t, c),
      Unbeaten-suc n k scores (some s) (λ _. ground arith) u,
    )

    Highest-stay :
        (remains (get_or players k none) client ≡ true → beats (get_or scores k 0) old ≡ false)
        → Highest n (k + 1) scores old (count + (if wins k scores old then 1 else 0)) r
        → Highest (suc n) k scores old count r
    Highest-stay low (inl (e, c, u)) = inl (e, omega (arith, c), Unbeaten-suc n k scores old low u)
    Highest-stay low (inr (s, e, t, p, c, u)) = inr (
      s,
      e,
      t,
      p,
      ground (arith, c, low, lower s t),
      Unbeaten-suc n k scores (some s) (λ here. ground (arith, low here, lower s t)) u,
    )
      where
        less : (x s : ℕ) (o : Option ℕ) → beats s o ≡ true → beats x o ≡ false → x < s
        less x s none t b = absurd (cc)
        less x s (some h) t b = ground arith

        lower :
            (s : ℕ)
            → beats s old ≡ true
            → beats (get_or scores k 0) old ≡ false
            → get_or scores k 0 < s
        lower s t b = less (get_or scores k 0) s old t b

  module _ (k score : ℕ) (old : Option ℕ) (count : ℕ) where
    raised :
        remains (get_or players k none) client ≡ true
        → beats score old ≡ true
        → (next_highest players client k score old ≡ some score)
          × (next_count players client k score old count ≡ 1)
    unfolding next_highest next_count
    raised here b = ground arith

    stayed :
        (remains (get_or players k none) client ≡ true → beats score old ≡ false)
        → (next_highest players client k score old ≡ old)
          × (next_count players client k score old count
              ≡ count
                + (if remains (get_or players k none) client && equals score old then 1 else 0))
    unfolding next_highest next_count
    stayed low = ground (arith, low)

    -- Either the seat's player remains and beats the score, or the maximum stays.
    seat_cases :
        ((remains (get_or players k none) client ≡ true) × (beats score old ≡ true))
        ⊎ (remains (get_or players k none) client ≡ true → beats score old ≡ false)
    seat_cases = elim (Bool-cases (beats score old)) [
      | inl b ↦ elim (Bool-cases (remains (get_or players k none) client)) [
        | inl here ↦ inl (here, b)
        | inr gone ↦ inr (λ here. absurd (ground arith))
      ]
      | inr low ↦ inr (λ here. low)
    ]

  find_highest-Highest :
      (n k : ℕ) (scores : List ℕ) (old : Option ℕ) (count : ℕ)
      → Highest n k scores old count (find_highest players client n k scores old count)
  unfolding find_highest
  find_highest-Highest zero k scores old count =
      inl (refl, omega arith, λ j lo hi. absurd (omega arith))
  find_highest-Highest (suc n) k scores old count =
      elim (seat_cases k (get_or scores k 0) old count) [
        | inl (here, b) ↦
            let (e, f) = raised k (get_or scores k 0) old count here b in
            Highest-higher n k scores old count _ here b (
              subst₂
                (λ h c. Highest n (k + 1) scores h c (
                  find_highest players client n (k + 1) scores
                    (next_highest players client k (get_or scores k 0) old)
                    (next_count players client k (get_or scores k 0) old count)))
                e f
                (find_highest-Highest n (k + 1) scores
                  (next_highest players client k (get_or scores k 0) old)
                  (next_count players client k (get_or scores k 0) old count)))
        | inr low ↦
            let (e, f) = stayed k (get_or scores k 0) old count low in
            Highest-stay n k scores old count _ low (
              subst₂
                (λ h c. Highest n (k + 1) scores h c (
                  find_highest players client n (k + 1) scores
                    (next_highest players client k (get_or scores k 0) old)
                    (next_count players client k (get_or scores k 0) old count)))
                e f
                (find_highest-Highest n (k + 1) scores
                  (next_highest players client k (get_or scores k 0) old)
                  (next_count players client k (get_or scores k 0) old count)))
      ]

-- Some seat's player remains.
abbrev pub SomeoneRemains : Game → ℕ → Type 0
SomeoneRemains g client =
    (j : ℕ) × (j < g.player_count) × (remains (get_or g.players j none) client ≡ true)

-- The second loop, with the quotient and the remainder of what is left, gives all of it away.
tally-distribute_share :
    (players : List (Option ℕ)) (client n : ℕ) (scores : List ℕ) (highest : Option ℕ)
    (left count : ℕ)
    → n ≤ length scores
    → 0 < count
    → count ≡ winners players client n 0 scores highest
    → tally itself (distribute players client n 0 scores highest (left / count) (left % count))
      ≡ tally itself scores + left
tally-distribute_share players client n scores highest left count room some_one e =
    tally-distribute players client n 0 scores highest (left / count) (left % count)
      (omega (arith, room)) (omega (arith, mod-lt left some_one, e))
    ∙ rw (sym e) (omega (arith, div-add-mod left count))

-- Some score is the highest among those who remain, at least one of them has it, and the count says
-- how many.
found-Highest :
    (players : List (Option ℕ)) (client n : ℕ) (scores : List ℕ) (r : Option ℕ × ℕ) (j : ℕ)
    → j < n
    → remains (get_or players j none) client ≡ true
    → Highest players client n 0 scores none 0 r
    → (0 < r.1) × (r.1 ≡ winners players client n 0 scores r.0)
found-Highest players client n scores r j hj here (inl (e, c, u)) =
    absurd (true-ne-false (u j (omega arith) (omega (arith, hj)) here))
  where
    true-ne-false : true ≡ false → ⊥
    true-ne-false h = cc
found-Highest players client n scores r j hj here (inr (s, e, b, p, c, u)) =
    (p, c ∙ ap (λ h. winners players client n 0 scores h) (sym e))

-- When a player forfeits a game in which another one sits, the scores of all seats grow in sum by
-- exactly the pairs that were left.
pub forfeit_scores_total :
    (g : Game) (client : ℕ)
    → g.player_count ≤ length g.player_scores
    → SomeoneRemains g client
    → tally itself (forfeit_scores g client)
      ≡ tally itself g.player_scores + (g.total_pairs - g.matched_pairs)
unfolding forfeit_scores
forfeit_scores_total g client room (j, hj, here) =
    let (p, c) =
      found-Highest g.players client g.player_count g.player_scores
        (find_highest g.players client g.player_count 0 g.player_scores none 0) j hj here
        (find_highest-Highest g.players client g.player_count 0 g.player_scores none 0) in
    ground (
      arith,
      p,
      tally-distribute_share g.players client g.player_count g.player_scores
          (find_highest g.players client g.player_count 0 g.player_scores none 0).0
          (g.total_pairs - g.matched_pairs)
          (find_highest g.players client g.player_count 0 g.player_scores none 0).1 room p c,
    )
