-- ===== src/Game/Seats.antt =====
-- The loops of server_src/game.c over the seats: the search for a player, and the shift that closes
-- a gap.
use tmwmf_sem_ups.Base.{
  split_le, ℕ, zero, suc, ◌+◌, ◌-◌, ◌≤◌, ◌<◌, ◌≡◌, ◌≢◌, refl, inl, inr, Option, none, some, List,
  length, length-set, get_elem?, get_or, get_elem?-eq-get_or, get_elem?-set_self, get_elem?-set_ne,
  set, tally, tally-set, arith, sym, ◌∙◌, ap, Bool-cases, points_to, points_to_iff,
}
use tmwmf_sem_ups.Game.{find_player, shift_down, close_gap}

-- What the search finds: the first seat from `i` on that holds the client, or that no seat does.
abbrev pub FirstSeat : ℕ → ℕ → List (Option ℕ) → ℕ → Option ℕ → Type 0
FirstSeat n i players client none =
    (k : ℕ) → i ≤ k → k < i + n → get_or players k none ≢ some client
FirstSeat n i players client (some k) =
    (i ≤ k)
    × (k < i + n)
    × (get_or players k none ≡ some client)
    × ((j : ℕ) → i ≤ j → j < k → get_or players j none ≢ some client)

FirstSeat-suc :
    (n i : ℕ) (players : List (Option ℕ)) (client : ℕ) (r : Option ℕ)
    → get_or players i none ≢ some client
    → FirstSeat n (i + 1) players client r
    → FirstSeat (suc n) i players client r
FirstSeat-suc n i players client none miss rest = λ k lo hi. elim (split_le i k lo) [
  | inl e ↦ rw (← e) miss
  | inr later ↦ rest k later (omega arith)
]
FirstSeat-suc n i players client (some k) miss (lo, hi, e, before) = (
  omega arith,
  omega arith,
  e,
  λ j jlo jhi. elim (split_le i j jlo) [ inl p ↦ rw (← p) miss | inr later ↦ before j later jhi ],
)

pub find_player-FirstSeat :
    (n i : ℕ) (players : List (Option ℕ)) (client : ℕ)
    → FirstSeat n i players client (find_player n i players client)
unfolding find_player
find_player-FirstSeat zero i players client = λ k lo hi. absurd (omega arith)
find_player-FirstSeat (suc n) i players client =
    elim (Bool-cases (points_to (get_or players i none) client)) [
      | inl t ↦ rw t (
        omega arith,
        omega arith,
        (points_to_iff (get_or players i none) client).0 t,
        λ j lo hi. absurd (omega arith),
      )
      | inr f ↦ rw f (
          FirstSeat-suc n i players client _
            (λ e. ground (arith, (points_to_iff (get_or players i none) client).1 e))
            (find_player-FirstSeat n (i + 1) players client))
    ]

module _ {ℓ} {A : Type ℓ} (d : A) where
  length-shift_down : (n i : ℕ) (xs : List A) → length (shift_down d n i xs) ≡ length xs
  unfolding shift_down
  length-shift_down zero i xs = refl
  length-shift_down (suc n) i xs =
      length-shift_down n (i + 1) (set xs i (get_or xs (i + 1) d))
      ∙ length-set xs i (get_or xs (i + 1) d)

  pub length-close_gap : (n i : ℕ) (xs : List A) → length (close_gap d n i xs) ≡ length xs
  unfolding close_gap
  length-close_gap n i xs =
      length-set (shift_down d (n - 1 - i) i xs) (n - 1) d ∙ length-shift_down (n - 1 - i) i xs

  -- Before the gap nothing moves, and from the gap on each place takes what stood behind it.
  shift_before :
      (n i k : ℕ) (xs : List A) → k < i → get_elem? (shift_down d n i xs) k ≡ get_elem? xs k
  unfolding shift_down
  shift_before zero i k xs h = refl
  shift_before (suc n) i k xs h =
      shift_before n (i + 1) k (set xs i (get_or xs (i + 1) d)) (omega arith)
      ∙ get_elem?-set_ne xs i k (get_or xs (i + 1) d) (omega arith)

  shift_from :
      (n i k : ℕ) (xs : List A)
      → i ≤ k
      → k < i + n
      → i + n < length xs
      → get_elem? (shift_down d n i xs) k ≡ get_elem? xs (k + 1)
  unfolding shift_down
  shift_from zero i k xs lo hi h = absurd (omega arith)
  shift_from (suc n) i k xs lo hi h = elim (split_le i k lo) [
    | inl e ↦ rw (← e) (
        shift_before n (i + 1) i (set xs i (get_or xs (i + 1) d)) (omega arith)
        ∙ get_elem?-set_self xs i (get_or xs (i + 1) d) (omega arith)
        ∙ sym (get_elem?-eq-get_or xs (i + 1) d (omega arith)))
    | inr later ↦
        shift_from n (i + 1) k (set xs i (get_or xs (i + 1) d)) later (omega arith)
          (omega (arith, length-set xs i (get_or xs (i + 1) d)))
        ∙ get_elem?-set_ne xs i (k + 1) (get_or xs (i + 1) d) (omega arith)
  ]

  pub close_gap_before :
      (n i k : ℕ) (xs : List A) → i < n → k < i → get_elem? (close_gap d n i xs) k ≡ get_elem? xs k
  unfolding close_gap
  close_gap_before n i k xs h lt =
      get_elem?-set_ne (shift_down d (n - 1 - i) i xs) (n - 1) k d (omega arith)
      ∙ shift_before (n - 1 - i) i k xs lt

  pub close_gap_from :
      (n i k : ℕ) (xs : List A)
      → i ≤ k
      → k + 1 < n
      → n ≤ length xs
      → get_elem? (close_gap d n i xs) k ≡ get_elem? xs (k + 1)
  unfolding close_gap
  close_gap_from n i k xs lo hi h =
      get_elem?-set_ne (shift_down d (n - 1 - i) i xs) (n - 1) k d (omega arith)
      ∙ shift_from (n - 1 - i) i k xs lo (omega arith) (omega arith)

  -- The weight of the removed entry goes, and that of the cleared slot comes.
  tally-shift_down :
      (w : A → ℕ) (n i last : ℕ) (x : A) (xs : List A)
      → get_elem? xs i ≡ some x
      → last ≡ i + n
      → last < length xs
      → tally w (set (shift_down d n i xs) last d) + w x ≡ tally w xs + w d
  unfolding shift_down
  tally-shift_down w zero i last x xs e l h =
      let here : get_elem? xs last ≡ some x = ap (get_elem? xs) (omega arith) ∙ e in
      tally-set w xs last x d here
  tally-shift_down w (suc n) i last x xs e l h =
      let y : A = get_or xs (i + 1) d in
      omega (
        arith,
        tally-set w xs i x y e,
        tally-shift_down w n (i + 1) last y (set xs i y)
            (get_elem?-set_ne xs i (i + 1) y (omega arith)
              ∙ get_elem?-eq-get_or xs (i + 1) d (omega arith))
            (omega arith) (omega (arith, length-set xs i y)),
      )

  pub tally-close_gap :
      (w : A → ℕ) (n i : ℕ) (x : A) (xs : List A)
      → get_elem? xs i ≡ some x
      → i < n
      → n ≤ length xs
      → tally w (close_gap d n i xs) + w x ≡ tally w xs + w d
  unfolding close_gap
  tally-close_gap w n i x xs e h hn =
      tally-shift_down w (n - 1 - i) i (n - 1) x xs e (omega arith) (omega arith)
