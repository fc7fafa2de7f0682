-- ===== src/Reconnect/Swap.antt =====
-- The loops of `handle_reconnect` in server_src/client_handler.c over the slots of a room and of
-- its game, which put the new client in the place of the old one.
use tmwmf_sem_ups.Base.{
  ℕ, zero, suc, ◌+◌, ◌<◌, ◌≡◌, ◌≢◌, refl, ◌⊎◌, inl, inr, ◌∙◌, ap, sym, subst, true, false, ◌&&◌,
  Option, none, some, List, length, length-set, get_or, get_or-set, get_or-ge, get_or-eq,
  get_elem?-eq-get_or, set, ltb, leb, ◌==◌, if◌then◌else◌, points_to, points_to_iff, tally,
  occupied, tally-set, arith, Bool-cases, eq_or_ne, none-ne-some, some_eq,
}
use tmwmf_sem_ups.Game.{Game}
use tmwmf_sem_ups.Game.Players.{Playable}
use tmwmf_sem_ups.Game.Valid.{IsValid, Seated, Flipped, none_up, one_up, two_up}
use tmwmf_sem_ups.Room.Valid.{SlotsOk}
use tmwmf_sem_ups.Reconnect.{swap_players, swap_in_game}

module _ (old_client new_client : ℕ) where
  -- A slot after the exchange.
  abbrev pub swapped : Option ℕ → Option ℕ
  swapped p = if points_to p old_client then some new_client else p

  -- One round of the loop.
  abbrev swap_at : List (Option ℕ) → ℕ → List (Option ℕ)
  swap_at players i =
      if points_to (get_or players i none) old_client
      then set players i (some new_client)
      else players

  held_lt :
      (players : List (Option ℕ)) (i c : ℕ) → get_or players i none ≡ some c → i < length players
  held_lt players i c h = elim (Bool-cases (leb (length players) i)) [
    | inl t ↦ absurd (none-ne-some (sym (get_or-ge players i none (ground arith)) ∙ h))
    | inr f ↦ ground arith
  ]

  swap_at-get :
      (players : List (Option ℕ)) (i k : ℕ)
      → get_or (swap_at players i) k none
        ≡ (if i == k then swapped (get_or players k none) else get_or players k none)
  swap_at-get players i k = elim (Bool-cases (points_to (get_or players i none) old_client)) [
    | inl t ↦
        let h = (points_to_iff (get_or players i none) old_client).0 t in
        rw t
          (get_or-set players i k (some new_client) none (held_lt players i old_client h) ∙ same t)
    | inr f ↦ rw f (other f)
  ]
    where
      same :
          points_to (get_or players i none) old_client ≡ true
          → (if i == k then some new_client else get_or players k none)
            ≡ (if i == k then swapped (get_or players k none) else get_or players k none)
      same t = elim (eq_or_ne i k) [
        | inl e ↦ ground (arith, ap (λ q. points_to (get_or players q none) old_client) (sym e) ∙ t)
        | inr ne ↦ ground arith
      ]

      other :
          points_to (get_or players i none) old_client ≡ false
          → get_or players k none
            ≡ (if i == k then swapped (get_or players k none) else get_or players k none)
      other f = elim (eq_or_ne i k) [
        | inl e ↦ ground (arith, ap (λ q. points_to (get_or players q none) old_client) (sym e) ∙ f)
        | inr ne ↦ ground arith
      ]

  swap_at-occupied :
      (players : List (Option ℕ)) (i : ℕ)
      → tally occupied (swap_at players i) ≡ tally occupied players
  swap_at-occupied players i = elim (Bool-cases (points_to (get_or players i none) old_client)) [
    | inl t ↦
        let h = (points_to_iff (get_or players i none) old_client).0 t in
        rw t (
          omega (
            arith,
            tally-set occupied players i (some old_client) (some new_client)
                (get_elem?-eq-get_or players i none (held_lt players i old_client h) ∙ ap some h),
          ))
    | inr f ↦ rw f refl
  ]

  swap_at-length : (players : List (Option ℕ)) (i : ℕ) → length (swap_at players i) ≡ length players
  swap_at-length players i = elim (Bool-cases (points_to (get_or players i none) old_client)) [
    | inl t ↦ rw t (length-set players i (some new_client))
    | inr f ↦ rw f refl
  ]

  pub swap_players-length :
      (n i : ℕ) (players : List (Option ℕ))
      → length (swap_players old_client new_client n i players) ≡ length players
  unfolding swap_players
  swap_players-length zero i players = refl
  swap_players-length (suc n) i players =
      swap_players-length n (i + 1) (swap_at players i) ∙ swap_at-length players i

  pub swap_players-occupied :
      (n i : ℕ) (players : List (Option ℕ))
      → tally occupied (swap_players old_client new_client n i players) ≡ tally occupied players
  unfolding swap_players
  swap_players-occupied zero i players = refl
  swap_players-occupied (suc n) i players =
      swap_players-occupied n (i + 1) (swap_at players i) ∙ swap_at-occupied players i

  swap_players-get :
      (n i : ℕ) (players : List (Option ℕ)) (k : ℕ)
      → get_or (swap_players old_client new_client n i players) k none ≡ (
          if leb i k && ltb k (i + n)
          then swapped (get_or players k none)
          else get_or players k none)
  unfolding swap_players
  swap_players-get zero i players k = ground arith
  swap_players-get (suc n) i players k =
      ground (arith, swap_players-get n (i + 1) (swap_at players i) k, swap_at-get players i k)

  -- What a slot holds after the exchange.
  swapped-some :
      (p : Option ℕ) (c : ℕ)
      → swapped p ≡ some c
      → ((p ≡ some old_client) × (c ≡ new_client)) ⊎ (p ≡ some c)
  swapped-some none c e = absurd (none-ne-some e)
  swapped-some (some d) c e = ground arith

  -- If the old client is in none of the slots that the loop leaves out, every slot is exchanged.
  module _ (max count : ℕ) (players : List (Option ℕ))
      (within : (k : ℕ) → get_or players k none ≡ some old_client → k < count) where
    pub swap_players-all :
        (k : ℕ)
        → get_or (swap_players old_client new_client count 0 players) k none
          ≡ swapped (get_or players k none)
    swap_players-all k = elim (Bool-cases (points_to (get_or players k none) old_client)) [
      | inl t ↦ ground (
        arith,
        swap_players-get count 0 players k,
        within k ((points_to_iff (get_or players k none) old_client).0 t),
      )
      | inr f ↦ ground (arith, swap_players-get count 0 players k)
    ]

    pub swap_players-SlotsOk :
        SlotsOk max count players
        → ((k : ℕ) → get_or players k none ≢ some new_client)
        → SlotsOk max count (swap_players old_client new_client count 0 players)
    swap_players-SlotsOk ok absent = record {
      size = swap_players-length count 0 players ∙ ok.size;
      limit = ok.limit;
      counted = ok.counted ∙ sym (swap_players-occupied count 0 players);
      vacant = λ i le. swap_players-all i ∙ ap swapped (ok.vacant i le);
      distinct = λ i j c ne h k.
          apart i j c ne (swapped-some (get_or players i none) c (sym (swap_players-all i) ∙ h))
            (swapped-some (get_or players j none) c (sym (swap_players-all j) ∙ k));
    }
      where
        apart :
            (i j c : ℕ)
            → i ≢ j
            → ((get_or players i none ≡ some old_client) × (c ≡ new_client))
              ⊎ (get_or players i none ≡ some c)
            → ((get_or players j none ≡ some old_client) × (c ≡ new_client))
              ⊎ (get_or players j none ≡ some c)
            → ⊥
        apart i j c ne (inl (h, _)) (inl (k, _)) = ok.distinct i j old_client ne h k
        apart i j c ne (inl (_, e)) (inr k) = absent j (k ∙ ap some e)
        apart i j c ne (inr h) (inl (_, e)) = absent i (h ∙ ap some e)
        apart i j c ne (inr h) (inr k) = ok.distinct i j c ne h k

  -- A game stays valid when its players change places.
  swap_in_game-IsValid :
      (o : Option Game)
      → ((g : Game) → o ≡ some g → IsValid g)
      → (g : Game) → swap_in_game old_client new_client o ≡ some g
      → IsValid g
  unfolding swap_in_game
  swap_in_game-IsValid none v g e = absurd (none-ne-some e)
  swap_in_game-IsValid (some h) v g e = subst IsValid (some_eq e) (record {
    sizes = record {
      cards_size = old.sizes.cards_size;
      pairs_size = old.sizes.pairs_size;
      players_size = swap_players-length h.player_count 0 h.players ∙ old.sizes.players_size;
      scores_size = old.sizes.scores_size;
      ready_size = old.sizes.ready_size;
      count_max = old.sizes.count_max;
      current_seated = old.sizes.current_seated;
    };
    counts = record {
      matched_cards = old.counts.matched_cards;
      revealed_cards = old.counts.revealed_cards;
      scored = old.counts.scored;
      not_begun = old.counts.not_begun;
      not_over = old.counts.not_over;
      over = old.counts.over;
    };
    flipped = same_flips old.flipped;
    paired = old.paired;
  })
    where
      old : IsValid h
      old = v h refl

      same_flips :
          Flipped h
          → Flipped
              (record h { players = swap_players old_client new_client h.player_count 0 h.players })
      same_flips (none_up a b c) = none_up a b c
      same_flips (one_up i a e f k l m) = one_up i a e f k l m
      same_flips (two_up i j a b ne f k l m n o p) = two_up i j a b ne f k l m n o p

  -- One round leaves every seat filled.
  swap_at-filled :
      (players : List (Option ℕ)) (i k c : ℕ)
      → get_or players k none ≡ some c
      → (d : ℕ) × (get_or (swap_at players i) k none ≡ some d)
  swap_at-filled players i k c h = elim (Bool-cases (i == k && c == old_client)) [
    | inl t ↦ (new_client, swap_at-get players i k ∙ rw h (ground arith))
    | inr f ↦ (c, swap_at-get players i k ∙ rw h (ground arith))
  ]

  swap_players-filled :
      (n i : ℕ) (players : List (Option ℕ)) (k c : ℕ)
      → get_or players k none ≡ some c
      → (d : ℕ) × (get_or (swap_players old_client new_client n i players) k none ≡ some d)
  unfolding swap_players
  swap_players-filled zero i players k c h = (c, h)
  swap_players-filled (suc n) i players k c h =
      let (d, e) = swap_at-filled players i k c h in
      swap_players-filled n (i + 1) (swap_at players i) k d e

  -- A game stays valid, with a client in every seat, when its players change places.
  pub swap_in_game-Playable :
      (o : Option Game)
      → ((g : Game) → o ≡ some g → Playable g)
      → (g : Game) → swap_in_game old_client new_client o ≡ some g
      → Playable g
  unfolding swap_in_game
  swap_in_game-Playable none v g e = absurd (none-ne-some e)
  swap_in_game-Playable (some h) v g e = record {
    valid = swap_in_game-IsValid (some h) (λ q f. (v q f).valid) g e;
    seated = subst Seated (some_eq e) (λ i lt.
        let (c, at) = (v h refl).seated i lt in
        let (d, at') =
          swap_players-filled h.player_count 0 h.players i c (get_or-eq h.players i none at) in
        (
          d,
          get_elem?-eq-get_or (swap_players old_client new_client h.player_count 0 h.players) i none
                (held_lt (swap_players old_client new_client h.player_count 0 h.players) i d at')
              ∙ ap some at',
        ));
  }
