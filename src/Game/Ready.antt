-- ===== src/Game/Ready.antt =====
-- The ready flags and the start of a game, in server_src/game.c.
use tmwmf_sem_ups.Base.{
  ℕ, zero, suc, ◌+◌, ◌≤◌, ◌<◌, ◌≡◌, ◌≢◌, ◌↔◌, refl, ◌⊎◌, inl, inr, none, some, List, Bool, true,
  false, length, length-set, get_elem?, get_or, get_or-eq, get_elem?-set_self, get_elem?-set_ne,
  set, arith, sym, ◌∙◌, ap, Option-cases, subst,
}
use tmwmf_sem_ups.Game.{
  Game, waiting, playing, all_ready, find_player, mark_ready, game_player_ready,
  game_all_players_ready, game_start,
}
use tmwmf_sem_ups.Game.Valid.{IsValid, Flipped, none_up, one_up, two_up}
use tmwmf_sem_ups.Game.Seats.{FirstSeat, find_player-FirstSeat}

all_ready_holds :
    (n i : ℕ) (ready : List Bool)
    → all_ready n i ready ≡ true
    → (k : ℕ) → i ≤ k
    → k < i + n
    → get_or ready k false ≡ true
unfolding all_ready
all_ready_holds zero i ready h k lo hi = absurd (omega arith)
all_ready_holds (suc n) i ready h k lo hi = elim (split lo) [
  | inl e ↦ rw (← e) (ground arith)
  | inr later ↦ all_ready_holds n (i + 1) ready (ground arith) k later (omega arith)
]
  where
    split : i ≤ k → (i ≡ k) ⊎ (i + 1 ≤ k)
    split h = omega arith

all_ready_of :
    (n i : ℕ) (ready : List Bool)
    → ((k : ℕ) → i ≤ k → k < i + n → get_or ready k false ≡ true)
    → all_ready n i ready ≡ true
unfolding all_ready
all_ready_of zero i ready h = refl
all_ready_of (suc n) i ready h =
    rw (h i (omega arith) (omega arith))
      (all_ready_of n (i + 1) ready (λ k lo hi. h k (omega arith) (omega arith)))

-- All players are ready exactly when the flag of every seat below `player_count` is set.
pub game_all_players_ready_iff :
    (g : Game)
    → (game_all_players_ready g ≡ true)
      ↔ ((k : ℕ) → k < g.player_count → get_or g.player_ready k false ≡ true)
unfolding game_all_players_ready
game_all_players_ready_iff g = (
  (λ h k hk. all_ready_holds g.player_count 0 g.player_ready h k (omega arith) (omega arith)),
  (λ h. all_ready_of g.player_count 0 g.player_ready (λ k _ hi. h k (omega arith))),
)

-- What a ready call in the waiting state does: it sets the flag of one seat, that of the client,
-- and keeps the game valid; or it is refused, and no seat is the client's.
abbrev pub ReadyOutcome : Game → ℕ → Type 0
ReadyOutcome g client =
    (((k : ℕ) → k < g.player_count → get_or g.players k none ≢ some client)
      × (game_player_ready g client ≡ none))
    ⊎ ((index : ℕ) × (g' : Game) × (game_player_ready g client ≡ some g')
        × (get_or g.players index none ≡ some client)
        × (get_or g'.player_ready index false ≡ true)
        × ((k : ℕ) → k ≢ index → get_elem? g'.player_ready k ≡ get_elem? g.player_ready k)
        × IsValid g'
        × (g'.state ≡ waiting))

player_ready_waiting :
    (g : Game) (client : ℕ)
    → g.state ≡ waiting
    → game_player_ready g client ≡ mark_ready g (find_player g.player_count 0 g.players client)
unfolding game_player_ready
player_ready_waiting g client w = ground arith

module _ (g : Game) (index : ℕ) (v : IsValid g) where
  marked : Game
  marked = record g { player_ready = set g.player_ready index true }

  marked-Flipped : Flipped g → Flipped marked
  unfolding marked
  marked-Flipped (none_up a b c) = none_up a b c
  marked-Flipped (one_up i a e f k l m) = one_up i a e f k l m
  marked-Flipped (two_up i j a b ne f k l m n o p) = two_up i j a b ne f k l m n o p

  marked-IsValid : IsValid marked
  unfolding marked
  marked-IsValid = record {
    sizes = omega (arith, v.sizes, length-set g.player_ready index true);
    counts = ground (arith, v.counts);
    flipped = marked-Flipped v.flipped;
    paired = v.paired;
  }

ready_accepted : (g : Game) (client : ℕ) → IsValid g → g.state ≡ waiting → ReadyOutcome g client
unfolding mark_ready marked
ready_accepted g client v w = elim (Option-cases (find_player g.player_count 0 g.players client)) [
  | inl e ↦
      let absent =
        subst (FirstSeat g.player_count 0 g.players client) e
          (find_player-FirstSeat g.player_count 0 g.players client) in
      inl (
        (λ k hk. absent k (omega arith) (omega arith)),
        player_ready_waiting g client w ∙ ap (mark_ready g) e,
      )
  | inr (index, e) ↦
      let (_, h, at, _) =
        subst (FirstSeat g.player_count 0 g.players client) e
          (find_player-FirstSeat g.player_count 0 g.players client) in
      let room : index < length g.player_ready = omega (arith, h, v.sizes) in
      inr (
        index,
        marked g index v,
        player_ready_waiting g client w ∙ ap (mark_ready g) e,
        at,
        get_or-eq (set g.player_ready index true) index false
            (get_elem?-set_self g.player_ready index true room),
        (λ k ne. get_elem?-set_ne g.player_ready index k true (λ p. ne (sym p))),
        marked-IsValid g index v,
        w,
      )
]

-- A ready call is refused once the game has left the waiting state. In a valid game that waits it
-- sets the flag of a seat of the client and of no other seat, and the game stays valid and waiting;
-- only a client with no seat is refused.
pub game_player_ready_lem :
    (g : Game) (client : ℕ)
    → IsValid g
    → (g.state ≢ waiting → game_player_ready g client ≡ none)
      × (g.state ≡ waiting → ReadyOutcome g client)
game_player_ready_lem g client v =
    ((λ ne. unfold game_player_ready in ground arith), ready_accepted g client v)

module _ (g : Game) (v : IsValid g) (w : g.state ≡ waiting) where
  started : Game
  started = record g { state = playing; current_player_index = 0 }

  waiting_flips : g.flips_this_turn ≡ 0
  waiting_flips = omega (arith, v.counts.not_begun w)

  started-Flipped : Flipped g → Flipped started
  unfolding started
  started-Flipped (none_up a b c) = none_up a b c
  started-Flipped (one_up i a e f k l m) = one_up i a e f k l m
  started-Flipped (two_up i j a b ne f k l m n o p) = two_up i j a b ne f k l m n o p

  started-IsValid : IsValid started
  unfolding started
  started-IsValid = record {
    sizes = omega (arith, v.sizes);
    counts = ground (arith, v.counts);
    flipped = started-Flipped v.flipped;
    paired = v.paired;
  }

-- A valid game that waits starts: it is then playing, on the turn of the first seat with no card
-- up, with the same seats, and valid. A game that has started is refused.
pub game_start_lem :
    (g : Game)
    → IsValid g
    → (g.state ≢ waiting → game_start g ≡ none)
      × (g.state ≡ waiting
          → (g' : Game) × (game_start g ≡ some g')
            × (g'.state ≡ playing)
            × (g'.current_player_index ≡ 0)
            × (g'.flips_this_turn ≡ 0)
            × (g'.players ≡ g.players)
            × (g'.player_count ≡ g.player_count)
            × IsValid g')
unfolding game_start started
game_start_lem g v = (
  (λ ne. ground arith),
  (λ w. (
    started g v w,
    rw (w, game_start),
    refl,
    refl,
    waiting_flips g v w,
    refl,
    refl,
    started-IsValid g v w,
  )),
)
