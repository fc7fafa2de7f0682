-- ===== src/Game/Players.antt =====
-- The operations of server_src/game.c that leave the players where they sit, and with that every
-- seat of a game filled.
use tmwmf_sem_ups.Base.{
  ℕ, ◌+◌, ◌≡◌, refl, inl, inr, ◌∙◌, ap, sym, subst, Bool, Option, none, some, get_elem?,
  none-ne-some, some_eq, arith, pos, ◌==◌, Bool-cases,
}
use tmwmf_sem_ups.Game.{
  Game, GameState, waiting, playing, finished, find_player, mark_ready, game_player_ready,
  game_start, reveal, game_flip_card, game_check_match,
}
use tmwmf_sem_ups.Game.Valid.{IsValid, Seated}
use tmwmf_sem_ups.Game.Flip.{game_flip_card-IsValid}
use tmwmf_sem_ups.Game.Match.{game_check_match-IsValid}

-- A valid game with a client in every seat.
pub record Playable (g : Game) : Type 0 where
  pub valid : IsValid g
  pub seated : Seated g

abbrev pub SameSeats : Game → Game → Type 0
SameSeats g g' = (g'.players ≡ g.players) × (g'.player_count ≡ g.player_count)

pub SameSeats-Seated : (g g' : Game) → SameSeats g g' → Seated g → Seated g'
SameSeats-Seated g g' (players, count) seated i h =
    let (c, e) = seated i (omega (arith, h, count)) in (c, ap (λ ps. get_elem? ps i) players ∙ e)

mark_ready-SameSeats : (g g' : Game) (p : Option ℕ) → mark_ready g p ≡ some g' → SameSeats g g'
unfolding mark_ready
mark_ready-SameSeats g g' none e = absurd (none-ne-some e)
mark_ready-SameSeats g g' (some i) e =
    let same = sym (some_eq e) in
    (ap (λ (x : Game). x.players) same, ap (λ (x : Game). x.player_count) same)

pub game_player_ready-SameSeats :
    (g g' : Game) (c : ℕ) → game_player_ready g c ≡ some g' → SameSeats g g'
game_player_ready-SameSeats g g' c e = at g.state (unfold game_player_ready in e)
  where
    at :
        (x : GameState)
        → elim x [ waiting ↦ mark_ready g (find_player g.player_count 0 g.players c) | _ ↦ none ]
          ≡ some g'
        → SameSeats g g'
    at waiting h = mark_ready-SameSeats g g' (find_player g.player_count 0 g.players c) h
    at playing h = absurd (none-ne-some h)
    at finished h = absurd (none-ne-some h)

pub game_start-SameSeats : (g g' : Game) → game_start g ≡ some g' → SameSeats g g'
game_start-SameSeats g g' e = at g.state (unfold game_start in e)
  where
    at :
        (x : GameState)
        → elim x [
          | waiting ↦ some (record g { state = playing; current_player_index = 0 })
          | _ ↦ none
        ]
          ≡ some g'
        → SameSeats g g'
    at waiting h =
        let same = sym (some_eq h) in
        (ap (λ (x : Game). x.players) same, ap (λ (x : Game). x.player_count) same)
    at playing h = absurd (none-ne-some h)
    at finished h = absurd (none-ne-some h)

reveal-SameSeats : (g : Game) (i : ℕ) → SameSeats g (reveal g i)
unfolding reveal
reveal-SameSeats g i = elim (Bool-cases (g.flips_this_turn + 1 == 1)) [
  | inl t ↦ rw t (refl, refl)
  | inr f ↦ rw f (refl, refl)
]

flip-reveal : (g g' : Game) (c i : ℕ) → game_flip_card g c (pos i) ≡ some g' → g' ≡ reveal g i
unfolding game_flip_card
flip-reveal g g' c i e = ground arith

check-SameSeats : (g g' : Game) (m : Bool) → game_check_match g ≡ some (g', m) → SameSeats g g'
unfolding game_check_match
check-SameSeats g g' m e = ground arith

pub game_flip_card-Playable :
    (g : Game) (c i : ℕ) {g' : Game}
    → Playable g
    → game_flip_card g c (pos i) ≡ some g'
    → Playable g'
game_flip_card-Playable g c i {g'} v e = record {
  valid = game_flip_card-IsValid g c i v.valid e;
  seated =
      SameSeats-Seated g g'
        (subst (SameSeats g) (sym (flip-reveal g g' c i e)) (reveal-SameSeats g i)) v.seated;
}

pub game_check_match-Playable :
    (g : Game)
    → Playable g
    → (g' : Game) × (m : Bool) × (game_check_match g ≡ some (g', m)) × Playable g'
game_check_match-Playable g v =
    let (g', m, e, v') = game_check_match-IsValid g v.valid in
    (
      g',
      m,
      e,
      record { valid = v'; seated = SameSeats-Seated g g' (check-SameSeats g g' m e) v.seated },
    )
