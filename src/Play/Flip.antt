-- ===== src/Play/Flip.antt =====
-- `handle_flip` of server_src/client_handler.c.
use tmwmf_sem_ups.Base.{
  ℕ, ◌≡◌, refl, inl, inr, Bool, true, false, Option, none, some, List, [], ◌∷◌, get_or, ◌∙◌, ap,
  sym, subst, Bool-cases, Option-cases, if◌then◌else◌, leb, ◌==◌, ℤ, pos, negsuc, not,
}
use tmwmf_sem_ups.Text.{strtol, to_int}
use tmwmf_sem_ups.Game.{
  Game, no_card, game_flip_card, game_check_match, game_is_finished, game_get_current_player,
}
use tmwmf_sem_ups.Game.Players.{Playable, game_flip_card-Playable, game_check_match-Playable}
use tmwmf_sem_ups.World.{
  World, Message, room_broadcast, card_reveal, match, mismatch, mismatch_end, your_turn,
  invalid_card, invalid_move, invalid_syntax, not_in_room, game_not_started,
}
use tmwmf_sem_ups.World.Broadcast.{room_broadcast-OnlySends}
use tmwmf_sem_ups.Leave.Steps.{rooms-sent}
use tmwmf_sem_ups.Play.{
  handle_flip, flip_in, flip_index, flip_card, flipped, after_check, pass_on, set_game, ends_number,
  send_error_and_count,
}
use tmwmf_sem_ups.Play.Steps.{
  ServerOk, ServerOk-send, ServerOk-broadcast, ServerOk-error, ServerOk-set_game, ServerOk-end_game,
}

-- The handler returns, and the server is in order.
abbrev pub Returns : Option World → Type 0
Returns answer = (w' : World) × (answer ≡ some w') × ServerOk w'

module _ (r j c : ℕ) where
  listed_still :
      (w : World) (message : Message)
      → get_or w.rooms j none ≡ some r
      → get_or (room_broadcast w r message).rooms j none ≡ some r
  listed_still w message listed =
      ap (λ xs. get_or xs j none)
        (rooms-sent w (room_broadcast w r message) (room_broadcast-OnlySends w r message))
      ∙ listed

  pass_on-ServerOk : (w : World) (p : Option ℕ) → ServerOk w → ServerOk (pass_on w r p)
  unfolding pass_on
  pass_on-ServerOk w none ok = ServerOk-broadcast w r mismatch_end ok
  pass_on-ServerOk w (some next) ok =
      let told = mismatch (w.client next).nickname in
      ServerOk-send (room_broadcast w r told) next your_turn (ServerOk-broadcast w r told ok)

  after_check-Returns :
      (w : World) (g : Game) (is_match : Bool)
      → ServerOk w
      → get_or w.rooms j none ≡ some r
      → Playable g
      → Returns (after_check w r c (some (g, is_match)))
  unfolding after_check
  after_check-Returns w g true ok listed v = elim (Bool-cases (game_is_finished g)) [
    | inl t ↦
        rw t (_, refl, ServerOk-end_game w1 r j g (listed_still (set_game w r g) told listed) w1_ok)
    | inr f ↦ rw f (_, refl, ServerOk-send w1 c your_turn w1_ok)
  ]
    where
      told : Message
      told = match (w.client c).nickname (get_or g.player_scores g.current_player_index 0)

      w1 : World
      w1 = room_broadcast (set_game w r g) r told

      w1_ok : ServerOk w1
      w1_ok = ServerOk-broadcast (set_game w r g) r told (ServerOk-set_game w r j ok listed g v)
  after_check-Returns w g false ok listed v = (
    _,
    refl,
    pass_on-ServerOk (set_game w r g) (game_get_current_player g)
        (ServerOk-set_game w r j ok listed g v),
  )

  checked-Returns :
      (w : World) (g : Game)
      → ServerOk w
      → get_or w.rooms j none ≡ some r
      → Playable g
      → Returns (after_check w r c (game_check_match g))
  checked-Returns w g ok listed v =
      let (g', m, e, v') = game_check_match-Playable g v in
      subst (λ x. Returns (after_check w r c x)) (sym e) (after_check-Returns w g' m ok listed v')

  flipped-Returns :
      (w : World) (i : ℕ) (g : Game)
      → ServerOk w
      → get_or w.rooms j none ≡ some r
      → Playable g
      → Returns (flipped w r c i g)
  unfolding flipped
  flipped-Returns w i g ok listed v = elim (Bool-cases (g.flips_this_turn == 2)) [
    | inl t ↦ rw t (checked-Returns w1 g w1_ok (listed_still (set_game w r g) told listed) v)
    | inr f ↦ rw f (w1, refl, w1_ok)
  ]
    where
      told : Message
      told = card_reveal i (get_or g.cards i no_card).value (w.client c).nickname

      w1 : World
      w1 = room_broadcast (set_game w r g) r told

      w1_ok : ServerOk w1
      w1_ok = ServerOk-broadcast (set_game w r g) r told (ServerOk-set_game w r j ok listed g v)

  flip_card-Returns :
      (w : World) (i : ℕ) (g : Game) (answer : Option Game)
      → game_flip_card g c (pos i) ≡ answer
      → ServerOk w
      → get_or w.rooms j none ≡ some r
      → Playable g
      → Returns (flip_card w r c i answer)
  unfolding flip_card
  flip_card-Returns w i g none e ok listed v = (_, refl, ServerOk-error w c invalid_card ok)
  flip_card-Returns w i g (some g') e ok listed v =
      flipped-Returns w i g' ok listed (game_flip_card-Playable g c i v e)

  flip_index-Returns :
      (w : World) (g : Game) (index : ℤ)
      → ServerOk w
      → get_or w.rooms j none ≡ some r
      → Playable g
      → Returns (flip_index w r c g index)
  unfolding flip_index
  flip_index-Returns w g (negsuc _) ok listed v = (_, refl, ServerOk-error w c invalid_move ok)
  flip_index-Returns w g (pos i) ok listed v = elim (Bool-cases (leb g.total_cards i)) [
    | inl t ↦ rw t (_, refl, ServerOk-error w c invalid_move ok)
    | inr f ↦ rw f (flip_card-Returns w i g (game_flip_card g c (pos i)) refl ok listed v)
  ]

flip_in-Returns :
    (w : World) (c r j : ℕ) (params : List ℕ)
    → ServerOk w
    → get_or w.rooms j none ≡ some r
    → Returns (flip_in w c params (some r))
unfolding flip_in
flip_in-Returns w c r j params ok listed = elim (Option-cases (w.room r).game) [
  | inl e ↦ rw (e, flip_in) (_, refl, ServerOk-error w c game_not_started ok)
  | inr (g, e) ↦ rw (e, flip_in) (with_params g (ok.games j r g listed e) params)
]
  where
    with_params :
        (g : Game)
        → Playable g
        → (params : List ℕ)
        → Returns (elim params [
          | [] ↦ some (send_error_and_count w c invalid_syntax)
          | b ∷ s ↦
              let (index, rest) = strtol (b ∷ s) in
              if◌then◌else◌
                (not (ends_number rest))
                (some (send_error_and_count w c invalid_syntax))
                (flip_index w r c g (to_int index))
        ])
    with_params g v [] = (_, refl, ServerOk-error w c invalid_syntax ok)
    with_params g v (b ∷ s) = elim (Bool-cases (ends_number (strtol (b ∷ s)).1)) [
      | inl t ↦ rw t (flip_index-Returns r j c w g (to_int (strtol (b ∷ s)).0) ok listed v)
      | inr f ↦ rw f (_, refl, ServerOk-error w c invalid_syntax ok)
    ]

pub handle_flip-ServerOk :
    (w : World) (c : ℕ) (params : List ℕ)
    → ServerOk w
    → ((r : ℕ) → (w.client c).room ≡ some r → (j : ℕ) × (get_or w.rooms j none ≡ some r))
    → Returns (handle_flip w c params)
unfolding handle_flip flip_in
handle_flip-ServerOk w c params ok in_table = elim (Option-cases (w.client c).room) [
  | inl e ↦ rw e (_, refl, ServerOk-error w c not_in_room ok)
  | inr (r, e) ↦ let (j, listed) = in_table r e in rw e (flip_in-Returns w c r j params ok listed)
]
