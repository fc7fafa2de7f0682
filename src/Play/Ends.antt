-- ===== src/Play/Ends.antt =====
-- FLIP of server_src/client_handler.c keeps every client that is in a room in a slot of that room,
-- and the room in the table, also when the game is over and the room is destroyed.
use tmwmf_sem_ups.Base.{
  ℕ, ◌≡◌, refl, inl, inr, ◌∙◌, ap, subst, Bool, true, false, Option, none, some, List, [], ◌∷◌,
  get_or, Bool-cases, some_eq, none-ne-some, leb, ◌==◌, ℤ, pos, negsuc, length, not, if◌then◌else◌,
}
use tmwmf_sem_ups.Client.{store_self}
use tmwmf_sem_ups.Text.{strtol, to_int}
use tmwmf_sem_ups.Game.{
  Game, game_get_current_player, game_flip_card, game_check_match, game_is_finished, no_card,
}
use tmwmf_sem_ups.Forfeit.{final_scores}
use tmwmf_sem_ups.World.{
  World, Room, set_room, Message, client_send_message, room_broadcast, finished, Failure, game_end,
}
use tmwmf_sem_ups.World.Broadcast.{room_broadcast-OnlySends}
use tmwmf_sem_ups.World as W
use tmwmf_sem_ups.Room.{dismiss_all}
use tmwmf_sem_ups.Leave.Homes.{
  KeepsHomes, KeepsHomes-set_room, KeepsHomes-dismiss_all, KeepsHomes-destroy, HasSlots,
  HasSlots-FourSlots, HasSlots-sent, send-KeepsHomes, broadcast-KeepsHomes,
}
use tmwmf_sem_ups.Leave.Games.{dismiss_all-frame}
use tmwmf_sem_ups.Play.{
  set_game, end_game, pass_on, after_check, flipped, flip_card, flip_index, ends_number, flip_in,
  handle_flip, send_error_and_count,
}
use tmwmf_sem_ups.Play.Homes.{set_game-KeepsHomes, send_error-KeepsHomes}

-- A room that keeps its players keeps its slots.
HasSlots-set_room :
    (w : World) (r : ℕ) (x : Room)
    → x.players ≡ (w.room r).players
    → HasSlots w r
    → HasSlots (set_room w r x) r
HasSlots-set_room w r x same size =
    ap (λ (y : Room). length y.players) (store_self w.room r x) ∙ ap length same ∙ size

end_game-KeepsHomes : (w : World) (r : ℕ) (g : Game) → HasSlots w r → KeepsHomes w (end_game w r g)
unfolding end_game
end_game-KeepsHomes w r g size d home = KeepsHomes-destroy w3 r (HasSlots-FourSlots w3 r slots) d (
    KeepsHomes-dismiss_all (w2.room r).player_count 0 (w2.room r).players w2 d
      (KeepsHomes-set_room w1 r over refl d (broadcast-KeepsHomes w r message d home)))
  where
    message : Message
    message = game_end (final_scores w.client g.player_count 0 g.players g.player_scores)

    w1 : World
    w1 = room_broadcast w r message

    over : Room
    over = record (w1.room r) { game = none; state = finished }

    w2 : World
    w2 = set_room w1 r over

    w3 : World
    w3 = dismiss_all (w2.room r).player_count 0 (w2.room r).players w2

    slots : HasSlots w3 r
    slots =
        ap (λ m. length (m r).players)
          (dismiss_all-frame (w2.room r).player_count 0 (w2.room r).players w2).0
        ∙ HasSlots-set_room w1 r over refl
            (HasSlots-sent w w1 r (room_broadcast-OnlySends w r message) size)

pass_on-KeepsHomes : (w : World) (r : ℕ) (p : Option ℕ) → KeepsHomes w (pass_on w r p)
unfolding pass_on
pass_on-KeepsHomes w r none = broadcast-KeepsHomes w r _
pass_on-KeepsHomes w r (some next) =
    λ d home. send-KeepsHomes (room_broadcast w r _) next _ d (broadcast-KeepsHomes w r _ d home)

module _ (w w' : World) (r c : ℕ) (size : HasSlots w r) where
  after_check-KeepsHomes :
      (answer : Option (Game × Bool)) → after_check w r c answer ≡ some w' → KeepsHomes w w'
  unfolding after_check
  after_check-KeepsHomes none e = absurd (none-ne-some e)
  after_check-KeepsHomes (some (g, false)) e = subst (KeepsHomes w) (some_eq e) (λ d home.
      pass_on-KeepsHomes (set_game w r g) r (game_get_current_player g) d
        (set_game-KeepsHomes w r g d home))
  after_check-KeepsHomes (some (g, true)) e =
      subst (KeepsHomes w) (some_eq e) (elim (Bool-cases (game_is_finished g)) [
        | inl t ↦ rw t (λ d home. end_game-KeepsHomes w1 r g sized d (told d home))
        | inr f ↦ rw f (λ d home. send-KeepsHomes w1 c _ d (told d home))
      ])
    where
      message : Message
      message = W.match (w.client c).nickname (get_or g.player_scores g.current_player_index 0)

      w1 : World
      w1 = room_broadcast (set_game w r g) r message

      told : KeepsHomes w w1
      told d home =
          broadcast-KeepsHomes (set_game w r g) r message d (set_game-KeepsHomes w r g d home)

      sized : HasSlots w1 r
      sized =
          HasSlots-sent (set_game w r g) w1 r (room_broadcast-OnlySends (set_game w r g) r message)
            (HasSlots-set_room w r (record (w.room r) { game = some g }) refl size)

module _ (w w' : World) (c : ℕ) where
  flipped-KeepsHomes :
      (r i : ℕ) (g : Game) → HasSlots w r → flipped w r c i g ≡ some w' → KeepsHomes w w'
  unfolding flipped
  flipped-KeepsHomes r i g size e = elim (Bool-cases (g.flips_this_turn == 2)) [
    | inl t ↦ λ d home.
        after_check-KeepsHomes w1 w' r c sized (game_check_match g) (rw t at e) d (told d home)
    | inr f ↦ subst (KeepsHomes w) (some_eq (rw f at e)) told
  ]
    where
      message : Message
      message = W.card_reveal i (get_or g.cards i no_card).value (w.client c).nickname

      w1 : World
      w1 = room_broadcast (set_game w r g) r message

      told : KeepsHomes w w1
      told d home =
          broadcast-KeepsHomes (set_game w r g) r message d (set_game-KeepsHomes w r g d home)

      sized : HasSlots w1 r
      sized =
          HasSlots-sent (set_game w r g) w1 r (room_broadcast-OnlySends (set_game w r g) r message)
            (HasSlots-set_room w r (record (w.room r) { game = some g }) refl size)

  refused :
      (failure : Failure) → some (send_error_and_count w c failure) ≡ some w' → KeepsHomes w w'
  refused failure e = subst (KeepsHomes w) (some_eq e) (send_error-KeepsHomes w c failure)

  flip_card-KeepsHomes :
      (r i : ℕ) (o : Option Game) → HasSlots w r → flip_card w r c i o ≡ some w' → KeepsHomes w w'
  unfolding flip_card
  flip_card-KeepsHomes r i none size e = refused W.invalid_card e
  flip_card-KeepsHomes r i (some g) size e = flipped-KeepsHomes r i g size e

  flip_index-KeepsHomes :
      (r : ℕ) (g : Game) (index : ℤ)
      → HasSlots w r
      → flip_index w r c g index ≡ some w'
      → KeepsHomes w w'
  unfolding flip_index
  flip_index-KeepsHomes r g (negsuc _) size e = refused W.invalid_move e
  flip_index-KeepsHomes r g (pos i) size e = elim (Bool-cases (leb g.total_cards i)) [
    | inl t ↦ refused W.invalid_move (rw t at e)
    | inr f ↦ flip_card-KeepsHomes r i (game_flip_card g c (pos i)) size (rw f at e)
  ]

  flip_in-KeepsHomes :
      (params : List ℕ) (p : Option ℕ)
      → ((r : ℕ) → p ≡ some r → HasSlots w r)
      → flip_in w c params p ≡ some w'
      → KeepsHomes w w'
  flip_in-KeepsHomes params none size e = refused W.not_in_room (unfold flip_in in e)
  flip_in-KeepsHomes params (some r) size e = in_game (w.room r).game params (unfold flip_in in e)
    where
      in_game :
          (o : Option Game) (params : List ℕ)
          → elim o [
            | none ↦ some (send_error_and_count w c W.game_not_started)
            | some g ↦ elim params [
              | [] ↦ some (send_error_and_count w c W.invalid_syntax)
              | b ∷ s ↦
                  let (index, rest) = strtol (b ∷ s) in
                  if not (ends_number rest)
                  then some (send_error_and_count w c W.invalid_syntax)
                  else flip_index w r c g (to_int index)
            ]
          ]
            ≡ some w'
          → KeepsHomes w w'
      in_game none params h = refused W.game_not_started h
      in_game (some g) [] h = refused W.invalid_syntax h
      in_game (some g) (b ∷ s) h = elim (Bool-cases (ends_number (strtol (b ∷ s)).1)) [
        | inr f ↦ refused W.invalid_syntax (rw f at h)
        | inl t ↦ flip_index-KeepsHomes r g (to_int (strtol (b ∷ s)).0) (size r refl) (rw t at h)
      ]

  -- Whatever the parameters of FLIP.
  pub handle_flip-KeepsHomes :
      (params : List ℕ)
      → ((r : ℕ) → (w.client c).room ≡ some r → HasSlots w r)
      → handle_flip w c params ≡ some w'
      → KeepsHomes w w'
  handle_flip-KeepsHomes params size e =
      flip_in-KeepsHomes params (w.client c).room size (unfold handle_flip in e)
