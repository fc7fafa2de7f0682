-- ===== src/Leave/Games.antt =====
-- `room_remove_player` of server_src/room.c ends games and starts none: what becomes of the games
-- of the rooms that stay in the table.
use tmwmf_sem_ups.Base.{
  ℕ, zero, suc, ◌+◌, ◌-◌, ◌≡◌, refl, ◌⊎◌, inl, inr, ◌∙◌, ap, sym, [], ◌∷◌, Bool, ◌&&◌, Option, none,
  some, List, get_or, set, Bool-cases, some_eq, none-ne-some, eq_or_ne, ltb, ◌==◌, if◌then◌else◌,
  subst,
}
use tmwmf_sem_ups.Client.{store_self, store_ne}
use tmwmf_sem_ups.Game.{Game, find_player}
use tmwmf_sem_ups.Forfeit.{forfeit_scores, final_scores}
use tmwmf_sem_ups.World.{
  World, Room, waiting, set_room, room_broadcast, room_owner_changed, room_closed, game_end_forfeit,
}
use tmwmf_sem_ups.World.Broadcast.{OnlySends, room_broadcast-OnlySends}
use tmwmf_sem_ups.Room.{dismiss, dismiss_all, room_destroy, clear_slot}
use tmwmf_sem_ups.Room.Destroy.{dismiss-frame}
use tmwmf_sem_ups.Leave.Steps.{room-sent, rooms-sent}
use tmwmf_sem_ups.Leave.{
  vacate, release, empty_room, forfeit, hand_over, find_connected, close_room, destroy_if_empty,
  after_owner, after_leave, remove_from, room_remove_player,
}

set-none_entry :
    (slots : List (Option ℕ)) (k i s : ℕ)
    → get_or (set slots k none) i none ≡ some s
    → get_or slots i none ≡ some s
set-none_entry [] k i s h = h
set-none_entry (x ∷ slots) zero zero s h = absurd (cc)
set-none_entry (x ∷ slots) zero (suc i) s h = h
set-none_entry (x ∷ slots) (suc k) zero s h = h
set-none_entry (x ∷ slots) (suc k) (suc i) s h = set-none_entry slots k i s h

pub clear_slot_entry :
    (p : Option ℕ) (slots : List (Option ℕ)) (i s : ℕ)
    → get_or (clear_slot p slots) i none ≡ some s
    → get_or slots i none ≡ some s
unfolding clear_slot
clear_slot_entry none slots i s h = h
clear_slot_entry (some k) slots i s h = set-none_entry slots k i s h

pub dismiss_all-frame :
    (n i : ℕ) (players : List (Option ℕ)) (w : World)
    → ((dismiss_all n i players w).room ≡ w.room) × ((dismiss_all n i players w).rooms ≡ w.rooms)
unfolding dismiss_all
dismiss_all-frame zero i players w = (refl, refl)
dismiss_all-frame (suc n) i players w =
    let w' = dismiss w (get_or players i none) in
    let (a, b) = dismiss_all-frame n (i + 1) players w' in
    let (c, d, _) = dismiss-frame 0 w (get_or players i none) in (a ∙ c, b ∙ d)

-- Every room that is in the table was there, with the same board, and its game is the one it had,
-- or none.
abbrev pub KeepsGames : World → World → Type 0
KeepsGames w w' =
    (i s : ℕ)
    → get_or w'.rooms i none ≡ some s
    → (get_or w.rooms i none ≡ some s)
      × (((w'.room s).game ≡ none) ⊎ ((w'.room s).game ≡ (w.room s).game))
      × ((w'.room s).board_size ≡ (w.room s).board_size)

pub KeepsGames-trans : (u v w : World) → KeepsGames u v → KeepsGames v w → KeepsGames u w
KeepsGames-trans u v w first second i s h =
    let (g, later, same) = second i s h in
    let (f, earlier, same') = first i s g in (f, ended later earlier, same ∙ same')
  where
    ended :
        {x y z : Option Game} → (x ≡ none) ⊎ (x ≡ y) → (y ≡ none) ⊎ (y ≡ z) → (x ≡ none) ⊎ (x ≡ z)
    ended (inl e) f = inl e
    ended (inr e) (inl f) = inl (e ∙ f)
    ended (inr e) (inr f) = inr (e ∙ f)

-- Neither the table nor a room changes.
pub KeepsGames-same : (w w' : World) → w'.room ≡ w.room → w'.rooms ≡ w.rooms → KeepsGames w w'
KeepsGames-same w w' e f i s h = (
  ap (λ xs. get_or xs i none) (sym f) ∙ h,
  inr (ap (λ m. (m s).game) e),
  ap (λ m. (m s).board_size) e,
)

pub KeepsGames-sent : (w w' : World) → OnlySends w w' → KeepsGames w w'
KeepsGames-sent w w' e = KeepsGames-same w w' (room-sent w w' e) (rooms-sent w w' e)

pub KeepsGames-set_room :
    (w : World) (r : ℕ) (x : Room)
    → (x.game ≡ none) ⊎ (x.game ≡ (w.room r).game)
    → x.board_size ≡ (w.room r).board_size
    → KeepsGames w (set_room w r x)
KeepsGames-set_room w r x ended same i s h = elim (eq_or_ne r s) [
  | inl e ↦ (
    h,
    kept e ended,
    ap (λ (y : Room). y.board_size) (here e) ∙ same ∙ ap (λ q. (w.room q).board_size) e,
  )
  | inr ne ↦ (
    h,
    inr (ap (λ (y : Room). y.game) (store_ne w.room r s x ne)),
    ap (λ (y : Room). y.board_size) (store_ne w.room r s x ne),
  )
]
  where
    here : r ≡ s → (set_room w r x).room s ≡ x
    here e = ap (λ q. (set_room w r x).room q) (sym e) ∙ store_self w.room r x

    kept :
        r ≡ s
        → (x.game ≡ none) ⊎ (x.game ≡ (w.room r).game)
        → (((set_room w r x).room s).game ≡ none)
          ⊎ (((set_room w r x).room s).game ≡ (w.room s).game)
    kept e (inl f) = inl (ap (λ (y : Room). y.game) (here e) ∙ f)
    kept e (inr f) = inr (ap (λ (y : Room). y.game) (here e) ∙ f ∙ ap (λ q. (w.room q).game) e)

pub KeepsGames-destroy : (w : World) (r : ℕ) → KeepsGames w (room_destroy w r)
unfolding room_destroy
KeepsGames-destroy w r i s h = (
  ap (λ xs. get_or xs i none) (sym frame.1)
      ∙ clear_slot_entry (find_player later.max_rooms 0 later.rooms r) later.rooms i s h,
  inr (ap (λ m. (m s).game) frame.0),
  ap (λ m. (m s).board_size) frame.0,
)
  where
    later : World
    later = dismiss_all 4 0 (w.room r).players w

    frame : (later.room ≡ w.room) × (later.rooms ≡ w.rooms)
    frame = dismiss_all-frame 4 0 (w.room r).players w

pub KeepsGames-dismiss : (w : World) (p : Option ℕ) → KeepsGames w (dismiss w p)
KeepsGames-dismiss w p = let (a, b, _) = dismiss-frame 0 w p in KeepsGames-same w (dismiss w p) a b

pub KeepsGames-dismiss_all :
    (w : World) (n : ℕ) (players : List (Option ℕ)) → KeepsGames w (dismiss_all n 0 players w)
KeepsGames-dismiss_all w n players =
    let (a, b) = dismiss_all-frame n 0 players w in
    KeepsGames-same w (dismiss_all n 0 players w) a b

vacate-KeepsGames : (w : World) (r c i : ℕ) → KeepsGames w (vacate w r c i)
unfolding vacate
vacate-KeepsGames w r c i =
    KeepsGames-set_room w r
      (record (w.room r) {
        players = set (w.room r).players i none;
        player_count = (w.room r).player_count - 1;
      })
      (inr refl) refl

pub release-KeepsGames : (n j r : ℕ) (w : World) → KeepsGames w (release n j r w)
unfolding release
release-KeepsGames zero j r w = λ i s h. (h, inr refl, refl)
release-KeepsGames (suc n) j r w =
    KeepsGames-trans w next (release n (j + 1) r next)
      (KeepsGames-trans w sent_off next (KeepsGames-dismiss w (get_or (w.room r).players j none)) (
        KeepsGames-set_room sent_off r
          (record (w.room r) { players = set (w.room r).players j none })
          (inr (ap (λ m. (m r).game) (sym same_room)))
          (ap (λ m. (m r).board_size) (sym same_room))))
      (release-KeepsGames n (j + 1) r next)
  where
    sent_off : World
    sent_off = dismiss w (get_or (w.room r).players j none)

    next : World
    next = set_room sent_off r (record (w.room r) { players = set (w.room r).players j none })

    same_room : sent_off.room ≡ w.room
    same_room = (dismiss-frame 0 w (get_or (w.room r).players j none)).0

pub empty_room-KeepsGames : (w : World) (r : ℕ) → KeepsGames w (empty_room w r)
unfolding empty_room
empty_room-KeepsGames w r =
    KeepsGames-trans w w1 (room_destroy w3 r)
      (KeepsGames-set_room w r (record (w.room r) { game = none; state = waiting }) (inl refl) refl)
      (KeepsGames-trans w1 w2 (room_destroy w3 r) (release-KeepsGames 4 0 r w1) (
        KeepsGames-trans w2 w3 (room_destroy w3 r)
          (KeepsGames-set_room w2 r (record (w2.room r) { player_count = 0 }) (inr refl) refl)
          (KeepsGames-destroy w3 r)))
  where
    w1 : World
    w1 = set_room w r (record (w.room r) { game = none; state = waiting })

    w2 : World
    w2 = release 4 0 r w1

    w3 : World
    w3 = set_room w2 r (record (w2.room r) { player_count = 0 })

forfeit-KeepsGames : (w : World) (r c : ℕ) (g : Game) → KeepsGames w (forfeit w r c g)
unfolding forfeit
forfeit-KeepsGames w r c g =
    KeepsGames-trans w told (forfeit w r c g)
      (KeepsGames-sent w told (room_broadcast-OnlySends w r _)) (empty_room-KeepsGames told r)
  where
    told : World
    told =
        room_broadcast w r
          (game_end_forfeit (final_scores w.client g.player_count 0 g.players (forfeit_scores g c)))

hand_over-KeepsGames : (w : World) (r : ℕ) (p : Option ℕ) → KeepsGames w (hand_over w r p)
unfolding hand_over
hand_over-KeepsGames w r none = λ i s h. (h, inr refl, refl)
hand_over-KeepsGames w r (some o) =
    KeepsGames-trans w owned (hand_over w r (some o))
      (KeepsGames-set_room w r (record (w.room r) { owner = o }) (inr refl) refl)
      (KeepsGames-sent owned _
        (room_broadcast-OnlySends owned r (room_owner_changed (w.client o).nickname)))
  where
    owned : World
    owned = set_room w r (record (w.room r) { owner = o })

close_room-KeepsGames : (w : World) (r : ℕ) → KeepsGames w (close_room w r)
unfolding close_room
close_room-KeepsGames w r =
    KeepsGames-trans w told (close_room w r)
      (KeepsGames-sent w told (room_broadcast-OnlySends w r room_closed))
      (KeepsGames-trans told empty (close_room w r)
        (KeepsGames-dismiss_all told 4 (told.room r).players) (KeepsGames-destroy empty r))
  where
    told : World
    told = room_broadcast w r room_closed

    empty : World
    empty = dismiss_all 4 0 (told.room r).players told

destroy_if_empty-KeepsGames : (w : World) (r : ℕ) → KeepsGames w (destroy_if_empty w r)
unfolding destroy_if_empty
destroy_if_empty-KeepsGames w r = elim (Bool-cases ((w.room r).player_count == 0)) [
  | inl t ↦ rw t (KeepsGames-destroy w r)
  | inr f ↦ rw f (λ i s h. (h, inr refl, refl))
]

after_owner-KeepsGames : (w : World) (r c : ℕ) → KeepsGames w (after_owner w r c)
unfolding after_owner
after_owner-KeepsGames w r c = elim (Bool-cases ((owned.room r).owner == c)) [
  | inl t ↦
      rw t (KeepsGames-trans w owned (close_room owned r) handed (close_room-KeepsGames owned r))
  | inr f ↦ rw f (
      KeepsGames-trans w owned (destroy_if_empty owned r) handed
        (destroy_if_empty-KeepsGames owned r))
]
  where
    owned : World
    owned = hand_over w r (find_connected w.client 4 0 (w.room r).players)

    handed : KeepsGames w owned
    handed = hand_over-KeepsGames w r (find_connected w.client 4 0 (w.room r).players)

others_or_none-KeepsGames :
    (w : World) (r c : ℕ) (was_owner : Bool)
    → KeepsGames w (
        if was_owner && ltb 0 (w.room r).player_count
        then after_owner w r c
        else destroy_if_empty w r)
others_or_none-KeepsGames w r c was_owner =
    elim (Bool-cases (was_owner && ltb 0 (w.room r).player_count)) [
      | inl t ↦ rw t (after_owner-KeepsGames w r c)
      | inr f ↦ rw f (destroy_if_empty-KeepsGames w r)
    ]

after_leave-KeepsGames :
    (w : World) (r c : ℕ) (was_owner : Bool) (o : Option Game)
    → KeepsGames w (after_leave w r c was_owner o)
unfolding after_leave
after_leave-KeepsGames w r c was_owner none = others_or_none-KeepsGames w r c was_owner
after_leave-KeepsGames w r c was_owner (some g) =
    elim (Bool-cases (ltb (w.room r).player_count 2)) [
      | inl t ↦ rw t (forfeit-KeepsGames w r c g)
      | inr f ↦ rw f (others_or_none-KeepsGames w r c was_owner)
    ]

-- Whatever becomes of the room that is left.
pub room_remove_player-KeepsGames :
    (w w' : World) (r c : ℕ) → room_remove_player w r c ≡ some w' → KeepsGames w w'
unfolding room_remove_player
room_remove_player-KeepsGames w w' r c e = by_slot (find_player 4 0 (w.room r).players c) e
  where
    by_slot : (p : Option ℕ) → remove_from w r c p ≡ some w' → KeepsGames w w'
    by_slot none h = absurd (none-ne-some (unfold remove_from in h))
    by_slot (some i) h = subst (KeepsGames w) (some_eq (unfold remove_from in h)) (
        KeepsGames-trans w (vacate w r c i)
          (after_leave (vacate w r c i) r c ((w.room r).owner == c) (w.room r).game)
          (vacate-KeepsGames w r c i)
          (after_leave-KeepsGames (vacate w r c i) r c ((w.room r).owner == c) (w.room r).game))
