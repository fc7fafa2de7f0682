-- ===== src/Leave/Keeps.antt =====
-- `room_remove_player` of server_src/room.c keeps every client that is in a room in a slot of it.
use tmwmf_sem_ups.Base.{
  ℕ, zero, suc, ◌+◌, ◌-◌, ◌≡◌, ◌≢◌, refl, ◌⊎◌, inl, inr, ◌∙◌, ap, sym, subst, Bool, ◌&&◌, Option,
  none, some, get_or, set, Bool-cases, some_eq, none-ne-some, eq_or_ne, ltb, ◌==◌, length,
  length-set, if◌then◌else◌,
}
use tmwmf_sem_ups.Client.{Client, store, store_self, store_ne}
use tmwmf_sem_ups.Game.{Game, find_player}
use tmwmf_sem_ups.Game.Seats.{FirstSeat, find_player-FirstSeat}
use tmwmf_sem_ups.Forfeit.{forfeit_scores, final_scores}
use tmwmf_sem_ups.World.{
  World, Room, waiting, set_room, Message, room_broadcast, room_owner_changed, room_closed,
  game_end_forfeit,
}
use tmwmf_sem_ups.World.Broadcast.{OnlySends, room_broadcast-OnlySends}
use tmwmf_sem_ups.Room.{leave, dismiss, dismiss_all}
use tmwmf_sem_ups.Room.Destroy.{dismiss-client, dismiss-frame}
use tmwmf_sem_ups.Leave.Games.{dismiss_all-frame}
use tmwmf_sem_ups.Leave.{
  vacate, release, empty_room, forfeit, hand_over, find_connected, close_room, destroy_if_empty,
  after_owner, after_leave, remove_from, room_remove_player,
}
use tmwmf_sem_ups.Leave.Homes.{
  KeepsHomes, KeepsHomes-sent, KeepsHomes-set_room, KeepsHomes-dismiss_all, KeepsHomes-clear,
  KeepsHomes-destroy, HasSlots, HasSlots-FourSlots, HasSlots-sent,
}

pub vacate-KeepsHomes :
    (w : World) (r c i : ℕ)
    → get_or (w.room r).players i none ≡ some c
    → KeepsHomes w (vacate w r c i) × (HasSlots w r → HasSlots (vacate w r c i) r)
unfolding vacate
vacate-KeepsHomes w r c i seated = (
  KeepsHomes-clear w (vacate w r c i) r i gone
      (λ s ne. ap (λ (y : Room). y.players) (store_ne w.room r s vacated ne))
      (ap (λ (y : Room). y.players) (store_self w.room r vacated)) refl,
  λ size.
      ap (λ (y : Room). length y.players) (store_self w.room r vacated)
      ∙ length-set (w.room r).players i none
      ∙ size,
)
  where
    vacated : Room
    vacated = record (w.room r) {
      players = set (w.room r).players i none;
      player_count = (w.room r).player_count - 1;
    }

    gone :
        (d : ℕ)
        → ((store w.client c (leave (w.client c)) d).room ≡ none)
          ⊎ ((get_or (w.room r).players i none ≢ some d)
              × ((store w.client c (leave (w.client c)) d).room ≡ (w.client d).room))
    gone d = elim (eq_or_ne c d) [
      | inl e ↦ inl (
          ap (λ q. (store w.client c (leave (w.client c)) q).room) (sym e)
          ∙ ap (λ (v : Client). v.room) (store_self w.client c (leave (w.client c))))
      | inr ne ↦ inr (
        λ f. ne (some_eq (sym seated ∙ f)),
        ap (λ (v : Client). v.room) (store_ne w.client c d (leave (w.client c)) ne),
      )
    ]

pub release-KeepsHomes :
    (n j r : ℕ) (w : World)
    → KeepsHomes w (release n j r w) × (HasSlots w r → HasSlots (release n j r w) r)
unfolding release
release-KeepsHomes zero j r w = (λ d home. home, λ size. size)
release-KeepsHomes (suc n) j r w =
    let (homes, slots) = release-KeepsHomes n (j + 1) r next in
    (λ d home. homes d (step d home), λ size. slots (sized size))
  where
    p : Option ℕ
    p = get_or (w.room r).players j none

    cleared : Room
    cleared = record (w.room r) { players = set (w.room r).players j none }

    next : World
    next = set_room (dismiss w p) r cleared

    same_room : (dismiss w p).room ≡ w.room
    same_room = (dismiss-frame 0 w p).0

    sized : HasSlots w r → HasSlots next r
    sized size =
        ap (λ (y : Room). length y.players) (store_self (dismiss w p).room r cleared)
        ∙ length-set (w.room r).players j none
        ∙ size

    gone :
        (d : ℕ)
        → ((next.client d).room ≡ none)
          ⊎ ((p ≢ some d) × ((next.client d).room ≡ (w.client d).room))
    gone d = elim (dismiss-client d w p) [
      | inl (_, f) ↦ inl (ap (λ (v : Client). v.room) f)
      | inr (ne, f) ↦ inr (ne, ap (λ (v : Client). v.room) f)
    ]

    step : KeepsHomes w next
    step =
        KeepsHomes-clear w next r j gone
          (λ s ne.
            ap (λ (y : Room). y.players) (store_ne (dismiss w p).room r s cleared ne)
            ∙ ap (λ m. (m s).players) same_room)
          (ap (λ (y : Room). y.players) (store_self (dismiss w p).room r cleared))
          (dismiss-frame 0 w p).1

pub empty_room-KeepsHomes : (w : World) (r : ℕ) → HasSlots w r → KeepsHomes w (empty_room w r)
unfolding empty_room
empty_room-KeepsHomes w r size d home = KeepsHomes-destroy w3 r (HasSlots-FourSlots w3 r slots3) d (
    KeepsHomes-set_room w2 r (record (w2.room r) { player_count = 0 }) refl d
      ((release-KeepsHomes 4 0 r w1).0 d
        (KeepsHomes-set_room w r (record (w.room r) { game = none; state = waiting }) refl d home)))
  where
    w1 : World
    w1 = set_room w r (record (w.room r) { game = none; state = waiting })

    w2 : World
    w2 = release 4 0 r w1

    w3 : World
    w3 = set_room w2 r (record (w2.room r) { player_count = 0 })

    slots2 : HasSlots w2 r
    slots2 = (release-KeepsHomes 4 0 r w1).1 (
        ap (λ (y : Room). length y.players)
          (store_self w.room r (record (w.room r) { game = none; state = waiting }))
        ∙ size)

    slots3 : HasSlots w3 r
    slots3 =
        ap (λ (y : Room). length y.players)
          (store_self w2.room r (record (w2.room r) { player_count = 0 }))
        ∙ slots2

forfeit-KeepsHomes :
    (w : World) (r c : ℕ) (g : Game) → HasSlots w r → KeepsHomes w (forfeit w r c g)
unfolding forfeit
forfeit-KeepsHomes w r c g size d home =
    empty_room-KeepsHomes told r (HasSlots-sent w told r only size) d
      (KeepsHomes-sent w told only d home)
  where
    message : Message
    message =
        game_end_forfeit (final_scores w.client g.player_count 0 g.players (forfeit_scores g c))

    told : World
    told = room_broadcast w r message

    only : OnlySends w told
    only = room_broadcast-OnlySends w r message

hand_over-KeepsHomes :
    (w : World) (r : ℕ) (p : Option ℕ)
    → KeepsHomes w (hand_over w r p) × (HasSlots w r → HasSlots (hand_over w r p) r)
unfolding hand_over
hand_over-KeepsHomes w r none = (λ d home. home, λ size. size)
hand_over-KeepsHomes w r (some o) = (
  λ d home.
      KeepsHomes-sent owned _ only d
        (KeepsHomes-set_room w r (record (w.room r) { owner = o }) refl d home),
  λ size. HasSlots-sent owned _ r only (
      ap (λ (y : Room). length y.players) (store_self w.room r (record (w.room r) { owner = o }))
      ∙ size),
)
  where
    owned : World
    owned = set_room w r (record (w.room r) { owner = o })

    only : OnlySends owned (room_broadcast owned r (room_owner_changed (w.client o).nickname))
    only = room_broadcast-OnlySends owned r (room_owner_changed (w.client o).nickname)

close_room-KeepsHomes : (w : World) (r : ℕ) → HasSlots w r → KeepsHomes w (close_room w r)
unfolding close_room
close_room-KeepsHomes w r size d home =
    KeepsHomes-destroy empty r (HasSlots-FourSlots empty r slots) d
      (KeepsHomes-dismiss_all 4 0 (told.room r).players told d (KeepsHomes-sent w told only d home))
  where
    told : World
    told = room_broadcast w r room_closed

    only : OnlySends w told
    only = room_broadcast-OnlySends w r room_closed

    empty : World
    empty = dismiss_all 4 0 (told.room r).players told

    slots : HasSlots empty r
    slots =
        ap (λ m. length (m r).players) (dismiss_all-frame 4 0 (told.room r).players told).0
        ∙ HasSlots-sent w told r only size

destroy_if_empty-KeepsHomes :
    (w : World) (r : ℕ) → HasSlots w r → KeepsHomes w (destroy_if_empty w r)
unfolding destroy_if_empty
destroy_if_empty-KeepsHomes w r size = elim (Bool-cases ((w.room r).player_count == 0)) [
  | inl t ↦ rw t (KeepsHomes-destroy w r (HasSlots-FourSlots w r size))
  | inr f ↦ rw f (λ d home. home)
]

after_owner-KeepsHomes : (w : World) (r c : ℕ) → HasSlots w r → KeepsHomes w (after_owner w r c)
unfolding after_owner
after_owner-KeepsHomes w r c size = elim (Bool-cases ((owned.room r).owner == c)) [
  | inl t ↦ rw t (λ d home. close_room-KeepsHomes owned r (handed.1 size) d (handed.0 d home))
  | inr f ↦ rw f (λ d home. destroy_if_empty-KeepsHomes owned r (handed.1 size) d (handed.0 d home))
]
  where
    owned : World
    owned = hand_over w r (find_connected w.client 4 0 (w.room r).players)

    handed : KeepsHomes w owned × (HasSlots w r → HasSlots owned r)
    handed = hand_over-KeepsHomes w r (find_connected w.client 4 0 (w.room r).players)

others_or_none-KeepsHomes :
    (w : World) (r c : ℕ) (was_owner : Bool)
    → HasSlots w r
    → KeepsHomes w (
        if was_owner && ltb 0 (w.room r).player_count
        then after_owner w r c
        else destroy_if_empty w r)
others_or_none-KeepsHomes w r c was_owner size =
    elim (Bool-cases (was_owner && ltb 0 (w.room r).player_count)) [
      | inl t ↦ rw t (after_owner-KeepsHomes w r c size)
      | inr f ↦ rw f (destroy_if_empty-KeepsHomes w r size)
    ]

after_leave-KeepsHomes :
    (w : World) (r c : ℕ) (was_owner : Bool) (o : Option Game)
    → HasSlots w r
    → KeepsHomes w (after_leave w r c was_owner o)
unfolding after_leave
after_leave-KeepsHomes w r c was_owner none size = others_or_none-KeepsHomes w r c was_owner size
after_leave-KeepsHomes w r c was_owner (some g) size =
    elim (Bool-cases (ltb (w.room r).player_count 2)) [
      | inl t ↦ rw t (forfeit-KeepsHomes w r c g size)
      | inr f ↦ rw f (others_or_none-KeepsHomes w r c was_owner size)
    ]

-- Whatever becomes of the room that is left.
pub room_remove_player-KeepsHomes :
    (w w' : World) (r c : ℕ) → HasSlots w r → room_remove_player w r c ≡ some w' → KeepsHomes w w'
unfolding room_remove_player
room_remove_player-KeepsHomes w w' r c size e =
    by_slot (find_player 4 0 (w.room r).players c) (find_player-FirstSeat 4 0 (w.room r).players c)
      e
  where
    by_slot :
        (p : Option ℕ)
        → FirstSeat 4 0 (w.room r).players c p
        → remove_from w r c p ≡ some w'
        → KeepsHomes w w'
    by_slot none _ h = absurd (none-ne-some (unfold remove_from in h))
    by_slot (some i) (_, _, seated, _) h =
        subst (KeepsHomes w) (some_eq (unfold remove_from in h)) (λ d home.
          after_leave-KeepsHomes (vacate w r c i) r c ((w.room r).owner == c) (w.room r).game
            ((vacate-KeepsHomes w r c i seated).1 size) d
            ((vacate-KeepsHomes w r c i seated).0 d home))
