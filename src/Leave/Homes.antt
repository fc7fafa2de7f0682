-- ===== src/Leave/Homes.antt =====
-- The steps of server_src/room.c keep each client that is in a room in a slot of that room, and the
-- room in the table.
use tmwmf_sem_ups.Base.{
  ℕ, zero, suc, ◌+◌, ◌<◌, ◌≡◌, ◌≢◌, ◌⊎◌, inl, inr, ◌∙◌, ap, sym, Option, none, some, List, get_or,
  set, get_or-set_ne, some_eq, none-ne-some, eq_or_ne, length, arith,
}
use tmwmf_sem_ups.Client.{Client, store_self, store_ne}
use tmwmf_sem_ups.Game.{find_player}
use tmwmf_sem_ups.Game.Seats.{FirstSeat, find_player-FirstSeat}
use tmwmf_sem_ups.World.{World, Room, set_room, Message, client_send_message, room_broadcast}
use tmwmf_sem_ups.World.Broadcast.{
  OnlySends, room_broadcast-OnlySends, client_send_message-OnlySends,
}
use tmwmf_sem_ups.Room.{dismiss, dismiss_all, room_destroy, clear_slot}
use tmwmf_sem_ups.Room.Destroy.{dismiss-client, dismiss-frame, dismissed}
use tmwmf_sem_ups.Leave.Steps.{client-sent, room-sent, rooms-sent, held_below}
use tmwmf_sem_ups.Leave.Games.{dismiss_all-frame}

-- The room of the client, if it is in one, is in the table, and the client sits in it.
abbrev pub Home : World → ℕ → Type 0
Home w d =
    (r : ℕ)
    → (w.client d).room ≡ some r
    → ((j : ℕ) × (get_or w.rooms j none ≡ some r))
      × ((k : ℕ) × (get_or (w.room r).players k none ≡ some d))

abbrev pub KeepsHomes : World → World → Type 0
KeepsHomes w w' = (d : ℕ) → Home w d → Home w' d

-- Neither the tables nor the rooms of the clients change.
pub KeepsHomes-same :
    (w w' : World)
    → ((d : ℕ) → (w'.client d).room ≡ (w.client d).room)
    → w'.room ≡ w.room
    → w'.rooms ≡ w.rooms
    → KeepsHomes w w'
KeepsHomes-same w w' a b c d home r e =
    let ((j, listed), (k, seated)) = home r (sym (a d) ∙ e) in
    (
      (j, ap (λ xs. get_or xs j none) c ∙ listed),
      (k, ap (λ m. get_or (m r).players k none) b ∙ seated),
    )

pub KeepsHomes-sent : (w w' : World) → OnlySends w w' → KeepsHomes w w'
KeepsHomes-sent w w' e =
    KeepsHomes-same w w' (λ d. ap (λ m. (m d).room) (client-sent w w' e)) (room-sent w w' e)
      (rooms-sent w w' e)

pub send-KeepsHomes :
    (w : World) (c : ℕ) (message : Message) → KeepsHomes w (client_send_message w c message)
send-KeepsHomes w c message =
    KeepsHomes-sent w (client_send_message w c message) (client_send_message-OnlySends w c message)

pub broadcast-KeepsHomes :
    (w : World) (r : ℕ) (message : Message) → KeepsHomes w (room_broadcast w r message)
broadcast-KeepsHomes w r message =
    KeepsHomes-sent w (room_broadcast w r message) (room_broadcast-OnlySends w r message)

-- A room changes, but its players do not.
pub KeepsHomes-set_room :
    (w : World) (r : ℕ) (x : Room) → x.players ≡ (w.room r).players → KeepsHomes w (set_room w r x)
KeepsHomes-set_room w r x same d home s e =
    let (listed, (k, seated)) = home s e in
    (
      listed,
      (
        k,
        elim (eq_or_ne r s) [
          | inl f ↦
              ap (λ q. get_or ((set_room w r x).room q).players k none) (sym f)
              ∙ ap (λ (y : Room). get_or y.players k none) (store_self w.room r x)
              ∙ ap (λ ps. get_or ps k none) same
              ∙ ap (λ q. get_or (w.room q).players k none) f
              ∙ seated
          | inr ne ↦ ap (λ (y : Room). get_or y.players k none) (store_ne w.room r s x ne) ∙ seated
        ],
      ),
    )

-- A client is sent to the lobby: it has no room to be in.
pub KeepsHomes-dismiss : (w : World) (p : Option ℕ) → KeepsHomes w (dismiss w p)
KeepsHomes-dismiss w p d home r e = elim (dismiss-client d w p) [
  | inl (_, f) ↦ absurd (none-ne-some (sym (ap (λ (v : Client). v.room) f) ∙ e))
  | inr (_, f) ↦
      let ((j, listed), (k, seated)) = home r (sym (ap (λ (v : Client). v.room) f) ∙ e) in
      let (a, b, _) = dismiss-frame 0 w p in
      (
        (j, ap (λ xs. get_or xs j none) b ∙ listed),
        (k, ap (λ m. get_or (m r).players k none) a ∙ seated),
      )
]

pub KeepsHomes-dismiss_all :
    (n i : ℕ) (players : List (Option ℕ)) (w : World) → KeepsHomes w (dismiss_all n i players w)
unfolding dismiss_all
KeepsHomes-dismiss_all zero i players w d home = home
KeepsHomes-dismiss_all (suc n) i players w d home =
    KeepsHomes-dismiss_all n (i + 1) players (dismiss w (get_or players i none)) d
      (KeepsHomes-dismiss w (get_or players i none) d home)

-- Once a slot is cleared, its client is gone from there and no other one is.
cleared_seat :
    (players : List (Option ℕ)) (i k d : ℕ)
    → get_or players i none ≢ some d
    → get_or players k none ≡ some d
    → get_or (set players i none) k none ≡ some d
cleared_seat players i k d ne h = elim (eq_or_ne i k) [
  | inl e ↦ absurd (ne (ap (λ q. get_or players q none) e ∙ h))
  | inr apart ↦ get_or-set_ne players i k none none apart ∙ h
]

-- One slot of a room is cleared, and its client sent to the lobby.
pub KeepsHomes-clear :
    (w w' : World) (r i : ℕ)
    → ((d : ℕ)
        → ((w'.client d).room ≡ none)
          ⊎ ((get_or (w.room r).players i none ≢ some d)
              × ((w'.client d).room ≡ (w.client d).room)))
    → ((s : ℕ) → r ≢ s → (w'.room s).players ≡ (w.room s).players)
    → (w'.room r).players ≡ set (w.room r).players i none
    → w'.rooms ≡ w.rooms
    → KeepsHomes w w'
KeepsHomes-clear w w' r i gone others own same d home s e = elim (gone d) [
  | inl out ↦ absurd (none-ne-some (sym out ∙ e))
  | inr (ne, stays) ↦
      let ((j, listed), (k, seated)) = home s (sym stays ∙ e) in
      ((j, ap (λ xs. get_or xs j none) same ∙ listed), (k, at ne k seated (eq_or_ne r s)))
]
  where
    at :
        get_or (w.room r).players i none ≢ some d
        → (k : ℕ) → get_or (w.room s).players k none ≡ some d
        → (r ≡ s) ⊎ (r ≢ s)
        → get_or (w'.room s).players k none ≡ some d
    at ne k seated (inl f) =
        ap (λ q. get_or (w'.room q).players k none) (sym f)
        ∙ ap (λ ps. get_or ps k none) own
        ∙ cleared_seat (w.room r).players i k d ne
            (ap (λ q. get_or (w.room q).players k none) f ∙ seated)
    at ne k seated (inr apart) = ap (λ ps. get_or ps k none) (others s apart) ∙ seated

-- Every player of the room sits in one of its four slots.
abbrev pub FourSlots : World → ℕ → Type 0
FourSlots w r = (k d : ℕ) → get_or (w.room r).players k none ≡ some d → k < 4

pub KeepsHomes-destroy : (w : World) (r : ℕ) → FourSlots w r → KeepsHomes w (room_destroy w r)
unfolding room_destroy clear_slot
KeepsHomes-destroy w r four d home s e = elim (eq_or_ne r s) [
  | inl f ↦
      let (k, seated) = still.1 in
      let here = ap (λ q. get_or (w.room q).players k none) f ∙ seated_before k seated in
      absurd (
        none-ne-some (
          sym (
            ap (λ (v : Client). v.room)
              (dismissed d (w.room r).players 4 0 k w (omega arith) (omega (arith, four k d here))
                here))
          ∙ e))
  | inr ne ↦ let (j, listed) = still.0 in ((j, kept j ne listed), still.1)
]
  where
    later : World
    later = dismiss_all 4 0 (w.room r).players w

    still :
        ((j : ℕ) × (get_or later.rooms j none ≡ some s))
        × ((k : ℕ) × (get_or (later.room s).players k none ≡ some d))
    still = KeepsHomes-dismiss_all 4 0 (w.room r).players w d home s e

    seated_before :
        (k : ℕ)
        → get_or (later.room s).players k none ≡ some d
        → get_or (w.room s).players k none ≡ some d
    seated_before k h =
        ap (λ m. get_or (m s).players k none) (sym (dismiss_all-frame 4 0 (w.room r).players w).0)
        ∙ h

    kept :
        (j : ℕ)
        → r ≢ s
        → get_or later.rooms j none ≡ some s
        → get_or (clear_slot (find_player later.max_rooms 0 later.rooms r) later.rooms) j none
          ≡ some s
    kept j ne h =
        by_search (find_player later.max_rooms 0 later.rooms r)
          (find_player-FirstSeat later.max_rooms 0 later.rooms r)
      where
        by_search :
            (p : Option ℕ)
            → FirstSeat later.max_rooms 0 later.rooms r p
            → get_or (clear_slot p later.rooms) j none ≡ some s
        by_search none none_found = unfold clear_slot in h
        by_search (some i) (_, _, found, _) =
            unfold clear_slot in
            cleared_seat later.rooms i j s (λ f. ne (some_eq (sym found ∙ f))) h

-- The room has four slots.
abbrev pub HasSlots : World → ℕ → Type 0
HasSlots w r = length (w.room r).players ≡ 4

pub HasSlots-FourSlots : (w : World) (r : ℕ) → HasSlots w r → FourSlots w r
HasSlots-FourSlots w r size k d h = omega (arith, size, held_below (w.room r).players k d h)

pub HasSlots-sent : (w w' : World) (r : ℕ) → OnlySends w w' → HasSlots w r → HasSlots w' r
HasSlots-sent w w' r e size = ap (λ m. length (m r).players) (room-sent w w' e) ∙ size
