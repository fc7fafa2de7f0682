-- ===== src/Room/Destroy.antt =====
-- `room_destroy` of server_src/room.c.
use tmwmf_sem_ups.Base.{
  eq_or_ne, split_le, none-ne-some, some_eq, ℕ, zero, suc, ◌+◌, ◌≤◌, ◌<◌, ◌≡◌, ◌≢◌, refl, ◌⊎◌, inl,
  inr, Option, none, some, List, length-set, get_or, get_or-set_self, get_or-set_ne, get_or-ge, set,
  arith, ◌∙◌, ap, sym, subst,
}
use tmwmf_sem_ups.Client.{Client, store_ne, store_self}
use tmwmf_sem_ups.Game.{find_player}
use tmwmf_sem_ups.Game.Seats.{FirstSeat, find_player-FirstSeat}
use tmwmf_sem_ups.World.{World}
use tmwmf_sem_ups.Room.{leave, dismiss, dismiss_all, clear_slot, room_destroy}
use tmwmf_sem_ups.Room.Valid.{RoomOk}
use tmwmf_sem_ups.Room.Table.{WorldOk, OthersOk, OthersOk-dismiss, WorldOk-OthersOk}

-- The players whose rooms are cleared are those of `r`.
module _ (r : ℕ) where
  -- Nothing but clients changes.
  pub dismiss-frame :
      (w : World) (p : Option ℕ)
      → ((dismiss w p).room ≡ w.room)
        × ((dismiss w p).rooms ≡ w.rooms)
        × ((dismiss w p).max_rooms ≡ w.max_rooms)
  dismiss-frame w none = (refl, refl, refl)
  dismiss-frame w (some c) = (refl, refl, refl)

  pub OthersOk-dismiss_all :
      (n i : ℕ) (w : World) → OthersOk w r → OthersOk (dismiss_all n i (w.room r).players w) r
  unfolding dismiss_all
  OthersOk-dismiss_all zero i w ok = ok
  OthersOk-dismiss_all (suc n) i w ok =
      let w' = dismiss w (get_or (w.room r).players i none) in
      subst (λ (players : List (Option ℕ)). OthersOk (dismiss_all n (i + 1) players w') r)
        (ap (λ m. (m r).players) (dismiss-frame w (get_or (w.room r).players i none)).0)
        (OthersOk-dismiss_all n (i + 1) w'
          (OthersOk-dismiss w r (get_or (w.room r).players i none) (λ d h. ok.own i d h) ok))

-- The slot of the room is cleared.
module _ (w : World) (r : ℕ) (ok : OthersOk w r) where
  abbrev cleared : Option ℕ → World
  cleared p = record w { rooms = clear_slot p w.rooms }

  RoomOk-cleared :
      {slots : List (Option ℕ)} (s : ℕ) → RoomOk w s → RoomOk (record w { rooms = slots }) s
  RoomOk-cleared s here = record { slots = here.slots; back = here.back }

  WorldOk-cleared : (p : Option ℕ) → FirstSeat w.max_rooms 0 w.rooms r p → WorldOk (cleared p)
  unfolding clear_slot
  WorldOk-cleared none absent = record {
    table = ok.table;
    rooms = λ i s h. ok.others i s (λ e. gone i (h ∙ ap some (sym e))) h;
  }
    where
      range : (i : ℕ) → (i < w.max_rooms) ⊎ (w.max_rooms ≤ i)
      range i = omega arith

      gone : (i : ℕ) → get_or w.rooms i none ≢ some r
      gone i h = elim (range i) [
        | inl lt ↦ absent i (omega arith) (omega (arith, lt)) h
        | inr ge ↦
            none-ne-some (sym (get_or-ge w.rooms i none (omega (arith, ok.table.size, ge))) ∙ h)
      ]
  WorldOk-cleared (some k) (_, hi, e, _) = record {
    table = record {
      size = length-set w.rooms k none ∙ ok.table.size;
      older = λ i s h. ok.table.older i s (kept i s h).1;
      apart = λ i j s t ne h h'. ok.table.apart i j s t ne (kept i s h).1 (kept j t h').1;
    };
    rooms = λ i s h. RoomOk-cleared s (
        ok.others i s
          (λ f.
            ok.table.apart k i r s (λ g. (kept i s h).0 g) e (kept i s h).1
              (ap (λ q. (w.room q).room_id) f))
          (kept i s h).1);
  }
    where
      kept :
          (i s : ℕ)
          → get_or (set w.rooms k none) i none ≡ some s
          → (k ≢ i) × (get_or w.rooms i none ≡ some s)
      kept i s h = elim (eq_or_ne k i) [
        | inl f ↦ absurd (
            none-ne-some (
              sym (get_or-set_self w.rooms k none none (omega (arith, hi, ok.table.size)))
              ∙ ap (λ q. get_or (set w.rooms k none) q none) f
              ∙ h))
        | inr ne ↦ (ne, sym (get_or-set_ne w.rooms k i none none ne) ∙ h)
      ]

-- Once a room is destroyed the table is valid, even if that room was not.
pub room_destroy-WorldOk : (w : World) (r : ℕ) → OthersOk w r → WorldOk (room_destroy w r)
unfolding room_destroy
room_destroy-WorldOk w r ok =
    WorldOk-cleared (dismiss_all 4 0 (w.room r).players w) r (OthersOk-dismiss_all r 4 0 w ok)
      (find_player (dismiss_all 4 0 (w.room r).players w).max_rooms 0
        (dismiss_all 4 0 (w.room r).players w).rooms r)
      (find_player-FirstSeat (dismiss_all 4 0 (w.room r).players w).max_rooms 0
        (dismiss_all 4 0 (w.room r).players w).rooms r)

-- What becomes of one client when players are sent to the lobby.
pub dismiss-client :
    (c : ℕ) (w : World) (p : Option ℕ)
    → ((p ≡ some c) × ((dismiss w p).client c ≡ leave (w.client c)))
      ⊎ ((p ≢ some c) × ((dismiss w p).client c ≡ w.client c))
dismiss-client c w none = inr (none-ne-some, refl)
dismiss-client c w (some d) = elim (eq_or_ne d c) [
  | inl e ↦ inl (
    ap some e,
    subst (λ x. (dismiss w (some x)).client c ≡ leave (w.client c)) (sym e)
        (store_self w.client c (leave (w.client c))),
  )
  | inr ne ↦ inr (λ e. ne (some_eq e), store_ne w.client d c (leave (w.client d)) ne)
]

module _ (c : ℕ) (players : List (Option ℕ)) where
  pub still_left :
      (n i : ℕ) (w : World) (v : Client)
      → w.client c ≡ leave v
      → (dismiss_all n i players w).client c ≡ leave v
  unfolding dismiss_all
  still_left zero i w v e = e
  still_left (suc n) i w v e =
      still_left n (i + 1) (dismiss w (get_or players i none)) v
        (elim (dismiss-client c w (get_or players i none)) [
          | inl (_, f) ↦ f ∙ ap leave e
          | inr (_, f) ↦ f ∙ e
        ])

  pub dismissed :
      (n i k : ℕ) (w : World)
      → i ≤ k
      → k < i + n
      → get_or players k none ≡ some c
      → (dismiss_all n i players w).client c ≡ leave (w.client c)
  unfolding dismiss_all
  dismissed zero i k w lo hi h = absurd (omega arith)
  dismissed (suc n) i k w lo hi h = elim (dismiss-client c w (get_or players i none)) [
    | inl (_, f) ↦ still_left n (i + 1) (dismiss w (get_or players i none)) (w.client c) f
    | inr (ne, f) ↦
        dismissed n (i + 1) k (dismiss w (get_or players i none)) (past ne) (omega arith) h
        ∙ ap leave f
  ]
    where
      past : get_or players i none ≢ some c → i + 1 ≤ k
      past ne = elim (split_le i k lo) [
        | inl e ↦ absurd (ne (ap (λ q. get_or players q none) e ∙ h))
        | inr lt ↦ lt
      ]

  pub not_dismissed :
      (n i : ℕ) (w : World)
      → ((k : ℕ) → get_or players k none ≢ some c)
      → (dismiss_all n i players w).client c ≡ w.client c
  unfolding dismiss_all
  not_dismissed zero i w absent = refl
  not_dismissed (suc n) i w absent =
      not_dismissed n (i + 1) (dismiss w (get_or players i none)) absent
      ∙ elim (dismiss-client c w (get_or players i none)) [
        | inl (e, _) ↦ absurd (absent i e)
        | inr (_, f) ↦ f
      ]

-- Destroying a room of a valid table leaves a valid table, sends each player of the room to the
-- lobby and no one else, and keeps the content of every room.
pub room_destroy_lem :
    (w : World) (r i : ℕ)
    → WorldOk w
    → get_or w.rooms i none ≡ some r
    → WorldOk (room_destroy w r)
      × ((c k : ℕ)
          → get_or (w.room r).players k none ≡ some c
          → (room_destroy w r).client c ≡ leave (w.client c))
      × ((c : ℕ)
          → ((k : ℕ) → get_or (w.room r).players k none ≢ some c)
          → (room_destroy w r).client c ≡ w.client c)
      × ((room_destroy w r).room ≡ w.room)
unfolding room_destroy
room_destroy_lem w r i ok h = (
  room_destroy-WorldOk w r (WorldOk-OthersOk w r i h ok),
  λ c k e. dismissed c (w.room r).players 4 0 k w (omega arith) (below c k e) e,
  λ c absent. not_dismissed c (w.room r).players 4 0 w absent,
  dismiss_all-room 4 0 (w.room r).players w,
)
  where
    range : (k : ℕ) → (k < 4) ⊎ (4 ≤ k)
    range k = omega arith

    below : (c k : ℕ) → get_or (w.room r).players k none ≡ some c → k < 0 + 4
    below c k e = elim (range k) [
      | inl lt ↦ lt
      | inr ge ↦ absurd (
          none-ne-some (
            sym
              (get_or-ge (w.room r).players k none (omega (arith, (ok.rooms i r h).slots.size, ge)))
            ∙ e))
    ]

    dismiss_all-room :
        (n k : ℕ) (players : List (Option ℕ)) (w : World)
        → (dismiss_all n k players w).room ≡ w.room
    dismiss_all-room zero k players w = refl
    dismiss_all-room (suc n) k players w =
        dismiss_all-room n (k + 1) players (dismiss w (get_or players k none))
        ∙ (dismiss-frame 0 w (get_or players k none)).0
