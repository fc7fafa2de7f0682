-- ===== src/Room/Table.antt =====
-- What holds of the whole table of rooms between two calls, and while one room is being taken
-- apart.
use tmwmf_sem_ups.Base.{
  none-ne-some, eq_or_ne, some_eq, ℕ, ◌<◌, ◌≡◌, ◌≢◌, refl, ◌⊎◌, inl, inr, Option, none, some,
  length, get_or, arith, ◌∙◌, ap, sym, subst,
}
use tmwmf_sem_ups.Client.{Client, store, store_self, store_ne}
use tmwmf_sem_ups.World.{World, Room, set_client, set_room}
use tmwmf_sem_ups.Room.{leave, dismiss}
use tmwmf_sem_ups.Room.Valid.{SlotsOk, RoomOk}

-- The ids of the rooms in the table differ, and are below the next one.
pub record TableOk (w : World) : Type 0 where
  pub size : length w.rooms ≡ w.max_rooms
  pub older : (i r : ℕ) → get_or w.rooms i none ≡ some r → (w.room r).room_id < w.next_room_id
  pub apart :
      (i j r s : ℕ)
      → i ≢ j
      → get_or w.rooms i none ≡ some r
      → get_or w.rooms j none ≡ some s
      → (w.room r).room_id ≢ (w.room s).room_id

pub record WorldOk (w : World) : Type 0 where
  pub table : TableOk w
  pub rooms : (i s : ℕ) → get_or w.rooms i none ≡ some s → RoomOk w s

-- All is well but for the room `r`, whose players are in no other room.
pub record OthersOk (w : World) (r : ℕ) : Type 0 where
  pub table : TableOk w
  pub others : (i s : ℕ) → r ≢ s → get_or w.rooms i none ≡ some s → RoomOk w s
  pub own :
      (i d : ℕ)
      → get_or (w.room r).players i none ≡ some d
      → ((w.client d).room ≡ some r) ⊎ ((w.client d).room ≡ none)

module _ (w : World) where
  -- A client changes that is in another room, or in none.
  pub RoomOk-set_client :
      (d : ℕ) (v : Client) (s : ℕ)
      → (w.client d).room ≢ some s
      → RoomOk w s
      → RoomOk (set_client w d v) s
  RoomOk-set_client d v s elsewhere ok = record {
    slots = ok.slots;
    back = λ i e h.
        ap (λ (x : Client). x.room)
          (store_ne w.client d e v (λ f. elsewhere (ap (λ c. (w.client c).room) f ∙ ok.back i e h)))
        ∙ ok.back i e h;
  }

  -- Another room changes.
  pub RoomOk-set_room : (r s : ℕ) (x : Room) → r ≢ s → RoomOk w s → RoomOk (set_room w r x) s
  RoomOk-set_room r s x ne ok = record {
    slots =
        subst (λ (y : Room). SlotsOk y.max_players y.player_count y.players)
          (sym (store_ne w.room r s x ne)) ok.slots;
    back = λ i e h.
        ok.back i e
          (ap (λ (y : Room). get_or y.players i none) (sym (store_ne w.room r s x ne)) ∙ h);
  }

  -- The room itself changes, but its slots do not.
  pub RoomOk-set_self :
      (r : ℕ) (x : Room)
      → SlotsOk x.max_players x.player_count x.players
      → ((i d : ℕ) → get_or x.players i none ≡ some d → (w.client d).room ≡ some r)
      → RoomOk (set_room w r x) r
  RoomOk-set_self r x slots back = record {
    slots =
        subst (λ (y : Room). SlotsOk y.max_players y.player_count y.players)
          (sym (store_self w.room r x)) slots;
    back = λ i e h.
        back i e (ap (λ (y : Room). get_or y.players i none) (sym (store_self w.room r x)) ∙ h);
  }

  id-set_room :
      (r s : ℕ) (x : Room)
      → x.room_id ≡ (w.room r).room_id
      → (store w.room r x s).room_id ≡ (w.room s).room_id
  id-set_room r s x e = elim (eq_or_ne r s) [
    | inl same ↦
        ap (λ q. (store w.room r x q).room_id) (sym same)
        ∙ ap (λ (y : Room). y.room_id) (store_self w.room r x)
        ∙ e
        ∙ ap (λ q. (w.room q).room_id) same
    | inr ne ↦ ap (λ (y : Room). y.room_id) (store_ne w.room r s x ne)
  ]

  pub TableOk-set_room :
      (r : ℕ) (x : Room) → x.room_id ≡ (w.room r).room_id → TableOk w → TableOk (set_room w r x)
  TableOk-set_room r x e ok = record {
    size = ok.size;
    older = λ i s h. omega (arith, id-set_room r s x e, ok.older i s h);
    apart = λ i j s t ne h k f.
        ok.apart i j s t ne h k (sym (id-set_room r s x e) ∙ f ∙ id-set_room r t x e);
  }

  pub TableOk-set_client : (d : ℕ) (v : Client) → TableOk w → TableOk (set_client w d v)
  TableOk-set_client d v ok = record { size = ok.size; older = ok.older; apart = ok.apart }

  -- The room is changed, and has no player that it did not have.
  pub OthersOk-set_room :
      (r : ℕ) (x : Room)
      → x.room_id ≡ (w.room r).room_id
      → ((i d : ℕ)
          → get_or x.players i none ≡ some d
          → ((w.client d).room ≡ some r) ⊎ ((w.client d).room ≡ none))
      → OthersOk w r
      → OthersOk (set_room w r x) r
  OthersOk-set_room r x e fewer ok = record {
    table = TableOk-set_room r x e ok.table;
    others = λ i s ne h. RoomOk-set_room r s x ne (ok.others i s ne h);
    own = λ i d h.
        fewer i d (ap (λ (y : Room). get_or y.players i none) (sym (store_self w.room r x)) ∙ h);
  }

  -- A player of the room is sent to the lobby.
  pub OthersOk-dismiss :
      (r : ℕ) (p : Option ℕ)
      → ((d : ℕ) → p ≡ some d → ((w.client d).room ≡ some r) ⊎ ((w.client d).room ≡ none))
      → OthersOk w r
      → OthersOk (dismiss w p) r
  OthersOk-dismiss r none own ok = ok
  OthersOk-dismiss r (some c) own ok = record {
    table = TableOk-set_client c (leave (w.client c)) ok.table;
    others = λ i s ne h.
        RoomOk-set_client c (leave (w.client c)) s (elsewhere s ne (own c refl))
          (ok.others i s ne h);
    own = λ i d h. after d (ok.own i d h) (eq_or_ne c d);
  }
    where
      elsewhere :
          (s : ℕ)
          → r ≢ s
          → ((w.client c).room ≡ some r) ⊎ ((w.client c).room ≡ none)
          → (w.client c).room ≢ some s
      elsewhere s ne (inl e) f = ne (some_eq (sym e ∙ f))
      elsewhere s ne (inr e) f = none-ne-some (sym e ∙ f)

      after :
          (d : ℕ)
          → ((w.client d).room ≡ some r) ⊎ ((w.client d).room ≡ none)
          → (c ≡ d) ⊎ (c ≢ d)
          → (((dismiss w (some c)).client d).room ≡ some r)
            ⊎ (((dismiss w (some c)).client d).room ≡ none)
      after d old (inl e) = inr (
          ap (λ q. ((dismiss w (some c)).client q).room) (sym e)
          ∙ ap (λ (x : Client). x.room) (store_self w.client c (leave (w.client c))))
      after d old (inr ne) = elim old [
        | inl h ↦
            inl (ap (λ (x : Client). x.room) (store_ne w.client c d (leave (w.client c)) ne) ∙ h)
        | inr h ↦
            inr (ap (λ (x : Client). x.room) (store_ne w.client c d (leave (w.client c)) ne) ∙ h)
      ]

pub WorldOk-OthersOk :
    (w : World) (r i : ℕ) → get_or w.rooms i none ≡ some r → WorldOk w → OthersOk w r
WorldOk-OthersOk w r i h ok = record {
  table = ok.table;
  others = λ j s ne k. ok.rooms j s k;
  own = λ j d k. inl ((ok.rooms i r h).back j d k);
}
