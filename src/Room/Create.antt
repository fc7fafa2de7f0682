-- ===== src/Room/Create.antt =====
-- `room_create` of server_src/room.c.
use tmwmf_sem_ups.Base.{
  eq_or_ne, none-ne-some, some_eq, ℕ, zero, suc, ◌+◌, ◌%◌, ◌≤◌, ◌<◌, ◌≡◌, ◌≢◌, refl, ◌⊎◌, inl, inr,
  Option, none, some, List, [], ◌∷◌, length-set, get_or, get_or-set_self, get_or-set_ne, set, arith,
  ◌∙◌, ap, sym, subst, ℤ, pos, negsuc, true, false, Bool-cases,
}
use tmwmf_sem_ups.Client.{Client, store_self, store_ne}
use tmwmf_sem_ups.World.{World, Room, set_room}
use tmwmf_sem_ups.Room.{
  room_create, room_get_by_id, create_at, install, new_room, enter, valid_max_players,
  valid_board_size, find_free,
}
use tmwmf_sem_ups.Room.Find.{room_get_by_id-eq}
use tmwmf_sem_ups.Room.Slots.{FirstFree, find_free-FirstFree}
use tmwmf_sem_ups.Room.Valid.{SlotsOk, RoomOk}
use tmwmf_sem_ups.Room.Table.{TableOk, WorldOk, RoomOk-set_client, RoomOk-set_room}

-- What `room_create` accepts.
abbrev pub Allowed : ℤ → ℤ → Type 0
Allowed max_players board_size =
    (m b : ℕ) × (max_players ≡ pos m)
    × (board_size ≡ pos b)
    × (2 ≤ m)
    × (m ≤ 4)
    × (4 ≤ b)
    × (b ≤ 8)
    × (b % 2 ≡ 0)

one_player : (c i : ℕ) → 2 ≤ i → get_or (some c ∷ none ∷ none ∷ none ∷ []) i none ≡ none
one_player c zero h = absurd (omega arith)
one_player c (suc zero) h = refl
one_player c (suc (suc zero)) h = refl
one_player c (suc (suc (suc zero))) h = refl
one_player c (suc (suc (suc (suc i)))) h = refl

only_first :
    (c i d : ℕ) → get_or (some c ∷ none ∷ none ∷ none ∷ []) i none ≡ some d → (i ≡ 0) × (c ≡ d)
only_first c zero d h = (refl, some_eq h)
only_first c (suc i) d h = absurd (none-ne-some (sym (later i) ∙ h))
  where
    later : (i : ℕ) → get_or (some c ∷ none ∷ none ∷ none ∷ []) (suc i) none ≡ none
    later zero = refl
    later (suc zero) = refl
    later (suc (suc zero)) = refl
    later (suc (suc (suc i))) = refl

SlotsOk-new : (m c : ℕ) → 2 ≤ m → m ≤ 4 → SlotsOk m 1 (some c ∷ none ∷ none ∷ none ∷ [])
SlotsOk-new m c lo hi = record {
  size = refl;
  limit = hi;
  counted = refl;
  vacant = λ i h. one_player c i (omega (arith, lo, h));
  distinct = λ i j d ne h k. ne ((only_first c i d h).0 ∙ sym (only_first c j d k).0);
}

module _ (w : World) (name : List ℕ) (owner : ℕ) (ok : WorldOk w)
    (homeless : (w.client owner).room ≡ none) where
  module _ (m b slot r : ℕ) (lo : 2 ≤ m) (hi : m ≤ 4) (room : slot < w.max_rooms)
      (free : get_or w.rooms slot none ≡ none)
      (fresh : (i : ℕ) → get_or w.rooms i none ≢ some r) where
    abbrev made : Room
    made = new_room w.next_room_id name m b owner

    abbrev after : World
    after = install w slot r owner made

    at_slot : get_or (set w.rooms slot (some r)) slot none ≡ some r
    at_slot = get_or-set_self w.rooms slot (some r) none (omega (arith, ok.table.size, room))

    -- An entry is the new room in its slot, or an old room in another.
    entry :
        (i s : ℕ)
        → get_or (set w.rooms slot (some r)) i none ≡ some s
        → ((i ≡ slot) × (r ≡ s)) ⊎ ((i ≢ slot) × (r ≢ s) × (get_or w.rooms i none ≡ some s))
    entry i s h = elim (eq_or_ne slot i) [
      | inl e ↦
          inl (
            sym e,
            some_eq (sym at_slot ∙ ap (λ q. get_or (set w.rooms slot (some r)) q none) e ∙ h),
          )
      | inr ne ↦
          let old = sym (get_or-set_ne w.rooms slot i (some r) none ne) ∙ h in
          inr (λ e. ne (sym e), λ e. fresh i (old ∙ ap some (sym e)), old)
    ]

    id_made : (s : ℕ) → r ≡ s → (after.room s).room_id ≡ w.next_room_id
    unfolding install new_room
    id_made s e =
        ap (λ q. (after.room q).room_id) (sym e)
        ∙ ap (λ (x : Room). x.room_id) (store_self w.room r made)

    id_old : (s : ℕ) → r ≢ s → (after.room s).room_id ≡ (w.room s).room_id
    unfolding install
    id_old s ne = ap (λ (x : Room). x.room_id) (store_ne w.room r s made ne)

    TableOk-install : TableOk after
    unfolding install
    TableOk-install = record {
      size = length-set w.rooms slot (some r) ∙ ok.table.size;
      older = λ i s h. below i s (entry i s h);
      apart = λ i j s t ne h k. differ i j s t ne (entry i s h) (entry j t k);
    }
      where
        below :
            (i s : ℕ)
            → ((i ≡ slot) × (r ≡ s)) ⊎ ((i ≢ slot) × (r ≢ s) × (get_or w.rooms i none ≡ some s))
            → (after.room s).room_id < w.next_room_id + 1
        below i s (inl (_, e)) = omega (arith, id_made s e)
        below i s (inr (_, ne, h)) = omega (arith, id_old s ne, ok.table.older i s h)

        differ :
            (i j s t : ℕ)
            → i ≢ j
            → ((i ≡ slot) × (r ≡ s)) ⊎ ((i ≢ slot) × (r ≢ s) × (get_or w.rooms i none ≡ some s))
            → ((j ≡ slot) × (r ≡ t)) ⊎ ((j ≢ slot) × (r ≢ t) × (get_or w.rooms j none ≡ some t))
            → (after.room s).room_id ≢ (after.room t).room_id
        differ i j s t ne (inl (e, _)) (inl (f, _)) same = ne (e ∙ sym f)
        differ i j s t ne (inl (_, e)) (inr (_, f, h)) same =
            omega (arith, same, id_made s e, id_old t f, ok.table.older j t h)
        differ i j s t ne (inr (_, e, h)) (inl (_, f)) same =
            omega (arith, same, id_old s e, id_made t f, ok.table.older i s h)
        differ i j s t ne (inr (_, e, h)) (inr (_, f, k)) same =
            ok.table.apart i j s t ne h k (sym (id_old s e) ∙ same ∙ id_old t f)

    WorldOk-install : WorldOk after
    unfolding install new_room
    WorldOk-install = record {
      table = TableOk-install;
      rooms = λ i s h. elim (entry i s h) [
        | inl (_, e) ↦ subst (λ q. RoomOk after q) e mine
        | inr (_, ne, k) ↦ theirs s ne (ok.rooms i s k)
      ];
    }
      where
        mine : RoomOk after r
        mine = record {
          slots =
              subst (λ (x : Room). SlotsOk x.max_players x.player_count x.players)
                (sym (store_self w.room r made)) (SlotsOk-new m owner lo hi);
          back = λ i d h.
              subst (λ q. (after.client q).room ≡ some r)
                (only_first owner i d (
                  ap (λ (x : Room). get_or x.players i none) (sym (store_self w.room r made))
                  ∙ h)).1
                (ap (λ (x : Client). x.room)
                  (store_self w.client owner (enter (w.client owner) r)));
        }

        theirs : (s : ℕ) → r ≢ s → RoomOk w s → RoomOk after s
        theirs s ne here =
            let moved =
              RoomOk-set_client (set_room w r made) owner (enter (w.client owner) r) s
                (λ e. none-ne-some (sym homeless ∙ e)) (RoomOk-set_room w r s made ne here) in
            record { slots = moved.slots; back = moved.back }

  -- The room stands at `r` in a slot that was free, and is found under its id.
  abbrev pub Made : ℤ → ℤ → ℕ → Option (World × ℕ) → Type 0
  Made max_players board_size r answer =
      (w' : World) × (answer ≡ some (w', r))
      × WorldOk w'
      × (room_get_by_id w' w.next_room_id ≡ some r)
      × (w'.client owner ≡ enter (w.client owner) r)
      × ((s : ℕ) → r ≢ s → w'.room s ≡ w.room s)
      × ((slot : ℕ) × (slot < w.max_rooms)
          × (get_or w.rooms slot none ≡ none)
          × (w'.rooms ≡ set w.rooms slot (some r)))

  create_at_lem :
      (m b r : ℕ) (p : Option ℕ)
      → 2 ≤ m
      → m ≤ 4
      → FirstFree w.max_rooms 0 w.rooms p
      → ((i : ℕ) → get_or w.rooms i none ≢ some r)
      → ((create_at w name m b owner p (some r) ≡ none)
          × ((i : ℕ) → i < w.max_rooms → get_or w.rooms i none ≢ none))
        ⊎ Made (pos m) (pos b) r (create_at w name m b owner p (some r))
  unfolding create_at install
  create_at_lem m b r none lo hi taken fresh =
      inl (refl, λ i lt. taken i (omega arith) (omega (arith, lt)))
  create_at_lem m b r (some slot) lo hi (_, room, free, _) fresh = inr (
    after m b slot r lo hi (omega (arith, room)) free fresh,
    refl,
    WorldOk-install m b slot r lo hi (omega (arith, room)) free fresh,
    subst
        (λ id. room_get_by_id (after m b slot r lo hi (omega (arith, room)) free fresh) id ≡ some r)
        (id_made m b slot r lo hi (omega (arith, room)) free fresh r refl)
        (room_get_by_id-eq (after m b slot r lo hi (omega (arith, room)) free fresh) slot r
          (TableOk-install m b slot r lo hi (omega (arith, room)) free fresh)
          (at_slot m b slot r lo hi (omega (arith, room)) free fresh)),
    store_self w.client owner (enter (w.client owner) r),
    λ s ne. store_ne w.room r s (new_room w.next_room_id name m b owner) ne,
    (slot, omega (arith, room), free, refl),
  )

  -- In a valid table, and with fresh memory at `r`, a client that is in no room creates a room
  -- exactly when the numbers are allowed and a slot is free. The table is valid again and has the
  -- new room in a slot that was free and each other entry as before, the new room is found under
  -- the next id, the client is in it, and no other room has changed.
  pub room_create_lem :
      (max_players board_size : ℤ) (r : ℕ)
      → ((i : ℕ) → get_or w.rooms i none ≢ some r)
      → ((room_create w name max_players board_size owner (some r) ≡ none)
          × (Allowed max_players board_size
              → (i : ℕ) → i < w.max_rooms
              → get_or w.rooms i none ≢ none))
        ⊎ (Allowed max_players board_size
            × Made max_players board_size r
                (room_create w name max_players board_size owner (some r)))
  unfolding room_create valid_max_players valid_board_size
  room_create_lem (negsuc k) board_size r fresh =
      inl (refl, λ (m, b, e, _, _, _, _, _, _). absurd (negative e))
    where
      negative : {m : ℕ} → negsuc k ≡ pos m → ⊥
      negative e = cc
  room_create_lem (pos m) (negsuc k) r fresh =
      inl (refl, λ (m', b, _, e, _, _, _, _, _). absurd (negative e))
    where
      negative : {b : ℕ} → negsuc k ≡ pos b → ⊥
      negative e = cc
  room_create_lem (pos m) (pos b) r fresh = elim (Bool-cases (valid_max_players m)) [
    | inr f ↦
        rw f (inl (refl, λ (m', b', e, _, lo, hi, _, _, _). absurd (players_refused m' e lo hi f)))
    | inl t ↦ elim (Bool-cases (valid_board_size b)) [
      | inr f ↦
          rw (t, f)
            (inl (
              refl,
              λ (m', b', _, e, _, _, lo, hi, even). absurd (board_refused b' e lo hi even f),
            ))
      | inl u ↦
          rw (t, u)
            (searched
              (create_at_lem m b r (find_free w.max_rooms 0 w.rooms) (players_accepted t).0
                (players_accepted t).1 (find_free-FirstFree w.max_rooms 0 w.rooms) fresh)
              (
                m,
                b,
                refl,
                refl,
                (players_accepted t).0,
                (players_accepted t).1,
                (board_accepted u).0,
                (board_accepted u).1,
                (board_accepted u).2,
              ))
    ]
  ]
    where
      pos_eq : {a c : ℕ} → pos a ≡ pos c → a ≡ c
      pos_eq e = cc

      players_refused :
          (m' : ℕ) → pos m ≡ pos m' → 2 ≤ m' → m' ≤ 4 → valid_max_players m ≡ false → ⊥
      players_refused m' e lo hi f = let same = pos_eq e in ground arith

      board_refused :
          (b' : ℕ) → pos b ≡ pos b' → 4 ≤ b' → b' ≤ 8 → b' % 2 ≡ 0 → valid_board_size b ≡ false → ⊥
      board_refused b' e lo hi even f = let same = pos_eq e in ground arith

      players_accepted : valid_max_players m ≡ true → (2 ≤ m) × (m ≤ 4)
      players_accepted t = ground arith

      board_accepted : valid_board_size b ≡ true → (4 ≤ b) × (b ≤ 8) × (b % 2 ≡ 0)
      board_accepted u = ground arith

      searched :
          {answer : Option (World × ℕ)}
          → ((answer ≡ none) × ((i : ℕ) → i < w.max_rooms → get_or w.rooms i none ≢ none))
            ⊎ Made (pos m) (pos b) r answer
          → Allowed (pos m) (pos b)
          → ((answer ≡ none)
              × (Allowed (pos m) (pos b)
                  → (i : ℕ) → i < w.max_rooms
                  → get_or w.rooms i none ≢ none))
            ⊎ (Allowed (pos m) (pos b) × Made (pos m) (pos b) r answer)
      searched (inl (e, taken)) allowed = inl (e, λ _. taken)
      searched (inr done) allowed = inr (allowed, done)

-- Without memory no room is made.
pub room_create_unallocated :
    (w : World) (name : List ℕ) (owner : ℕ) (max_players board_size : ℤ)
    → room_create w name max_players board_size owner none ≡ none
unfolding room_create create_at
room_create_unallocated w name owner (negsuc _) board_size = refl
room_create_unallocated w name owner (pos m) (negsuc _) = refl
room_create_unallocated w name owner (pos m) (pos b) = elim (Bool-cases (valid_max_players m)) [
  | inr f ↦ rw f refl
  | inl t ↦ elim (Bool-cases (valid_board_size b)) [
    | inr f ↦ rw (t, f) refl
    | inl u ↦ rw (t, u) (nowhere (find_free w.max_rooms 0 w.rooms))
  ]
]
  where
    nowhere : (p : Option ℕ) → create_at w name m b owner p none ≡ none
    nowhere none = refl
    nowhere (some slot) = refl
