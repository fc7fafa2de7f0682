-- ===== src/Room/Find.antt =====
-- `room_get_by_id` of server_src/room.c.
use tmwmf_sem_ups.Base.{
  split_le, none-ne-some, if◌then◌else◌, ℕ, zero, suc, ◌+◌, ◌≤◌, ◌<◌, ◌≡◌, refl, ◌⊎◌, inl, inr,
  Option, none, some, length, get_or, get_or-ge, arith, ◌∙◌, ap, sym, true, false, Bool-cases,
}
use tmwmf_sem_ups.World.{World}
use tmwmf_sem_ups.Room.{room_get_by_id, find_room, has_room_id}
use tmwmf_sem_ups.Room.Table.{TableOk}

-- Ids differ, so the search finds the room wherever it stands.
find_room-eq :
    (n i k : ℕ) (w : World) (r : ℕ)
    → TableOk w
    → i ≤ k
    → k < i + n
    → get_or w.rooms k none ≡ some r
    → find_room n i w (w.room r).room_id ≡ some r
unfolding find_room
find_room-eq zero i k w r ok lo hi h = absurd (omega arith)
find_room-eq (suc n) i k w r ok lo hi h = elim (split_le i k lo) [
  | inl e ↦
      let here : get_or w.rooms i none ≡ some r = ap (λ q. get_or w.rooms q none) e ∙ h in
      rw here (ground arith)
  | inr later ↦
      rw (other (get_or w.rooms i none) refl (omega arith))
        (find_room-eq n (i + 1) k w r ok later (omega arith) h)
]
  where
    other :
        (p : Option ℕ)
        → get_or w.rooms i none ≡ p
        → i < k
        → has_room_id w.room (w.room r).room_id p ≡ false
    other none e lt = refl
    other (some s) e lt = let ne = ok.apart i k s r (omega arith) e h in ground arith

-- In a valid table every room is found under its id.
pub room_get_by_id-eq :
    (w : World) (k r : ℕ)
    → TableOk w
    → get_or w.rooms k none ≡ some r
    → room_get_by_id w (w.room r).room_id ≡ some r
unfolding room_get_by_id
room_get_by_id-eq w k r ok h =
    find_room-eq w.max_rooms 0 k w r ok (omega arith) (inside (range k)) h
  where
    range : (k : ℕ) → (k < length w.rooms) ⊎ (length w.rooms ≤ k)
    range k = omega arith

    inside : (k < length w.rooms) ⊎ (length w.rooms ≤ k) → k < 0 + w.max_rooms
    inside (inl lt) = omega (arith, ok.size)
    inside (inr ge) = absurd (none-ne-some (sym (get_or-ge w.rooms k none ge) ∙ h))

find_room_listed :
    (n i : ℕ) (w : World) (id r : ℕ)
    → find_room n i w id ≡ some r
    → (j : ℕ) × (get_or w.rooms j none ≡ some r)
unfolding find_room
find_room_listed zero i w id r e = absurd (cc)
find_room_listed (suc n) i w id r e =
    elim (Bool-cases (has_room_id w.room id (get_or w.rooms i none))) [
      | inl t ↦ (i, first t)
      | inr f ↦ find_room_listed n (i + 1) w id r (later f)
    ]
  where
    first : has_room_id w.room id (get_or w.rooms i none) ≡ true → get_or w.rooms i none ≡ some r
    first t = sym (ap (λ b. if b then get_or w.rooms i none else find_room n (i + 1) w id) t) ∙ e

    later :
        has_room_id w.room id (get_or w.rooms i none) ≡ false → find_room n (i + 1) w id ≡ some r
    later f = sym (ap (λ b. if b then get_or w.rooms i none else find_room n (i + 1) w id) f) ∙ e

-- A room that is found stands in the table.
pub room_get_by_id_listed :
    (w : World) (id r : ℕ)
    → room_get_by_id w id ≡ some r
    → (j : ℕ) × (get_or w.rooms j none ≡ some r)
unfolding room_get_by_id
room_get_by_id_listed w id r e = find_room_listed w.max_rooms 0 w id r e
