-- ===== src/Lobby/Enter.antt =====
-- `room_add_player` and `room_create` of server_src/room.c, as JOIN_ROOM and CREATE_ROOM call them,
-- keep every client that is in a room in a slot of that room.
use tmwmf_sem_ups.Base.{
  ℕ, ◌+◌, ◌<◌, ◌≡◌, ◌≢◌, refl, inl, inr, ◌∙◌, ap, sym, Option, none, some, List, get_or, set,
  get_or-set_self, get_or-set_ne, none-ne-some, some_eq, eq_or_ne, length,
}
use tmwmf_sem_ups.Client.{Client, store_self, store_ne}
use tmwmf_sem_ups.World.{World, Room, set_room}
use tmwmf_sem_ups.Room.{install, new_room, seat, enter}
use tmwmf_sem_ups.Leave.Homes.{KeepsHomes}

-- A slot that is taken stays as it is when a free one is filled.
taken_stays :
    (slots : List (Option ℕ)) (i k d : ℕ) (v : Option ℕ)
    → get_or slots i none ≡ none
    → get_or slots k none ≡ some d
    → get_or (set slots i v) k none ≡ some d
taken_stays slots i k d v free h = elim (eq_or_ne i k) [
  | inl e ↦ absurd (none-ne-some (sym free ∙ ap (λ q. get_or slots q none) e ∙ h))
  | inr ne ↦ get_or-set_ne slots i k v none ne ∙ h
]

-- A client comes to sit in slot `i` of a room of the table, and every slot that was taken stays.
KeepsHomes-enter :
    (w w' : World) (r c i : ℕ)
    → (w'.client c).room ≡ some r
    → ((d : ℕ) → c ≢ d → (w'.client d).room ≡ (w.client d).room)
    → (j : ℕ) × (get_or w'.rooms j none ≡ some r)
    → get_or (w'.room r).players i none ≡ some c
    → ((k s : ℕ) → get_or w.rooms k none ≡ some s → get_or w'.rooms k none ≡ some s)
    → ((j s k d : ℕ)
        → get_or w.rooms j none ≡ some s
        → get_or (w.room s).players k none ≡ some d
        → get_or (w'.room s).players k none ≡ some d)
    → KeepsHomes w w'
KeepsHomes-enter w w' r c i mine others (j, listed) placed rooms players d home s e =
    elim (eq_or_ne c d) [
      | inl f ↦
          let same = some_eq (sym mine ∙ ap (λ q. (w'.client q).room) f ∙ e) in
          (
            (j, listed ∙ ap some same),
            (i, ap (λ q. get_or (w'.room q).players i none) (sym same) ∙ placed ∙ ap some f),
          )
      | inr ne ↦
          let ((k, old), (l, seated)) = home s (sym (others d ne) ∙ e) in
          ((k, rooms k s old), (l, players k s l d old seated))
    ]

-- The taken slots of the rooms after one room is written.
players_of_written :
    (w : World) (r : ℕ) (x : Room) (s k d : ℕ)
    → (r ≡ s → get_or x.players k none ≡ some d)
    → get_or (w.room s).players k none ≡ some d
    → get_or ((set_room w r x).room s).players k none ≡ some d
players_of_written w r x s k d here h = elim (eq_or_ne r s) [
  | inl e ↦
      ap (λ q. get_or ((set_room w r x).room q).players k none) (sym e)
      ∙ ap (λ (y : Room). get_or y.players k none) (store_self w.room r x)
      ∙ here e
  | inr ne ↦ ap (λ (y : Room). get_or y.players k none) (store_ne w.room r s x ne) ∙ h
]

pub seat-KeepsHomes :
    (w : World) (r c i j : ℕ)
    → get_or w.rooms j none ≡ some r
    → get_or (w.room r).players i none ≡ none
    → i < length (w.room r).players
    → KeepsHomes w (seat w r c i)
unfolding seat
seat-KeepsHomes w r c i j listed free fits =
    KeepsHomes-enter w (seat w r c i) r c i
      (ap (λ (v : Client). v.room) (store_self w.client c (enter (w.client c) r)))
      (λ d ne. ap (λ (v : Client). v.room) (store_ne w.client c d (enter (w.client c) r) ne))
      (j, listed)
      (ap (λ (y : Room). get_or y.players i none) (store_self w.room r taken)
        ∙ get_or-set_self (w.room r).players i (some c) none fits)
      (λ k s h. h)
      (λ _ s k d _ h.
        players_of_written w r taken s k d
          (λ e.
            taken_stays (w.room r).players i k d (some c) free
              (ap (λ q. get_or (w.room q).players k none) e ∙ h))
          h)
  where
    taken : Room
    taken = record (w.room r) {
      players = set (w.room r).players i (some c);
      player_count = (w.room r).player_count + 1;
    }

pub install-KeepsHomes :
    (w : World) (name : List ℕ) (slot r owner m b : ℕ)
    → get_or w.rooms slot none ≡ none
    → slot < length w.rooms
    → ((i : ℕ) → get_or w.rooms i none ≢ some r)
    → KeepsHomes w (install w slot r owner (new_room w.next_room_id name m b owner))
unfolding install
install-KeepsHomes w name slot r owner m b free fits fresh =
    KeepsHomes-enter w (install w slot r owner made) r owner 0
      (ap (λ (v : Client). v.room) (store_self w.client owner (enter (w.client owner) r)))
      (λ d ne.
        ap (λ (v : Client). v.room) (store_ne w.client owner d (enter (w.client owner) r) ne))
      (slot, get_or-set_self w.rooms slot (some r) none fits)
      (ap (λ (y : Room). get_or y.players 0 none) (store_self w.room r made)
        ∙ (unfold new_room in refl))
      (λ k s h. taken_stays w.rooms slot k s (some r) free h)
      (λ j s k d h. players_of_written w r made s k d (λ e. absurd (fresh j (h ∙ ap some (sym e)))))
  where
    made : Room
    made = new_room w.next_room_id name m b owner
