-- ===== src/Leave/Owner.antt =====
-- `room_remove_player` of server_src/room.c when the owner leaves and a connected player stays.
use tmwmf_sem_ups.Base.{
  ℕ, zero, suc, ◌+◌, ◌-◌, ◌≤◌, ◌<◌, ◌≡◌, ◌≢◌, refl, ◌⊎◌, inl, inr, true, false, Option, none, some,
  List, get_or, get_or-set_ne, set, arith, ◌∙◌, ap, sym, ◌==◌, not, Bool-cases, split_le,
  none-ne-some,
}
use tmwmf_sem_ups.Client.{Client, Memory, store_self, store_ne}
use tmwmf_sem_ups.Game.{Game}
use tmwmf_sem_ups.World.{World, Room, Message, set_room, room_broadcast, room_owner_changed}
use tmwmf_sem_ups.World.Broadcast.{room_broadcast-OnlySends}
use tmwmf_sem_ups.Room.{leave}
use tmwmf_sem_ups.Room.Valid.{RoomOk}
use tmwmf_sem_ups.Leave.{
  room_remove_player, remove_from, vacate, after_leave, after_owner, hand_over, find_connected,
  is_connected, destroy_if_empty,
}
use tmwmf_sem_ups.Leave.Steps.{held_below, cleared_entry, room-sent}
use tmwmf_sem_ups.Leave.Stays.{find_player-eq}

connected_some :
    (mem : Memory Client) (p : Option ℕ)
    → is_connected mem p ≡ true
    → (o : ℕ) × (p ≡ some o) × ((mem o).is_disconnected ≡ false)
connected_some mem none e = absurd (cc)
connected_some mem (some o) e = (o, refl, ground arith)

-- When some slot holds a connected player, the search finds one.
find_connected-some :
    (mem : Memory Client) (n j k : ℕ) (players : List (Option ℕ))
    → j ≤ k
    → k < j + n
    → is_connected mem (get_or players k none) ≡ true
    → (m o : ℕ) × (find_connected mem n j players ≡ some o)
      × (get_or players m none ≡ some o)
      × ((mem o).is_disconnected ≡ false)
unfolding find_connected
find_connected-some mem zero j k players lo hi e = absurd (omega arith)
find_connected-some mem (suc n) j k players lo hi e =
    elim (Bool-cases (is_connected mem (get_or players j none))) [
      | inl t ↦
          let (o, f, on) = connected_some mem (get_or players j none) t in rw t (j, o, f, f, on)
      | inr f ↦ rw f (find_connected-some mem n (j + 1) k players (past f) (omega arith) e)
    ]
  where
    past : is_connected mem (get_or players j none) ≡ false → j + 1 ≤ k
    past f = elim (split_le j k lo) [
      | inl same ↦
          absurd
            (true-ne-false (sym (ap (λ q. is_connected mem (get_or players q none)) same ∙ e) ∙ f))
      | inr later ↦ later
    ]
      where
        true-ne-false : true ≡ false → ⊥
        true-ne-false g = cc

module _ (w : World) (r c i : ℕ) (ok : RoomOk w r)
    (seated : get_or (w.room r).players i none ≡ some c) where
  abbrev rest : Room
  rest = record (w.room r) {
    players = set (w.room r).players i none;
    player_count = (w.room r).player_count - 1;
  }

  abbrev left : World
  left = vacate w r c i

  at_left : left.room r ≡ rest
  unfolding vacate
  at_left = store_self w.room r rest

  -- The world after the hand-over to `o`.
  module _ (o : ℕ) (differs : o ≢ c) (many : 1 < (w.room r).player_count) where
    abbrev owned : World
    owned = set_room left r (record (left.room r) { owner = o })

    abbrev told : Message
    told = room_owner_changed (left.client o).nickname

    abbrev sent : World
    sent = room_broadcast owned r told

    at_sent : sent.room r ≡ record rest { owner = o }
    at_sent =
        ap (λ m. m r) (room-sent owned sent (room_broadcast-OnlySends owned r told))
        ∙ store_self left.room r (record (left.room r) { owner = o })
        ∙ ap (λ (x : Room). record x { owner = o }) at_left

    after_owner-eq :
        find_connected left.client 4 0 (left.room r).players ≡ some o → after_owner left r c ≡ sent
    unfolding after_owner hand_over destroy_if_empty
    after_owner-eq e = rw (e, after_owner) (rw (not_owner, not_empty) refl)
      where
        not_owner : ((sent.room r).owner == c) ≡ false
        not_owner = let f = ap (λ (x : Room). x.owner) at_sent in ground arith

        not_empty : ((sent.room r).player_count == 0) ≡ false
        not_empty = let f = ap (λ (x : Room). x.player_count) at_sent in ground arith

  others_differ : (k d : ℕ) → i ≢ k → get_or (w.room r).players k none ≡ some d → c ≢ d
  others_differ k d ne h e = ok.slots.distinct i k c ne seated (h ∙ ap some (sym e))

  after_leave-eq :
      (g : Option Game)
      → 1 < (w.room r).player_count
      → (g ≡ none) ⊎ (2 < (w.room r).player_count)
      → after_leave (vacate w r c i) r c true g ≡ after_owner (vacate w r c i) r c
  unfolding after_leave
  after_leave-eq none many goes_on =
      let f = ap (λ (x : Room). x.player_count) at_left in ground arith
  after_leave-eq (some g) many (inl e) = absurd (none-ne-some (sym e))
  after_leave-eq (some g) many (inr enough) =
      let f = ap (λ (x : Room). x.player_count) at_left in ground arith

  -- In a room whose slots are in order the owner leaves, another player is connected, and no game
  -- is on or two players stay: then a connected player that stays becomes the owner, the slot of
  -- the old owner is cleared, the count lowered, and nothing else in the room changes.
  pub room_remove_player_owner :
      (w.room r).owner ≡ c
      → 1 < (w.room r).player_count
      → ((w.room r).game ≡ none) ⊎ (2 < (w.room r).player_count)
      → (k d : ℕ) → i ≢ k
      → get_or (w.room r).players k none ≡ some d
      → (w.client d).is_disconnected ≡ false
      → (m o : ℕ) × (i ≢ m)
        × (get_or (w.room r).players m none ≡ some o)
        × ((w.client o).is_disconnected ≡ false)
        × (w' : World) × (room_remove_player w r c ≡ some w')
        × (w'.room r ≡ record (w.room r) {
          players = set (w.room r).players i none;
          player_count = (w.room r).player_count - 1;
          owner = o;
        })
  unfolding room_remove_player remove_from vacate
  room_remove_player_owner owned_by many goes_on k d ne h on =
      let (m, o, e, at_m, still_on) = found in
      let (ne', old) = entry m o at_m in
      let differs : o ≢ c = (λ f. others_differ m o ne' old (sym f)) in
      (
        m,
        o,
        ne',
        old,
        ap (λ (x : Client). x.is_disconnected) (sym (unchanged o (others_differ m o ne' old)))
            ∙ still_on,
        sent o differs many,
        ap (λ p. remove_from w r c p) (find_player-eq w r c i ok seated)
            ∙ ap (λ b. some (after_leave (vacate w r c i) r c b (w.room r).game)) mine
            ∙ ap some (after_leave-eq (w.room r).game many goes_on)
            ∙ ap some (after_owner-eq o differs many e),
        at_sent o differs many,
      )
    where
      mine : ((w.room r).owner == c) ≡ true
      mine = ground arith

      unchanged : (x : ℕ) → c ≢ x → (vacate w r c i).client x ≡ w.client x
      unchanged x f = store_ne w.client c x (leave (w.client c)) f

      at_rest : (vacate w r c i).room r ≡ rest
      at_rest = store_self w.room r rest

      entry :
          (m o : ℕ)
          → get_or ((vacate w r c i).room r).players m none ≡ some o
          → (i ≢ m) × (get_or (w.room r).players m none ≡ some o)
      entry m o f =
          cleared_entry (w.room r).players i m o (held_below (w.room r).players i c seated)
            (ap (λ (x : Room). get_or x.players m none) (sym at_rest) ∙ f)

      held : get_or ((vacate w r c i).room r).players k none ≡ some d
      held =
          ap (λ (x : Room). get_or x.players k none) at_rest
          ∙ get_or-set_ne (w.room r).players i k none none ne
          ∙ h

      connected :
          is_connected (vacate w r c i).client (get_or ((vacate w r c i).room r).players k none)
          ≡ true
      connected =
          ap (λ p. is_connected (vacate w r c i).client p) held
          ∙ ap (λ (x : Client). not x.is_disconnected) (unchanged d (others_differ k d ne h))
          ∙ ap not on

      found :
          (m o : ℕ) × (find_connected (vacate w r c i).client 4 0 ((vacate w r c i).room r).players
            ≡ some o)
          × (get_or ((vacate w r c i).room r).players m none ≡ some o)
          × (((vacate w r c i).client o).is_disconnected ≡ false)
      found =
          find_connected-some (vacate w r c i).client 4 0 k ((vacate w r c i).room r).players
            (omega arith) (omega (arith, held_below (w.room r).players k d h, ok.slots.size))
            connected
