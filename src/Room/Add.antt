-- ===== src/Room/Add.antt =====
-- `room_add_player` of server_src/room.c.
use tmwmf_sem_ups.Base.{
  none-ne-some, eq_or_ne, some_eq, ℕ, ◌+◌, ◌≤◌, ◌<◌, ◌≡◌, ◌≢◌, refl, ◌⊎◌, inl, inr, Option, none,
  some, List, length-set, get_or, get_elem?-eq-get_or, get_or-set_self, get_or-set_ne, set, arith,
  leb, tally-set, occupied, le-tally-occupied, Bool-cases, ◌∙◌, ap, sym, subst, get_or-ge,
}
use tmwmf_sem_ups.Client.{Client, store_self, store_ne}
use tmwmf_sem_ups.Protocol.{in_room}
use tmwmf_sem_ups.Game.{find_player}
use tmwmf_sem_ups.Game.Seats.{FirstSeat, find_player-FirstSeat}
use tmwmf_sem_ups.World.{World, Room}
use tmwmf_sem_ups.Room.{room_add_player, seat_at, seat, enter, find_free}
use tmwmf_sem_ups.Room.Slots.{FirstFree, find_free-FirstFree}
use tmwmf_sem_ups.Room.Valid.{SlotsOk, RoomOk, count_le_max}

module _ {max count : ℕ} {players : List (Option ℕ)} (ok : SlotsOk max count players) where
  -- Below the limit a slot is free.
  free_below :
      count < max
      → (r : Option ℕ) → FirstFree 4 0 players r
      → (i : ℕ) × (r ≡ some i) × (i < max) × (get_or players i none ≡ none)
  free_below h none taken = absurd (
      omega (
        arith,
        h,
        ok.counted,
        ok.limit,
        ok.size,
        le-tally-occupied max players (omega (arith, ok.limit, ok.size))
            (λ k lt. taken k (omega arith) (omega (arith, ok.limit, lt))),
      ))
  free_below h (some i) (lo, hi, e, before) = elim (side i) [
    | inl low ↦ (i, refl, low, e)
    | inr high ↦ absurd (
        omega (
          arith,
          h,
          ok.counted,
          le-tally-occupied max players (omega (arith, ok.limit, ok.size))
              (λ k lt. before k (omega arith) (omega (arith, lt, high))),
        ))
  ]
    where
      side : (i : ℕ) → (i < max) ⊎ (max ≤ i)
      side i = omega arith

  module _ (i c : ℕ) (low : i < max) (free : get_or players i none ≡ none) where
    placed : get_or (set players i (some c)) i none ≡ some c
    placed = get_or-set_self players i (some c) none (omega (arith, low, ok.limit, ok.size))

    -- A slot of the new array holds what it held, or is the one that was taken.
    slot_after :
        (j d : ℕ)
        → get_or (set players i (some c)) j none ≡ some d
        → ((j ≡ i) × (d ≡ c)) ⊎ ((j ≢ i) × (get_or players j none ≡ some d))
    slot_after j d h = elim (eq_or_ne i j) [
      | inl e ↦ inl (
        sym e,
        some_eq (sym h ∙ ap (λ k. get_or (set players i (some c)) k none) (sym e) ∙ placed),
      )
      | inr ne ↦ inr (λ e. ne (sym e), sym (get_or-set_ne players i j (some c) none ne) ∙ h)
    ]

    SlotsOk-seat :
        ((j : ℕ) → get_or players j none ≢ some c)
        → SlotsOk max (count + 1) (set players i (some c))
    SlotsOk-seat absent = record {
      size = length-set players i (some c) ∙ ok.size;
      limit = ok.limit;
      counted = omega (
        arith,
        ok.counted,
        tally-set occupied players i none (some c) (
            get_elem?-eq-get_or players i none (omega (arith, low, ok.limit, ok.size))
            ∙ ap some free),
      );
      vacant =
          λ j le. get_or-set_ne players i j (some c) none (omega (arith, low, le)) ∙ ok.vacant j le;
      distinct = λ j k d ne h h'. apart j k d ne (slot_after j d h) (slot_after k d h');
    }
      where
        apart :
            (j k d : ℕ)
            → j ≢ k
            → ((j ≡ i) × (d ≡ c)) ⊎ ((j ≢ i) × (get_or players j none ≡ some d))
            → ((k ≡ i) × (d ≡ c)) ⊎ ((k ≢ i) × (get_or players k none ≡ some d))
            → ⊥
        apart j k d ne (inl (e, _)) (inl (f, _)) = ne (e ∙ sym f)
        apart j k d ne (inl (_, e)) (inr (_, h)) = absent k (h ∙ ap some e)
        apart j k d ne (inr (_, h)) (inl (_, e)) = absent j (h ∙ ap some e)
        apart j k d ne (inr (_, h)) (inr (_, h')) = ok.distinct j k d ne h h'

-- The client sits in the room, in a slot below the limit, and everybody else where they were.
pub record Joined (w : World) (r c : ℕ) (w' : World) : Type 0 where
  pub valid : RoomOk w' r
  pub slot : ℕ
  pub is_seat : w' ≡ seat w r c slot
  pub below : slot < (w.room r).max_players
  pub was_free : get_or (w.room r).players slot none ≡ none
  pub players : (w'.room r).players ≡ set (w.room r).players slot (some c)
  pub count : (w'.room r).player_count ≡ (w.room r).player_count + 1
  pub room : (w'.client c).room ≡ some r
  pub state : (w'.client c).state ≡ in_room
  pub others : (d : ℕ) → c ≢ d → w'.client d ≡ w.client d

abbrev pub seated_room : Room → ℕ → ℕ → Room
seated_room room c i = record room {
  players = set room.players i (some c);
  player_count = room.player_count + 1;
}

module _ (w : World) (r c : ℕ) (ok : RoomOk w r) where
  module _ (i : ℕ) (low : i < (w.room r).max_players)
      (free : get_or (w.room r).players i none ≡ none) where
    Joined-seat :
        ((j : ℕ) → get_or (w.room r).players j none ≢ some c) → Joined w r c (seat w r c i)
    unfolding seat
    Joined-seat absent = record {
      valid = record {
        slots =
            subst (λ (x : Room). SlotsOk x.max_players x.player_count x.players) (sym here)
              (SlotsOk-seat ok.slots i c low free absent);
        back = λ j d h. home j d (
            slot_after ok.slots i c low free j d
              (ap (λ (x : Room). get_or x.players j none) (sym here) ∙ h));
      };
      slot = i;
      is_seat = refl;
      below = low;
      was_free = free;
      players = ap (λ (x : Room). x.players) here;
      count = ap (λ (x : Room). x.player_count) here;
      room = ap (λ (x : Client). x.room) at_client;
      state = ap (λ (x : Client). x.state) at_client;
      others = λ d ne. store_ne w.client c d (enter (w.client c) r) ne;
    }
      where
        here : (seat w r c i).room r ≡ seated_room (w.room r) c i
        here = store_self w.room r (seated_room (w.room r) c i)

        at_client : (seat w r c i).client c ≡ enter (w.client c) r
        at_client = store_self w.client c (enter (w.client c) r)

        home :
            (j d : ℕ)
            → ((j ≡ i) × (d ≡ c)) ⊎ ((j ≢ i) × (get_or (w.room r).players j none ≡ some d))
            → ((seat w r c i).client d).room ≡ some r
        home j d (inl (_, e)) =
            subst (λ x. ((seat w r c i).client x).room ≡ some r) (sym e)
              (ap (λ (x : Client). x.room) at_client)
        home j d (inr (_, h)) =
            ap (λ (x : Client). x.room)
              (store_ne w.client c d (enter (w.client c) r) (λ e. absent j (h ∙ ap some (sym e))))
            ∙ ok.back j d h

  -- A player is let in unless the room is full or the player is in it already.
  pub room_add_player_lem :
      ((room_add_player w r c ≡ none)
        × (((w.room r).player_count ≡ (w.room r).max_players)
            ⊎ ((i : ℕ) × (get_or (w.room r).players i none ≡ some c))))
      ⊎ (((w.room r).player_count < (w.room r).max_players)
          × ((i : ℕ) → get_or (w.room r).players i none ≢ some c)
          × ((w' : World) × (room_add_player w r c ≡ some w') × Joined w r c w'))
  unfolding room_add_player seat_at
  room_add_player_lem = elim (Bool-cases (leb (w.room r).max_players (w.room r).player_count)) [
    | inl t ↦ rw t (inl (refl, inl (ground (arith, count_le_max ok.slots))))
    | inr f ↦ rw f (
        searched (ground arith) (find_player 4 0 (w.room r).players c)
          (find_player-FirstSeat 4 0 (w.room r).players c))
  ]
    where
      nowhere :
          FirstSeat 4 0 (w.room r).players c none
          → (i : ℕ) → get_or (w.room r).players i none ≢ some c
      nowhere absent i h = elim (range i) [
        | inl lt ↦ absent i (omega arith) lt h
        | inr ge ↦ absurd (
            none-ne-some
              (sym (get_or-ge (w.room r).players i none (omega (arith, ok.slots.size))) ∙ h))
      ]
        where
          range : (i : ℕ) → (i < 4) ⊎ (4 ≤ i)
          range i = omega arith

      searched :
          (w.room r).player_count < (w.room r).max_players
          → (p : Option ℕ) → FirstSeat 4 0 (w.room r).players c p
          → ((seat_at w r c p (find_free 4 0 (w.room r).players) ≡ none)
              × (((w.room r).player_count ≡ (w.room r).max_players)
                  ⊎ ((i : ℕ) × (get_or (w.room r).players i none ≡ some c))))
            ⊎ (((w.room r).player_count < (w.room r).max_players)
                × ((i : ℕ) → get_or (w.room r).players i none ≢ some c)
                × ((w' : World) × (seat_at w r c p (find_free 4 0 (w.room r).players) ≡ some w')
                    × Joined w r c w'))
      searched lt (some i) (_, _, e, _) = inl (refl, inr (i, e))
      searched lt none absent =
          let (i, e, low, free) =
            free_below ok.slots lt (find_free 4 0 (w.room r).players)
              (find_free-FirstFree 4 0 (w.room r).players) in
          rw e (
            inr (lt, nowhere absent, (seat w r c i, refl, Joined-seat i low free (nowhere absent))))
