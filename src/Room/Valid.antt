-- ===== src/Room/Valid.antt =====
-- What holds of a room of server_src/room.c between two calls.
use tmwmf_sem_ups.Base.{
  ℕ, ◌≤◌, ◌<◌, ◌≡◌, ◌≢◌, Option, none, some, List, length, get_or, tally, occupied, arith, set,
  get_elem?, get_elem?-eq-get_or, tally-set, get_or-set_ne, tally-occupied-le, ◌∙◌, inl, inr,
  Option-cases, ap,
}
use tmwmf_sem_ups.World.{World}

-- The slots: no player twice, none at or above the limit, as many as the count says.
pub record SlotsOk (max count : ℕ) (players : List (Option ℕ)) : Type 0 where
  pub size : length players ≡ 4
  pub limit : max ≤ 4
  pub counted : count ≡ tally occupied players
  pub vacant : (i : ℕ) → max ≤ i → get_or players i none ≡ none
  pub distinct :
      (i j c : ℕ) → i ≢ j → get_or players i none ≡ some c → get_or players j none ≢ some c

-- The slots of the room are in order, and each of its players has it as its room.
pub record RoomOk (w : World) (r : ℕ) : Type 0 where
  pub slots : SlotsOk (w.room r).max_players (w.room r).player_count (w.room r).players
  pub back : (i c : ℕ) → get_or (w.room r).players i none ≡ some c → (w.client c).room ≡ some r

-- The count never exceeds the limit.
pub count_le_max :
    {max count : ℕ} {players : List (Option ℕ)} → SlotsOk max count players → count ≤ max
count_le_max {max} {count} {players} ok =
    ground (arith, ok.counted, tally-occupied-le max players ok.vacant)

-- When the count reaches the limit, there is a player in every slot below it.
pub full_slots :
    {max count : ℕ} {players : List (Option ℕ)}
    → SlotsOk max count players
    → count ≡ max
    → (k : ℕ) → k < max
    → (c : ℕ) × (get_or players k none ≡ some c)
full_slots {max} {count} {players} ok e k h = elim (Option-cases (get_or players k none)) [
  | inl free ↦ absurd (too_many free)
  | inr held ↦ held
]
  where
    filled : List (Option ℕ)
    filled = set players k (some 0)

    room : k < length players
    room = omega (arith, ok.size, ok.limit)

    in_filled : get_or players k none ≡ none → get_elem? players k ≡ some none
    in_filled free = get_elem?-eq-get_or players k none room ∙ ap some free

    vacant : (i : ℕ) → max ≤ i → get_or filled i none ≡ none
    vacant i le = get_or-set_ne players k i (some 0) none (omega arith) ∙ ok.vacant i le

    too_many : get_or players k none ≡ none → ⊥
    too_many free = omega (
      arith,
      e,
      ok.counted,
      tally-set occupied players k none (some 0) (in_filled free),
      tally-occupied-le max filled vacant,
    )
