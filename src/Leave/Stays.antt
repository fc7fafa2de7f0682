-- ===== src/Leave/Stays.antt =====
-- `room_remove_player` of server_src/room.c when the others simply go on.
use tmwmf_sem_ups.Base.{
  eq_or_ne, none-ne-some, ℕ, ◌-◌, ◌<◌, ◌≡◌, ◌≢◌, refl, ◌⊎◌, inl, inr, false, Option, none, some,
  get_or, set, arith, ◌∙◌, ap, sym, ◌==◌,
}
use tmwmf_sem_ups.Client.{store_self, store_ne}
use tmwmf_sem_ups.Game.{Game, find_player}
use tmwmf_sem_ups.Game.Seats.{FirstSeat, find_player-FirstSeat}
use tmwmf_sem_ups.World.{World, Room}
use tmwmf_sem_ups.Room.Valid.{RoomOk}
use tmwmf_sem_ups.Leave.{room_remove_player, remove_from, vacate, after_leave, destroy_if_empty}
use tmwmf_sem_ups.Leave.Steps.{held_below}

module _ (w : World) (r c i : ℕ) (ok : RoomOk w r)
    (seated : get_or (w.room r).players i none ≡ some c) where
  abbrev rest : Room
  rest = record (w.room r) {
    players = set (w.room r).players i none;
    player_count = (w.room r).player_count - 1;
  }

  -- The search finds the seat of the player, since there is no other.
  pub find_player-eq : find_player 4 0 (w.room r).players c ≡ some i
  find_player-eq =
      found (find_player 4 0 (w.room r).players c) (find_player-FirstSeat 4 0 (w.room r).players c)
    where
      found : (p : Option ℕ) → FirstSeat 4 0 (w.room r).players c p → p ≡ some i
      found none absent = absurd (
          absent i (omega arith)
            (omega (arith, held_below (w.room r).players i c seated, ok.slots.size)) seated)
      found (some k) (_, _, h, _) = elim (eq_or_ne k i) [
        | inl e ↦ ap some e
        | inr ne ↦ absurd (ok.slots.distinct k i c ne h seated)
      ]

  here : (vacate w r c i).room r ≡ rest
  unfolding vacate
  here = store_self w.room r rest

  count : ((vacate w r c i).room r).player_count ≡ (w.room r).player_count - 1
  count = ap (λ (x : Room). x.player_count) here

  nothing_follows :
      (g : Option Game)
      → 1 < (w.room r).player_count
      → (g ≡ none) ⊎ (2 < (w.room r).player_count)
      → after_leave (vacate w r c i) r c false g ≡ vacate w r c i
  unfolding after_leave destroy_if_empty
  nothing_follows none many goes_on = ground (arith, count)
  nothing_follows (some g) many (inl e) = absurd (none-ne-some (sym e))
  nothing_follows (some g) many (inr enough) = ground (arith, count)

  -- In a room whose slots are in order a player that does not own it leaves, another one stays, and
  -- no game is on or two stay: then the player's slot is cleared and the count lowered, and nothing
  -- else in the room changes. In particular the game, if one is on, still has the player, and the
  -- turn if it was the player's. No one is told, and no other client changes.
  pub room_remove_player_stays :
      (w.room r).owner ≢ c
      → 1 < (w.room r).player_count
      → ((w.room r).game ≡ none) ⊎ (2 < (w.room r).player_count)
      → (w' : World) × (room_remove_player w r c ≡ some w')
        × (w'.room r ≡ record (w.room r) {
          players = set (w.room r).players i none;
          player_count = (w.room r).player_count - 1;
        })
        × ((d : ℕ) → c ≢ d → w'.client d ≡ w.client d)
        × (w'.outbox ≡ w.outbox)
        × (w'.rooms ≡ w.rooms)
  unfolding room_remove_player remove_from vacate
  room_remove_player_stays not_owner many goes_on = (
    vacate w r c i,
    ap (λ p. remove_from w r c p) find_player-eq
        ∙ ap (λ b. some (after_leave (vacate w r c i) r c b (w.room r).game)) stranger
        ∙ ap some (nothing_follows (w.room r).game many goes_on),
    here,
    λ d ne. store_ne w.client c d _ ne,
    refl,
    refl,
  )
    where
      stranger : ((w.room r).owner == c) ≡ false
      stranger = ground arith
