-- ===== src/Room/Init.antt =====
-- `room_system_init` of server_src/room.c.
use tmwmf_sem_ups.Base.{
  ℕ, ◌≡◌, ◌≢◌, refl, true, false, none, some, get_or, get_or-replicate, replicate, length-replicate,
  none-ne-some, sym, ◌∙◌,
}
use tmwmf_sem_ups.World.{World}
use tmwmf_sem_ups.Room.{room_system_init}
use tmwmf_sem_ups.Room.Table.{WorldOk}

-- When the allocation succeeds, the table of rooms is valid and holds no room, whatever stood in
-- the world before; only a failed allocation is reported as an error.
pub room_system_init-WorldOk :
    (w : World) (max_rooms_count : ℕ)
    → WorldOk (room_system_init w max_rooms_count true).0
      × ((i : ℕ) → get_or (room_system_init w max_rooms_count true).0.rooms i none ≡ none)
      × ((room_system_init w max_rooms_count true).1 ≡ true)
      × ((room_system_init w max_rooms_count false).1 ≡ false)
unfolding room_system_init
room_system_init-WorldOk w n = (
  record {
    table = record {
      size = length-replicate n none;
      older = λ i r h. absurd (vacant i r h);
      apart = λ i j r s ne h k. absurd (vacant i r h);
    };
    rooms = λ i s h. absurd (vacant i s h);
  },
  λ i. get_or-replicate n i none,
  refl,
  refl,
)
  where
    vacant : (i r : ℕ) → get_or (replicate n none) i none ≢ some r
    vacant i r h = none-ne-some (sym (get_or-replicate n i none) ∙ h)
