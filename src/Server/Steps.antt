-- ===== src/Server/Steps.antt =====
-- Steps that several threads of the server take, and that keep its rooms and games valid.
use tmwmf_sem_ups.Base.{
  ℕ, ◌≡◌, ◌≢◌, refl, inl, inr, none, some, get_or, ◌∙◌, sym, Bool-cases, none-ne-some, ℤ,
  is_negative,
}
use tmwmf_sem_ups.Client.{Client}
use tmwmf_sem_ups.World.{World, set_client}
use tmwmf_sem_ups.Room.Table.{RoomOk-set_client}
use tmwmf_sem_ups.Play.Steps.{ServerOk}
use tmwmf_sem_ups.Server.{close_socket}

-- A socket is closed.
pub ServerOk-close : (w : World) (fd : ℤ) → ServerOk w → ServerOk (close_socket w fd)
ServerOk-close w fd ok = elim (Bool-cases (is_negative fd)) [
  | inl t ↦ rw t ok
  | inr f ↦ rw f (record {
    world = record {
      table = record {
        size = ok.world.table.size;
        older = ok.world.table.older;
        apart = ok.world.table.apart;
      };
      rooms = λ i s h. record {
        slots = (ok.world.rooms i s h).slots;
        back = (ok.world.rooms i s h).back;
      };
    };
    games = ok.games;
    boards = ok.boards;
  })
]

-- A client that is in no room changes in any way.
pub ServerOk-homeless :
    (w : World) (c : ℕ) (v : Client)
    → (w.client c).room ≡ none
    → ServerOk w
    → ServerOk (set_client w c v)
ServerOk-homeless w c v homeless ok = record {
  world = record {
    table = record {
      size = ok.world.table.size;
      older = ok.world.table.older;
      apart = ok.world.table.apart;
    };
    rooms = λ i s h.
        RoomOk-set_client w c v s (λ e. none-ne-some (sym homeless ∙ e)) (ok.world.rooms i s h);
  };
  games = ok.games;
  boards = ok.boards;
}

pub close_socket-frame :
    (w : World) (fd : ℤ)
    → ((close_socket w fd).client ≡ w.client)
      × ((close_socket w fd).room ≡ w.room)
      × ((close_socket w fd).rooms ≡ w.rooms)
close_socket-frame w fd = elim (Bool-cases (is_negative fd)) [
  | inl t ↦ rw t (refl, refl, refl)
  | inr f ↦ rw f (refl, refl, refl)
]

-- No slot of a room of the table points to the client.
abbrev pub Unseated : World → ℕ → Type 0
Unseated w c =
    (j r : ℕ) → get_or w.rooms j none ≡ some r → (k : ℕ) → get_or (w.room r).players k none ≢ some c

-- A client that is in no room sits in no slot of the table.
pub homeless-Unseated : (w : World) (c : ℕ) → ServerOk w → (w.client c).room ≡ none → Unseated w c
homeless-Unseated w c ok homeless j r listed k h =
    none-ne-some (sym homeless ∙ (ok.world.rooms j r listed).back k c h)
