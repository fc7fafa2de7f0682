-- ===== src/Accept/Admit.antt =====
-- One round of `server_run` in server_src/server.c.
use tmwmf_sem_ups.Base.{ℕ, ◌+◌, ◌<◌, ◌≡◌, ◌≢◌, ◌⊎◌, true, false, none, some, [], ◌∷◌, ◌++◌, get_or}
use tmwmf_sem_ups.Client.{Client, Memory, store}
use tmwmf_sem_ups.ClientList.{ClientList, has_id, client_list_find_by_id, is_zombie}
use tmwmf_sem_ups.ClientList.Search.{ListValid}
use tmwmf_sem_ups.World.{set_client}
use tmwmf_sem_ups.Server.{Server, with_world}
use tmwmf_sem_ups.Accept.{Connection, new_client}

-- Every id in the table has been given out.
abbrev pub IdsBelow : Memory Client → ClientList → ℕ → Type 0
IdsBelow mem l next = (j id : ℕ) → has_id mem id (get_or l.client_array j none) ≡ true → id < next

-- The table is valid, and its ids have been given out.
abbrev pub TableReady : Server → Type 0
TableReady s = ListValid s.world.client s.list × IdsBelow s.world.client s.list s.next_client_id

-- The client waits for its thread, or it was turned away.
abbrev pub Admitted : Server → ℕ → Server → Type 0
Admitted s c s' =
    ((client_list_find_by_id s'.world.client s'.list s.next_client_id ≡ some c)
      × (s'.threads ≡ s.threads ++ (c ∷ [])))
    ⊎ ((s'.freed ≡ s.freed ++ (c ∷ []))
        × ((j : ℕ)
            → j < s.list.max_clients
            → (get_or s.list.client_array j none ≢ none)
              × (is_zombie s'.world.client (get_or s.list.client_array j none) ≡ false)))

module _ (s : Server) (conn : Connection) (c : ℕ) (ready : TableReady s)
    (fresh : (j : ℕ) → get_or s.list.client_array j none ≢ some c)
    (starts : conn.thread_ok ≡ true) where
  abbrev arrived : Client
  arrived = new_client conn.client_fd conn.now s.next_client_id

  abbrev memory : Memory Client
  memory = store s.world.client c arrived

  abbrev entered : Server
  entered = record (with_world s (set_client s.world c arrived)) {
    next_client_id = s.next_client_id + 1;
  }
