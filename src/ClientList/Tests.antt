-- ===== src/ClientList/Tests.antt =====
-- The theorems on the table of clients, at a concrete table.
use tmwmf_sem_ups.Base.{
  ℕ, zero, suc, ◌+◌, ◌≡◌, ◌≢◌, ◌⊎◌, inl, inr, refl, Option, none, some, [], ◌∷◌, true, false, arith,
  pos, negsuc, get_or, tally, if◌then◌else◌, ◌==◌, Bool-cases,
}
use tmwmf_sem_ups.Protocol.{in_lobby}
use tmwmf_sem_ups.Client.{Client, Memory, store}
use tmwmf_sem_ups.ClientList.{
  ClientList, has_id, client_list_add, client_list_remove, client_list_replace,
  client_list_shutdown,
}
use tmwmf_sem_ups.ClientList.Search.{ListValid}
use tmwmf_sem_ups.ClientList.Add.{Refused, Added, client_list_add_lem}
use tmwmf_sem_ups.ClientList.Remove.{client_list_remove-ListValid, without}
use tmwmf_sem_ups.ClientList.Replace.{BothListed, client_list_replace-ListValid}
use tmwmf_sem_ups.ClientList.Shutdown.{
  client_list_shutdown_once, is_client, stands, is_socket, has_socket,
}

-- The client at an address has it as its id, and the one at 9 has lost its connection.
abbrev memory : Memory Client
memory p = record {
  socket_fd = if p == 9 then negsuc 0 else pos p;
  nickname = p ∷ [];
  state = in_lobby;
  last_activity = 0;
  invalid_message_count = 0;
  client_id = p;
  room = none;
  is_disconnected = p == 9;
  disconnect_time = 0;
  waiting_for_pong = false;
  last_ping_time = 0;
  last_pong_time = 0;
}

abbrev table : ClientList
table = record { client_array = some 7 ∷ none ∷ some 9 ∷ []; max_clients = 3; client_count = 2 }

ids :
    (i id : ℕ)
    → has_id memory id (get_or table.client_array i none) ≡ true
    → ((i ≡ 0) × (id ≡ 7)) ⊎ ((i ≡ 2) × (id ≡ 9))
unfolding has_id
ids zero id h = inl (refl, ground arith)
ids (suc zero) id h = absurd (cc)
ids (suc (suc zero)) id h = inr (refl, ground arith)
ids (suc (suc (suc i))) id h = absurd (cc)

table-ListValid : ListValid memory table
table-ListValid = record {
  size = refl;
  count = refl;
  distinct = λ i j id ne h.
      elim (Bool-cases (has_id memory id (get_or table.client_array j none))) [
        | inl t ↦ absurd (clash i j id ne (ids i id h) (ids j id t))
        | inr f ↦ f
      ];
}
  where
    clash :
        (i j id : ℕ)
        → i ≢ j
        → ((i ≡ 0) × (id ≡ 7)) ⊎ ((i ≡ 2) × (id ≡ 9))
        → ((j ≡ 0) × (id ≡ 7)) ⊎ ((j ≡ 2) × (id ≡ 9))
        → ⊥
    clash i j id ne (inl (e, f)) (inl (g, h)) = omega arith
    clash i j id ne (inl (e, f)) (inr (g, h)) = omega arith
    clash i j id ne (inr (e, f)) (inl (g, h)) = omega arith
    clash i j id ne (inr (e, f)) (inr (g, h)) = omega arith

client_list_add_lem_example :
    ((client_list_add memory table 8 ≡ none) × Refused memory table 8)
    ⊎ ((l' : ClientList) × (freed : Option ℕ) × (client_list_add memory table 8 ≡ some (l', freed))
        × Added memory table 8 l' freed)
client_list_add_lem_example = client_list_add_lem memory table 8 table-ListValid

client_list_remove-ListValid_example :
    ListValid memory (client_list_remove table 7)
    × ((j : ℕ)
        → get_or (client_list_remove table 7).client_array j none
          ≡ without 7 (get_or table.client_array j none))
client_list_remove-ListValid_example = client_list_remove-ListValid memory table 7 table-ListValid

-- The client at 7 comes back for the session of the one at 9.
both : BothListed memory table 9 7 2 0
both = record { valid = table-ListValid; distinct = omega arith; old_at = refl; new_at = refl }

client_list_replace-ListValid_example :
    ListValid (store memory 7 (memory 9)) (client_list_replace table 9 7)
    × ((client_list_replace table 9 7).client_count + 1 ≡ 2)
    × ((j : ℕ)
        → get_or (client_list_replace table 9 7).client_array j none
          ≡ (if 2 == j then some 7 else if 0 == j then none else get_or table.client_array j none))
client_list_replace-ListValid_example =
    client_list_replace-ListValid memory table 9 7 2 0 both (memory 9) refl

client_list_shutdown_once_example :
    (tally (is_client 7) (client_list_shutdown memory table).0
      ≡ (if stands 7 3 0 table.client_array then 1 else 0))
    × (tally (is_socket (pos 7)) (client_list_shutdown memory table).1
        ≡ tally (has_socket memory (pos 7)) (client_list_shutdown memory table).0)
    × ((client_list_shutdown memory table).2.client_array ≡ [])
    × ((client_list_shutdown memory table).2.client_count ≡ 0)
client_list_shutdown_once_example = client_list_shutdown_once memory table 7 7
