-- ===== src/ClientList/Lookup.antt =====
-- `client_list_find_by_id` of server_src/client_list.c.
use tmwmf_sem_ups.Base.{
  ℕ, ◌<◌, ◌≡◌, refl, ◌⊎◌, inl, inr, Option, none, some, List, true, false, get_or, arith,
}
use tmwmf_sem_ups.Client.{Client, Memory}
use tmwmf_sem_ups.ClientList.{ClientList, has_id, entry, client_list_find_by_id}
use tmwmf_sem_ups.ClientList.Search.{FoundId, find_id-FoundId}

of_entry :
    (mem : Memory Client) (id : ℕ) (o : Option ℕ)
    → has_id mem id o ≡ true
    → (c : ℕ) × (o ≡ some c) × ((mem c).client_id ≡ id)
unfolding has_id
of_entry mem id none h = absurd (cc)
of_entry mem id (some c) h = (c, refl, ground arith)

find_outcome :
    (mem : Memory Client) (id max : ℕ) (clients : List (Option ℕ)) (r : Option ℕ)
    → FoundId mem id max 0 clients r
    → ((c : ℕ) × (j : ℕ) × (entry clients r ≡ some c)
        × (j < max)
        × (get_or clients j none ≡ some c)
        × ((mem c).client_id ≡ id))
      ⊎ ((entry clients r ≡ none)
          × ((j : ℕ) → j < max → has_id mem id (get_or clients j none) ≡ false))
find_outcome mem id max clients none miss = inr (refl, λ j h. miss j (omega arith) (omega arith))
find_outcome mem id max clients (some j) (hi, hit) =
    let (c, e, same) = of_entry mem id (get_or clients j none) hit in
    inl (c, j, e, omega arith, e, same)

-- The lookup gives a client of the table that has the id, or NULL when no slot has a client with
-- it.
pub client_list_find_by_id_lem :
    (mem : Memory Client) (l : ClientList) (id : ℕ)
    → ((c : ℕ) × (j : ℕ) × (client_list_find_by_id mem l id ≡ some c)
        × (j < l.max_clients)
        × (get_or l.client_array j none ≡ some c)
        × ((mem c).client_id ≡ id))
      ⊎ ((client_list_find_by_id mem l id ≡ none)
          × ((j : ℕ) → j < l.max_clients → has_id mem id (get_or l.client_array j none) ≡ false))
unfolding client_list_find_by_id
client_list_find_by_id_lem mem l id =
    find_outcome mem id l.max_clients l.client_array _
      (find_id-FoundId mem id l.max_clients 0 l.client_array)
