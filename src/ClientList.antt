-- ===== src/ClientList.antt =====
-- server_src/client_list.c: the table of all clients. Its lock makes each call one step; `mem` is
-- the memory that the entries point into.
pub mod Search
pub mod Add
pub mod Remove
pub mod Replace
pub mod Lookup
pub mod Shutdown
mod Tests
use tmwmf_sem_ups.Base.{
  ℕ, zero, suc, ◌+◌, ◌-◌, Bool, true, false, ◌&&◌, Option, none, some, List, [], ◌∷◌, replicate,
  get_or, set, ◌==◌, if◌then◌else◌, points_to, is_null, ℤ, is_negative,
}
use tmwmf_sem_ups.Client.{Client, Memory, is_closed}

pub record ClientList : Type 0 where
  pub client_array : List (Option ℕ)
  pub max_clients : ℕ
  pub client_count : ℕ

-- `client_list_init(max)`; the flag says whether `calloc` succeeds, and `none` is -1.
unfoldable pub client_list_init : ℕ → Bool → Option ClientList
client_list_init max alloc =
    if alloc
    then some (record { client_array = replicate max none; max_clients = max; client_count = 0 })
    else none

-- `client_array[i] != NULL && client_array[i]->client_id == id`
unfoldable pub has_id : Memory Client → ℕ → Option ℕ → Bool
has_id mem id none = false
has_id mem id (some c) = (mem c).client_id == id

-- The first slot from `i` on whose client has the id, in the rounds that are left.
pub find_id : Memory Client → ℕ → ℕ → ℕ → List (Option ℕ) → Option ℕ
unfolding has_id
find_id mem id zero i clients = none
find_id mem id (suc n) i clients =
    if has_id mem id (get_or clients i none) then some i else find_id mem id n (i + 1) clients

-- `is_disconnected && socket_fd == -1`
pub is_zombie : Memory Client → Option ℕ → Bool
is_zombie mem none = false
is_zombie mem (some c) = (mem c).is_disconnected && is_closed (mem c).socket_fd

pub data Place : Type 0 where
  empty : ℕ → Place
  zombie : ℕ → Place
  full : Place

abbrev at_zombie : Option ℕ → Place
at_zombie none = full
at_zombie (some i) = zombie i

abbrev pub first_zombie : Option ℕ → Bool → ℕ → Option ℕ
first_zombie (some z) found i = some z
first_zombie none true i = some i
first_zombie none false i = none

-- The second loop of `client_list_add`: the first empty slot, or else the first zombie's.
pub find_place : Memory Client → ℕ → ℕ → Option ℕ → List (Option ℕ) → Place
unfolding is_zombie
find_place mem zero i z clients = at_zombie z
find_place mem (suc n) i z clients =
    let rest =
      find_place mem n (i + 1) (first_zombie z (is_zombie mem (get_or clients i none)) i) clients in
    if is_null (get_or clients i none) then empty i else rest

-- The table after the call and the client that it freed; `none` is -1, with the table unchanged.
pub put_client : ClientList → ℕ → Place → Option (ClientList × Option ℕ)
put_client l client (empty i) = some (
  record l { client_array = set l.client_array i (some client); client_count = l.client_count + 1 },
  none,
)
put_client l client (zombie i) =
    some
      (record l { client_array = set l.client_array i (some client) }, get_or l.client_array i none)
put_client l client full = none

unfoldable pub client_list_add : Memory Client → ClientList → ℕ → Option (ClientList × Option ℕ)
unfolding find_id find_place put_client
client_list_add mem l client =
    elim (find_id mem (mem client).client_id l.max_clients 0 l.client_array) [
      | some _ ↦ none
      | none ↦ put_client l client (find_place mem l.max_clients 0 none l.client_array)
    ]

-- The loop of `client_list_remove`: every entry for the client is cleared.
pub remove_loop : ℕ → ℕ → ℕ → ClientList → ClientList
remove_loop client zero i l = l
remove_loop client (suc n) i l = remove_loop client n (i + 1) (
    if points_to (get_or l.client_array i none) client
    then record l { client_array = set l.client_array i none; client_count = l.client_count - 1 }
    else l)

unfoldable pub client_list_remove : ClientList → ℕ → ClientList
unfolding remove_loop
client_list_remove l client = remove_loop client l.max_clients 0 l

-- The loop of `client_list_replace`: the last slot that holds the client (`none` for -1).
pub last_slot : ℕ → ℕ → ℕ → List (Option ℕ) → Option ℕ → Option ℕ
last_slot client zero i clients found = found
last_slot client (suc n) i clients found =
    last_slot client n (i + 1) clients
      (if points_to (get_or clients i none) client then some i else found)

-- `client_array[new_client_index] = NULL; client_count--`, if the new client is there.
pub drop_slot : ClientList → Option ℕ → ClientList
drop_slot l none = l
drop_slot l (some i) = record l {
  client_array = set l.client_array i none;
  client_count = l.client_count - 1;
}

pub replace_at : ClientList → Option ℕ → Option ℕ → ℕ → ClientList
unfolding drop_slot
replace_at l none new_index new_client = l
replace_at l (some i) new_index new_client =
    let l' = drop_slot l new_index in
    record l' { client_array = set l'.client_array i (some new_client) }

unfoldable pub client_list_replace : ClientList → ℕ → ℕ → ClientList
unfolding last_slot replace_at
client_list_replace l old_client new_client =
    replace_at l (last_slot old_client l.max_clients 0 l.client_array none)
      (last_slot new_client l.max_clients 0 l.client_array none) new_client

-- The loop of `client_list_get_all`: `room` entries of the output array are still free.
pub get_loop : ℕ → ℕ → ℕ → List (Option ℕ) → List ℕ
get_loop zero i room clients = []
get_loop (suc n) i zero clients = []
get_loop (suc n) i (suc room) clients = elim (get_or clients i none) [
  | none ↦ get_loop n (i + 1) (suc room) clients
  | some c ↦ c ∷ get_loop n (i + 1) room clients
]

-- The clients that are copied out; the count returned is their number.
unfoldable pub client_list_get_all : ClientList → ℕ → List ℕ
unfolding get_loop
client_list_get_all l max_count = get_loop l.max_clients 0 max_count l.client_array

abbrev pub entry : List (Option ℕ) → Option ℕ → Option ℕ
entry clients none = none
entry clients (some i) = get_or clients i none

unfoldable pub client_list_find_by_id : Memory Client → ClientList → ℕ → Option ℕ
unfolding find_id
client_list_find_by_id mem l id =
    entry l.client_array (find_id mem id l.max_clients 0 l.client_array)

-- The inner loop of `client_list_shutdown`: later entries for the same client are cleared.
pub clear_later : ℕ → ℕ → ℕ → List (Option ℕ) → List (Option ℕ)
clear_later client zero j clients = clients
clear_later client (suc n) j clients =
    clear_later client n (j + 1)
      (if points_to (get_or clients j none) client then set clients j none else clients)

-- The outer loop: the clients that it frees, in order.
pub free_loop : ℕ → ℕ → List (Option ℕ) → List ℕ
unfolding clear_later
free_loop zero i clients = []
free_loop (suc n) i clients = elim (get_or clients i none) [
  | none ↦ free_loop n (i + 1) clients
  | some c ↦ c ∷ free_loop n (i + 1) (clear_later c n (i + 1) (set clients i none))
]

-- The sockets that the loop closes: that of each client it frees, if it is open. The field that is
-- set to -1 then is freed at once.
pub open_sockets : Memory Client → List ℕ → List ℤ
open_sockets mem [] = []
open_sockets mem (c ∷ clients) =
    let rest = open_sockets mem clients in
    let fd = (mem c).socket_fd in if is_negative fd then rest else fd ∷ rest

-- The clients that are freed, the sockets that are closed, and the empty table that is left.
unfoldable pub client_list_shutdown : Memory Client → ClientList → List ℕ × List ℤ × ClientList
unfolding free_loop open_sockets
client_list_shutdown mem l =
    let freed = free_loop l.max_clients 0 l.client_array in
    (freed, open_sockets mem freed, record { client_array = []; max_clients = 0; client_count = 0 })
