-- ===== src/ClientList/Shutdown.antt =====
-- `client_list_shutdown` of server_src/client_list.c frees no client twice.
use tmwmf_sem_ups.Base.{
  ℕ, zero, suc, ◌+◌, ◌≤◌, ◌<◌, ◌≡◌, ◌≢◌, refl, ◌⊎◌, inl, inr, Option, none, some, List, [], ◌∷◌,
  Bool, ap, ℤ, pos, negsuc, false, length, get_or, set, get_or-set, get_or-ge, get_or-set_ne, arith,
  if◌then◌else◌, Option-cases, tally, ◌==◌, points_to, ◌||◌, ◌&&◌, leb, ltb,
}
use tmwmf_sem_ups.ClientList.{
  ClientList, clear_later, free_loop, open_sockets, client_list_shutdown,
}
use tmwmf_sem_ups.Client.{Client, Memory}
use tmwmf_sem_ups.ClientList.Remove.{without}

abbrev pub is_client : ℕ → ℕ → ℕ
is_client c d = if d == c then 1 else 0

-- The client stands in a slot from `i` on, in the next `n`.
abbrev pub stands : ℕ → ℕ → ℕ → List (Option ℕ) → Bool
stands c zero i clients = false
stands c (suc n) i clients = points_to (get_or clients i none) c || stands c n (i + 1) clients

clear_at :
    (client i j : ℕ) (xs : List (Option ℕ))
    → get_or (if points_to (get_or xs i none) client then set xs i none else xs) j none
      ≡ (if i == j then without client (get_or xs j none) else get_or xs j none)
clear_at client i j xs = elim (split i (length xs)) [
  | inl lt ↦ ground (arith, get_or-set xs i j none none lt)
  | inr ge ↦ ground (arith, get_or-ge xs i none ge)
]
  where
    split : (a b : ℕ) → (a < b) ⊎ (b ≤ a)
    split a b = omega arith

-- The inner loop clears the client's entries in its range, and no other.
clear_later_at :
    (client n i j : ℕ) (xs : List (Option ℕ))
    → get_or (clear_later client n i xs) j none
      ≡ (if leb i j && ltb j (i + n) then without client (get_or xs j none) else get_or xs j none)
unfolding clear_later
clear_later_at client zero i j xs = ground arith
clear_later_at client (suc n) i j xs = ground (
  arith,
  clear_at client i j xs,
  clear_later_at client n (i + 1) j
      (if points_to (get_or xs i none) client then set xs i none else xs),
)

stands_same :
    (c n i : ℕ) (xs ys : List (Option ℕ))
    → ((j : ℕ)
        → i ≤ j
        → j < i + n
        → points_to (get_or xs j none) c ≡ points_to (get_or ys j none) c)
    → stands c n i xs ≡ stands c n i ys
stands_same c zero i xs ys h = refl
stands_same c (suc n) i xs ys h = ground (
  arith,
  h i (omega arith) (omega arith),
  stands_same c n (i + 1) xs ys (λ j lo hi. h j (omega arith) (omega arith)),
)

stands_nowhere :
    (c n i : ℕ) (xs : List (Option ℕ))
    → ((j : ℕ) → i ≤ j → j < i + n → points_to (get_or xs j none) c ≡ false)
    → stands c n i xs ≡ false
stands_nowhere c zero i xs h = refl
stands_nowhere c (suc n) i xs h = ground (
  arith,
  h i (omega arith) (omega arith),
  stands_nowhere c n (i + 1) xs (λ j lo hi. h j (omega arith) (omega arith)),
)

module _ (c d n i : ℕ) (xs : List (Option ℕ)) where
  -- The table after `d`, found in slot `i`, was cleared from there on.
  abbrev rest : List (Option ℕ)
  rest = clear_later d n (i + 1) (set xs i none)

  rest_at : (j : ℕ) → i + 1 ≤ j → j < i + 1 + n → get_or rest j none ≡ without d (get_or xs j none)
  rest_at j lo hi = ground (
    arith,
    clear_later_at d n (i + 1) j (set xs i none),
    get_or-set_ne xs i j none none (omega arith),
  )

  stands-rest_other : d ≢ c → stands c n (i + 1) rest ≡ stands c n (i + 1) xs
  stands-rest_other ne =
      stands_same c n (i + 1) rest xs (λ j lo hi. rw (rest_at j lo hi) (other (get_or xs j none)))
    where
      other : (o : Option ℕ) → points_to (without d o) c ≡ points_to o c
      other none = refl
      other (some e) = ground arith

  stands-rest_self : d ≡ c → stands c n (i + 1) rest ≡ false
  stands-rest_self same =
      stands_nowhere c n (i + 1) rest (λ j lo hi. rw (rest_at j lo hi) (gone (get_or xs j none)))
    where
      gone : (o : Option ℕ) → points_to (without d o) c ≡ false
      gone none = refl
      gone (some e) = ground arith

free_loop_once :
    (c n i : ℕ) (xs : List (Option ℕ))
    → tally (is_client c) (free_loop n i xs) ≡ (if stands c n i xs then 1 else 0)
unfolding free_loop
free_loop_once c zero i xs = refl
free_loop_once c (suc n) i xs = elim (Option-cases (get_or xs i none)) [
  | inl e ↦ rw (e, free_loop) (free_loop_once c n (i + 1) xs)
  | inr (d, e) ↦
      rw (e, free_loop)
        (ground (
          arith,
          free_loop_once c n (i + 1) (clear_later d n (i + 1) (set xs i none)),
          stands-rest_other c d n i xs,
          stands-rest_self c d n i xs,
        ))
]

-- 1 for the socket.
abbrev pub is_socket : ℤ → ℤ → ℕ
is_socket (pos n) (pos m) = if m == n then 1 else 0
is_socket _ _ = 0

-- 1 for a client with that socket.
abbrev pub has_socket : Memory Client → ℤ → ℕ → ℕ
has_socket mem fd d = is_socket fd (mem d).socket_fd

closed_lem :
    (mem : Memory Client) (n : ℕ) (clients : List ℕ)
    → tally (is_socket (pos n)) (open_sockets mem clients) ≡ tally (has_socket mem (pos n)) clients
unfolding open_sockets
closed_lem mem n [] = refl
closed_lem mem n (c ∷ clients) = by_socket (closed_lem mem n clients) (mem c).socket_fd refl
  where
    by_socket :
        tally (is_socket (pos n)) (open_sockets mem clients)
          ≡ tally (has_socket mem (pos n)) clients
        → (fd : ℤ) → (mem c).socket_fd ≡ fd
        → tally (is_socket (pos n)) (open_sockets mem (c ∷ clients))
          ≡ tally (has_socket mem (pos n)) (c ∷ clients)
    by_socket rest (pos m) e = rw e (ap (λ t. (if m == n then 1 else 0) + t) rest)
    by_socket rest (negsuc m) e = rw e (omega (arith, rest))

-- At shutdown every client that stands in some slot is freed exactly once, however many slots it
-- stands in, no other client is freed, the table is left empty, and each open socket is closed as
-- often as clients that have it are freed.
pub client_list_shutdown_once :
    (mem : Memory Client) (l : ClientList) (c n : ℕ)
    → (tally (is_client c) (client_list_shutdown mem l).0
        ≡ (if stands c l.max_clients 0 l.client_array then 1 else 0))
      × (tally (is_socket (pos n)) (client_list_shutdown mem l).1
          ≡ tally (has_socket mem (pos n)) (client_list_shutdown mem l).0)
      × ((client_list_shutdown mem l).2.client_array ≡ [])
      × ((client_list_shutdown mem l).2.client_count ≡ 0)
unfolding client_list_shutdown
client_list_shutdown_once mem l c n = (
  free_loop_once c l.max_clients 0 l.client_array,
  closed_lem mem n (free_loop l.max_clients 0 l.client_array),
  refl,
  refl,
)
