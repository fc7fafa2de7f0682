-- ===== src/ClientList/Add.antt =====
-- `client_list_add` and `client_list_find_by_id` of server_src/client_list.c.
use tmwmf_sem_ups.Base.{
  occupied, ℕ, ◌+◌, ◌≤◌, ◌<◌, ◌≡◌, ◌≢◌, refl, ◌⊎◌, inl, inr, Option, none, some, List, true, false,
  length, length-set, get_or, set, get_elem?-eq-get_or, get_or-set, get_or-set_ne, get_or-ge, arith,
  if◌then◌else◌, tally-set, ◌∙◌, sym, ◌==◌,
}
use tmwmf_sem_ups.Client.{Client, Memory}
use tmwmf_sem_ups.ClientList.{
  ClientList, has_id, find_id, is_zombie, Place, empty, zombie, full, find_place, put_client, entry,
  client_list_add, client_list_find_by_id,
}
use tmwmf_sem_ups.ClientList.Search.{
  ListValid, FoundId, find_id-FoundId, PlaceOk, find_place-PlaceOk,
}

-- Only a client's own id is found in it.
has_id_iff :
    (mem : Memory Client) (id c : ℕ) → has_id mem id (some c) ≡ true → (mem c).client_id ≡ id
unfolding has_id
has_id_iff mem id c h = ground arith

module _ (mem : Memory Client) (l : ClientList) (v : ListValid mem l) (client k : ℕ)
    (room : k < l.max_clients)
    (fresh : (j : ℕ)
      → j < l.max_clients
      → has_id mem (mem client).client_id (get_or l.client_array j none) ≡ false) where
  abbrev placed : List (Option ℕ)
  placed = set l.client_array k (some client)

  in_range : k < length l.client_array
  in_range = omega (arith, v.size)

  own_id : has_id mem (mem client).client_id (some client) ≡ true
  unfolding has_id
  own_id = ground arith

  fresh_all : (j : ℕ) → has_id mem (mem client).client_id (get_or l.client_array j none) ≡ false
  fresh_all j = elim (split j l.max_clients) [
    | inl lt ↦ fresh j lt
    | inr ge ↦ rw (get_or-ge l.client_array j none (omega (arith, v.size))) (unfold has_id in refl)
  ]
    where
      split : (a b : ℕ) → (a < b) ⊎ (b ≤ a)
      split a b = omega arith

  at :
      (j : ℕ)
      → get_or placed j none ≡ (if k == j then some client else get_or l.client_array j none)
  at j = get_or-set l.client_array k j (some client) none in_range

  placed-distinct :
      (i j id : ℕ)
      → i ≢ j
      → has_id mem id (get_or placed i none) ≡ true
      → has_id mem id (get_or placed j none) ≡ false
  placed-distinct i j id ne h = ground (
    arith,
    at i,
    at j,
    v.distinct i j id,
    fresh_all i,
    fresh_all j,
    has_id_iff mem id client,
    own_id,
  )

  -- The client is found again under its id.
  found :
      (count : ℕ)
      → client_list_find_by_id mem
          (record l { client_array = placed; client_count = count })
          (mem client).client_id
        ≡ some client
  unfolding client_list_find_by_id
  found count =
      look (find_id mem (mem client).client_id l.max_clients 0 placed)
        (find_id-FoundId mem (mem client).client_id l.max_clients 0 placed)
    where
      look :
          (r : Option ℕ)
          → FoundId mem (mem client).client_id l.max_clients 0 placed r
          → entry placed r ≡ some client
      look none miss = absurd (ground (arith, miss k (omega arith) (omega arith), at k, own_id))
      look (some j) (_, hit) = ground (arith, at j, fresh_all j)

-- What a successful call leaves: a valid table, where the client is found under its id and every
-- slot but one is as it was; that slot was empty, or held the zombie that is freed.
abbrev pub Added : Memory Client → ClientList → ℕ → ClientList → Option ℕ → Type 0
Added mem l client l' freed =
    ListValid mem l'
    × (client_list_find_by_id mem l' (mem client).client_id ≡ some client)
    × ((slot : ℕ) × (freed ≡ get_or l.client_array slot none)
        × ((freed ≡ none) ⊎ (is_zombie mem freed ≡ true))
        × ((j : ℕ) → j ≢ slot → get_or l'.client_array j none ≡ get_or l.client_array j none))

occupied_of_zombie : (mem : Memory Client) (o : Option ℕ) → is_zombie mem o ≡ true → occupied o ≡ 1
unfolding is_zombie
occupied_of_zombie mem none z = absurd (cc)
occupied_of_zombie mem (some c) z = refl

module _ (mem : Memory Client) (l : ClientList) (v : ListValid mem l) (client : ℕ)
    (fresh : (j : ℕ)
      → j < l.max_clients
      → has_id mem (mem client).client_id (get_or l.client_array j none) ≡ false) where
  empty-Added :
      (k : ℕ)
      → k < l.max_clients
      → get_or l.client_array k none ≡ none
      → Added mem l client
          (record l {
            client_array = set l.client_array k (some client);
            client_count = l.client_count + 1;
          })
          none
  empty-Added k room vacant = (
    record {
      size = length-set l.client_array k (some client) ∙ v.size;
      count = ground (
        arith,
        v.count,
        vacant,
        tally-set occupied l.client_array k (get_or l.client_array k none) (some client)
            (get_elem?-eq-get_or l.client_array k none (omega (arith, v.size, room))),
      );
      distinct = placed-distinct mem l v client k room fresh;
    },
    found mem l v client k room fresh (l.client_count + 1),
    (
      k,
      sym vacant,
      inl refl,
      λ j ne. get_or-set_ne l.client_array k j (some client) none (λ p. ne (sym p)),
    ),
  )

  zombie-Added :
      (k : ℕ)
      → k < l.max_clients
      → is_zombie mem (get_or l.client_array k none) ≡ true
      → Added mem l client
          (record l { client_array = set l.client_array k (some client) })
          (get_or l.client_array k none)
  zombie-Added k room z = (
    record {
      size = length-set l.client_array k (some client) ∙ v.size;
      count = omega (
        arith,
        v.count,
        occupied_of_zombie mem (get_or l.client_array k none) z,
        tally-set occupied l.client_array k (get_or l.client_array k none) (some client)
            (get_elem?-eq-get_or l.client_array k none (omega (arith, v.size, room))),
      );
      distinct = placed-distinct mem l v client k room fresh;
    },
    found mem l v client k room fresh l.client_count,
    (k, refl, inr z, λ j ne. get_or-set_ne l.client_array k j (some client) none (λ p. ne (sym p))),
  )

-- What a refused call shows: the client's id is in the table, or every slot holds a client who is
-- no zombie.
abbrev pub Refused : Memory Client → ClientList → ℕ → Type 0
Refused mem l client =
    ((j : ℕ) × (j < l.max_clients)
      × (has_id mem (mem client).client_id (get_or l.client_array j none) ≡ true))
    ⊎ ((j : ℕ)
        → j < l.max_clients
        → (get_or l.client_array j none ≢ none)
          × (is_zombie mem (get_or l.client_array j none) ≡ false))

abbrev AddOutcome : Memory Client → ClientList → ℕ → Option (ClientList × Option ℕ) → Type 0
AddOutcome mem l client none = Refused mem l client
AddOutcome mem l client (some (l', freed)) = Added mem l client l' freed

place_outcome :
    (mem : Memory Client) (l : ClientList) (client : ℕ)
    → ListValid mem l
    → ((j : ℕ)
        → j < l.max_clients
        → has_id mem (mem client).client_id (get_or l.client_array j none) ≡ false)
    → (p : Place) → PlaceOk mem l.max_clients 0 none l.client_array p
    → AddOutcome mem l client (put_client l client p)
unfolding put_client
place_outcome mem l client v fresh (empty k) (hi, e) =
    empty-Added mem l v client fresh k (omega arith) e
place_outcome mem l client v fresh (zombie k) (inl e, all) = absurd (cc)
place_outcome mem l client v fresh (zombie k) (inr (hi, z), all) =
    zombie-Added mem l v client fresh k (omega arith) z
place_outcome mem l client v fresh full (e, all) = inr (λ j h. all j (omega arith) (omega arith))

add_outcome :
    (mem : Memory Client) (l : ClientList) (client : ℕ)
    → ListValid mem l
    → (r : Option ℕ) → FoundId mem (mem client).client_id l.max_clients 0 l.client_array r
    → AddOutcome mem l client (elim r [
      | some _ ↦ none
      | none ↦ put_client l client (find_place mem l.max_clients 0 none l.client_array)
    ])
add_outcome mem l client v none miss =
    place_outcome mem l client v (λ j h. miss j (omega arith) (omega arith)) _
      (find_place-PlaceOk mem l.max_clients 0 none l.client_array)
add_outcome mem l client v (some j) (hi, hit) = inl (j, omega arith, hit)

outcome-cases :
    (mem : Memory Client) (l : ClientList) (client : ℕ) (r : Option (ClientList × Option ℕ))
    → AddOutcome mem l client r
    → ((r ≡ none) × Refused mem l client)
      ⊎ ((l' : ClientList) × (freed : Option ℕ) × (r ≡ some (l', freed))
          × Added mem l client l' freed)
outcome-cases mem l client none o = inl (refl, o)
outcome-cases mem l client (some (l', freed)) o = inr (l', freed, refl, o)

-- In a valid table a call of `client_list_add` is refused only if the client's id is in the table,
-- or if every slot holds a client who is no zombie. Otherwise the table stays valid, the client is
-- found under its id, one slot changes, and the client freed, if any, is the zombie that stood
-- there.
pub client_list_add_lem :
    (mem : Memory Client) (l : ClientList) (client : ℕ)
    → ListValid mem l
    → ((client_list_add mem l client ≡ none) × Refused mem l client)
      ⊎ ((l' : ClientList) × (freed : Option ℕ) × (client_list_add mem l client ≡ some (l', freed))
          × Added mem l client l' freed)
client_list_add_lem mem l client v = outcome-cases mem l client (client_list_add mem l client) (
    unfold client_list_add in
    add_outcome mem l client v _
      (find_id-FoundId mem (mem client).client_id l.max_clients 0 l.client_array))
