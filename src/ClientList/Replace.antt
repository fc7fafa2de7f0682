-- ===== src/ClientList/Replace.antt =====
-- `client_list_replace` of server_src/client_list.c, as a reconnect calls it.
use tmwmf_sem_ups.Base.{
  occupied, ℕ, ◌+◌, ◌-◌, ◌<◌, ◌≡◌, ◌≢◌, refl, Option, none, some, List, true, false, length,
  length-set, get_or, set, get_elem?, get_elem?-eq-get_or, get_elem?-set_ne, get_or-set, arith,
  if◌then◌else◌, tally, tally-set, ◌∙◌, sym, ap, ◌==◌, points_to, points_to_iff,
}
use tmwmf_sem_ups.Client.{Client, Memory, store}
use tmwmf_sem_ups.ClientList.{ClientList, has_id, last_slot, client_list_replace}
use tmwmf_sem_ups.ClientList.Search.{ListValid}
use tmwmf_sem_ups.ClientList.Remove.{in_table, last_slot_only}

-- Old and new client stand in slots of a valid table.
pub record BothListed (mem : Memory Client) (l : ClientList) (old new old_slot new_slot : ℕ)
    : Type 0 where
  pub valid : ListValid mem l
  pub distinct : old ≢ new
  pub old_at : get_or l.client_array old_slot none ≡ some old
  pub new_at : get_or l.client_array new_slot none ≡ some new

module _ (mem : Memory Client) (l : ClientList) (v : ListValid mem l) (c k : ℕ)
    (at : get_or l.client_array k none ≡ some c) where
  here : points_to (get_or l.client_array k none) c ≡ true
  here = (points_to_iff (get_or l.client_array k none) c).1 at

  own : has_id mem (mem c).client_id (some c) ≡ true
  unfolding has_id
  own = ground arith

  -- The client stands in no other slot.
  only_slot : (j : ℕ) → j ≢ k → points_to (get_or l.client_array j none) c ≡ false
  only_slot j ne = ground (
    arith,
    at,
    own,
    points_to_iff (get_or l.client_array j none) c,
    v.distinct j k (mem c).client_id ne,
  )

  slot_in_table : k < length l.client_array
  slot_in_table = in_table l k c here

  last_slot-eq : last_slot c l.max_clients 0 l.client_array none ≡ some k
  last_slot-eq =
      last_slot_only c l.max_clients 0 k l.client_array none (omega arith)
        (omega (arith, v.size, slot_in_table)) here only_slot

module _ (mem : Memory Client) (l : ClientList) (old new old_slot new_slot : ℕ)
    (b : BothListed mem l old new old_slot new_slot) (heir : Client)
    (same_id : heir.client_id ≡ (mem old).client_id) where
  abbrev swapped : List (Option ℕ)
  swapped = set (set l.client_array new_slot none) old_slot (some new)

  result :
      client_list_replace l old new
      ≡ record l { client_array = swapped; client_count = l.client_count - 1 }
  unfolding client_list_replace
  result = rw (
    last_slot-eq mem l b.valid old old_slot b.old_at,
    last_slot-eq mem l b.valid new new_slot b.new_at,
  )

  slots_differ : old_slot ≢ new_slot
  slots_differ e =
      b.distinct (ground (arith, b.old_at, b.new_at, ap (λ n. get_or l.client_array n none) e))

  swapped_at :
      (j : ℕ)
      → get_or swapped j none ≡ (
          if old_slot == j
          then some new
          else if new_slot == j
          then none
          else get_or l.client_array j none)
  swapped_at j = ground (
    arith,
    get_or-set (set l.client_array new_slot none) old_slot j (some new) none (
        omega (
          arith,
          length-set l.client_array new_slot none,
          slot_in_table mem l b.valid old old_slot b.old_at,
        )),
    get_or-set l.client_array new_slot j none none
        (slot_in_table mem l b.valid new new_slot b.new_at),
  )

  -- An entry for another client reads the same in the memory after the transfer.
  has_id-store :
      (id : ℕ) (o : Option ℕ)
      → points_to o new ≡ false
      → has_id (store mem new heir) id o ≡ has_id mem id o
  unfolding has_id
  has_id-store id none h = refl
  has_id-store id (some c) h = ground arith

  has_id-heir : (id : ℕ) → has_id (store mem new heir) id (some new) ≡ has_id mem id (some old)
  unfolding has_id
  has_id-heir id = ground (arith, same_id)

  relay :
      (id j : ℕ)
      → has_id (store mem new heir) id (get_or swapped j none)
        ≡ (if new_slot == j then false else has_id mem id (get_or l.client_array j none))
  relay id j = ground (
    arith,
    swapped_at j,
    slots_differ,
    b.old_at,
    has_id-heir id,
    has_id-store id (get_or l.client_array j none),
    only_slot mem l b.valid new new_slot b.new_at j,
    nothing id,
  )
    where
      nothing : (id : ℕ) → has_id (store mem new heir) id none ≡ false
      nothing id = unfold has_id in refl

  cleared_old : get_elem? (set l.client_array new_slot none) old_slot ≡ some (some old)
  cleared_old =
      get_elem?-set_ne l.client_array new_slot old_slot none (λ p. slots_differ (sym p))
      ∙ get_elem?-eq-get_or l.client_array old_slot none
          (slot_in_table mem l b.valid old old_slot b.old_at)
      ∙ ap some b.old_at

  listed_new : get_elem? l.client_array new_slot ≡ some (some new)
  listed_new =
      get_elem?-eq-get_or l.client_array new_slot none
        (slot_in_table mem l b.valid new new_slot b.new_at)
      ∙ ap some b.new_at

  count_after : tally occupied swapped + 1 ≡ l.client_count
  count_after = omega (
    arith,
    b.valid.count,
    tally-set occupied l.client_array new_slot (some new) none listed_new,
    tally-set occupied (set l.client_array new_slot none) old_slot (some old) (some new)
        cleared_old,
  )

  swapped-ListValid :
      ListValid
        (store mem new heir)
        (record l { client_array = swapped; client_count = l.client_count - 1 })
  swapped-ListValid = record {
    size =
        length-set (set l.client_array new_slot none) old_slot (some new)
        ∙ length-set l.client_array new_slot none
        ∙ b.valid.size;
    count = omega (arith, count_after);
    distinct = λ i j id ne h. ground (arith, relay id i, relay id j, b.valid.distinct i j id ne);
  }

-- When the new client has taken over the id of the old one, the call puts it into the slot of the
-- old one and clears its own: the table is valid for the memory after the transfer, with one client
-- less, and every other slot as it was.
pub client_list_replace-ListValid :
    (mem : Memory Client) (l : ClientList) (old new old_slot new_slot : ℕ)
    → BothListed mem l old new old_slot new_slot
    → (heir : Client) → heir.client_id ≡ (mem old).client_id
    → ListValid (store mem new heir) (client_list_replace l old new)
      × ((client_list_replace l old new).client_count + 1 ≡ l.client_count)
      × ((j : ℕ)
          → get_or (client_list_replace l old new).client_array j none ≡ (
              if old_slot == j
              then some new
              else if new_slot == j
              then none
              else get_or l.client_array j none))
client_list_replace-ListValid mem l old new old_slot new_slot b heir same_id =
    rw (result mem l old new old_slot new_slot b heir same_id) (
      swapped-ListValid mem l old new old_slot new_slot b heir same_id,
      omega (arith, count_after mem l old new old_slot new_slot b heir same_id),
      swapped_at mem l old new old_slot new_slot b heir same_id,
    )
