-- ===== src/ClientList/Remove.antt =====
-- `client_list_remove`, `client_list_replace` and `client_list_get_all` of
-- server_src/client_list.c.
use tmwmf_sem_ups.Base.{
  split_le, occupied, ℕ, zero, suc, ◌+◌, ◌-◌, ◌≤◌, ◌<◌, ◌≡◌, ◌≢◌, refl, ◌⊎◌, inl, inr, Option, none,
  some, List, true, false, length, length-set, get_or, set, get_elem?-eq-get_or, get_or-ge,
  get_or-set_self, get_or-set_ne, arith, if◌then◌else◌, Bool-cases, tally, tally-set, ◌∙◌, ap,
  subst, points_to,
}
use tmwmf_sem_ups.Client.{Client, Memory}
use tmwmf_sem_ups.ClientList.{ClientList, has_id, remove_loop, client_list_remove, last_slot}
use tmwmf_sem_ups.ClientList.Search.{ListValid}

-- Which entry is left of an entry when the client is cleared.
abbrev pub without : ℕ → Option ℕ → Option ℕ
without client o = if points_to o client then none else o

-- The part of the invariant that the loops carry: sizes and counts.
record Counted (l : ClientList) : Type 0 where
  size : length l.client_array ≡ l.max_clients
  count : l.client_count ≡ tally occupied l.client_array

-- One round of the loop of `client_list_remove`.
abbrev clear_slot : ℕ → ℕ → ClientList → ClientList
clear_slot client i l =
    if points_to (get_or l.client_array i none) client
    then record l { client_array = set l.client_array i none; client_count = l.client_count - 1 }
    else l

pub in_table :
    (l : ClientList) (i client : ℕ)
    → points_to (get_or l.client_array i none) client ≡ true
    → i < length l.client_array
in_table l i client h = elim (split i (length l.client_array)) [
  | inl lt ↦ lt
  | inr ge ↦ absurd (ground (arith, get_or-ge l.client_array i none ge))
]
  where
    split : (a b : ℕ) → (a < b) ⊎ (b ≤ a)
    split a b = omega arith

record Round (client i : ℕ) (l l' : ClientList) : Type 0 where
  counted : Counted l'
  same_max : l'.max_clients ≡ l.max_clients
  here : get_or l'.client_array i none ≡ without client (get_or l.client_array i none)
  elsewhere : (j : ℕ) → i ≢ j → get_or l'.client_array j none ≡ get_or l.client_array j none

round : (client i : ℕ) (l : ClientList) → Counted l → Round client i l (clear_slot client i l)
round client i l v = elim (Bool-cases (points_to (get_or l.client_array i none) client)) [
  | inl t ↦
      let lt : i < length l.client_array = in_table l i client t in
      rw t (record {
        counted = record {
          size = length-set l.client_array i none ∙ v.size;
          count = ground (
            arith,
            v.count,
            t,
            tally-set occupied l.client_array i (get_or l.client_array i none) none
                (get_elem?-eq-get_or l.client_array i none lt),
          );
        };
        same_max = refl;
        here = get_or-set_self l.client_array i none none lt ∙ (rw t);
        elsewhere = λ j ne. get_or-set_ne l.client_array i j none none ne;
      })
  | inr f ↦ rw f (record { counted = v; same_max = refl; here = (rw f); elsewhere = λ j ne. refl })
]

-- What rounds `i` to `i + n` of the loop have done.
record Cleared (client n i : ℕ) (l l' : ClientList) : Type 0 where
  counted : Counted l'
  same_max : l'.max_clients ≡ l.max_clients
  below : (j : ℕ) → j < i → get_or l'.client_array j none ≡ get_or l.client_array j none
  within :
      (j : ℕ)
      → i ≤ j
      → j < i + n
      → get_or l'.client_array j none ≡ without client (get_or l.client_array j none)

remove_loop-Cleared :
    (client n i : ℕ) (l : ClientList) → Counted l → Cleared client n i l (remove_loop client n i l)
unfolding remove_loop
remove_loop-Cleared client zero i l v = record {
  counted = v;
  same_max = refl;
  below = λ j h. refl;
  within = λ j lo hi. absurd (omega arith);
}
remove_loop-Cleared client (suc n) i l v =
    let r = round client i l v in
    let rest = remove_loop-Cleared client n (i + 1) (clear_slot client i l) r.counted in
    record {
      counted = rest.counted;
      same_max = rest.same_max ∙ r.same_max;
      below = λ j h. rest.below j (omega arith) ∙ r.elsewhere j (omega arith);
      within = λ j lo hi. elim (split_le i j lo) [
        | inl e ↦
            subst
              (λ j.
                get_or (remove_loop client n (i + 1) (clear_slot client i l)).client_array j none
                ≡ without client (get_or l.client_array j none))
              e (rest.below i (omega arith) ∙ r.here)
        | inr later ↦
            rest.within j later (omega arith) ∙ ap (without client) (r.elsewhere j (omega arith))
      ];
    }

-- What has the id after the client was cleared had it before.
has_id-without :
    (mem : Memory Client) (id client : ℕ) (o : Option ℕ)
    → has_id mem id (without client o) ≡ true
    → has_id mem id o ≡ true
unfolding has_id
has_id-without mem id client none h = h
has_id-without mem id client (some c) h = ground arith

not_has_id-without :
    (mem : Memory Client) (id client : ℕ) (o : Option ℕ)
    → has_id mem id o ≡ false
    → has_id mem id (without client o) ≡ false
unfolding has_id
not_has_id-without mem id client none h = h
not_has_id-without mem id client (some c) h = ground arith

-- `client_list_remove` keeps a valid table valid; it clears every slot of the client, so that none
-- is left, and leaves every other slot as it was.
pub client_list_remove-ListValid :
    (mem : Memory Client) (l : ClientList) (client : ℕ)
    → ListValid mem l
    → ListValid mem (client_list_remove l client)
      × ((j : ℕ)
          → get_or (client_list_remove l client).client_array j none
            ≡ without client (get_or l.client_array j none))
unfolding client_list_remove
client_list_remove-ListValid mem l client v = (
  record {
    size = done.counted.size;
    count = done.counted.count;
    distinct = λ i j id ne h. rw (slots j) (
        not_has_id-without mem id client (get_or l.client_array j none) (
          v.distinct i j id ne (
            has_id-without mem id client (get_or l.client_array i none)
              (subst (λ o. has_id mem id o ≡ true) (slots i) h))));
  },
  slots,
)
  where
    done : Cleared client l.max_clients 0 l (remove_loop client l.max_clients 0 l)
    done = remove_loop-Cleared client l.max_clients 0 l (record { size = v.size; count = v.count })

    split : (a b : ℕ) → (a < b) ⊎ (b ≤ a)
    split a b = omega arith

    slots :
        (j : ℕ)
        → get_or (remove_loop client l.max_clients 0 l).client_array j none
          ≡ without client (get_or l.client_array j none)
    slots j = elim (split j l.max_clients) [
      | inl lt ↦ done.within j (omega arith) (omega arith)
      | inr ge ↦ rw (
        get_or-ge l.client_array j none (omega (arith, v.size)),
        get_or-ge (remove_loop client l.max_clients 0 l).client_array j none
            (omega (arith, done.counted.size, done.same_max)),
      )
    ]

-- Where the last slot of a client is: in none, or in the only one.
last_slot-none :
    (client n i : ℕ) (clients : List (Option ℕ)) (found : Option ℕ)
    → ((j : ℕ) → i ≤ j → j < i + n → points_to (get_or clients j none) client ≡ false)
    → last_slot client n i clients found ≡ found
unfolding last_slot
last_slot-none client zero i clients found h = refl
last_slot-none client (suc n) i clients found h =
    rw (h i (omega arith) (omega arith))
      (last_slot-none client n (i + 1) clients found (λ j lo hi. h j (omega arith) (omega arith)))

pub last_slot_only :
    (client n i k : ℕ) (clients : List (Option ℕ)) (found : Option ℕ)
    → i ≤ k
    → k < i + n
    → points_to (get_or clients k none) client ≡ true
    → ((j : ℕ) → j ≢ k → points_to (get_or clients j none) client ≡ false)
    → last_slot client n i clients found ≡ some k
unfolding last_slot
last_slot_only client zero i k clients found lo hi at others = absurd (omega arith)
last_slot_only client (suc n) i k clients found lo hi at others = elim (split_le i k lo) [
  | inl e ↦
      rw (e, at)
        (last_slot-none client n (k + 1) clients (some k) (λ j l h. others j (omega arith)))
  | inr later ↦
      last_slot_only client n (i + 1) k clients
        (if points_to (get_or clients i none) client then some i else found) later (omega arith) at
        others
]
