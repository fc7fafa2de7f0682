-- ===== src/ClientList/Search.antt =====
-- The search loops of server_src/client_list.c, and what holds of the table between two calls.
use tmwmf_sem_ups.Base.{
  get_or-replicate, split_le, ℕ, zero, suc, ◌+◌, ◌≤◌, ◌<◌, ◌≡◌, ◌≢◌, refl, ◌⊎◌, inl, inr, Option,
  none, some, List, Bool, true, false, length, get_or, arith, Bool-cases, tally, occupied, is_null,
  subst, replicate, length-replicate, tally-replicate,
}
use tmwmf_sem_ups.Client.{Client, Memory}
use tmwmf_sem_ups.ClientList.{
  ClientList, has_id, find_id, is_zombie, Place, empty, zombie, full, find_place, first_zombie,
  client_list_init,
}

-- The count is that of the entries, and no two slots have the same client id.
pub record ListValid (mem : Memory Client) (l : ClientList) : Type 0 where
  pub size : length l.client_array ≡ l.max_clients
  pub count : l.client_count ≡ tally occupied l.client_array
  pub distinct :
      (i j id : ℕ)
      → i ≢ j
      → has_id mem id (get_or l.client_array i none) ≡ true
      → has_id mem id (get_or l.client_array j none) ≡ false

abbrev pub FoundId : Memory Client → ℕ → ℕ → ℕ → List (Option ℕ) → Option ℕ → Type 0
FoundId mem id n i clients none =
    (k : ℕ) → i ≤ k → k < i + n → has_id mem id (get_or clients k none) ≡ false
FoundId mem id n i clients (some k) = (k < i + n) × (has_id mem id (get_or clients k none) ≡ true)

FoundId-suc :
    (mem : Memory Client) (id n i : ℕ) (clients : List (Option ℕ)) (r : Option ℕ)
    → has_id mem id (get_or clients i none) ≡ false
    → FoundId mem id n (i + 1) clients r
    → FoundId mem id (suc n) i clients r
FoundId-suc mem id n i clients none miss rest = λ k lo hi. elim (split_le i k lo) [
  | inl e ↦ rw (← e) miss
  | inr later ↦ rest k later (omega arith)
]
FoundId-suc mem id n i clients (some k) miss (hi, e) = (omega arith, e)

pub find_id-FoundId :
    (mem : Memory Client) (id n i : ℕ) (clients : List (Option ℕ))
    → FoundId mem id n i clients (find_id mem id n i clients)
unfolding find_id
find_id-FoundId mem id zero i clients = λ k lo hi. absurd (omega arith)
find_id-FoundId mem id (suc n) i clients =
    elim (Bool-cases (has_id mem id (get_or clients i none))) [
      | inl t ↦ rw t (omega arith, t)
      | inr f ↦ rw f (FoundId-suc mem id n i clients _ f (find_id-FoundId mem id n (i + 1) clients))
    ]

-- What `find_place` answers: an empty slot; or a zombie's slot; or none of either, in its range.
abbrev pub PlaceOk : Memory Client → ℕ → ℕ → Option ℕ → List (Option ℕ) → Place → Type 0
PlaceOk mem n i z clients (empty k) = (k < i + n) × (get_or clients k none ≡ none)
PlaceOk mem n i z clients (zombie k) =
    ((z ≡ some k) ⊎ ((k < i + n) × (is_zombie mem (get_or clients k none) ≡ true)))
    × ((j : ℕ) → i ≤ j → j < i + n → get_or clients j none ≢ none)
PlaceOk mem n i z clients full =
    (z ≡ none)
    × ((j : ℕ)
        → i ≤ j
        → j < i + n
        → (get_or clients j none ≢ none) × (is_zombie mem (get_or clients j none) ≡ false))

first_zombie-some :
    (z : Option ℕ) (b : Bool) (i k : ℕ)
    → first_zombie z b i ≡ some k
    → (z ≡ some k) ⊎ ((i ≡ k) × (b ≡ true))
first_zombie-some (some z) b i k e = inl e
first_zombie-some none true i k e = inr ((cc), refl)
first_zombie-some none false i k e = absurd (cc)

first_zombie-none :
    (z : Option ℕ) (b : Bool) (i : ℕ) → first_zombie z b i ≡ none → (z ≡ none) × (b ≡ false)
first_zombie-none (some z) b i e = absurd (cc)
first_zombie-none none true i e = absurd (cc)
first_zombie-none none false i e = (refl, refl)

module _ (mem : Memory Client) (n i : ℕ) (z : Option ℕ) (clients : List (Option ℕ)) where
  -- A slot past the first that holds for the rest holds for all, if it does for the first.
  from_first :
      {P : ℕ → Type 0}
      → P i
      → ((j : ℕ) → i + 1 ≤ j → j < i + 1 + n → P j)
      → (j : ℕ) → i ≤ j
      → j < i + suc n
      → P j
  from_first {P} here rest j lo hi = elim (split_le i j lo) [
    | inl e ↦ subst P e here
    | inr later ↦ rest j later (omega arith)
  ]

  PlaceOk-suc :
      (p : Place)
      → get_or clients i none ≢ none
      → PlaceOk mem n (i + 1) (first_zombie z (is_zombie mem (get_or clients i none)) i) clients p
      → PlaceOk mem (suc n) i z clients p
  PlaceOk-suc (empty k) taken (hi, e) = (omega arith, e)
  PlaceOk-suc (zombie k) taken (inl e, all) = (
    elim (first_zombie-some z _ i k e) [
      | inl same ↦ inl same
      | inr (here, b) ↦
          inr (omega arith, subst (λ j. is_zombie mem (get_or clients j none) ≡ true) here b)
    ],
    from_first {P = λ j. get_or clients j none ≢ none} taken all,
  )
  PlaceOk-suc (zombie k) taken (inr (hi, e), all) =
      (inr (omega arith, e), from_first {P = λ j. get_or clients j none ≢ none} taken all)
  PlaceOk-suc full taken (e, all) =
      let (no_zombie, alive) = first_zombie-none z _ i e in
      (
        no_zombie,
        from_first
            {P = λ j.
              (get_or clients j none ≢ none) × (is_zombie mem (get_or clients j none) ≡ false)}
            (taken, alive) all,
      )

pub find_place-PlaceOk :
    (mem : Memory Client) (n i : ℕ) (z : Option ℕ) (clients : List (Option ℕ))
    → PlaceOk mem n i z clients (find_place mem n i z clients)
unfolding find_place
find_place-PlaceOk mem zero i none clients = (refl, λ j lo hi. absurd (omega arith))
find_place-PlaceOk mem zero i (some k) clients = (inl refl, λ j lo hi. absurd (omega arith))
find_place-PlaceOk mem (suc n) i z clients = elim (Bool-cases (is_null (get_or clients i none))) [
  | inl t ↦ rw t (omega arith, ground arith)
  | inr f ↦ rw f (
      PlaceOk-suc mem n i z clients _ (λ e. ground arith)
        (find_place-PlaceOk mem n (i + 1) _ clients))
]

-- An initialised table is empty and valid, whatever the memory holds; only a failed allocation is
-- refused.
pub client_list_init-ListValid :
    (mem : Memory Client) (max : ℕ)
    → (client_list_init max false ≡ none)
      × ((l : ClientList) × (client_list_init max true ≡ some l)
          × ListValid mem l
          × (l.max_clients ≡ max)
          × (l.client_count ≡ 0))
unfolding client_list_init has_id
client_list_init-ListValid mem max = (
  refl,
  (
    _,
    refl,
    record {
      size = length-replicate max none;
      count = omega (arith, tally-replicate occupied max none);
      distinct = λ i j id ne h. absurd (vacant i id h);
    },
    refl,
    refl,
  ),
)
  where
    vacant : (i id : ℕ) → has_id mem id (get_or (replicate max none) i none) ≡ true → ⊥
    vacant i id h =
        let e : get_or {A = Option ℕ} (replicate max none) i none ≡ none =
          get_or-replicate max i none in
        ground arith
