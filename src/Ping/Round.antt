-- ===== src/Ping/Round.antt =====
-- Whom one round of `ping_thread_func` in server_src/server.c sends a PING.
use tmwmf_sem_ups.Base.{
  ℕ, ◌+◌, ◌≤◌, ◌≡◌, ◌≢◌, ◌⊎◌, ℤ, pos, negsuc, is_negative, leb, refl, inl, inr, ◌∙◌, ap, sym, Bool,
  true, false, ◌&&◌, ◌||◌, List, [], ◌∷◌, ◌++◌, ◌==◌, eq_or_ne, if◌then◌else◌, tally, tally-append,
  arith, Bool-cases,
}
use tmwmf_sem_ups.Client.{Client, store, store_self, store_ne}
use tmwmf_sem_ups.Protocol.{
  ClientState, disconnected, connected, authenticated, in_lobby, in_room, in_game, rank,
}
use tmwmf_sem_ups.ClientList.{client_list_get_all}
use tmwmf_sem_ups.World.{World, Message, ping, client_send_message, set_client, can_receive}
use tmwmf_sem_ups.Server.{Server}
use tmwmf_sem_ups.Ping.{wants_ping, pinged, ping_client, ping_all, ping_round}

-- 1 for a PING to the client.
abbrev pub is_ping : ℕ → ℕ × Message → ℕ
is_ping d (c, message) = elim message [ ping ↦ if c == d then 1 else 0 | _ ↦ 0 ]

abbrev pub pings_to : ℕ → List (ℕ × Message) → ℕ
pings_to d outbox = tally (is_ping d) outbox

abbrev pub elem : ℕ → List ℕ → Bool
elem d [] = false
elem d (c ∷ clients) = c == d || elem d clients

wants_ping-can_receive : (v : Client) (now : ℕ) → wants_ping v now ≡ true → can_receive v ≡ true
wants_ping-can_receive v now t = ground arith

wants_ping-pinged : (v : Client) (now : ℕ) → wants_ping (pinged v now) now ≡ false
wants_ping-pinged v now = ground arith

-- The world after a PING to the client.
abbrev told : World → ℕ → ℕ → World
told w now c =
    set_client (record w { outbox = w.outbox ++ ((c, ping) ∷ []) }) c (pinged (w.client c) now)

ping_client-yes :
    (w : World) (now c : ℕ)
    → wants_ping (w.client c) now ≡ true
    → ping_client w now c ≡ told w now c
unfolding ping_client client_send_message
ping_client-yes w now c t = rw (t, wants_ping-can_receive (w.client c) now t) refl

ping_client-no :
    (w : World) (now c : ℕ) → wants_ping (w.client c) now ≡ false → ping_client w now c ≡ w
unfolding ping_client
ping_client-no w now c f = rw f refl

module _ (now : ℕ) where
  -- What a round makes of a client; the flag says whether it is one of those that are looked at.
  abbrev pub after_round : Bool → Client → Client
  after_round listed v = if listed && wants_ping v now then pinged v now else v

  abbrev pub one_if : Bool → Client → ℕ
  one_if listed v = if listed && wants_ping v now then 1 else 0

  after_round-twice :
      (p q : Bool) (v : Client)
      → (after_round q (after_round p v) ≡ after_round (p || q) v)
        × (one_if p v + one_if q (after_round p v) ≡ one_if (p || q) v)
  after_round-twice false q v = (refl, omega arith)
  after_round-twice true false v = (refl, omega arith)
  after_round-twice true true v = elim (Bool-cases (wants_ping v now)) [
    | inl t ↦ rw (t, wants_ping-pinged v now) (refl, refl)
    | inr f ↦ rw f (rw f (refl, refl))
  ]

module _ (now d : ℕ) where
  ping_client-client :
      (w : World) (c : ℕ) → (ping_client w now c).client d ≡ after_round now (c == d) (w.client d)
  ping_client-client w c = elim (Bool-cases (wants_ping (w.client c) now)) [
    | inr f ↦ elim (eq_or_ne c d) [
      | inl e ↦
          ap (λ (x : World). x.client d) (ping_client-no w now c f)
          ∙ (let f' = sym (ap (λ q. wants_ping (w.client q) now) e) ∙ f in ground arith)
      | inr ne ↦ ap (λ (x : World). x.client d) (ping_client-no w now c f) ∙ ground arith
    ]
    | inl t ↦ elim (eq_or_ne c d) [
      | inl e ↦
          ap (λ (x : World). x.client d) (ping_client-yes w now c t)
          ∙ ap (store w.client c (pinged (w.client c) now)) (sym e)
          ∙ store_self w.client c (pinged (w.client c) now)
          ∙ ap (λ q. pinged (w.client q) now) e
          ∙ (let t' = sym (ap (λ q. wants_ping (w.client q) now) e) ∙ t in ground arith)
      | inr ne ↦
          ap (λ (x : World). x.client d) (ping_client-yes w now c t)
          ∙ store_ne w.client c d (pinged (w.client c) now) ne
          ∙ ground arith
    ]
  ]

  ping_client-pings :
      (w : World) (c : ℕ)
      → pings_to d (ping_client w now c).outbox
        ≡ pings_to d w.outbox + one_if now (c == d) (w.client d)
  ping_client-pings w c = elim (Bool-cases (wants_ping (w.client c) now)) [
    | inr f ↦
        ap (λ (x : World). pings_to d x.outbox) (ping_client-no w now c f) ∙ elim (eq_or_ne c d) [
          | inl e ↦ let f' = sym (ap (λ q. wants_ping (w.client q) now) e) ∙ f in ground arith
          | inr ne ↦ ground arith
        ]
    | inl t ↦
        ap (λ (x : World). pings_to d x.outbox) (ping_client-yes w now c t)
        ∙ tally-append (is_ping d) w.outbox ((c, ping) ∷ [])
        ∙ elim (eq_or_ne c d) [
          | inl e ↦ let t' = sym (ap (λ q. wants_ping (w.client q) now) e) ∙ t in ground arith
          | inr ne ↦ ground arith
        ]
  ]

  ping_all-client :
      (clients : List ℕ) (w : World)
      → ((ping_all w now clients).client d ≡ after_round now (elem d clients) (w.client d))
        × (pings_to d (ping_all w now clients).outbox
            ≡ pings_to d w.outbox + one_if now (elem d clients) (w.client d))
  unfolding ping_all
  ping_all-client [] w = (refl, ground arith)
  ping_all-client (c ∷ clients) w =
      let (a, b) = ping_all-client clients (ping_client w now c) in
      (
        a
            ∙ ap (after_round now (elem d clients)) (ping_client-client w c)
            ∙ (after_round-twice now (c == d) (elem d clients) (w.client d)).0,
        omega (
          arith,
          b,
          ping_client-pings w c,
          ap (one_if now (elem d clients)) (ping_client-client w c),
          (after_round-twice now (c == d) (elem d clients) (w.client d)).1,
        ),
      )

-- Authenticated and connected, not waited for, and its last answer came 5 seconds ago or earlier.
abbrev pub Due : Client → ℕ → Type 0
Due v now =
    (v.state ≢ disconnected)
    × (v.state ≢ connected)
    × (v.is_disconnected ≡ false)
    × ((n : ℕ) × (v.socket_fd ≡ pos n))
    × (v.waiting_for_pong ≡ false)
    × (v.last_pong_time + 5 ≤ now)

logged_in :
    (x : ClientState)
    → ((leb (rank authenticated) (rank x) ≡ true) × (x ≢ disconnected) × (x ≢ connected))
      ⊎ ((leb (rank authenticated) (rank x) ≡ false) × ((x ≡ disconnected) ⊎ (x ≡ connected)))
logged_in disconnected = inr (refl, inl refl)
logged_in connected = inr (refl, inr refl)
logged_in authenticated = inl (refl, (λ e. absurd (cc)), (λ e. absurd (cc)))
logged_in in_lobby = inl (refl, (λ e. absurd (cc)), (λ e. absurd (cc)))
logged_in in_room = inl (refl, (λ e. absurd (cc)), (λ e. absurd (cc)))
logged_in in_game = inl (refl, (λ e. absurd (cc)), (λ e. absurd (cc)))

open_fd : (fd : ℤ) → is_negative fd ≡ false → (n : ℕ) × (fd ≡ pos n)
open_fd (pos n) e = (n, refl)
open_fd (negsuc n) e = absurd (cc)

wants_ping-Due : (v : Client) (now : ℕ) → wants_ping v now ≡ true → Due v now
wants_ping-Due v now t = elim (logged_in v.state) [
  | inl (_, a, b) ↦
      (a, b, ground arith, open_fd v.socket_fd (ground arith), ground arith, ground arith)
  | inr (f, _) ↦ absurd (ground arith)
]

Due-wants_ping : (v : Client) (now : ℕ) → Due v now → wants_ping v now ≡ true
Due-wants_ping v now (a, b, there, (n, e), free, late) = elim (logged_in v.state) [
  | inl (t, _, _) ↦ rw (t, there, e, free) (ground arith)
  | inr (_, inl f) ↦ absurd (a f)
  | inr (_, inr f) ↦ absurd (b f)
]

-- One round sends each client of the table that is authenticated and connected, is not waited for,
-- and answered 5 seconds ago or earlier, exactly one PING, and notes that it waits for the answer
-- and since when; every other client gets none and stays as it was.
pub ping_round_lem :
    (s : Server) (now d : ℕ)
    → ((elem d (client_list_get_all s.list s.max_clients) ≡ true)
        × Due (s.world.client d) now
        × ((ping_round s now).world.client d
            ≡ record (s.world.client d) { waiting_for_pong = true; last_ping_time = now })
        × (pings_to d (ping_round s now).world.outbox ≡ pings_to d s.world.outbox + 1))
      ⊎ (((elem d (client_list_get_all s.list s.max_clients) ≡ false)
            ⊎ (¬ Due (s.world.client d) now))
          × ((ping_round s now).world.client d ≡ s.world.client d)
          × (pings_to d (ping_round s now).world.outbox ≡ pings_to d s.world.outbox))
unfolding ping_round
ping_round_lem s now d = elim (Bool-cases (elem d listed)) [
  | inr f ↦ let (a, b) = rw f at round in inr (inl f, a, omega (arith, b))
  | inl t ↦ elim (Bool-cases (wants_ping (s.world.client d) now)) [
    | inl u ↦
        let (a, b) = rw (t, u) at round in inl (t, wants_ping-Due (s.world.client d) now u, a, b)
    | inr g ↦
        let (a, b) = rw (t, g) at round in
        inr (
          inr (λ due. absurd (true-ne-false (sym (Due-wants_ping (s.world.client d) now due) ∙ g))),
          a,
          omega (arith, b),
        )
  ]
]
  where
    listed : List ℕ
    listed = client_list_get_all s.list s.max_clients

    round :
        ((ping_all s.world now listed).client d
          ≡ after_round now (elem d listed) (s.world.client d))
        × (pings_to d (ping_all s.world now listed).outbox
            ≡ pings_to d s.world.outbox + one_if now (elem d listed) (s.world.client d))
    round = ping_all-client now d listed s.world

    true-ne-false : true ≡ false → ⊥
    true-ne-false e = cc
