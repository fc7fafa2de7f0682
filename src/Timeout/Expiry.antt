-- ===== src/Timeout/Expiry.antt =====
-- Whom the timeout checker of server_src/server.c gives up, and when.
use tmwmf_sem_ups.Base.{
  ℕ, zero, suc, ◌+◌, ◌<◌, ◌⊎◌, sym, ltb, ◌∙◌, ap, ◌≡◌, refl, inl, inr, true, false, [], ◌∷◌, ◌++◌,
  if◌then◌else◌, ℤ, pos, negsuc, is_negative, arith, Bool-cases,
}
use tmwmf_sem_ups.Protocol.{reconnect_timeout}
use tmwmf_sem_ups.Client.{Client, is_closed, store_self}
use tmwmf_sem_ups.ClientList.{client_list_remove}
use tmwmf_sem_ups.World.{World, set_client}
use tmwmf_sem_ups.Play.Steps.{ServerOk, ServerOk-set_client}
use tmwmf_sem_ups.Play.Start.{InTable}
use tmwmf_sem_ups.Server.{Server, with_world}
use tmwmf_sem_ups.Timeout.{
  check_client, expire, hang_up, mark, is_invalid, is_silent, is_inactive, is_expired,
}
use tmwmf_sem_ups.Timeout.Valid.{hang_up-ServerOk, forfeit_room-ServerOk}

closed_facts : (fd : ℤ) → is_closed fd ≡ true → (is_negative fd ≡ true) × (is_invalid fd ≡ false)
closed_facts (pos n) e = absurd (cc)
closed_facts (negsuc n) e = (refl, ground arith)

-- A client that has expired has no socket, so no other test holds of it.
expired_facts :
    (v : Client) (now : ℕ)
    → is_expired v now ≡ true
    → (is_invalid v.socket_fd ≡ false) × (is_silent v now ≡ false) × (is_inactive v now ≡ false)
expired_facts v now t = (
  (closed_facts v.socket_fd closed).1,
  let n = (closed_facts v.socket_fd closed).0 in ground arith,
  let n = (closed_facts v.socket_fd closed).0 in ground arith,
)
  where
    closed : is_closed v.socket_fd ≡ true
    closed = ground arith

-- Marked as disconnected, without a socket, and away for more than 90 seconds.
abbrev pub Lost : Client → ℕ → Type 0
Lost v now = (v.is_disconnected ≡ true) × (v.socket_fd ≡ negsuc 0) × (v.disconnect_time + 90 < now)

closed_fd : (fd : ℤ) → is_closed fd ≡ true → fd ≡ negsuc 0
closed_fd (pos n) e = absurd (cc)
closed_fd (negsuc zero) e = refl
closed_fd (negsuc (suc n)) e = absurd (ground arith)

expired-Lost : (v : Client) (now : ℕ) → is_expired v now ≡ true → Lost v now
expired-Lost v now t = (ground arith, closed_fd v.socket_fd (ground arith), ground arith)

Lost-expired : (v : Client) (now : ℕ) → Lost v now → is_expired v now ≡ true
Lost-expired v now (t, e, late) = rw (t, e) (ground arith)

true-ne-false : true ≡ false → ⊥
true-ne-false e = cc

module _ (s : Server) (now c : ℕ) where
  expired-eq : is_expired (s.world.client c) now ≡ true → check_client s now c ≡ expire s c
  unfolding check_client
  expired-eq t = let (a, b, d) = expired_facts (s.world.client c) now t in rw (a, b, d, t) refl

  -- What the checker may do with a client that has not expired.
  data Kept : Server → Type 0 where
    as_it_was : Kept s
    closed : Kept (with_world s (hang_up s.world c))
    marked : Kept (with_world s (hang_up (set_client s.world c (mark (s.world.client c) now)) c))

  not_expired : is_expired (s.world.client c) now ≡ false → Kept (check_client s now c)
  unfolding check_client
  not_expired f = elim (Bool-cases (is_invalid (s.world.client c).socket_fd)) [
    | inl a ↦ rw a as_it_was
    | inr a ↦ elim (Bool-cases (is_silent (s.world.client c) now)) [
      | inl b ↦ rw (a, b) marked
      | inr b ↦ elim (Bool-cases (is_inactive (s.world.client c) now)) [
        | inl d ↦ rw (a, b, f, d) closed
        | inr d ↦ rw (a, b, f, d) as_it_was
      ]
    ]
  ]

  kept-freed : (s' : Server) → Kept s' → (s'.freed ≡ s.freed) × (s'.list ≡ s.list)
  kept-freed s' as_it_was = (refl, refl)
  kept-freed s' closed = (refl, refl)
  kept-freed s' marked = (refl, refl)

  mark-room : (v : Client) → (mark v now).room ≡ v.room
  mark-room v = elim (Bool-cases v.is_disconnected) [ inl t ↦ rw t refl | inr f ↦ rw f refl ]

  kept-ServerOk : (s' : Server) → ServerOk s.world → Kept s' → ServerOk s'.world
  kept-ServerOk s' ok as_it_was = ok
  kept-ServerOk s' ok closed = hang_up-ServerOk s.world c ok
  kept-ServerOk s' ok marked =
      hang_up-ServerOk (set_client s.world c (mark (s.world.client c) now)) c (
        ServerOk-set_client s.world c (mark (s.world.client c) now) (mark-room (s.world.client c))
          ok)

  check_client_expiry :
      ((check_client s now c).freed
        ≡ (if is_expired (s.world.client c) now then s.freed ++ (c ∷ []) else s.freed))
      × ((check_client s now c).list
          ≡ (if is_expired (s.world.client c) now then client_list_remove s.list c else s.list))
  check_client_expiry = elim (Bool-cases (is_expired (s.world.client c) now)) [
    | inl t ↦ rw (t, expired-eq t) (unfold expire in (refl, refl))
    | inr f ↦ rw f (kept-freed (check_client s now c) (not_expired f))
  ]

  -- The timeout checker frees a client, and takes it out of the table, exactly when the client is
  -- marked as disconnected, has no socket and has been away for more than 90 seconds; nobody else
  -- is freed with it.
  pub check_client_frees :
      (Lost (s.world.client c) now
        × ((check_client s now c).freed ≡ s.freed ++ (c ∷ []))
        × ((check_client s now c).list ≡ client_list_remove s.list c))
      ⊎ (¬ Lost (s.world.client c) now
          × ((check_client s now c).freed ≡ s.freed)
          × ((check_client s now c).list ≡ s.list))
  check_client_frees = elim (Bool-cases (is_expired (s.world.client c) now)) [
    | inl t ↦
        let (freed, list) = rw t at check_client_expiry in
        inl (expired-Lost (s.world.client c) now t, freed, list)
    | inr f ↦
        let (freed, list) = rw f at check_client_expiry in
        inr (
          λ lost. absurd (true-ne-false (sym (Lost-expired (s.world.client c) now lost) ∙ f)),
          freed,
          list,
        )
  ]

  -- Whatever the checker does with a client, the rooms of the table and their games are valid
  -- afterwards, also when a game ends by forfeit and its room is destroyed. The room of the client,
  -- if it is in one, is in the table.
  pub check_client-ServerOk :
      ServerOk s.world → InTable s.world c → ServerOk (check_client s now c).world
  check_client-ServerOk ok in_table = elim (Bool-cases (is_expired (s.world.client c) now)) [
    | inl t ↦ rw (expired-eq t) (unfold expire in forfeit_room-ServerOk s.world c in_table ok)
    | inr f ↦ kept-ServerOk (check_client s now c) ok (not_expired f)
  ]

-- A client with a socket that is silent is marked and loses its socket.
silent_facts :
    (v : Client) (now : ℕ)
    → is_silent v now ≡ true
    → (is_negative v.socket_fd ≡ false) × (is_invalid v.socket_fd ≡ false)
silent_facts v now t = (open_fd, no_fd v.socket_fd open_fd)
  where
    open_fd : is_negative v.socket_fd ≡ false
    open_fd = ground arith

    no_fd : (fd : ℤ) → is_negative fd ≡ false → is_invalid fd ≡ false
    no_fd (pos n) e = refl
    no_fd (negsuc n) e = absurd (cc)

-- The client after it has been marked.
abbrev given_up : Client → ℕ → Client
given_up v now = record v { is_disconnected = true; disconnect_time = now; socket_fd = negsuc 0 }

hang_up-client :
    (w : World) (c : ℕ)
    → is_negative (w.client c).socket_fd ≡ false
    → (hang_up w c).client c ≡ record (w.client c) { socket_fd = negsuc 0 }
unfolding hang_up
hang_up-client w c f = rw f (store_self w.client c (record (w.client c) { socket_fd = negsuc 0 }))

silent-marked :
    (s : Server) (c now : ℕ)
    → is_silent (s.world.client c) now ≡ true
    → (s.world.client c).is_disconnected ≡ false
    → ((check_client s now c).world.client c ≡ given_up (s.world.client c) now)
      × ((check_client s now c).freed ≡ s.freed)
unfolding check_client
silent-marked s c now t fresh =
    rw ((silent_facts (s.world.client c) now t).1, t)
      (
        hang_up-client marked_world c
              (ap (λ (v : Client). is_negative v.socket_fd) is_marked ∙ open_fd)
            ∙ ap (λ (v : Client). record v { socket_fd = negsuc 0 }) is_marked,
        refl,
      )
  where
    v0 : Client
    v0 = s.world.client c

    marked_world : World
    marked_world = set_client s.world c (mark v0 now)

    is_marked : marked_world.client c ≡ record v0 { is_disconnected = true; disconnect_time = now }
    is_marked = store_self s.world.client c (mark v0 now) ∙ rw fresh refl

    open_fd : is_negative v0.socket_fd ≡ false
    open_fd = (silent_facts v0 now t).0

-- A client that has not answered a PING for more than 5 seconds at one check is kept at a later
-- check within 90 seconds, and is freed by any later one, if nothing happens in between.
pub silent_client_freed :
    (s : Server) (c now later : ℕ)
    → is_silent (s.world.client c) now ≡ true
    → (s.world.client c).is_disconnected ≡ false
    → (check_client (check_client s now c) later c).freed
      ≡ (if ltb (now + reconnect_timeout) later then s.freed ++ (c ∷ []) else s.freed)
silent_client_freed s c now later t fresh =
    (check_client_expiry s1 later c).0
    ∙ ap (λ (v : Client). if is_expired v later then s1.freed ++ (c ∷ []) else s1.freed) first.0
    ∙ ap
        (λ freed.
          if is_expired (given_up (s.world.client c) now) later then freed ++ (c ∷ []) else freed)
        first.1
    ∙ ground arith
  where
    s1 : Server
    s1 = check_client s now c

    first : (s1.world.client c ≡ given_up (s.world.client c) now) × (s1.freed ≡ s.freed)
    first = silent-marked s c now t fresh
