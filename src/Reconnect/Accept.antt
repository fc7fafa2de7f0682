-- ===== src/Reconnect/Accept.antt =====
-- When `handle_reconnect` of server_src/client_handler.c accepts, and who takes whose place.
use tmwmf_sem_ups.Base.{
  ℕ, ◌≤◌, ◌<◌, ◌≡◌, ◌≢◌, refl, ◌⊎◌, inl, inr, ◌∙◌, ap, sym, subst, true, false, ◌+◌, is_negative,
  ◌++◌, [], ◌∷◌, Option, none, some, List, get_or, Bool-cases, arith, ℤ, pos, negsuc, ltb, ◌==◌,
}
use tmwmf_sem_ups.Protocol.{reconnect_timeout}
use tmwmf_sem_ups.Client.{Client, store_self, store_ne}
use tmwmf_sem_ups.Text.{atoi}
use tmwmf_sem_ups.ClientList.{client_list_find_by_id, client_list_replace}
use tmwmf_sem_ups.World.{
  World, Room, Message, set_client, error, not_found, already_connected, session_expired,
  invalid_params,
}
use tmwmf_sem_ups.World.Broadcast.{OnlySends, client_send_message-OnlySends}
use tmwmf_sem_ups.Leave.Steps.{client-sent, room-sent}
use tmwmf_sem_ups.Server.{Server, close_socket}
use tmwmf_sem_ups.Server.Steps.{close_socket-frame}
use tmwmf_sem_ups.Reconnect.{
  handle_reconnect, reconnect_id, reconnect_found, reconnect_as, moved, swap_in_room, take_over,
  refuse, away, is_present,
}
use tmwmf_sem_ups.Reconnect.Swap.{swapped, swap_players-all}
use tmwmf_sem_ups.Reconnect.Outcome.{SitsLow, reconnect_as-OnlySends}

-- The client is marked as disconnected for 90 seconds at most, or it is not marked but has no
-- socket, and was active 90 seconds ago or later.
abbrev pub LostLately : Client → ℕ → Type 0
LostLately old now =
    ((old.is_disconnected ≡ true) × (now ≤ old.disconnect_time + 90))
    ⊎ ((old.is_disconnected ≡ false)
        × ((n : ℕ) × (old.socket_fd ≡ negsuc n))
        × (now ≤ old.last_activity + 90))

-- The text gives the id of a client of the table whose connection is lost, for 90 seconds at most.
abbrev pub MayReturn : Server → List ℕ → ℕ → ℕ → ℕ → Type 0
MayReturn s params now id o =
    (atoi params ≡ pos id)
    × (0 < id)
    × (client_list_find_by_id s.world.client s.list id ≡ some o)
    × LostLately (s.world.client o) now

-- The new client has what the old one had, and sits in each slot where the old one sat.
pub record TakesPlace (s s' : Server) (c o now : ℕ) : Type 0 where
  pub heir : s'.world.client c ≡ record (s.world.client o) {
    socket_fd = (s.world.client c).socket_fd;
    invalid_message_count = (s.world.client c).invalid_message_count;
    last_activity = now;
    last_pong_time = now;
    last_ping_time = 0;
    waiting_for_pong = false;
    is_disconnected = false;
    disconnect_time = 0;
  }
  pub others : (d : ℕ) → c ≢ d → s'.world.client d ≡ s.world.client d
  pub seats :
      (r : ℕ)
      → (s.world.client o).room ≡ some r
      → (k : ℕ)
      → get_or (s'.world.room r).players k none
        ≡ swapped o c (get_or (s.world.room r).players k none)
  pub list : s'.list ≡ client_list_replace s.list o c
  pub freed : s'.freed ≡ s.freed ++ (o ∷ [])

-- Nothing but messages.
abbrev pub Ignored : Server → Server → Type 0
Ignored s s' = OnlySends s.world s'.world × (s'.list ≡ s.list) × (s'.freed ≡ s.freed)

-- The tests of the code, and what they say of the client.
lost_tests :
    (old : Client) (now : ℕ)
    → LostLately old now
    → (is_present old ≡ false) × (away old now ≤ reconnect_timeout)
lost_tests old now (inl (t, soon)) = (rw t refl, rw t (omega arith))
lost_tests old now (inr (f, (n, e), soon)) = (rw (f, e) refl, rw f (omega arith))

negative_fd : (fd : ℤ) → is_negative fd ≡ true → (n : ℕ) × (fd ≡ negsuc n)
negative_fd (pos n) e = absurd (cc)
negative_fd (negsuc n) e = (n, refl)

tests_lost :
    (old : Client) (now : ℕ)
    → is_present old ≡ false
    → away old now ≤ reconnect_timeout
    → LostLately old now
tests_lost old now gone soon = elim (Bool-cases old.is_disconnected) [
  | inl t ↦ inl (t, omega (arith, rw t at soon))
  | inr f ↦ inr (f, negative_fd old.socket_fd (ground arith), omega (arith, rw f at soon))
]

module _ (w : World) (c o now : ℕ) where
  abbrev heir : Client
  heir = take_over (w.client c) (w.client o) now

  abbrev entered : World
  entered = close_socket (set_client w c heir) ((set_client w c heir).client o).socket_fd

  swap_in_room-client : (v : World) (p : Option ℕ) → (swap_in_room v o c p).client ≡ v.client
  unfolding swap_in_room
  swap_in_room-client v none = refl
  swap_in_room-client v (some r) = refl

  moved-client : (moved w c o now).client ≡ (set_client w c heir).client
  unfolding moved
  moved-client =
      swap_in_room-client entered heir.room
      ∙ (close_socket-frame (set_client w c heir) ((set_client w c heir).client o).socket_fd).0

  swap_in_room-seats :
      (v : World) (r : ℕ)
      → ((k : ℕ) → get_or (v.room r).players k none ≡ some o → k < (v.room r).player_count)
      → (k : ℕ)
      → get_or ((swap_in_room v o c (some r)).room r).players k none
        ≡ swapped o c (get_or (v.room r).players k none)
  unfolding swap_in_room
  swap_in_room-seats v r within k =
      ap (λ (x : Room). get_or x.players k none) (store_self v.room r _)
      ∙ swap_players-all o c (v.room r).max_players (v.room r).player_count (v.room r).players
          within k

  moved-seats :
      (r : ℕ)
      → (w.client o).room ≡ some r
      → ((k : ℕ) → get_or (w.room r).players k none ≡ some o → k < (w.room r).player_count)
      → (k : ℕ)
      → get_or ((moved w c o now).room r).players k none
        ≡ swapped o c (get_or (w.room r).players k none)
  unfolding moved
  moved-seats r e within k =
      subst
        (λ p.
          get_or ((swap_in_room entered o c p).room r).players k none
          ≡ swapped o c (get_or (w.room r).players k none))
        (sym e)
        (subst
          (λ m.
            ((j : ℕ) → get_or (m r).players j none ≡ some o → j < (m r).player_count)
            → get_or ((swap_in_room entered o c (some r)).room r).players k none
              ≡ swapped o c (get_or (m r).players k none))
          same_room (λ below. swap_in_room-seats entered r below k) within)
    where
      same_room : entered.room ≡ w.room
      same_room =
          (close_socket-frame (set_client w c heir) ((set_client w c heir).client o).socket_fd).1

reconnect_as-TakesPlace :
    (s : Server) (c o now : ℕ)
    → c ≢ o
    → SitsLow s.world o
    → TakesPlace s (reconnect_as s c o now) c o now
unfolding reconnect_as
reconnect_as-TakesPlace s c o now apart low = record {
  heir =
      ap (λ m. m c) (client-sent before after only_sent ∙ moved-client s.world c o now)
      ∙ store_self s.world.client c (heir s.world c o now);
  others = λ d ne.
      ap (λ m. m d) (client-sent before after only_sent ∙ moved-client s.world c o now)
      ∙ store_ne s.world.client c d (heir s.world c o now) ne;
  seats = λ r e k.
      ap (λ m. get_or (m r).players k none) (room-sent before after only_sent)
      ∙ moved-seats s.world c o now r e (low r e).1 k;
  list = refl;
  freed = refl;
}
  where
    before : World
    before = moved s.world c o now

    after : World
    after = (reconnect_as s c o now).world

    only_sent : OnlySends before after
    only_sent = reconnect_as-OnlySends s c o now

module _ (s : Server) (c : ℕ) (params : List ℕ) (now : ℕ) where
  ignored : (message : Message) → Ignored s (refuse s c message)
  unfolding refuse
  ignored message = (client_send_message-OnlySends s.world c message, refl, refl)

  found-Ignored :
      (p : Option ℕ)
      → ((o : ℕ)
          → p ≡ some o
          → is_present (s.world.client o) ≡ false
          → away (s.world.client o) now ≤ reconnect_timeout
          → ⊥)
      → Ignored s (reconnect_found s c now p)
  unfolding reconnect_found
  found-Ignored none never = ignored (error not_found)
  found-Ignored (some o) never = elim (Bool-cases (is_present (s.world.client o))) [
    | inl t ↦ rw t (ignored (error already_connected))
    | inr f ↦ elim (Bool-cases (ltb reconnect_timeout (away (s.world.client o) now))) [
      | inl late ↦ rw (f, late) (ignored (error session_expired))
      | inr in_time ↦ absurd (never o refl f (ground arith))
    ]
  ]

  id_accepts :
      (id o : ℕ)
      → 0 < id
      → client_list_find_by_id s.world.client s.list id ≡ some o
      → is_present (s.world.client o) ≡ false
      → away (s.world.client o) now ≤ reconnect_timeout
      → c ≢ o
      → SitsLow s.world o
      → TakesPlace s (reconnect_id s c now (pos id)) c o now
  unfolding reconnect_id reconnect_found
  id_accepts id o h found gone soon apart low =
      rw (nonzero, found, reconnect_found)
        (rw (gone, in_time) (reconnect_as-TakesPlace s c o now apart low))
    where
      nonzero : (id == 0) ≡ false
      nonzero = ground arith

      in_time : ltb reconnect_timeout (away (s.world.client o) now) ≡ false
      in_time = ground arith

  -- RECONNECT with the id of a client of the table whose connection is lost, and that has been away
  -- for 90 seconds at most, is accepted: the new client has the name, state, room and id of the old
  -- one, keeps its own socket and count of errors, and is marked as active; no other client
  -- changes, it sits in each slot where the old one sat, and it replaces the old one in the table,
  -- which is freed. The old client is another one, and sits, if in a room, in slots below
  -- `player_count`.
  pub handle_reconnect_accepts :
      (id o : ℕ)
      → MayReturn s params now id o
      → c ≢ o
      → SitsLow s.world o
      → TakesPlace s (handle_reconnect s c params now) c o now
  unfolding handle_reconnect
  handle_reconnect_accepts id o (e, h, found, lost) apart low =
      let (gone, soon) = lost_tests (s.world.client o) now lost in
      subst (λ i. TakesPlace s (reconnect_id s c now i) c o now) (sym e)
        (id_accepts id o h found gone soon apart low)

  by_id-Ignored :
      ((id o : ℕ) → MayReturn s params now id o → ⊥)
      → (id : ℤ) → atoi params ≡ id
      → Ignored s (reconnect_id s c now id)
  unfolding reconnect_id
  by_id-Ignored never (negsuc _) e = ignored (error invalid_params)
  by_id-Ignored never (pos id) e = elim (Bool-cases (id == 0)) [
    | inl t ↦ rw t (ignored (error invalid_params))
    | inr f ↦ rw f (
        found-Ignored (client_list_find_by_id s.world.client s.list id) (λ o h gone soon.
          never id o (e, ground arith, h, tests_lost (s.world.client o) now gone soon)))
  ]

  -- When the text gives the id of no such client, nothing changes but the messages sent.
  pub handle_reconnect_ignores :
      ((id o : ℕ) → MayReturn s params now id o → ⊥) → Ignored s (handle_reconnect s c params now)
  unfolding handle_reconnect
  handle_reconnect_ignores never = by_id-Ignored never (atoi params) refl
