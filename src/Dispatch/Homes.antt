-- ===== src/Dispatch/Homes.antt =====
-- `handle_message` of server_src/client_handler.c keeps every client that is in a room in a slot of
-- that room, and the room in the table.
use tmwmf_sem_ups.Base.{
  ℕ, ◌≡◌, ◌≢◌, refl, inl, inr, subst, true, Option, none, some, List, [], ◌∷◌, get_or, Bool-cases,
  some_eq, none-ne-some,
}
use tmwmf_sem_ups.Protocol.{in_lobby}
use tmwmf_sem_ups.Client.{Client}
use tmwmf_sem_ups.World.{
  World, set_client, error, already_authenticated, invalid_params, not_authenticated,
  invalid_command,
}
use tmwmf_sem_ups.Room.{take}
use tmwmf_sem_ups.Leave.Homes.{Home, KeepsHomes, HasSlots, send-KeepsHomes}
use tmwmf_sem_ups.Lobby.{
  handle_hello, handle_list_rooms, handle_pong, is_connecting, is_stranger, nickname_of, scan_word,
}
use tmwmf_sem_ups.Lobby.Homes.{lobby-Home}
use tmwmf_sem_ups.Play.{send_error_and_count, handle_flip}
use tmwmf_sem_ups.Play.Steps.{ServerOk}
use tmwmf_sem_ups.Play.Homes.{
  KeepsHomes-set_client, send_error-KeepsHomes, handle_ready-KeepsHomes,
  handle_start_game-KeepsHomes,
}
use tmwmf_sem_ups.Play.Ends.{handle_flip-KeepsHomes}
use tmwmf_sem_ups.Server.{Server, with_world}
use tmwmf_sem_ups.Dispatch.{
  Inputs, codes, same_text, split_space, with_answer, dispatch, dispatch_params, dispatch_plain,
  handle_message,
}
use tmwmf_sem_ups.Dispatch.Valid.{AsksReconnect, handle_message-ServerOk}

handle_hello-KeepsHomes :
    (w : World) (c : ℕ) (params junk : List ℕ) → KeepsHomes w (handle_hello w c params junk)
unfolding handle_hello
handle_hello-KeepsHomes w c [] junk = elim (Bool-cases (is_connecting (w.client c).state)) [
  | inr f ↦ rw f (send-KeepsHomes w c (error already_authenticated))
  | inl t ↦ rw t (send-KeepsHomes w c (error invalid_params))
]
handle_hello-KeepsHomes w c (b ∷ s) junk = elim (Bool-cases (is_connecting (w.client c).state)) [
  | inr f ↦ rw f (send-KeepsHomes w c (error already_authenticated))
  | inl t ↦ rw t (λ d home.
      send-KeepsHomes (set_client w c named) c _ d (KeepsHomes-set_client w c named refl d home))
]
  where
    named : Client
    named = record (w.client c) {
      nickname = take 31 (nickname_of junk (scan_word 31 (b ∷ s)));
      state = in_lobby;
    }

handle_list_rooms-KeepsHomes : (w : World) (c : ℕ) → KeepsHomes w (handle_list_rooms w c)
unfolding handle_list_rooms
handle_list_rooms-KeepsHomes w c = elim (Bool-cases (is_stranger (w.client c))) [
  | inl t ↦ rw t (send-KeepsHomes w c (error not_authenticated))
  | inr f ↦ rw f (send-KeepsHomes w c _)
]

handle_pong-KeepsHomes : (w : World) (c now : ℕ) → KeepsHomes w (handle_pong w c now)
unfolding handle_pong
handle_pong-KeepsHomes w c now = KeepsHomes-set_client w c _ refl

-- If the call has a result, the client is at home in it.
abbrev Kept : ℕ → Option Server → Type 0
Kept d answer = (s : Server) → answer ≡ some s → Home s.world d

kept : {d : ℕ} {s : Server} → Home s.world d → Kept d (some s)
kept {d} home s' e = subst (λ (x : Server). Home x.world d) (some_eq e) home

module _ (i : Inputs) (s : Server) (c d : ℕ) (ok : ServerOk s.world)
    (fresh : (r : ℕ) → i.alloc ≡ some r → (j : ℕ) → get_or s.world.rooms j none ≢ some r)
    (mine : Home s.world c) (home : Home s.world d) where
  unknown-Kept : Kept d (some (with_world s (send_error_and_count s.world c invalid_command)))
  unknown-Kept = kept (send_error-KeepsHomes s.world c invalid_command d home)

  dispatch_plain-Kept : (command : List ℕ) → Kept d (dispatch_plain i s c command)
  unfolding dispatch_plain
  dispatch_plain-Kept command = elim (Bool-cases (same_text command (codes "LIST_ROOMS"))) [
    | inl t ↦ rw t (kept (handle_list_rooms-KeepsHomes s.world c d home))
    | inr a ↦ elim (Bool-cases (same_text command (codes "LEAVE_ROOM"))) [
      | inl t ↦ rw (a, t) (kept (lobby-Home s.world c [] i.alloc d ok.world fresh mine home).2)
      | inr b ↦ elim (Bool-cases (same_text command (codes "READY"))) [
        | inl t ↦ rw (a, b, t) (kept (handle_ready-KeepsHomes s.world c d home))
        | inr x ↦ elim (Bool-cases (same_text command (codes "START_GAME"))) [
          | inl t ↦ rw (a, b, x, t) (kept (handle_start_game-KeepsHomes i.env s.world c d home))
          | inr y ↦ elim (Bool-cases (same_text command (codes "PONG"))) [
            | inl t ↦ rw (a, b, x, y, t) (kept (handle_pong-KeepsHomes s.world c i.now d home))
            | inr f ↦ rw (a, b, x, y, f) unknown-Kept
          ]
        ]
      ]
    ]
  ]

  flip-Kept : (params : List ℕ) → Kept d (with_answer s (handle_flip s.world c params))
  flip-Kept params = answered (handle_flip s.world c params) refl
    where
      sized : (r : ℕ) → (s.world.client c).room ≡ some r → HasSlots s.world r
      sized r e = let (j, h) = (mine r e).0 in (ok.world.rooms j r h).slots.size

      answered :
          (answer : Option World)
          → handle_flip s.world c params ≡ answer
          → Kept d (with_answer s answer)
      answered none e = λ s' f. absurd (none-ne-some f)
      answered (some w') e = kept (handle_flip-KeepsHomes s.world w' c params sized e d home)

  dispatch_params-Kept :
      (command params : List ℕ)
      → ¬ (same_text command (codes "RECONNECT") ≡ true)
      → Kept d (dispatch_params i s c command params)
  unfolding dispatch_params
  dispatch_params-Kept command params other =
      elim (Bool-cases (same_text command (codes "HELLO"))) [
        | inl t ↦ rw t (kept (handle_hello-KeepsHomes s.world c params i.junk d home))
        | inr a ↦ elim (Bool-cases (same_text command (codes "RECONNECT"))) [
          | inl t ↦ absurd (other t)
          | inr b ↦ elim (Bool-cases (same_text command (codes "CREATE_ROOM"))) [
            | inl t ↦
                rw (a, b, t)
                  (kept (lobby-Home s.world c params i.alloc d ok.world fresh mine home).0)
            | inr x ↦ elim (Bool-cases (same_text command (codes "JOIN_ROOM"))) [
              | inl t ↦
                  rw (a, b, x, t)
                    (kept (lobby-Home s.world c params i.alloc d ok.world fresh mine home).1)
              | inr y ↦ elim (Bool-cases (same_text command (codes "FLIP"))) [
                | inl t ↦ rw (a, b, x, y, t) (flip-Kept params)
                | inr f ↦ rw (a, b, x, y, f) unknown-Kept
              ]
            ]
          ]
        ]
      ]

  -- Whatever line but a RECONNECT a client sends, `handle_message` returns, the rooms of the table
  -- and their games are valid, and each client `d` that is in a room sits in a slot of it, and that
  -- room is in the table. This holds if it was so before, also of the client that sends, and memory
  -- for a new room is not in use by a room of the table.
  pub handle_message-Home :
      (message : List ℕ)
      → ((params : List ℕ) → ¬ AsksReconnect message params)
      → (s' : Server) × (handle_message i s c message ≡ some s')
        × ServerOk s'.world
        × Home s'.world d
  handle_message-Home message other =
      let (s', e, ok', _) =
        handle_message-ServerOk i s c ok (λ r e. (mine r e).0) fresh message
          (λ params asks. absurd (other params asks)) in
      (s', e, ok', lines message other s' e)
    where
      split :
          (b : ℕ) (rest : List ℕ)
          → ((params : List ℕ) → ¬ AsksReconnect (b ∷ rest) params)
          → (p : List ℕ × Option (List ℕ)) → split_space (b ∷ rest) ≡ p
          → Kept d (dispatch i s c p)
      split b rest other' (command, none) e =
          unfold dispatch in dispatch_plain-Kept (take 63 command)
      split b rest other' (command, some params) e =
          unfold dispatch in
          dispatch_params-Kept (take 63 command) params (λ t. other' params (command, e, t))

      lines :
          (text : List ℕ)
          → ((params : List ℕ) → ¬ AsksReconnect text params)
          → Kept d (handle_message i s c text)
      lines [] other' = unfold handle_message in kept home
      lines (b ∷ rest) other' =
          unfold handle_message in split b rest other' (split_space (b ∷ rest)) refl
