-- ===== src/Dispatch/Valid.antt =====
-- `handle_message` of server_src/client_handler.c keeps the rooms and the games valid.
use tmwmf_sem_ups.Base.{
  ℕ, ◌≡◌, ◌≢◌, refl, inl, inr, true, false, Option, none, some, List, [], ◌∷◌, get_or, Bool-cases,
  pos,
}
use tmwmf_sem_ups.Protocol.{in_lobby}
use tmwmf_sem_ups.Client.{Client}
use tmwmf_sem_ups.Text.{atoi}
use tmwmf_sem_ups.ClientList.{client_list_find_by_id}
use tmwmf_sem_ups.World.{
  World, set_client, error, welcome, already_authenticated, invalid_params, not_authenticated,
  room_list, invalid_command,
}
use tmwmf_sem_ups.Room.{take, room_get_list_message}
use tmwmf_sem_ups.Lobby.{
  handle_hello, handle_list_rooms, handle_pong, is_connecting, is_stranger, nickname_of, scan_word,
}
use tmwmf_sem_ups.Lobby.Games.{lobby-ServerOk}
use tmwmf_sem_ups.Play.{send_error_and_count, handle_flip}
use tmwmf_sem_ups.Play.Steps.{ServerOk, ServerOk-send, ServerOk-set_client, ServerOk-error}
use tmwmf_sem_ups.Play.Start.{InTable, start_and_ready-ServerOk}
use tmwmf_sem_ups.Play.Flip.{handle_flip-ServerOk}
use tmwmf_sem_ups.Server.{Server, with_world}
use tmwmf_sem_ups.Game.{Game}
use tmwmf_sem_ups.Reconnect.Reads.{ReadsOk, Playable-ReadsOk}
use tmwmf_sem_ups.Reconnect.Outcome.{SitsLow, handle_reconnect-ServerOk}
use tmwmf_sem_ups.Dispatch.{
  Inputs, codes, same_text, split_space, with_answer, dispatch, dispatch_params, dispatch_plain,
  handle_message,
}

handle_hello-ServerOk :
    (w : World) (c : ℕ) (params junk : List ℕ)
    → ServerOk w
    → ServerOk (handle_hello w c params junk)
unfolding handle_hello
handle_hello-ServerOk w c [] junk ok = elim (Bool-cases (is_connecting (w.client c).state)) [
  | inr f ↦ rw f (ServerOk-send w c (error already_authenticated) ok)
  | inl t ↦ rw t (ServerOk-send w c (error invalid_params) ok)
]
handle_hello-ServerOk w c (b ∷ s) junk ok = elim (Bool-cases (is_connecting (w.client c).state)) [
  | inr f ↦ rw f (ServerOk-send w c (error already_authenticated) ok)
  | inl t ↦
      rw t (
        ServerOk-send w1 c (welcome (w1.client c).client_id)
          (ServerOk-set_client w c named refl ok))
]
  where
    named : Client
    named = record (w.client c) {
      nickname = take 31 (nickname_of junk (scan_word 31 (b ∷ s)));
      state = in_lobby;
    }

    w1 : World
    w1 = set_client w c named

handle_list_rooms-ServerOk : (w : World) (c : ℕ) → ServerOk w → ServerOk (handle_list_rooms w c)
unfolding handle_list_rooms
handle_list_rooms-ServerOk w c ok = elim (Bool-cases (is_stranger (w.client c))) [
  | inl t ↦ rw t (ServerOk-send w c (error not_authenticated) ok)
  | inr f ↦ rw f (ServerOk-send w c (room_list (room_get_list_message w)) ok)
]

handle_pong-ServerOk : (w : World) (c now : ℕ) → ServerOk w → ServerOk (handle_pong w c now)
unfolding handle_pong
handle_pong-ServerOk w c now ok =
    ServerOk-set_client w c
      (record (w.client c) { last_activity = now; last_pong_time = now; waiting_for_pong = false })
      refl ok

-- The message is a RECONNECT with these parameters.
abbrev pub AsksReconnect : List ℕ → List ℕ → Type 0
AsksReconnect message params =
    (command : List ℕ) × (split_space message ≡ (command, some params))
    × (same_text (take 63 command) (codes "RECONNECT") ≡ true)

-- The client may come back as any client that has the id: it is in no room, and that client is
-- another one that sits, if in a room, in a room of the table and in slots below `player_count`.
abbrev pub MayReplace : Server → ℕ → List ℕ → Type 0
MayReplace s c params =
    ((s.world.client c).room ≡ none)
    × ((id o : ℕ)
        → client_list_find_by_id s.world.client s.list id ≡ some o
        → atoi params ≡ pos id
        → (c ≢ o) × SitsLow s.world o)

-- The handler returns, and the rooms and their games are valid.
abbrev Answers : Option Server → Type 0
Answers answer = (s : Server) × (answer ≡ some s) × ServerOk s.world

-- Each game of the table can be told of without a read outside its board or through NULL.
abbrev pub GamesReadOk : World → Type 0
GamesReadOk w =
    (j r : ℕ) (g : Game)
    → get_or w.rooms j none ≡ some r
    → (w.room r).game ≡ some g
    → ReadsOk w.client g

module _ (i : Inputs) (s : Server) (c : ℕ) (ok : ServerOk s.world) (in_table : InTable s.world c)
    (fresh : (r : ℕ) → i.alloc ≡ some r → (j : ℕ) → get_or s.world.rooms j none ≢ some r) where
  unknown : Answers (some (with_world s (send_error_and_count s.world c invalid_command)))
  unknown = (_, refl, ServerOk-error s.world c invalid_command ok)

  dispatch_plain-Answers : (command : List ℕ) → Answers (dispatch_plain i s c command)
  unfolding dispatch_plain
  dispatch_plain-Answers command = elim (Bool-cases (same_text command (codes "LIST_ROOMS"))) [
    | inl t ↦ rw t (_, refl, handle_list_rooms-ServerOk s.world c ok)
    | inr a ↦ elim (Bool-cases (same_text command (codes "LEAVE_ROOM"))) [
      | inl t ↦ rw (a, t) (_, refl, (lobby-ServerOk s.world c [] i.alloc ok fresh in_table).2)
      | inr b ↦ elim (Bool-cases (same_text command (codes "READY"))) [
        | inl t ↦ rw (a, b, t) (_, refl, (start_and_ready-ServerOk i.env s.world c ok in_table).1)
        | inr d ↦ elim (Bool-cases (same_text command (codes "START_GAME"))) [
          | inl t ↦
              rw (a, b, d, t) (_, refl, (start_and_ready-ServerOk i.env s.world c ok in_table).0)
          | inr e ↦ elim (Bool-cases (same_text command (codes "PONG"))) [
            | inl t ↦ rw (a, b, d, e, t) (_, refl, handle_pong-ServerOk s.world c i.now ok)
            | inr f ↦ rw (a, b, d, e, f) unknown
          ]
        ]
      ]
    ]
  ]

  flip-Answers : (params : List ℕ) → Answers (with_answer s (handle_flip s.world c params))
  flip-Answers params =
      let (w', e, ok') = handle_flip-ServerOk s.world c params ok in_table in
      rw e (with_world s w', refl, ok')

  dispatch_params-Answers :
      (command params : List ℕ)
      → (same_text command (codes "RECONNECT") ≡ true → MayReplace s c params)
      → Answers (dispatch_params i s c command params)
  unfolding dispatch_params
  dispatch_params-Answers command params back =
      elim (Bool-cases (same_text command (codes "HELLO"))) [
        | inl t ↦ rw t (_, refl, handle_hello-ServerOk s.world c params i.junk ok)
        | inr a ↦ elim (Bool-cases (same_text command (codes "RECONNECT"))) [
          | inl t ↦
              rw (a, t)
                (_, refl, handle_reconnect-ServerOk s c params i.now ok (back t).0 (back t).1)
          | inr b ↦ elim (Bool-cases (same_text command (codes "CREATE_ROOM"))) [
            | inl t ↦
                rw (a, b, t)
                  (_, refl, (lobby-ServerOk s.world c params i.alloc ok fresh in_table).0)
            | inr d ↦ elim (Bool-cases (same_text command (codes "JOIN_ROOM"))) [
              | inl t ↦
                  rw (a, b, d, t)
                    (_, refl, (lobby-ServerOk s.world c params i.alloc ok fresh in_table).1)
              | inr e ↦ elim (Bool-cases (same_text command (codes "FLIP"))) [
                | inl t ↦ rw (a, b, d, e, t) (flip-Answers params)
                | inr f ↦ rw (a, b, d, e, f) unknown
              ]
            ]
          ]
        ]
      ]

  handle_message-Answers :
      (message : List ℕ)
      → ((params : List ℕ) → AsksReconnect message params → MayReplace s c params)
      → Answers (handle_message i s c message)
  unfolding handle_message
  handle_message-Answers [] back = (s, refl, ok)
  handle_message-Answers (b ∷ message) back = split (split_space (b ∷ message)) refl
    where
      split :
          (p : List ℕ × Option (List ℕ))
          → split_space (b ∷ message) ≡ p
          → Answers (dispatch i s c p)
      split (command, none) e = unfold dispatch in dispatch_plain-Answers (take 63 command)
      split (command, some params) e =
          unfold dispatch in
          dispatch_params-Answers (take 63 command) params (λ t. back params (command, e, t))

  pub handle_message-ServerOk :
      (message : List ℕ)
      → ((params : List ℕ) → AsksReconnect message params → MayReplace s c params)
      → (s' : Server) × (handle_message i s c message ≡ some s')
        × ServerOk s'.world
        × GamesReadOk s'.world
  handle_message-ServerOk message back =
      let (s', e, ok') = handle_message-Answers message back in
      (s', e, ok', λ j r g listed f. Playable-ReadsOk s'.world.client g (ok'.games j r g listed f))
