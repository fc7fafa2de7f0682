-- ===== src/Lobby/Valid.antt =====
-- The handlers for the lobby in server_src/client_handler.c keep the table of rooms valid.
use tmwmf_sem_ups.Base.{
  none-ne-some, some_eq, ℕ, ◌≡◌, ◌≢◌, refl, inl, inr, true, false, Option, none, some, List, get_or,
  ◌∙◌, sym, subst, Bool-cases, ◌==◌, is_null, ◌⊎◌, ℤ, pos, negsuc,
}
use tmwmf_sem_ups.Text.{atoi}
use tmwmf_sem_ups.World.{
  World, Message, client_send_message, room_broadcast, error, room_limit, invalid_params,
  not_authenticated, already_in_room, room_full, room_not_found, not_in_room, left_room,
}
use tmwmf_sem_ups.World.Broadcast.{room_broadcast-OnlySends, client_send_message-OnlySends}
use tmwmf_sem_ups.Room.{room_create, room_get_by_id}
use tmwmf_sem_ups.Room.Table.{WorldOk}
use tmwmf_sem_ups.Room.Create.{room_create_lem, room_create_unallocated}
use tmwmf_sem_ups.Room.Find.{room_get_by_id_listed}
use tmwmf_sem_ups.Room.Enter.{room_add_player-WorldOk}
use tmwmf_sem_ups.Leave.{room_remove_player}
use tmwmf_sem_ups.Leave.Steps.{WorldOk-sent}
use tmwmf_sem_ups.Leave.Valid.{room_remove_player-WorldOk}
use tmwmf_sem_ups.Lobby.{
  handle_create_room, create_parsed, answer_create, parse_room, allows_players, allows_board,
  is_stranger, handle_join_room, join_id, join_found, answer_join, handle_leave_room, leave_in,
  tell_left, or_same,
}

WorldOk-send :
    (w : World) (c : ℕ) (message : Message) → WorldOk w → WorldOk (client_send_message w c message)
WorldOk-send w c message ok = WorldOk-sent (client_send_message-OnlySends w c message) ok

WorldOk-broadcast :
    (w : World) (r : ℕ) (message : Message) → WorldOk w → WorldOk (room_broadcast w r message)
WorldOk-broadcast w r message ok = WorldOk-sent (room_broadcast-OnlySends w r message) ok

pub null_or_not : (p : Option ℕ) → is_null p ≡ true → p ≡ none
null_or_not none e = refl
null_or_not (some a) e = absurd (cc)

module _ (w : World) (c : ℕ) (ok : WorldOk w) where
  refused : (message : Message) → WorldOk (client_send_message w c message)
  refused message = WorldOk-send w c message ok

  -- CREATE_ROOM
  answer_create-WorldOk :
      (answer : Option (World × ℕ))
      → ((w1 : World) (r : ℕ) → answer ≡ some (w1, r) → WorldOk w1)
      → WorldOk (answer_create w c answer)
  unfolding answer_create
  answer_create-WorldOk none valid = refused (error room_limit)
  answer_create-WorldOk (some (w1, r)) valid = WorldOk-send w1 c _ (valid w1 r refl)

  room_create-WorldOk :
      (alloc : Option ℕ)
      → (w.client c).room ≡ none
      → ((r : ℕ) → alloc ≡ some r → (i : ℕ) → get_or w.rooms i none ≢ some r)
      → (name : List ℕ) (max_players board_size : ℤ) (w1 : World) (r : ℕ)
      → room_create w name max_players board_size c alloc ≡ some (w1, r)
      → WorldOk w1
  room_create-WorldOk none homeless fresh name max_players board_size w1 r e =
      absurd (none-ne-some (sym (room_create_unallocated w name c max_players board_size) ∙ e))
  room_create-WorldOk (some a) homeless fresh name max_players board_size w1 r e =
      elim (room_create_lem w name c ok homeless max_players board_size a (fresh a refl)) [
        | inl (f, _) ↦ absurd (none-ne-some (sym f ∙ e))
        | inr (_, (w2, f, ok2, _, _, _, _)) ↦
            subst (λ (p : World × ℕ). WorldOk p.0) (some_eq (sym f ∙ e)) ok2
      ]

  create_parsed-WorldOk :
      (alloc : Option ℕ)
      → (w.client c).room ≡ none
      → ((r : ℕ) → alloc ≡ some r → (i : ℕ) → get_or w.rooms i none ≢ some r)
      → (request : Option (List ℕ × ℤ × ℤ)) → WorldOk (create_parsed w c alloc request)
  unfolding create_parsed
  create_parsed-WorldOk alloc homeless fresh none = refused (error invalid_params)
  create_parsed-WorldOk alloc homeless fresh (some (name, max_players, board_size)) =
      elim (Bool-cases (allows_players max_players)) [
        | inr f ↦ rw f (refused (error invalid_params))
        | inl t ↦ elim (Bool-cases (allows_board board_size)) [
          | inr f ↦ rw (t, f) (refused (error invalid_params))
          | inl u ↦
              rw (t, u)
                (answer_create-WorldOk (room_create w name max_players board_size c alloc)
                  (room_create-WorldOk alloc homeless fresh name max_players board_size))
        ]
      ]

  -- JOIN_ROOM
  join_found-WorldOk :
      (w.client c).room ≡ none
      → (p : Option ℕ) → ((r : ℕ) → p ≡ some r → (j : ℕ) × (get_or w.rooms j none ≡ some r))
      → WorldOk (join_found w c p)
  unfolding join_found answer_join
  join_found-WorldOk homeless none listed = refused (error room_not_found)
  join_found-WorldOk homeless (some r) listed =
      let (j, h) = listed r refl in
      elim (room_add_player-WorldOk w r j c ok h homeless) [
        | inl (_, e) ↦
            subst (λ a. WorldOk (answer_join w c r a)) (sym e) (refused (error room_full))
        | inr (_, (w1, e, ok1, _)) ↦
            subst (λ a. WorldOk (answer_join w c r a)) (sym e)
              (WorldOk-broadcast (client_send_message w1 c _) r _ (WorldOk-send w1 c _ ok1))
      ]

  join_id-WorldOk : (w.client c).room ≡ none → (id : ℤ) → WorldOk (join_id w c id)
  unfolding join_id
  join_id-WorldOk homeless (negsuc _) = refused (error invalid_params)
  join_id-WorldOk homeless (pos id) = elim (Bool-cases (id == 0)) [
    | inl t ↦ rw t (refused (error invalid_params))
    | inr f ↦
        rw f (
          join_found-WorldOk homeless (room_get_by_id w id) (λ r e. room_get_by_id_listed w id r e))
  ]

  -- LEAVE_ROOM
  tell_left-WorldOk : (w1 : World) (p : Option ℕ) → WorldOk w1 → WorldOk (tell_left w1 c p)
  unfolding tell_left
  tell_left-WorldOk w1 none ok1 = ok1
  tell_left-WorldOk w1 (some r) ok1 = WorldOk-broadcast w1 r _ ok1

  leave_in-WorldOk :
      (p : Option ℕ)
      → ((r : ℕ) → p ≡ some r → (j : ℕ) × (get_or w.rooms j none ≡ some r))
      → WorldOk (leave_in w c p)
  unfolding leave_in
  leave_in-WorldOk none listed = refused (error not_in_room)
  leave_in-WorldOk (some r) listed =
      tell_left-WorldOk (client_send_message (or_same w (room_remove_player w r c)) c left_room)
        (room_get_by_id (client_send_message (or_same w (room_remove_player w r c)) c left_room)
          (w.room r).room_id)
        (WorldOk-send (or_same w (room_remove_player w r c)) c left_room left)
    where
      left : WorldOk (or_same w (room_remove_player w r c))
      left =
          let (j, h) = listed r refl in
          elim (room_remove_player-WorldOk w r j c ok h) [
            | inl (_, e) ↦ subst (λ a. WorldOk (or_same w a)) (sym e) ok
            | inr (_, _, w', e, ok', _) ↦ subst (λ a. WorldOk (or_same w a)) (sym e) ok'
          ]

-- CREATE_ROOM, JOIN_ROOM and LEAVE_ROOM with any text keep the table of rooms valid, on every
-- branch, if memory for a new room is not in use by a room of the table, and the room of the
-- client, if it is in one, is in the table.
pub lobby-WorldOk :
    (w : World) (c : ℕ) (params : List ℕ) (alloc : Option ℕ)
    → WorldOk w
    → ((r : ℕ) → alloc ≡ some r → (i : ℕ) → get_or w.rooms i none ≢ some r)
    → ((r : ℕ) → (w.client c).room ≡ some r → (j : ℕ) × (get_or w.rooms j none ≡ some r))
    → WorldOk (handle_create_room w c params alloc)
      × WorldOk (handle_join_room w c params)
      × WorldOk (handle_leave_room w c)
unfolding handle_create_room handle_join_room handle_leave_room
lobby-WorldOk w c params alloc ok fresh in_table = (
  create (Bool-cases (is_stranger (w.client c))),
  join (Bool-cases (is_stranger (w.client c))),
  leave_in-WorldOk w c ok (w.client c).room in_table,
)
  where
    create :
        (is_stranger (w.client c) ≡ true) ⊎ (is_stranger (w.client c) ≡ false)
        → WorldOk (handle_create_room w c params alloc)
    create (inl t) = rw t (refused w c ok (error not_authenticated))
    create (inr f) = elim (Bool-cases (is_null (w.client c).room)) [
      | inr g ↦ rw (f, g) (refused w c ok (error already_in_room))
      | inl t ↦
          rw (f, t)
            (create_parsed-WorldOk w c ok alloc (null_or_not (w.client c).room t) fresh
              (parse_room params))
    ]

    join :
        (is_stranger (w.client c) ≡ true) ⊎ (is_stranger (w.client c) ≡ false)
        → WorldOk (handle_join_room w c params)
    join (inl t) = rw t (refused w c ok (error not_authenticated))
    join (inr f) = elim (Bool-cases (is_null (w.client c).room)) [
      | inr g ↦ rw (f, g) (refused w c ok (error already_in_room))
      | inl t ↦ rw (f, t) (join_id-WorldOk w c ok (null_or_not (w.client c).room t) (atoi params))
    ]
