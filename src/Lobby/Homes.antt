-- ===== src/Lobby/Homes.antt =====
-- The handlers for the lobby in server_src/client_handler.c keep every client that is in a room in
-- a slot of that room, and the room in the table.
use tmwmf_sem_ups.Base.{
  ℕ, ◌≡◌, ◌≢◌, refl, inl, inr, sym, subst, Option, none, some, List, get_or, Bool-cases,
  none-ne-some, some_eq, ◌==◌, is_null, arith, ℤ, pos, negsuc,
}
use tmwmf_sem_ups.Text.{atoi}
use tmwmf_sem_ups.World.{
  World, client_send_message, error, room_limit, invalid_params, not_authenticated, already_in_room,
  room_full, room_not_found, not_in_room, left_room,
}
use tmwmf_sem_ups.Room.{
  room_create, create_at, find_free, valid_max_players, valid_board_size, room_get_by_id,
}
use tmwmf_sem_ups.Room.Slots.{FirstFree, find_free-FirstFree}
use tmwmf_sem_ups.Room.Find.{room_get_by_id_listed}
use tmwmf_sem_ups.Room.Table.{WorldOk}
use tmwmf_sem_ups.Room.Add.{Joined}
use tmwmf_sem_ups.Room.Enter.{room_add_player-WorldOk}
use tmwmf_sem_ups.Leave.{room_remove_player}
use tmwmf_sem_ups.Leave.Homes.{Home, KeepsHomes, HasSlots, send-KeepsHomes, broadcast-KeepsHomes}
use tmwmf_sem_ups.Leave.Keeps.{room_remove_player-KeepsHomes}
use tmwmf_sem_ups.Lobby.{
  handle_create_room, create_parsed, answer_create, parse_room, allows_players, allows_board,
  is_stranger, handle_join_room, join_id, join_found, answer_join, handle_leave_room, leave_in,
  tell_left, or_same,
}
use tmwmf_sem_ups.Lobby.Valid.{null_or_not}
use tmwmf_sem_ups.Lobby.Enter.{seat-KeepsHomes, install-KeepsHomes}

create_at-KeepsHomes :
    (w : World) (name : List ℕ) (m b owner : ℕ) (slot alloc : Option ℕ) (w1 : World) (r : ℕ)
    → WorldOk w
    → FirstFree w.max_rooms 0 w.rooms slot
    → ((q : ℕ) → alloc ≡ some q → (i : ℕ) → get_or w.rooms i none ≢ some q)
    → create_at w name m b owner slot alloc ≡ some (w1, r)
    → KeepsHomes w w1
unfolding create_at
create_at-KeepsHomes w name m b owner none alloc w1 r ok _ fresh e = absurd (none-ne-some e)
create_at-KeepsHomes w name m b owner (some slot) none w1 r ok _ fresh e = absurd (none-ne-some e)
create_at-KeepsHomes w name m b owner (some slot) (some q) w1 r ok (_, hi, free, _) fresh e =
    subst (λ (p : World × ℕ). KeepsHomes w p.0) (some_eq e)
      (install-KeepsHomes w name slot q owner m b free (omega (arith, hi, ok.table.size))
        (fresh q refl))

room_create-KeepsHomes :
    (w : World) (name : List ℕ) (max_players board_size : ℤ) (owner : ℕ) (alloc : Option ℕ)
    (w1 : World) (r : ℕ)
    → WorldOk w
    → ((q : ℕ) → alloc ≡ some q → (i : ℕ) → get_or w.rooms i none ≢ some q)
    → room_create w name max_players board_size owner alloc ≡ some (w1, r)
    → KeepsHomes w w1
unfolding room_create
room_create-KeepsHomes w name (negsuc _) board_size owner alloc w1 r ok fresh e =
    absurd (none-ne-some e)
room_create-KeepsHomes w name (pos m) (negsuc _) owner alloc w1 r ok fresh e =
    absurd (none-ne-some e)
room_create-KeepsHomes w name (pos m) (pos b) owner alloc w1 r ok fresh e =
    elim (Bool-cases (valid_max_players m)) [
      | inr f ↦ absurd (none-ne-some (rw f at e))
      | inl t ↦ elim (Bool-cases (valid_board_size b)) [
        | inr f ↦ absurd (none-ne-some (rw (t, f) at e))
        | inl u ↦
            create_at-KeepsHomes w name m b owner (find_free w.max_rooms 0 w.rooms) alloc w1 r ok
              (find_free-FirstFree w.max_rooms 0 w.rooms) fresh (rw (t, u) at e)
      ]
    ]

module _ (w : World) (c : ℕ) (ok : WorldOk w) where
  answer_create-KeepsHomes :
      (answer : Option (World × ℕ))
      → ((w1 : World) (r : ℕ) → answer ≡ some (w1, r) → KeepsHomes w w1)
      → KeepsHomes w (answer_create w c answer)
  unfolding answer_create
  answer_create-KeepsHomes none kept = send-KeepsHomes w c (error room_limit)
  answer_create-KeepsHomes (some (w1, r)) kept =
      λ d home. send-KeepsHomes w1 c _ d (kept w1 r refl d home)

  create_parsed-KeepsHomes :
      (alloc : Option ℕ)
      → ((q : ℕ) → alloc ≡ some q → (i : ℕ) → get_or w.rooms i none ≢ some q)
      → (request : Option (List ℕ × ℤ × ℤ)) → KeepsHomes w (create_parsed w c alloc request)
  unfolding create_parsed
  create_parsed-KeepsHomes alloc fresh none = send-KeepsHomes w c (error invalid_params)
  create_parsed-KeepsHomes alloc fresh (some (name, max_players, board_size)) =
      elim (Bool-cases (allows_players max_players)) [
        | inr f ↦ rw f (send-KeepsHomes w c (error invalid_params))
        | inl t ↦ elim (Bool-cases (allows_board board_size)) [
          | inr f ↦ rw (t, f) (send-KeepsHomes w c (error invalid_params))
          | inl u ↦
              rw (t, u)
                (answer_create-KeepsHomes (room_create w name max_players board_size c alloc)
                  (λ w1 r.
                    room_create-KeepsHomes w name max_players board_size c alloc w1 r ok fresh))
        ]
      ]

  room_add_player-KeepsHomes :
      (r j : ℕ) (w1 : World) → get_or w.rooms j none ≡ some r → Joined w r c w1 → KeepsHomes w w1
  room_add_player-KeepsHomes r j w1 listed joined =
      let slots = (ok.rooms j r listed).slots in
      subst (KeepsHomes w) (sym joined.is_seat) (
        seat-KeepsHomes w r c joined.slot j listed joined.was_free
          (omega (arith, joined.below, slots.limit, slots.size)))

  join_found-KeepsHomes :
      (w.client c).room ≡ none
      → (p : Option ℕ) → ((r : ℕ) → p ≡ some r → (j : ℕ) × (get_or w.rooms j none ≡ some r))
      → KeepsHomes w (join_found w c p)
  unfolding join_found answer_join
  join_found-KeepsHomes homeless none listed = send-KeepsHomes w c (error room_not_found)
  join_found-KeepsHomes homeless (some r) listed =
      let (j, h) = listed r refl in
      elim (room_add_player-WorldOk w r j c ok h homeless) [
        | inl (_, e) ↦
            subst (λ a. KeepsHomes w (answer_join w c r a)) (sym e)
              (send-KeepsHomes w c (error room_full))
        | inr (_, (w1, e, _, joined)) ↦
            subst (λ a. KeepsHomes w (answer_join w c r a)) (sym e)
              (λ d home.
                broadcast-KeepsHomes (client_send_message w1 c _) r _ d
                  (send-KeepsHomes w1 c _ d (room_add_player-KeepsHomes r j w1 h joined d home)))
      ]

  join_id-KeepsHomes : (w.client c).room ≡ none → (id : ℤ) → KeepsHomes w (join_id w c id)
  unfolding join_id
  join_id-KeepsHomes homeless (negsuc _) = send-KeepsHomes w c (error invalid_params)
  join_id-KeepsHomes homeless (pos id) = elim (Bool-cases (id == 0)) [
    | inl t ↦ rw t (send-KeepsHomes w c (error invalid_params))
    | inr f ↦ rw f (
        join_found-KeepsHomes homeless (room_get_by_id w id)
          (λ r e. room_get_by_id_listed w id r e))
  ]

  leave_in-KeepsHomes :
      (p : Option ℕ)
      → ((r : ℕ) → p ≡ some r → (j : ℕ) × (get_or w.rooms j none ≡ some r))
      → KeepsHomes w (leave_in w c p)
  unfolding leave_in
  leave_in-KeepsHomes none listed = send-KeepsHomes w c (error not_in_room)
  leave_in-KeepsHomes (some r) listed = λ d home. told d (room_get_by_id left (w.room r).room_id) (
      send-KeepsHomes (or_same w (room_remove_player w r c)) c left_room d
        (removed (room_remove_player w r c) refl d home))
    where
      left : World
      left = client_send_message (or_same w (room_remove_player w r c)) c left_room

      size : HasSlots w r
      size = let (j, h) = listed r refl in (ok.rooms j r h).slots.size

      removed :
          (answer : Option World)
          → room_remove_player w r c ≡ answer
          → KeepsHomes w (or_same w answer)
      removed none e = λ d home'. home'
      removed (some w') e = room_remove_player-KeepsHomes w w' r c size e

      told : (d : ℕ) (p : Option ℕ) → Home left d → Home (tell_left left c p) d
      told d none home' = unfold tell_left in home'
      told d (some q) home' = unfold tell_left in broadcast-KeepsHomes left q _ d home'

-- CREATE_ROOM, JOIN_ROOM and LEAVE_ROOM with any text, on every branch, leave every client `d` at
-- home: if it is in a room, that room is in the table and the client sits in one of its slots. This
-- holds where the table is valid, memory for a new room is not in use by a room of the table, and
-- the client that asks and `d` were at home before.
pub lobby-Home :
    (w : World) (c : ℕ) (params : List ℕ) (alloc : Option ℕ) (d : ℕ)
    → WorldOk w
    → ((r : ℕ) → alloc ≡ some r → (i : ℕ) → get_or w.rooms i none ≢ some r)
    → Home w c
    → Home w d
    → Home (handle_create_room w c params alloc) d
      × Home (handle_join_room w c params) d
      × Home (handle_leave_room w c) d
unfolding handle_create_room handle_join_room handle_leave_room
lobby-Home w c params alloc d ok fresh mine home =
    (create, join, leave_in-KeepsHomes w c ok (w.client c).room (λ r e. (mine r e).0) d home)
  where
    create : Home (handle_create_room w c params alloc) d
    create = elim (Bool-cases (is_stranger (w.client c))) [
      | inl t ↦ rw t (send-KeepsHomes w c (error not_authenticated) d home)
      | inr f ↦ elim (Bool-cases (is_null (w.client c).room)) [
        | inr g ↦ rw (f, g) (send-KeepsHomes w c (error already_in_room) d home)
        | inl t ↦ rw (f, t) (create_parsed-KeepsHomes w c ok alloc fresh (parse_room params) d home)
      ]
    ]

    join : Home (handle_join_room w c params) d
    join = elim (Bool-cases (is_stranger (w.client c))) [
      | inl t ↦ rw t (send-KeepsHomes w c (error not_authenticated) d home)
      | inr f ↦ elim (Bool-cases (is_null (w.client c).room)) [
        | inr g ↦ rw (f, g) (send-KeepsHomes w c (error already_in_room) d home)
        | inl t ↦
            rw (f, t)
              (join_id-KeepsHomes w c ok (null_or_not (w.client c).room t) (atoi params) d home)
      ]
    ]
