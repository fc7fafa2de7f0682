-- ===== src/Lobby/Games.antt =====
-- The handlers for the lobby in server_src/client_handler.c keep the games of the rooms valid, and
-- with that the whole table of rooms.
use tmwmf_sem_ups.Base.{
  ℕ, zero, suc, ◌%◌, ◌+◌, leb, ◌≡◌, ◌≢◌, refl, inl, inr, ◌∙◌, ap, sym, subst, true, Option, none,
  some, List, [], ◌∷◌, get_or, set, Bool-cases, none-ne-some, some_eq, eq_or_ne, ◌==◌, is_null,
  arith, ℤ, pos, negsuc,
}
use tmwmf_sem_ups.Client.{store_self, store_ne}
use tmwmf_sem_ups.Text.{atoi}
use tmwmf_sem_ups.Game.{find_player}
use tmwmf_sem_ups.World.{
  World, Room, Message, set_room, client_send_message, room_broadcast, error, room_limit,
  invalid_params, not_authenticated, already_in_room, room_full, room_not_found, not_in_room,
  left_room,
}
use tmwmf_sem_ups.World.Broadcast.{room_broadcast-OnlySends, client_send_message-OnlySends}
use tmwmf_sem_ups.Room.{
  room_create, create_at, install, new_room, find_free, valid_max_players, valid_board_size,
  room_get_by_id, room_add_player, seat_at, seat,
}
use tmwmf_sem_ups.Leave.{room_remove_player}
use tmwmf_sem_ups.Leave.Games.{
  KeepsGames, KeepsGames-sent, KeepsGames-set_room, room_remove_player-KeepsGames,
}
use tmwmf_sem_ups.Lobby.{
  handle_create_room, create_parsed, answer_create, parse_room, allows_players, allows_board,
  is_stranger, handle_join_room, join_id, join_found, answer_join, handle_leave_room, leave_in,
  tell_left, or_same,
}
use tmwmf_sem_ups.Lobby.Valid.{lobby-WorldOk}
use tmwmf_sem_ups.Play.Steps.{GamesOk, GamesOk-keeps, ServerOk}

GamesOk-send :
    (w : World) (c : ℕ) (message : Message) → GamesOk w → GamesOk (client_send_message w c message)
GamesOk-send w c message ok =
    GamesOk-keeps w (client_send_message w c message)
      (KeepsGames-sent w (client_send_message w c message)
        (client_send_message-OnlySends w c message))
      ok

GamesOk-broadcast :
    (w : World) (r : ℕ) (message : Message) → GamesOk w → GamesOk (room_broadcast w r message)
GamesOk-broadcast w r message ok =
    GamesOk-keeps w (room_broadcast w r message)
      (KeepsGames-sent w (room_broadcast w r message) (room_broadcast-OnlySends w r message)) ok

set_entry :
    (slots : List (Option ℕ)) (k r i s : ℕ)
    → r ≢ s
    → get_or (set slots k (some r)) i none ≡ some s
    → get_or slots i none ≡ some s
set_entry [] k r i s ne h = h
set_entry (x ∷ slots) zero r zero s ne h = absurd (ne (some_eq h))
set_entry (x ∷ slots) zero r (suc i) s ne h = h
set_entry (x ∷ slots) (suc k) r zero s ne h = h
set_entry (x ∷ slots) (suc k) r (suc i) s ne h = set_entry slots k r i s ne h

-- A new room has no game.
install-GamesOk :
    (w : World) (name : List ℕ) (slot r owner m b : ℕ)
    → b % 2 ≡ 0
    → GamesOk w
    → GamesOk (install w slot r owner (new_room w.next_room_id name m b owner))
unfolding install
install-GamesOk w name slot r owner m b even (games, boards) = (
  λ i s g h e. elim (eq_or_ne r s) [
    | inl f ↦ absurd (none-ne-some (sym no_game ∙ ap (λ q. (made_room q).game) f ∙ e))
    | inr ne ↦
        games i s g (set_entry w.rooms slot r i s ne h)
          (ap (λ (y : Room). y.game) (sym (store_ne w.room r s made ne)) ∙ e)
  ],
  λ i s h. elim (eq_or_ne r s) [
    | inl f ↦ ap (λ q. (made_room q).board_size % 2) (sym f) ∙ even_board
    | inr ne ↦
        ap (λ (y : Room). y.board_size % 2) (store_ne w.room r s made ne)
        ∙ boards i s (set_entry w.rooms slot r i s ne h)
  ],
)
  where
    made : Room
    made = new_room w.next_room_id name m b owner

    made_room : ℕ → Room
    made_room = (set_room w r made).room

    no_game : (made_room r).game ≡ none
    no_game = ap (λ (y : Room). y.game) (store_self w.room r made) ∙ (unfold new_room in refl)

    even_board : (made_room r).board_size % 2 ≡ 0
    even_board =
        ap (λ (y : Room). y.board_size % 2) (store_self w.room r made) ∙ (unfold new_room in even)

create_at-GamesOk :
    (w : World) (name : List ℕ) (m b owner : ℕ) (slot alloc : Option ℕ) (w1 : World) (r : ℕ)
    → b % 2 ≡ 0
    → GamesOk w
    → create_at w name m b owner slot alloc ≡ some (w1, r)
    → GamesOk w1
unfolding create_at
create_at-GamesOk w name m b owner none alloc w1 r even ok e = absurd (none-ne-some e)
create_at-GamesOk w name m b owner (some slot) none w1 r even ok e = absurd (none-ne-some e)
create_at-GamesOk w name m b owner (some slot) (some q) w1 r even ok e =
    subst (λ (p : World × ℕ). GamesOk p.0) (some_eq e)
      (install-GamesOk w name slot q owner m b even ok)

valid_board_size-even : (b : ℕ) → valid_board_size b ≡ true → b % 2 ≡ 0
unfolding valid_board_size
valid_board_size-even b u = ground arith

room_create-GamesOk :
    (w : World) (name : List ℕ) (max_players board_size : ℤ) (owner : ℕ) (alloc : Option ℕ)
    (w1 : World) (r : ℕ)
    → GamesOk w
    → room_create w name max_players board_size owner alloc ≡ some (w1, r)
    → GamesOk w1
unfolding room_create
room_create-GamesOk w name (negsuc _) board_size owner alloc w1 r ok e = absurd (none-ne-some e)
room_create-GamesOk w name (pos m) (negsuc _) owner alloc w1 r ok e = absurd (none-ne-some e)
room_create-GamesOk w name (pos m) (pos b) owner alloc w1 r ok e =
    elim (Bool-cases (valid_max_players m)) [
      | inr f ↦ absurd (none-ne-some (rw f at e))
      | inl t ↦ elim (Bool-cases (valid_board_size b)) [
        | inr f ↦ absurd (none-ne-some (rw (t, f) at e))
        | inl u ↦
            create_at-GamesOk w name m b owner (find_free w.max_rooms 0 w.rooms) alloc w1 r
              (valid_board_size-even b u) ok (rw (t, u) at e)
      ]
    ]

room_add_player-KeepsGames :
    (w w' : World) (r c : ℕ) → room_add_player w r c ≡ some w' → KeepsGames w w'
unfolding room_add_player
room_add_player-KeepsGames w w' r c e =
    elim (Bool-cases (leb (w.room r).max_players (w.room r).player_count)) [
      | inl t ↦ absurd (none-ne-some (rw t at e))
      | inr f ↦
          seated (find_player 4 0 (w.room r).players c) (find_free 4 0 (w.room r).players)
            (rw f at e)
    ]
  where
    seated : (old free : Option ℕ) → seat_at w r c old free ≡ some w' → KeepsGames w w'
    seated (some _) free h = absurd (none-ne-some (unfold seat_at in h))
    seated none none h = absurd (none-ne-some (unfold seat_at in h))
    seated none (some i) h = subst (KeepsGames w) (some_eq (unfold seat_at in h)) kept
      where
        kept : KeepsGames w (seat w r c i)
        kept =
            unfold seat in
            KeepsGames-set_room w r
              (record (w.room r) {
                players = set (w.room r).players i (some c);
                player_count = (w.room r).player_count + 1;
              })
              (inr refl) refl

-- Whatever becomes of the lobby's answers.
module _ (w : World) (c : ℕ) (ok : GamesOk w) where
  answer_create-GamesOk :
      (answer : Option (World × ℕ))
      → ((w1 : World) (r : ℕ) → answer ≡ some (w1, r) → GamesOk w1)
      → GamesOk (answer_create w c answer)
  unfolding answer_create
  answer_create-GamesOk none valid = GamesOk-send w c (error room_limit) ok
  answer_create-GamesOk (some (w1, r)) valid = GamesOk-send w1 c _ (valid w1 r refl)

  create_parsed-GamesOk :
      (alloc : Option ℕ) (request : Option (List ℕ × ℤ × ℤ))
      → GamesOk (create_parsed w c alloc request)
  unfolding create_parsed
  create_parsed-GamesOk alloc none = GamesOk-send w c (error invalid_params) ok
  create_parsed-GamesOk alloc (some (name, max_players, board_size)) =
      elim (Bool-cases (allows_players max_players)) [
        | inr f ↦ rw f (GamesOk-send w c (error invalid_params) ok)
        | inl t ↦ elim (Bool-cases (allows_board board_size)) [
          | inr f ↦ rw (t, f) (GamesOk-send w c (error invalid_params) ok)
          | inl u ↦
              rw (t, u)
                (answer_create-GamesOk (room_create w name max_players board_size c alloc)
                  (λ w1 r. room_create-GamesOk w name max_players board_size c alloc w1 r ok))
        ]
      ]

  answer_join-GamesOk :
      (r : ℕ) (answer : Option World)
      → ((w1 : World) → answer ≡ some w1 → GamesOk w1)
      → GamesOk (answer_join w c r answer)
  unfolding answer_join
  answer_join-GamesOk r none valid = GamesOk-send w c (error room_full) ok
  answer_join-GamesOk r (some w1) valid =
      GamesOk-broadcast (client_send_message w1 c _) r _ (GamesOk-send w1 c _ (valid w1 refl))

  join_id-GamesOk : (id : ℤ) → GamesOk (join_id w c id)
  unfolding join_id join_found
  join_id-GamesOk (negsuc _) = GamesOk-send w c (error invalid_params) ok
  join_id-GamesOk (pos id) = elim (Bool-cases (id == 0)) [
    | inl t ↦ rw t (GamesOk-send w c (error invalid_params) ok)
    | inr f ↦ rw f (found (room_get_by_id w id))
  ]
    where
      found : (p : Option ℕ) → GamesOk (join_found w c p)
      found none = unfold join_found in GamesOk-send w c (error room_not_found) ok
      found (some r) =
          unfold join_found in
          answer_join-GamesOk r (room_add_player w r c)
            (λ w1 e. GamesOk-keeps w w1 (room_add_player-KeepsGames w w1 r c e) ok)

  leave_in-GamesOk : (p : Option ℕ) → GamesOk (leave_in w c p)
  unfolding leave_in
  leave_in-GamesOk none = GamesOk-send w c (error not_in_room) ok
  leave_in-GamesOk (some r) = told (room_get_by_id left (w.room r).room_id) (
      GamesOk-send (or_same w (room_remove_player w r c)) c left_room
        (removed (room_remove_player w r c) refl))
    where
      left : World
      left = client_send_message (or_same w (room_remove_player w r c)) c left_room

      removed :
          (answer : Option World) → room_remove_player w r c ≡ answer → GamesOk (or_same w answer)
      removed none e = ok
      removed (some w') e = GamesOk-keeps w w' (room_remove_player-KeepsGames w w' r c e) ok

      told : (p : Option ℕ) → GamesOk left → GamesOk (tell_left left c p)
      told none ok' = unfold tell_left in ok'
      told (some q) ok' = unfold tell_left in GamesOk-broadcast left q _ ok'

lobby-GamesOk :
    (w : World) (c : ℕ) (params : List ℕ) (alloc : Option ℕ)
    → GamesOk w
    → GamesOk (handle_create_room w c params alloc)
      × GamesOk (handle_join_room w c params)
      × GamesOk (handle_leave_room w c)
unfolding handle_create_room handle_join_room handle_leave_room
lobby-GamesOk w c params alloc ok = (create, join, leave_in-GamesOk w c ok (w.client c).room)
  where
    create : GamesOk (handle_create_room w c params alloc)
    create = elim (Bool-cases (is_stranger (w.client c))) [
      | inl t ↦ rw t (GamesOk-send w c (error not_authenticated) ok)
      | inr f ↦ elim (Bool-cases (is_null (w.client c).room)) [
        | inr g ↦ rw (f, g) (GamesOk-send w c (error already_in_room) ok)
        | inl t ↦ rw (f, t) (create_parsed-GamesOk w c ok alloc (parse_room params))
      ]
    ]

    join : GamesOk (handle_join_room w c params)
    join = elim (Bool-cases (is_stranger (w.client c))) [
      | inl t ↦ rw t (GamesOk-send w c (error not_authenticated) ok)
      | inr f ↦ elim (Bool-cases (is_null (w.client c).room)) [
        | inr g ↦ rw (f, g) (GamesOk-send w c (error already_in_room) ok)
        | inl t ↦ rw (f, t) (join_id-GamesOk w c ok (atoi params))
      ]
    ]

-- CREATE_ROOM, JOIN_ROOM and LEAVE_ROOM with any text keep the rooms of the table and their games
-- valid, on every branch, if memory for a new room is not in use by a room of the table, and the
-- room of the client, if it is in one, is in the table.
pub lobby-ServerOk :
    (w : World) (c : ℕ) (params : List ℕ) (alloc : Option ℕ)
    → ServerOk w
    → ((r : ℕ) → alloc ≡ some r → (i : ℕ) → get_or w.rooms i none ≢ some r)
    → ((r : ℕ) → (w.client c).room ≡ some r → (j : ℕ) × (get_or w.rooms j none ≡ some r))
    → ServerOk (handle_create_room w c params alloc)
      × ServerOk (handle_join_room w c params)
      × ServerOk (handle_leave_room w c)
lobby-ServerOk w c params alloc ok fresh in_table =
    let (a, b, d) = lobby-WorldOk w c params alloc ok.world fresh in_table in
    let (a', b', d') = lobby-GamesOk w c params alloc (ok.games, ok.boards) in
    (
      record { world = a; games = a'.0; boards = a'.1 },
      record { world = b; games = b'.0; boards = b'.1 },
      record { world = d; games = d'.0; boards = d'.1 },
    )
