-- ===== src/Room/Tests.antt =====
-- The theorems on the rooms, at a table of two slots with one room and two players in it.
use tmwmf_sem_ups.Base.{
  true, ℕ, zero, suc, ◌<◌, ◌≤◌, ◌≡◌, ◌≢◌, ◌⊎◌, inl, inr, refl, none, some, [], ◌∷◌, false, arith,
  pos, get_or, if◌then◌else◌, ◌==◌, ◌||◌, subst, sym, ◌∙◌,
}
use tmwmf_sem_ups.Protocol.{in_lobby, in_room}
use tmwmf_sem_ups.Client.{Client, Memory}
use tmwmf_sem_ups.World.{World, Room, waiting}
use tmwmf_sem_ups.Room.{room_system_init, room_create, room_add_player, room_destroy, leave}
use tmwmf_sem_ups.Room.Valid.{RoomOk}
use tmwmf_sem_ups.Room.Add.{Joined}
use tmwmf_sem_ups.Room.Table.{WorldOk}
use tmwmf_sem_ups.Room.Enter.{room_add_player-WorldOk}
use tmwmf_sem_ups.Room.Destroy.{room_destroy_lem}
use tmwmf_sem_ups.Room.Create.{Allowed, Made, room_create_lem}
use tmwmf_sem_ups.Room.Init.{room_system_init-WorldOk}
use tmwmf_sem_ups.Leave.{room_remove_player}
use tmwmf_sem_ups.Leave.Valid.{room_remove_player-WorldOk}
use tmwmf_sem_ups.Leave.Owner.{room_remove_player_owner}
use tmwmf_sem_ups.Leave.Stays.{room_remove_player_stays}

-- Clients 7 and 8 sit in the room at 100.
abbrev clients : Memory Client
clients p = record {
  socket_fd = pos p;
  nickname = p ∷ [];
  state = if p == 7 || p == 8 then in_room else in_lobby;
  last_activity = 0;
  invalid_message_count = 0;
  client_id = p;
  room = if p == 7 || p == 8 then some 100 else none;
  is_disconnected = false;
  disconnect_time = 0;
  waiting_for_pong = false;
  last_ping_time = 0;
  last_pong_time = 0;
}

abbrev one_room : Room
one_room = record {
  room_id = 1;
  name = 65 ∷ [];
  players = some 7 ∷ none ∷ some 8 ∷ none ∷ [];
  player_count = 2;
  max_players = 3;
  board_size = 4;
  state = waiting;
  owner = 7;
  game = none;
}

abbrev start : World
start = record {
  client = clients;
  room = λ _. one_room;
  rooms = some 100 ∷ none ∷ [];
  max_rooms = 2;
  next_room_id = 2;
  outbox = [];
  closed = [];
}

seats :
    (i c : ℕ) → get_or one_room.players i none ≡ some c → ((i ≡ 0) × (c ≡ 7)) ⊎ ((i ≡ 2) × (c ≡ 8))
seats zero c h = inl (refl, some_eq h)
  where
    some_eq : some 7 ≡ some c → c ≡ 7
    some_eq e = cc
seats (suc zero) c h = absurd (cc)
seats (suc (suc zero)) c h = inr (refl, some_eq h)
  where
    some_eq : some 8 ≡ some c → c ≡ 8
    some_eq e = cc
seats (suc (suc (suc zero))) c h = absurd (cc)
seats (suc (suc (suc (suc i)))) c h = absurd (cc)

one_room-RoomOk : RoomOk start 100
one_room-RoomOk = record {
  slots = record {
    size = refl;
    limit = omega arith;
    counted = refl;
    vacant = vacant;
    distinct = λ i j c ne h k. apart i j c ne (seats i c h) (seats j c k);
  };
  back = λ i c h. back c (seats i c h);
}
  where
    vacant : (i : ℕ) → 3 ≤ i → get_or one_room.players i none ≡ none
    vacant zero h = absurd (omega arith)
    vacant (suc zero) h = absurd (omega arith)
    vacant (suc (suc zero)) h = absurd (omega arith)
    vacant (suc (suc (suc zero))) h = refl
    vacant (suc (suc (suc (suc i)))) h = refl

    apart :
        (i j c : ℕ)
        → i ≢ j
        → ((i ≡ 0) × (c ≡ 7)) ⊎ ((i ≡ 2) × (c ≡ 8))
        → ((j ≡ 0) × (c ≡ 7)) ⊎ ((j ≡ 2) × (c ≡ 8))
        → ⊥
    apart i j c ne (inl (e, f)) (inl (g, h)) = omega arith
    apart i j c ne (inl (e, f)) (inr (g, h)) = omega arith
    apart i j c ne (inr (e, f)) (inl (g, h)) = omega arith
    apart i j c ne (inr (e, f)) (inr (g, h)) = omega arith

    back :
        (c : ℕ) → {i : ℕ} → ((i ≡ 0) × (c ≡ 7)) ⊎ ((i ≡ 2) × (c ≡ 8)) → (clients c).room ≡ some 100
    back c (inl (_, e)) = rw e refl
    back c (inr (_, e)) = rw e refl

listed : (i r : ℕ) → get_or start.rooms i none ≡ some r → (i ≡ 0) × (r ≡ 100)
listed zero r h = (refl, some_eq h)
  where
    some_eq : some 100 ≡ some r → r ≡ 100
    some_eq e = cc
listed (suc zero) r h = absurd (cc)
listed (suc (suc i)) r h = absurd (cc)

start-WorldOk : WorldOk start
start-WorldOk = record {
  table = record {
    size = refl;
    older = λ i r h. omega arith;
    apart = λ i j r s ne h k. absurd (ne ((listed i r h).0 ∙ sym (listed j s k).0));
  };
  rooms = λ i s h. subst (λ r. RoomOk start r) (sym (listed i s h).1) one_room-RoomOk;
}

abbrev unused : (i : ℕ) → get_or start.rooms i none ≢ some 101
unused i h = omega (arith, (listed i 101 h).1)

room_create_lem_example :
    ((room_create start (66 ∷ []) (pos 2) (pos 6) 9 (some 101) ≡ none)
      × (Allowed (pos 2) (pos 6) → (i : ℕ) → i < 2 → get_or start.rooms i none ≢ none))
    ⊎ (Allowed (pos 2) (pos 6)
        × Made start
            (66 ∷ [])
            9
            start-WorldOk
            refl
            (pos 2)
            (pos 6)
            101
            (room_create start (66 ∷ []) (pos 2) (pos 6) 9 (some 101)))
room_create_lem_example =
    room_create_lem start (66 ∷ []) 9 start-WorldOk refl (pos 2) (pos 6) 101 unused

room_add_player-WorldOk_example :
    ((one_room.player_count ≡ one_room.max_players) × (room_add_player start 100 9 ≡ none))
    ⊎ ((2 < 3)
        × ((w' : World) × (room_add_player start 100 9 ≡ some w')
            × WorldOk w'
            × Joined start 100 9 w'))
room_add_player-WorldOk_example = room_add_player-WorldOk start 100 0 9 start-WorldOk refl refl

room_destroy_lem_example :
    WorldOk (room_destroy start 100)
    × ((c k : ℕ)
        → get_or one_room.players k none ≡ some c
        → (room_destroy start 100).client c ≡ leave (clients c))
    × ((c : ℕ)
        → ((k : ℕ) → get_or one_room.players k none ≢ some c)
        → (room_destroy start 100).client c ≡ clients c)
    × ((room_destroy start 100).room ≡ start.room)
room_destroy_lem_example = room_destroy_lem start 100 0 start-WorldOk refl

room_remove_player-WorldOk_example :
    (((i : ℕ) → get_or one_room.players i none ≢ some 7) × (room_remove_player start 100 7 ≡ none))
    ⊎ ((i : ℕ) × (get_or one_room.players i none ≡ some 7)
        × (w' : World) × (room_remove_player start 100 7 ≡ some w')
        × WorldOk w'
        × (w'.client 7 ≡ leave (clients 7)))
room_remove_player-WorldOk_example = room_remove_player-WorldOk start 100 0 7 start-WorldOk refl

room_remove_player_stays_example :
    (w' : World) × (room_remove_player start 100 8 ≡ some w')
    × (w'.room 100
        ≡ record one_room { players = some 7 ∷ none ∷ none ∷ none ∷ []; player_count = 1 })
    × ((d : ℕ) → 8 ≢ d → w'.client d ≡ clients d)
    × (w'.outbox ≡ [])
    × (w'.rooms ≡ start.rooms)
room_remove_player_stays_example =
    room_remove_player_stays start 100 8 2 one_room-RoomOk refl (omega arith) (omega arith)
      (inl refl)

room_system_init-WorldOk_example :
    WorldOk (room_system_init start 5 true).0
    × ((i : ℕ) → get_or (room_system_init start 5 true).0.rooms i none ≡ none)
    × ((room_system_init start 5 true).1 ≡ true)
    × ((room_system_init start 5 false).1 ≡ false)
room_system_init-WorldOk_example = room_system_init-WorldOk start 5

-- The owner 7 leaves, and 8 is connected.
room_remove_player_owner_example :
    (m o : ℕ) × (0 ≢ m)
    × (get_or one_room.players m none ≡ some o)
    × ((clients o).is_disconnected ≡ false)
    × (w' : World) × (room_remove_player start 100 7 ≡ some w')
    × (w'.room 100 ≡ record one_room {
      players = none ∷ none ∷ some 8 ∷ none ∷ [];
      player_count = 1;
      owner = o;
    })
room_remove_player_owner_example =
    room_remove_player_owner start 100 7 0 one_room-RoomOk refl refl (omega arith) (inl refl) 2 8
      (omega arith) refl refl
