-- ===== src/Play/Tests.antt =====
-- The handlers that play, at a full room of two whose game has begun.
use tmwmf_sem_ups.Base.{
  none-ne-some, some_eq, ℕ, zero, suc, ◌+◌, ◌*◌, ◌≤◌, ◌≡◌, ◌≢◌, ◌⊎◌, inl, inr, refl, Option, none,
  some, List, [], ◌∷◌, true, false, arith, pos, get_or, get_elem?, ◌<◌, if◌then◌else◌, ◌==◌, ◌||◌,
  subst, sym, ◌∙◌,
}
use tmwmf_sem_ups.Protocol.{in_lobby, in_game}
use tmwmf_sem_ups.Client.{Client, Memory}
use tmwmf_sem_ups.Game.{Game, Env, new_game, game_create, game_start}
use tmwmf_sem_ups.Game as G
use tmwmf_sem_ups.Game.Players.{Playable}
use tmwmf_sem_ups.Game.Create.{game_create-IsValid}
use tmwmf_sem_ups.World.{World, Room, RoomState, playing, waiting}
use tmwmf_sem_ups.Room.Valid.{SlotsOk, RoomOk}
use tmwmf_sem_ups.Play.Steps.{ServerOk}
use tmwmf_sem_ups.Play.Start.{InTable, start-Playable}

abbrev pub env : Env
env = record {
  game_alloc = true;
  cards_alloc = true;
  values_alloc = true;
  junk = λ _. 99;
  rand = λ k. 7 * k + 3;
}

abbrev pair : List (Option ℕ)
pair = some 7 ∷ some 8 ∷ none ∷ none ∷ []

abbrev dealt : Game
dealt = new_game env 4 pair 2

created-dealt : game_create env 4 pair 2 ≡ some dealt
unfolding game_create
created-dealt = refl

abbrev pub running : Game
running = record dealt { state = G.GameState.playing; current_player_index = 0 }

dealt-Playable : Playable dealt
dealt-Playable =
    let (valid, _, _, seats) = game_create-IsValid env 4 pair 2 refl created-dealt in
    record { valid = valid; seated = seats held }
  where
    held : (i : ℕ) → i < 2 → (c : ℕ) × (get_elem? pair i ≡ some (some c))
    held zero h = (7, refl)
    held (suc zero) h = (8, refl)
    held (suc (suc i)) h = absurd (omega arith)

pub running-Playable : Playable running
unfolding game_start
running-Playable =
    start-Playable dealt running dealt-Playable
      (starts (game_create-IsValid env 4 pair 2 refl created-dealt).1)
  where
    starts : dealt.state ≡ G.GameState.waiting → game_start dealt ≡ some running
    starts e = rw e refl

abbrev clients : Memory Client
clients p = record {
  socket_fd = pos p;
  nickname = p ∷ [];
  state = if p == 7 || p == 8 then in_game else in_lobby;
  last_activity = 0;
  invalid_message_count = 0;
  client_id = p;
  room = if p == 7 || p == 8 then some 100 else none;
  is_disconnected = false;
  disconnect_time = 0;
  waiting_for_pong = false;
  last_ping_time = 0;
  last_pong_time = 0;
}

abbrev room_of : RoomState → Option Game → Room
room_of state game = record {
  room_id = 1;
  name = 65 ∷ [];
  players = pair;
  player_count = 2;
  max_players = 2;
  board_size = 4;
  state = state;
  owner = 7;
  game = game;
}

abbrev world_of : RoomState → Option Game → World
world_of state game = record {
  client = clients;
  room = λ _. room_of state game;
  rooms = some 100 ∷ none ∷ [];
  max_rooms = 2;
  next_room_id = 2;
  outbox = [];
  closed = [];
}

pub seats : (i c : ℕ) → get_or pair i none ≡ some c → ((i ≡ 0) × (c ≡ 7)) ⊎ ((i ≡ 1) × (c ≡ 8))
seats zero c h = inl (refl, some_eq h)
  where
    some_eq : some 7 ≡ some c → c ≡ 7
    some_eq e = cc
seats (suc zero) c h = inr (refl, some_eq h)
  where
    some_eq : some 8 ≡ some c → c ≡ 8
    some_eq e = cc
seats (suc (suc zero)) c h = absurd (cc)
seats (suc (suc (suc zero))) c h = absurd (cc)
seats (suc (suc (suc (suc i)))) c h = absurd (cc)

pair-SlotsOk : SlotsOk 2 2 pair
pair-SlotsOk = record {
  size = refl;
  limit = omega arith;
  counted = refl;
  vacant = vacant;
  distinct = λ i j c ne h k. apart i j c ne (seats i c h) (seats j c k);
}
  where
    vacant : (i : ℕ) → 2 ≤ i → get_or pair i none ≡ none
    vacant zero h = absurd (omega arith)
    vacant (suc zero) h = absurd (omega arith)
    vacant (suc (suc zero)) h = refl
    vacant (suc (suc (suc zero))) h = refl
    vacant (suc (suc (suc (suc i)))) h = refl

    apart :
        (i j c : ℕ)
        → i ≢ j
        → ((i ≡ 0) × (c ≡ 7)) ⊎ ((i ≡ 1) × (c ≡ 8))
        → ((j ≡ 0) × (c ≡ 7)) ⊎ ((j ≡ 1) × (c ≡ 8))
        → ⊥
    apart i j c ne (inl (e, f)) (inl (g, h)) = omega arith
    apart i j c ne (inl (e, f)) (inr (g, h)) = omega arith
    apart i j c ne (inr (e, f)) (inl (g, h)) = omega arith
    apart i j c ne (inr (e, f)) (inr (g, h)) = omega arith

module _ (state : RoomState) (game : Option Game) where
  room-RoomOk : RoomOk (world_of state game) 100
  room-RoomOk = record { slots = pair-SlotsOk; back = λ i c h. back c (seats i c h) }
    where
      back :
          (c : ℕ)
          → {i : ℕ} → ((i ≡ 0) × (c ≡ 7)) ⊎ ((i ≡ 1) × (c ≡ 8))
          → (clients c).room ≡ some 100
      back c (inl (_, e)) = rw e refl
      back c (inr (_, e)) = rw e refl

  listed : (i r : ℕ) → get_or (world_of state game).rooms i none ≡ some r → (i ≡ 0) × (r ≡ 100)
  listed zero r h = (refl, some_eq h)
    where
      some_eq : some 100 ≡ some r → r ≡ 100
      some_eq e = cc
  listed (suc zero) r h = absurd (cc)
  listed (suc (suc i)) r h = absurd (cc)

  world-ServerOk : ((g : Game) → game ≡ some g → Playable g) → ServerOk (world_of state game)
  world-ServerOk valid = record {
    world = record {
      table = record {
        size = refl;
        older = λ i r h. omega arith;
        apart = λ i j r s ne h k. absurd (ne ((listed i r h).0 ∙ sym (listed j s k).0));
      };
      rooms =
          λ i s h. subst (λ r. RoomOk (world_of state game) r) (sym (listed i s h).1) room-RoomOk;
    };
    games = λ i s g h e. valid g e;
    boards = λ i s h. refl;
  }

  pub seven-InTable : InTable (world_of state game) 7
  seven-InTable r e = (0, e)

abbrev pub on : World
on = world_of playing (some running)

abbrev pub off : World
off = world_of waiting none

pub on-ServerOk : ServerOk on
on-ServerOk =
    world-ServerOk playing (some running) (λ g e. subst Playable (some_eq e) running-Playable)

pub off-ServerOk : ServerOk off
off-ServerOk = world-ServerOk waiting none (λ g e. absurd (none-ne-some e))
