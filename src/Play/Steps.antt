-- ===== src/Play/Steps.antt =====
-- The steps of the handlers that play keep the rooms of the table and their games valid.
use tmwmf_sem_ups.Base.{
  eq_or_ne, none-ne-some, some_eq, ℕ, ◌+◌, ◌%◌, ◌≡◌, refl, inl, inr, none, some, get_or, ◌∙◌, ap,
  sym, subst, Bool-cases, leb,
}
use tmwmf_sem_ups.Protocol.{max_error_count}
use tmwmf_sem_ups.Client.{Client, store_self, store_ne}
use tmwmf_sem_ups.Game.{Game, find_player}
use tmwmf_sem_ups.Game.Players.{Playable}
use tmwmf_sem_ups.World.{
  World, Room, set_client, set_room, finished, Failure, error, Message, game_end,
  client_send_message, room_broadcast,
}
use tmwmf_sem_ups.World.Broadcast.{
  OnlySends, room_broadcast-OnlySends, client_send_message-OnlySends,
}
use tmwmf_sem_ups.Forfeit.{final_scores}
use tmwmf_sem_ups.Room.{dismiss_all, room_destroy}
use tmwmf_sem_ups.Room.Valid.{SlotsOk, RoomOk}
use tmwmf_sem_ups.Room.Table.{
  WorldOk, OthersOk, WorldOk-OthersOk, TableOk-set_room, RoomOk-set_room, RoomOk-set_self,
}
use tmwmf_sem_ups.Room.Destroy.{OthersOk-dismiss_all, room_destroy-WorldOk}
use tmwmf_sem_ups.Leave.Games.{KeepsGames, clear_slot_entry, dismiss_all-frame}
use tmwmf_sem_ups.Leave.Steps.{WorldOk-sent, room-sent, rooms-sent}
use tmwmf_sem_ups.Play.{send_error_and_count, set_game, end_game}

-- The table of rooms is valid, and so is each game in it, with a client in every seat.
pub record ServerOk (w : World) : Type 0 where
  pub world : WorldOk w
  pub games :
      (i s : ℕ) (g : Game) → get_or w.rooms i none ≡ some s → (w.room s).game ≡ some g → Playable g
  pub boards : (i s : ℕ) → get_or w.rooms i none ≡ some s → (w.room s).board_size % 2 ≡ 0

-- Each game in the table is valid and has a client in every seat, and each board is even.
abbrev pub GamesOk : World → Type 0
GamesOk w =
    ((i s : ℕ) (g : Game) → get_or w.rooms i none ≡ some s → (w.room s).game ≡ some g → Playable g)
    × ((i s : ℕ) → get_or w.rooms i none ≡ some s → (w.room s).board_size % 2 ≡ 0)

pub GamesOk-keeps : (w w' : World) → KeepsGames w w' → GamesOk w → GamesOk w'
GamesOk-keeps w w' keeps (games, boards) = (
  λ i s g h e.
      let (before, game, _) = keeps i s h in
      elim game [
        | inl ended ↦ absurd (none-ne-some (sym ended ∙ e))
        | inr same ↦ games i s g before (sym same ∙ e)
      ],
  λ i s h. let (before, _, same) = keeps i s h in ap (λ b. b % 2) same ∙ boards i s before,
)

-- A valid table of rooms in which games have ended, but none has begun.
pub ServerOk-keeps : (w w' : World) → KeepsGames w w' → WorldOk w' → ServerOk w → ServerOk w'
ServerOk-keeps w w' keeps ok' ok =
    let (games, boards) = GamesOk-keeps w w' keeps (ok.games, ok.boards) in
    record { world = ok'; games = games; boards = boards }

pub ServerOk-sent : (w w' : World) → OnlySends w w' → ServerOk w → ServerOk w'
ServerOk-sent w w' e ok = record {
  world = WorldOk-sent e ok.world;
  games = λ i s g h k.
      ok.games i s g (ap (λ xs. get_or xs i none) (sym (rooms-sent w w' e)) ∙ h)
        (ap (λ m. (m s).game) (sym (room-sent w w' e)) ∙ k);
  boards = λ i s h.
      ap (λ m. (m s).board_size % 2) (room-sent w w' e)
      ∙ ok.boards i s (ap (λ xs. get_or xs i none) (sym (rooms-sent w w' e)) ∙ h);
}

pub ServerOk-send :
    (w : World) (c : ℕ) (message : Message)
    → ServerOk w
    → ServerOk (client_send_message w c message)
ServerOk-send w c message ok =
    ServerOk-sent w (client_send_message w c message) (client_send_message-OnlySends w c message) ok

pub ServerOk-broadcast :
    (w : World) (r : ℕ) (message : Message) → ServerOk w → ServerOk (room_broadcast w r message)
ServerOk-broadcast w r message ok =
    ServerOk-sent w (room_broadcast w r message) (room_broadcast-OnlySends w r message) ok

-- A client changes, but stays in its room.
pub ServerOk-set_client :
    (w : World) (c : ℕ) (v : Client)
    → v.room ≡ (w.client c).room
    → ServerOk w
    → ServerOk (set_client w c v)
ServerOk-set_client w c v e ok = record {
  world = record {
    table = record {
      size = ok.world.table.size;
      older = ok.world.table.older;
      apart = ok.world.table.apart;
    };
    rooms = λ i s h. record {
      slots = (ok.world.rooms i s h).slots;
      back = λ k d h'. same_room d ∙ (ok.world.rooms i s h).back k d h';
    };
  };
  games = ok.games;
  boards = ok.boards;
}
  where
    same_room : (d : ℕ) → ((set_client w c v).client d).room ≡ (w.client d).room
    same_room d = elim (eq_or_ne c d) [
      | inl f ↦
          ap (λ q. ((set_client w c v).client q).room) (sym f)
          ∙ ap (λ (x : Client). x.room) (store_self w.client c v)
          ∙ e
          ∙ ap (λ q. (w.client q).room) f
      | inr ne ↦ ap (λ (x : Client). x.room) (store_ne w.client c d v ne)
    ]

pub ServerOk-error :
    (w : World) (c : ℕ) (failure : Failure)
    → ServerOk w
    → ServerOk (send_error_and_count w c failure)
unfolding send_error_and_count
ServerOk-error w c failure ok =
    elim (Bool-cases (leb max_error_count ((w1.client c).invalid_message_count + 1))) [
      | inl t ↦ rw t (record {
        world = record {
          table = record {
            size = counted.world.table.size;
            older = counted.world.table.older;
            apart = counted.world.table.apart;
          };
          rooms = λ i s h. record {
            slots = (counted.world.rooms i s h).slots;
            back = (counted.world.rooms i s h).back;
          };
        };
        games = counted.games;
        boards = counted.boards;
      })
      | inr f ↦ rw f counted
    ]
  where
    w1 : World
    w1 = client_send_message w c (error failure)

    counted : ServerOk (
        set_client w1 c (record (w1.client c) {
          invalid_message_count = (w1.client c).invalid_message_count + 1;
        }))
    counted =
        ServerOk-set_client w1 c
          (record (w1.client c) { invalid_message_count = (w1.client c).invalid_message_count + 1 })
          refl (ServerOk-send w c (error failure) ok)

-- A room of the table changes, but for its id and its board; its new game is valid, if it has one.
module _ (w : World) (r j : ℕ) (ok : ServerOk w) (listed : get_or w.rooms j none ≡ some r) where
  pub ServerOk-reseat :
      (x : Room)
      → x.room_id ≡ (w.room r).room_id
      → SlotsOk x.max_players x.player_count x.players
      → ((i d : ℕ) → get_or x.players i none ≡ some d → (w.client d).room ≡ some r)
      → x.board_size ≡ (w.room r).board_size
      → ((g : Game) → x.game ≡ some g → Playable g)
      → ServerOk (set_room w r x)
  ServerOk-reseat x same_id slots back same_board valid = record {
    world = record {
      table = TableOk-set_room w r x same_id ok.world.table;
      rooms = λ k s h. elim (eq_or_ne r s) [
        | inl e ↦ subst (λ q. RoomOk (set_room w r x) q) e (RoomOk-set_self w r x slots back)
        | inr ne ↦ RoomOk-set_room w r s x ne (ok.world.rooms k s h)
      ];
    };
    games = λ k s g h e. elim (eq_or_ne r s) [
      | inl f ↦ valid g (
          ap (λ (y : Room). y.game) (sym (store_self w.room r x))
          ∙ ap (λ q. ((set_room w r x).room q).game) f
          ∙ e)
      | inr ne ↦ ok.games k s g h (ap (λ (y : Room). y.game) (sym (store_ne w.room r s x ne)) ∙ e)
    ];
    boards = λ k s h. elim (eq_or_ne r s) [
      | inl f ↦
          ap (λ q. ((set_room w r x).room q).board_size % 2) (sym f)
          ∙ ap (λ (y : Room). y.board_size % 2) (store_self w.room r x)
          ∙ ap (λ b. b % 2) same_board
          ∙ ok.boards j r listed
      | inr ne ↦ ap (λ (y : Room). y.board_size % 2) (store_ne w.room r s x ne) ∙ ok.boards k s h
    ];
  }

  pub ServerOk-set_room :
      (x : Room)
      → x.room_id ≡ (w.room r).room_id
      → SlotsOk x.max_players x.player_count x.players
      → x.players ≡ (w.room r).players
      → x.board_size ≡ (w.room r).board_size
      → ((g : Game) → x.game ≡ some g → Playable g)
      → ServerOk (set_room w r x)
  ServerOk-set_room x same_id slots same_players same_board valid =
      ServerOk-reseat x same_id slots
        (λ i d h.
          (ok.world.rooms j r listed).back i d (ap (λ xs. get_or xs i none) (sym same_players) ∙ h))
        same_board valid

  pub ServerOk-set_game : (g : Game) → Playable g → ServerOk (set_game w r g)
  ServerOk-set_game g v =
      ServerOk-set_room (record (w.room r) { game = some g }) refl (ok.world.rooms j r listed).slots
        refl refl (λ h e. subst Playable (some_eq e) v)

-- The players of a room go to the lobby, and it is destroyed.
module _ (w : World) (r : ℕ) (n : ℕ) where
  abbrev dismissed_world : World
  dismissed_world = dismiss_all n 0 (w.room r).players w

  pub ServerOk-destroy :
      OthersOk w r
      → ((i s : ℕ) (g : Game)
          → get_or w.rooms i none ≡ some s
          → (w.room s).game ≡ some g
          → Playable g)
      → ((i s : ℕ) → get_or w.rooms i none ≡ some s → (w.room s).board_size % 2 ≡ 0)
      → ServerOk (room_destroy dismissed_world r)
  unfolding room_destroy
  ServerOk-destroy ok games boards = record {
    world = room_destroy-WorldOk dismissed_world r (OthersOk-dismiss_all r n 0 w ok);
    games = λ i s g h e. games i s g (old_entry i s h) (old_game s ∙ e);
    boards = λ i s h.
        ap (λ m. (m s).board_size % 2) (frame_later.0 ∙ frame.0) ∙ boards i s (old_entry i s h);
  }
    where
      frame : (dismissed_world.room ≡ w.room) × (dismissed_world.rooms ≡ w.rooms)
      frame = dismiss_all-frame n 0 (w.room r).players w

      later : World
      later = dismiss_all 4 0 (dismissed_world.room r).players dismissed_world

      frame_later : (later.room ≡ dismissed_world.room) × (later.rooms ≡ dismissed_world.rooms)
      frame_later = dismiss_all-frame 4 0 (dismissed_world.room r).players dismissed_world

      old_game : (s : ℕ) → (w.room s).game ≡ ((room_destroy dismissed_world r).room s).game
      old_game s = ap (λ m. (m s).game) (sym (frame_later.0 ∙ frame.0))

      old_entry :
          (i s : ℕ)
          → get_or (room_destroy dismissed_world r).rooms i none ≡ some s
          → get_or w.rooms i none ≡ some s
      old_entry i s h =
          ap (λ xs. get_or xs i none) (sym (frame_later.1 ∙ frame.1))
          ∙ clear_slot_entry (find_player later.max_rooms 0 later.rooms r) later.rooms i s h

pub ServerOk-end_game :
    (w : World) (r j : ℕ) (g : Game)
    → get_or w.rooms j none ≡ some r
    → ServerOk w
    → ServerOk (end_game w r g)
unfolding end_game
ServerOk-end_game w r j g listed ok =
    ServerOk-destroy w2 r (w2.room r).player_count
      (WorldOk-OthersOk w2 r j (ap (λ xs. get_or xs j none) (rooms-sent w w1 told) ∙ listed)
        w2_ok.world)
      w2_ok.games w2_ok.boards
  where
    message : Message
    message = game_end (final_scores w.client g.player_count 0 g.players g.player_scores)

    w1 : World
    w1 = room_broadcast w r message

    told : OnlySends w w1
    told = room_broadcast-OnlySends w r message

    w2 : World
    w2 = set_room w1 r (record (w1.room r) { game = none; state = finished })

    w1_listed : get_or w1.rooms j none ≡ some r
    w1_listed = ap (λ xs. get_or xs j none) (rooms-sent w w1 told) ∙ listed

    w1_ok : ServerOk w1
    w1_ok = ServerOk-sent w w1 told ok

    w2_ok : ServerOk w2
    w2_ok =
        ServerOk-set_room w1 r j w1_ok w1_listed
          (record (w1.room r) { game = none; state = finished }) refl
          (w1_ok.world.rooms j r w1_listed).slots refl refl (λ h e. absurd (none-ne-some e))
