-- ===== src/Leave/Valid.antt =====
-- `room_remove_player` of server_src/room.c, whichever way the room goes on.
use tmwmf_sem_ups.Base.{
  eq_or_ne, ℕ, ◌<◌, ◌≡◌, ◌≢◌, refl, ◌⊎◌, inl, inr, Bool, ◌&&◌, Option, none, some, get_or, arith,
  ◌∙◌, ap, subst, ltb, ◌==◌, Bool-cases,
}
use tmwmf_sem_ups.Game.{Game, find_player}
use tmwmf_sem_ups.Game.Seats.{FirstSeat, find_player-FirstSeat}
use tmwmf_sem_ups.Forfeit.{forfeit_scores, final_scores}
use tmwmf_sem_ups.World.{
  World, Room, waiting, set_room, Message, room_broadcast, game_end_forfeit, room_closed,
  room_owner_changed,
}
use tmwmf_sem_ups.World.Broadcast.{OnlySends, room_broadcast-OnlySends}
use tmwmf_sem_ups.Room.{leave, dismiss_all, room_destroy}
use tmwmf_sem_ups.Room.Valid.{RoomOk}
use tmwmf_sem_ups.Room.Table.{
  WorldOk, OthersOk, WorldOk-OthersOk, TableOk-set_room, RoomOk-set_room, RoomOk-set_self,
  OthersOk-set_room,
}
use tmwmf_sem_ups.Room.Destroy.{OthersOk-dismiss_all, room_destroy-WorldOk, still_left}
use tmwmf_sem_ups.Leave.{
  room_remove_player, remove_from, vacate, after_leave, after_owner, destroy_if_empty, hand_over,
  find_connected, close_room, forfeit, release, empty_room,
}
use tmwmf_sem_ups.Leave.Steps.{
  StaysOut, WorldOk-sent, OthersOk-sent, client-sent, rooms-sent, vacate-WorldOk, vacate-client,
  release-OthersOk, StaysOut-release, held_below,
}

-- The table is valid afterwards, and a client that was in the lobby still is.
abbrev pub Fine : ℕ → World → World → Type 0
Fine c w w' = WorldOk w' × StaysOut c w w'

module _ (c r : ℕ) where
  destroy-StaysOut : (w : World) → StaysOut c w (room_destroy w r)
  unfolding room_destroy
  destroy-StaysOut w v e = still_left c (w.room r).players 4 0 w v e

  Fine-destroy : (w : World) → OthersOk w r → Fine c w (room_destroy w r)
  Fine-destroy w ok = (room_destroy-WorldOk w r ok, destroy-StaysOut w)

  Fine-destroy_if_empty :
      (w : World) (j : ℕ)
      → WorldOk w
      → get_or w.rooms j none ≡ some r
      → Fine c w (destroy_if_empty w r)
  unfolding destroy_if_empty
  Fine-destroy_if_empty w j ok listed = elim (Bool-cases ((w.room r).player_count == 0)) [
    | inl t ↦ rw t (Fine-destroy w (WorldOk-OthersOk w r j listed ok))
    | inr f ↦ rw f (ok, λ v e. e)
  ]

  Fine-close_room : (w : World) → OthersOk w r → Fine c w (close_room w r)
  unfolding close_room
  Fine-close_room w ok = (
    room_destroy-WorldOk (dismiss_all 4 0 (sent.room r).players sent) r
        (OthersOk-dismiss_all r 4 0 sent (OthersOk-sent told ok)),
    λ v e. destroy-StaysOut (dismiss_all 4 0 (sent.room r).players sent) v (
        still_left c (sent.room r).players 4 0 sent v
          (ap (λ m. m c) (client-sent w sent told) ∙ e)),
  )
    where
      sent : World
      sent = room_broadcast w r room_closed

      told : OnlySends w sent
      told = room_broadcast-OnlySends w r room_closed

  pub Fine-empty_room : (w : World) → OthersOk w r → Fine c w (empty_room w r)
  unfolding empty_room
  Fine-empty_room w ok = (
    room_destroy-WorldOk last r last_ok,
    λ v e. destroy-StaysOut last v (StaysOut-release r c 4 0 ended v e),
  )
    where
      ended : World
      ended = set_room w r (record (w.room r) { game = none; state = waiting })

      emptied : World
      emptied = release 4 0 r ended

      last : World
      last = set_room emptied r (record (emptied.room r) { player_count = 0 })

      emptied_ok : OthersOk emptied r
      emptied_ok = release-OthersOk r 4 0 ended (
          OthersOk-set_room w r (record (w.room r) { game = none; state = waiting }) refl
            (λ k e h. ok.own k e h) ok)

      last_ok : OthersOk last r
      last_ok =
          OthersOk-set_room emptied r (record (emptied.room r) { player_count = 0 }) refl
            (λ k e h. emptied_ok.own k e h) emptied_ok

  Fine-forfeit : (w : World) (d : ℕ) (g : Game) → OthersOk w r → Fine c w (forfeit w r d g)
  unfolding forfeit
  Fine-forfeit w d g ok =
      let (valid, out) = Fine-empty_room sent (OthersOk-sent told ok) in
      (valid, λ v e. out v (ap (λ m. m c) (client-sent w sent told) ∙ e))
    where
      message : Message
      message =
          game_end_forfeit (final_scores w.client g.player_count 0 g.players (forfeit_scores g d))

      sent : World
      sent = room_broadcast w r message

      told : OnlySends w sent
      told = room_broadcast-OnlySends w r message

  -- The new owner changes nothing else.
  Fine-hand_over :
      (w : World) (j : ℕ) (o : Option ℕ)
      → WorldOk w
      → get_or w.rooms j none ≡ some r
      → Fine c w (hand_over w r o) × (get_or (hand_over w r o).rooms j none ≡ some r)
  unfolding hand_over
  Fine-hand_over w j none ok listed = ((ok, λ v e. e), listed)
  Fine-hand_over w j (some o) ok listed = (
    (WorldOk-sent told owned_ok, λ v e. ap (λ m. m c) (client-sent owned sent told) ∙ e),
    ap (λ xs. get_or xs j none) (rooms-sent owned sent told) ∙ listed,
  )
    where
      room : Room
      room = record (w.room r) { owner = o }

      owned : World
      owned = set_room w r room

      sent : World
      sent = room_broadcast owned r (room_owner_changed (w.client o).nickname)

      told : OnlySends owned sent
      told = room_broadcast-OnlySends owned r (room_owner_changed (w.client o).nickname)

      owned_ok : WorldOk owned
      owned_ok = record {
        table = TableOk-set_room w r room refl ok.table;
        rooms = λ k s h. elim (eq_or_ne r s) [
          | inl e ↦
              subst (λ q. RoomOk owned q) e
                (RoomOk-set_self w r room (ok.rooms j r listed).slots (ok.rooms j r listed).back)
          | inr ne ↦ RoomOk-set_room w r s room ne (ok.rooms k s h)
        ];
      }

  Fine-after_owner :
      (w : World) (j d : ℕ)
      → WorldOk w
      → get_or w.rooms j none ≡ some r
      → Fine c w (after_owner w r d)
  unfolding after_owner
  Fine-after_owner w j d ok listed =
      let w' = hand_over w r (find_connected w.client 4 0 (w.room r).players) in
      let ((ok', out), listed') =
        Fine-hand_over w j (find_connected w.client 4 0 (w.room r).players) ok listed in
      elim (Bool-cases ((w'.room r).owner == d)) [
        | inl t ↦ rw t (
            let (ok'', out') = Fine-close_room w' (WorldOk-OthersOk w' r j listed' ok') in
            (ok'', λ v e. out' v (out v e)))
        | inr f ↦ rw f (
            let (ok'', out') = Fine-destroy_if_empty w' j ok' listed' in
            (ok'', λ v e. out' v (out v e)))
      ]

  Fine-after_leave :
      (w : World) (j d : ℕ) (was_owner : Bool) (g : Option Game)
      → WorldOk w
      → get_or w.rooms j none ≡ some r
      → Fine c w (after_leave w r d was_owner g)
  unfolding after_leave
  Fine-after_leave w j d was_owner none ok listed =
      elim (Bool-cases (was_owner && ltb 0 (w.room r).player_count)) [
        | inl t ↦ rw t (Fine-after_owner w j d ok listed)
        | inr f ↦ rw f (Fine-destroy_if_empty w j ok listed)
      ]
  Fine-after_leave w j d was_owner (some g) ok listed =
      elim (Bool-cases (ltb (w.room r).player_count 2)) [
        | inl t ↦ rw t (Fine-forfeit w d g (WorldOk-OthersOk w r j listed ok))
        | inr f ↦ elim (Bool-cases (was_owner && ltb 0 (w.room r).player_count)) [
          | inl t ↦ rw (f, t) (Fine-after_owner w j d ok listed)
          | inr h ↦ rw (f, h) (Fine-destroy_if_empty w j ok listed)
        ]
      ]

-- `room_remove_player` refuses exactly a client that is not in the room. Otherwise the client is in
-- the lobby afterwards, without a room, and the table of rooms is valid again: whether the room
-- goes on, changes its owner, closes, or ends its game by forfeit.
pub room_remove_player-WorldOk :
    (w : World) (r j c : ℕ)
    → WorldOk w
    → get_or w.rooms j none ≡ some r
    → (((i : ℕ) → get_or (w.room r).players i none ≢ some c) × (room_remove_player w r c ≡ none))
      ⊎ ((i : ℕ) × (get_or (w.room r).players i none ≡ some c)
          × (w' : World) × (room_remove_player w r c ≡ some w')
          × WorldOk w'
          × (w'.client c ≡ leave (w.client c)))
unfolding room_remove_player remove_from vacate
room_remove_player-WorldOk w r j c ok listed =
    found (find_player 4 0 (w.room r).players c) (find_player-FirstSeat 4 0 (w.room r).players c)
  where
    size : (i : ℕ) → get_or (w.room r).players i none ≡ some c → i < 4
    size i h = omega (arith, held_below (w.room r).players i c h, (ok.rooms j r listed).slots.size)

    found :
        (p : Option ℕ)
        → FirstSeat 4 0 (w.room r).players c p
        → (((i : ℕ) → get_or (w.room r).players i none ≢ some c) × (remove_from w r c p ≡ none))
          ⊎ ((i : ℕ) × (get_or (w.room r).players i none ≡ some c)
              × (w' : World) × (remove_from w r c p ≡ some w')
              × WorldOk w'
              × (w'.client c ≡ leave (w.client c)))
    found none absent = inl (λ i h. absent i (omega arith) (omega (arith, size i h)) h, refl)
    found (some i) (_, _, seated, _) =
        let (fine, out) =
          Fine-after_leave c r (vacate w r c i) j c ((w.room r).owner == c) (w.room r).game
            (vacate-WorldOk w r c i j ok listed seated) (vacate-rooms i) in
        inr (i, seated, _, refl, fine, out (w.client c) (vacate-client w r c i j ok listed seated))
      where
        vacate-rooms : (i : ℕ) → get_or (vacate w r c i).rooms j none ≡ some r
        vacate-rooms i = listed
