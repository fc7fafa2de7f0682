-- ===== src/Room/Enter.antt =====
-- `room_add_player` of server_src/room.c, in the table of all rooms.
use tmwmf_sem_ups.Base.{
  eq_or_ne, none-ne-some, ℕ, ◌<◌, ◌≡◌, ◌≢◌, refl, ◌⊎◌, inl, inr, none, some, get_or, ◌∙◌, sym,
  subst,
}
use tmwmf_sem_ups.World.{World, set_room}
use tmwmf_sem_ups.Room.{room_add_player, seat, enter}
use tmwmf_sem_ups.Room.Valid.{RoomOk}
use tmwmf_sem_ups.Room.Add.{Joined, room_add_player_lem, seated_room}
use tmwmf_sem_ups.Room.Table.{
  WorldOk, TableOk-set_room, TableOk-set_client, RoomOk-set_client, RoomOk-set_room,
}

module _ (w : World) (r j c : ℕ) (ok : WorldOk w) (listed : get_or w.rooms j none ≡ some r)
    (homeless : (w.client c).room ≡ none) where
  elsewhere : (s : ℕ) → (w.client c).room ≢ some s
  elsewhere s e = none-ne-some (sym homeless ∙ e)

  WorldOk-seat : (i : ℕ) → RoomOk (seat w r c i) r → WorldOk (seat w r c i)
  unfolding seat
  WorldOk-seat i mine = record {
    table =
        TableOk-set_client (set_room w r (seated_room (w.room r) c i)) c (enter (w.client c) r)
          (TableOk-set_room w r (seated_room (w.room r) c i) refl ok.table);
    rooms = λ k s h. elim (eq_or_ne r s) [
      | inl e ↦ subst (λ q. RoomOk (seat w r c i) q) e mine
      | inr ne ↦
          RoomOk-set_client (set_room w r (seated_room (w.room r) c i)) c (enter (w.client c) r) s
            (elsewhere s) (RoomOk-set_room w r s (seated_room (w.room r) c i) ne (ok.rooms k s h))
    ];
  }

  -- A client that is in no room is let into a room of a valid table exactly when the room is not
  -- full. The table is valid again, and the client sits in the room, in a slot that was free.
  pub room_add_player-WorldOk :
      (((w.room r).player_count ≡ (w.room r).max_players) × (room_add_player w r c ≡ none))
      ⊎ (((w.room r).player_count < (w.room r).max_players)
          × ((w' : World) × (room_add_player w r c ≡ some w') × WorldOk w' × Joined w r c w'))
  room_add_player-WorldOk = elim (room_add_player_lem w r c (ok.rooms j r listed)) [
    | inl (e, inl full) ↦ inl (full, e)
    | inl (e, inr (i, h)) ↦ absurd (elsewhere r ((ok.rooms j r listed).back i c h))
    | inr (lt, absent, (w', e, joined)) ↦ inr (
      lt,
      (
        w',
        e,
        subst WorldOk (sym joined.is_seat)
            (WorldOk-seat joined.slot (subst (λ x. RoomOk x r) joined.is_seat joined.valid)),
        joined,
      ),
    )
  ]
