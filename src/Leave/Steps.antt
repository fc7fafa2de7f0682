-- ===== src/Leave/Steps.antt =====
-- The steps of `room_remove_player` in server_src/room.c keep the table of rooms valid, or valid
-- but for the room that is taken apart; and a client that has left stays in the lobby.
use tmwmf_sem_ups.Base.{
  eq_or_ne, none-ne-some, some_eq, ℕ, zero, suc, ◌+◌, ◌-◌, ◌≤◌, ◌<◌, ◌≡◌, ◌≢◌, refl, ◌⊎◌, inl, inr,
  Option, none, some, List, length, length-set, get_or, get_elem?-eq-get_or, get_or-set_self,
  get_or-set_ne, get_or-ge, set, set-ge, arith, ◌∙◌, ap, sym, subst, tally-set, occupied,
}
use tmwmf_sem_ups.Client.{Client, store_self, store_ne}
use tmwmf_sem_ups.World.{World, Room, set_room}
use tmwmf_sem_ups.World.Broadcast.{OnlySends}
use tmwmf_sem_ups.Room.{leave, dismiss}
use tmwmf_sem_ups.Room.Valid.{SlotsOk, RoomOk}
use tmwmf_sem_ups.Room.Table.{
  WorldOk, OthersOk, TableOk-set_room, TableOk-set_client, RoomOk-set_client, RoomOk-set_room,
  OthersOk-set_room, OthersOk-dismiss,
}
use tmwmf_sem_ups.Room.Destroy.{dismiss-client, dismiss-frame}
use tmwmf_sem_ups.Leave.{vacate, release}

-- A client in the lobby stays there.
abbrev pub StaysOut : ℕ → World → World → Type 0
StaysOut c w w' = (v : Client) → w.client c ≡ leave v → w'.client c ≡ leave v

pub StaysOut-dismiss : (c : ℕ) (w : World) (p : Option ℕ) → StaysOut c w (dismiss w p)
StaysOut-dismiss c w p v e = elim (dismiss-client c w p) [
  | inl (_, f) ↦ f ∙ ap leave e
  | inr (_, f) ↦ f ∙ e
]

-- Messages do not matter.
pub WorldOk-sent : {w w' : World} → OnlySends w w' → WorldOk w → WorldOk w'
WorldOk-sent {w} {w'} e ok = subst WorldOk (sym e) (record {
  table = record { size = ok.table.size; older = ok.table.older; apart = ok.table.apart };
  rooms = λ i s h. record { slots = (ok.rooms i s h).slots; back = (ok.rooms i s h).back };
})

pub OthersOk-sent : {w w' : World} {r : ℕ} → OnlySends w w' → OthersOk w r → OthersOk w' r
OthersOk-sent {w} {w'} {r} e ok =
    subst (λ x. OthersOk x r) (sym e)
      (record {
        table = record { size = ok.table.size; older = ok.table.older; apart = ok.table.apart };
        others = λ i s ne h. record {
          slots = (ok.others i s ne h).slots;
          back = (ok.others i s ne h).back;
        };
        own = ok.own;
      })

pub client-sent : (w w' : World) → OnlySends w w' → w'.client ≡ w.client
client-sent w w' e = ap (λ (x : World). x.client) e

pub room-sent : (w w' : World) → OnlySends w w' → w'.room ≡ w.room
room-sent w w' e = ap (λ (x : World). x.room) e

pub rooms-sent : (w w' : World) → OnlySends w w' → w'.rooms ≡ w.rooms
rooms-sent w w' e = ap (λ (x : World). x.rooms) e

-- An entry after a slot is cleared was there before, in another slot.
pub cleared_entry :
    (players : List (Option ℕ)) (i k d : ℕ)
    → i < length players
    → get_or (set players i none) k none ≡ some d
    → (i ≢ k) × (get_or players k none ≡ some d)
cleared_entry players i k d lt h = elim (eq_or_ne i k) [
  | inl e ↦ absurd (
      none-ne-some (
        sym (get_or-set_self players i none none lt)
        ∙ ap (λ q. get_or (set players i none) q none) e
        ∙ h))
  | inr ne ↦ (ne, sym (get_or-set_ne players i k none none ne) ∙ h)
]

-- A slot that holds a player is one of the array's.
pub held_below :
    (players : List (Option ℕ)) (i c : ℕ) → get_or players i none ≡ some c → i < length players
held_below players i c h = elim (range i) [
  | inl lt ↦ lt
  | inr ge ↦ absurd (none-ne-some (sym (get_or-ge players i none ge) ∙ h))
]
  where
    range : (i : ℕ) → (i < length players) ⊎ (length players ≤ i)
    range i = omega arith

SlotsOk-clear :
    {max count : ℕ} {players : List (Option ℕ)} (i c : ℕ)
    → SlotsOk max count players
    → get_or players i none ≡ some c
    → SlotsOk max (count - 1) (set players i none)
SlotsOk-clear {max} {count} {players} i c ok h = record {
  size = length-set players i none ∙ ok.size;
  limit = ok.limit;
  counted = omega (
    arith,
    ok.counted,
    tally-set occupied players i (some c) none
        (get_elem?-eq-get_or players i none (held_below players i c h) ∙ ap some h),
  );
  vacant = λ k le. empty_still k (ok.vacant k le) (eq_or_ne i k);
  distinct = λ j k d ne h1 h2.
      ok.distinct j k d ne (cleared_entry players i j d (held_below players i c h) h1).1
        (cleared_entry players i k d (held_below players i c h) h2).1;
}
  where
    empty_still :
        (k : ℕ)
        → get_or players k none ≡ none
        → (i ≡ k) ⊎ (i ≢ k)
        → get_or (set players i none) k none ≡ none
    empty_still k e (inl f) =
        ap (λ q. get_or (set players i none) q none) (sym f)
        ∙ get_or-set_self players i none none (held_below players i c h)
    empty_still k e (inr ne) = get_or-set_ne players i k none none ne ∙ e

-- One player leaves a room of a valid table.
module _ (w : World) (r c i j : ℕ) (ok : WorldOk w) (listed : get_or w.rooms j none ≡ some r)
    (seated : get_or (w.room r).players i none ≡ some c) where
  abbrev vacated : Room
  vacated = record (w.room r) {
    players = set (w.room r).players i none;
    player_count = (w.room r).player_count - 1;
  }

  mine : RoomOk w r
  mine = ok.rooms j r listed

  pub vacate-WorldOk : WorldOk (vacate w r c i)
  unfolding vacate
  vacate-WorldOk = record {
    table =
        TableOk-set_client (set_room w r vacated) c (leave (w.client c))
          (TableOk-set_room w r vacated refl ok.table);
    rooms = λ k s h. elim (eq_or_ne r s) [
      | inl e ↦ subst (λ q. RoomOk (vacate w r c i) q) e here
      | inr ne ↦
          RoomOk-set_client (set_room w r vacated) c (leave (w.client c)) s
            (λ f. ne (some_eq (sym (mine.back i c seated) ∙ f)))
            (RoomOk-set_room w r s vacated ne (ok.rooms k s h))
    ];
  }
    where
      old_entry :
          (k d : ℕ)
          → get_or ((vacate w r c i).room r).players k none ≡ some d
          → (i ≢ k) × (get_or (w.room r).players k none ≡ some d)
      old_entry k d h =
          cleared_entry (w.room r).players i k d (held_below (w.room r).players i c seated)
            (ap (λ (x : Room). get_or x.players k none) (sym (store_self w.room r vacated)) ∙ h)

      here : RoomOk (vacate w r c i) r
      here = record {
        slots =
            subst (λ (x : Room). SlotsOk x.max_players x.player_count x.players)
              (sym (store_self w.room r vacated)) (SlotsOk-clear i c mine.slots seated);
        back = λ k d h.
            ap (λ (x : Client). x.room)
              (store_ne w.client c d (leave (w.client c)) (λ e.
                mine.slots.distinct i k c (old_entry k d h).0 seated
                  ((old_entry k d h).1 ∙ ap some (sym e))))
            ∙ mine.back k d (old_entry k d h).1;
      }

  pub vacate-client : (vacate w r c i).client c ≡ leave (w.client c)
  unfolding vacate
  vacate-client = store_self w.client c (leave (w.client c))

-- The loop that empties a room.
module _ (r : ℕ) where
  pub release-OthersOk : (n j : ℕ) (w : World) → OthersOk w r → OthersOk (release n j r w) r
  unfolding release
  release-OthersOk zero j w ok = ok
  release-OthersOk (suc n) j w ok = release-OthersOk n (j + 1) _ (
      OthersOk-set_room w' r (record (w.room r) { players = set (w.room r).players j none })
        (ap (λ m. (m r).room_id) (sym (dismiss-frame r w p).0))
        (λ k d h.
          dismissed.own k d
            (ap (λ m. get_or (m r).players k none) (dismiss-frame r w p).0 ∙ still k d h))
        dismissed)
    where
      p : Option ℕ
      p = get_or (w.room r).players j none

      w' : World
      w' = dismiss w p

      dismissed : OthersOk w' r
      dismissed = OthersOk-dismiss w r p (λ d h. ok.own j d h) ok

      still :
          (k d : ℕ)
          → get_or (set (w.room r).players j none) k none ≡ some d
          → get_or (w.room r).players k none ≡ some d
      still k d h = elim (range j) [
        | inl lt ↦ (cleared_entry (w.room r).players j k d lt h).1
        | inr ge ↦ sym (ap (λ xs. get_or xs k none) (set-ge (w.room r).players j none ge)) ∙ h
      ]
        where
          range : (j : ℕ) → (j < length (w.room r).players) ⊎ (length (w.room r).players ≤ j)
          range j = omega arith

  pub StaysOut-release : (c n j : ℕ) (w : World) → StaysOut c w (release n j r w)
  unfolding release
  StaysOut-release c zero j w v e = e
  StaysOut-release c (suc n) j w v e =
      StaysOut-release c n (j + 1) _ v (StaysOut-dismiss c w (get_or (w.room r).players j none) v e)
