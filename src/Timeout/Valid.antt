-- ===== src/Timeout/Valid.antt =====
-- One round of `timeout_checker_thread_func` in server_src/server.c keeps the rooms and their games
-- valid.
use tmwmf_sem_ups.Base.{
  ℕ, ◌≡◌, refl, inl, inr, ◌∙◌, ap, Option, none, some, get_or, Bool-cases, negsuc, is_negative,
  if◌then◌else◌,
}
use tmwmf_sem_ups.Game.{Game}
use tmwmf_sem_ups.Forfeit.{forfeit_scores, final_scores}
use tmwmf_sem_ups.World.{World, Message, room_broadcast_except, game_end_forfeit}
use tmwmf_sem_ups.World.Broadcast.{OnlySends, room_broadcast_except-OnlySends}
use tmwmf_sem_ups.Room.Table.{WorldOk-OthersOk}
use tmwmf_sem_ups.Leave.{empty_room}
use tmwmf_sem_ups.Leave.Steps.{rooms-sent}
use tmwmf_sem_ups.Leave.Games.{empty_room-KeepsGames}
use tmwmf_sem_ups.Leave.Valid.{Fine-empty_room}
use tmwmf_sem_ups.Play.Steps.{ServerOk, ServerOk-sent, ServerOk-set_client, ServerOk-keeps}
use tmwmf_sem_ups.Play.Start.{InTable}
use tmwmf_sem_ups.Server.{close_socket}
use tmwmf_sem_ups.Server.Steps.{ServerOk-close, close_socket-frame}
use tmwmf_sem_ups.Timeout.{hang_up, forfeit_game, forfeit_room}

-- The new client at the address is in the room of the old one.
pub hang_up-ServerOk : (w : World) (c : ℕ) → ServerOk w → ServerOk (hang_up w c)
unfolding hang_up
hang_up-ServerOk w c ok =
    ServerOk-set_client (close_socket w (w.client c).socket_fd) c _ same_room
      (ServerOk-close w (w.client c).socket_fd ok)
  where
    closed_at : (close_socket w (w.client c).socket_fd).client ≡ w.client
    closed_at = (close_socket-frame w (w.client c).socket_fd).0

    same_room :
        (if is_negative (w.client c).socket_fd
          then w.client c
          else record (w.client c) { socket_fd = negsuc 0 }).room
        ≡ ((close_socket w (w.client c).socket_fd).client c).room
    same_room = elim (Bool-cases (is_negative (w.client c).socket_fd)) [
      | inl t ↦ rw t refl
      | inr f ↦ rw f refl
    ]

-- The room of a game that ends by forfeit is emptied and destroyed.
pub empty_room-ServerOk :
    (w : World) (r j : ℕ) → get_or w.rooms j none ≡ some r → ServerOk w → ServerOk (empty_room w r)
empty_room-ServerOk w r j listed ok =
    ServerOk-keeps w (empty_room w r) (empty_room-KeepsGames w r)
      (Fine-empty_room 0 r w (WorldOk-OthersOk w r j listed ok.world)).0 ok

forfeit_game-ServerOk :
    (w : World) (c r j : ℕ) (o : Option Game)
    → get_or w.rooms j none ≡ some r
    → ServerOk w
    → ServerOk (forfeit_game w c r o)
unfolding forfeit_game
forfeit_game-ServerOk w c r j none listed ok = ok
forfeit_game-ServerOk w c r j (some g) listed ok =
    empty_room-ServerOk sent r j (ap (λ xs. get_or xs j none) (rooms-sent w sent only) ∙ listed)
      (ServerOk-sent w sent only ok)
  where
    message : Message
    message =
        game_end_forfeit (final_scores w.client g.player_count 0 g.players (forfeit_scores g c))

    sent : World
    sent = room_broadcast_except w r message (some c)

    only : OnlySends w sent
    only = room_broadcast_except-OnlySends w r message (some c)

pub forfeit_room-ServerOk :
    (w : World) (c : ℕ) → InTable w c → ServerOk w → ServerOk (forfeit_room w c (w.client c).room)
forfeit_room-ServerOk w c in_table ok = by_room (w.client c).room refl
  where
    by_room : (p : Option ℕ) → (w.client c).room ≡ p → ServerOk (forfeit_room w c p)
    by_room none e = unfold forfeit_room in ok
    by_room (some r) e =
        let (j, listed) = in_table r e in
        unfold forfeit_room in forfeit_game-ServerOk w c r j (w.room r).game listed ok
