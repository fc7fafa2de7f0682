-- ===== src/Cleanup/Tests.antt =====
-- The connection of the last player that is left in a game is lost.
use tmwmf_sem_ups.Base.{ℕ, ◌≤◌, ◌≡◌, some, subst, some_eq, arith}
use tmwmf_sem_ups.Game.{Game, new_game}
use tmwmf_sem_ups.Play.Steps.{ServerOk}
use tmwmf_sem_ups.Play.Start.{InTable}
use tmwmf_sem_ups.Reconnect.Tests.{server, waiting_for-ServerOk}
use tmwmf_sem_ups.Cleanup.{clean_up}
use tmwmf_sem_ups.Cleanup.Valid.{Settled, clean_up-ServerOk}

seven-InTable : InTable server.world 7
seven-InTable r e = (0, e)

two_players :
    (r : ℕ) (g : Game)
    → (server.world.client 7).room ≡ some r
    → (server.world.room r).game ≡ some g
    → 2 ≤ g.player_count
unfolding new_game
two_players r g home e = subst (λ (h : Game). 2 ≤ h.player_count) (some_eq e) (omega arith)

clean_up-ServerOk_example :
    ServerOk (clean_up server 7 150).world × Settled server 7 (clean_up server 7 150)
clean_up-ServerOk_example =
    clean_up-ServerOk server 7 150 waiting_for-ServerOk seven-InTable two_players
