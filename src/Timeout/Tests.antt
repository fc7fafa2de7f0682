-- ===== src/Timeout/Tests.antt =====
-- The timeout checker at a client that has been away for 100 seconds.
use tmwmf_sem_ups.Base.{◌≡◌, ◌⊎◌, refl, [], ◌∷◌}
use tmwmf_sem_ups.ClientList.{client_list_remove}
use tmwmf_sem_ups.Play.Steps.{ServerOk}
use tmwmf_sem_ups.Play.Start.{InTable}
use tmwmf_sem_ups.Reconnect.Tests.{server, waiting_for-ServerOk}
use tmwmf_sem_ups.World.{set_client}
use tmwmf_sem_ups.Server.{Server, with_world}
use tmwmf_sem_ups.Ping.{pinged}
use tmwmf_sem_ups.Timeout.{check_client}
use tmwmf_sem_ups.Timeout.Expiry.{
  Lost, check_client_frees, check_client-ServerOk, silent_client_freed,
}

check_client_frees_example :
    (Lost (server.world.client 8) 200
      × ((check_client server 200 8).freed ≡ 8 ∷ [])
      × ((check_client server 200 8).list ≡ client_list_remove server.list 8))
    ⊎ (¬ Lost (server.world.client 8) 200
        × ((check_client server 200 8).freed ≡ [])
        × ((check_client server 200 8).list ≡ server.list))
check_client_frees_example = check_client_frees server 200 8

eight-InTable : InTable server.world 8
eight-InTable r e = (0, e)

check_client-ServerOk_example : ServerOk (check_client server 200 8).world
check_client-ServerOk_example =
    check_client-ServerOk server 200 8 waiting_for-ServerOk eight-InTable

-- The client 7 was sent a PING at 100.
abbrev asked : Server
asked = with_world server (set_client server.world 7 (pinged (server.world.client 7) 100))

silent_client_freed_example : (check_client (check_client asked 110 7) 250 7).freed ≡ 7 ∷ []
silent_client_freed_example = silent_client_freed asked 7 110 250 refl refl
