-- ===== src/Ping/Tests.antt =====
-- A round of PINGs at concrete data.
use tmwmf_sem_ups.Base.{◌+◌, ◌≡◌, ◌⊎◌, true, false}
use tmwmf_sem_ups.ClientList.{client_list_get_all}
use tmwmf_sem_ups.Reconnect.Tests.{server}
use tmwmf_sem_ups.Ping.{ping_round}
use tmwmf_sem_ups.Ping.Round.{Due, elem, pings_to, ping_round_lem}

ping_round_lem_example :
    ((elem 7 (client_list_get_all server.list 4) ≡ true)
      × Due (server.world.client 7) 150
      × ((ping_round server 150).world.client 7
          ≡ record (server.world.client 7) { waiting_for_pong = true; last_ping_time = 150 })
      × (pings_to 7 (ping_round server 150).world.outbox ≡ pings_to 7 server.world.outbox + 1))
    ⊎ (((elem 7 (client_list_get_all server.list 4) ≡ false) ⊎ (¬ Due (server.world.client 7) 150))
        × ((ping_round server 150).world.client 7 ≡ server.world.client 7)
        × (pings_to 7 (ping_round server 150).world.outbox ≡ pings_to 7 server.world.outbox))
ping_round_lem_example = ping_round_lem server 150 7
