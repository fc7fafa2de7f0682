-- ===== src/Reconnect/Tests.antt =====
-- RECONNECT in a game of two: the client 8 has lost its connection, and comes back as 9.
use tmwmf_sem_ups.Base.{
  ℕ, zero, suc, ◌<◌, ◌≡◌, ◌≢◌, refl, inl, inr, ◌∙◌, ap, sym, subst, true, none, some, List, [], ◌∷◌,
  get_or, arith, pos, negsuc, ◌↔◌, some_eq,
}
use tmwmf_sem_ups.Client.{Client}
use tmwmf_sem_ups.Text.{atoi}
use tmwmf_sem_ups.Game.{Game, Card, hidden, revealed, no_card}
use tmwmf_sem_ups.ClientList.{client_list_find_by_id}
use tmwmf_sem_ups.World.{World, set_client}
use tmwmf_sem_ups.Play.Steps.{ServerOk, ServerOk-set_client}
use tmwmf_sem_ups.Play.Tests.{on, on-ServerOk, running, seats}
use tmwmf_sem_ups.Server.{Server}
use tmwmf_sem_ups.Reconnect.{handle_reconnect, game_format_state_message}
use tmwmf_sem_ups.Reconnect.Outcome.{SitsLow}
use tmwmf_sem_ups.Reconnect.Accept.{MayReturn, TakesPlace, handle_reconnect_accepts}
use tmwmf_sem_ups.Reconnect.Secret.{SameFace, game_format_state_message_iff}

abbrev pub lost : Client
lost = record (on.client 8) { is_disconnected = true; disconnect_time = 100; socket_fd = negsuc 0 }

abbrev pub waiting_for : World
waiting_for = set_client on 8 lost

pub waiting_for-ServerOk : ServerOk waiting_for
waiting_for-ServerOk = ServerOk-set_client on 8 lost refl on-ServerOk

abbrev pub server : Server
server = record {
  world = waiting_for;
  list = record {
    client_array = some 7 ∷ some 8 ∷ some 9 ∷ none ∷ [];
    max_clients = 4;
    client_count = 3;
  };
  running = true;
  max_clients = 4;
  next_client_id = 10;
  listen_fd = pos 3;
  freed = [];
  threads = 7 ∷ 8 ∷ 9 ∷ [];
}

-- "8"
abbrev pub eight : List ℕ
eight = 56 ∷ []

reads_eight : atoi eight ≡ pos 8
unfolding atoi
reads_eight = refl

found : client_list_find_by_id server.world.client server.list 8 ≡ some 8
unfolding client_list_find_by_id
found = refl

eight-SitsLow : SitsLow waiting_for 8
eight-SitsLow r e =
    subst
      (λ q.
        ((j : ℕ) × (get_or waiting_for.rooms j none ≡ some q))
        × ((k : ℕ)
            → get_or (waiting_for.room q).players k none ≡ some 8
            → k < (waiting_for.room q).player_count))
      (some_eq e) ((0, refl), low)
  where
    low : (k : ℕ) → get_or (waiting_for.room 100).players k none ≡ some 8 → k < 2
    low k h = elim (seats k 8 h) [ inl (e', _) ↦ omega arith | inr (e', _) ↦ omega arith ]

eight_may : MayReturn server eight 150 8 8
eight_may = (reads_eight, omega arith, found, inl (refl, omega arith))

handle_reconnect_accepts_example : TakesPlace server (handle_reconnect server 9 eight 150) 9 8 150
handle_reconnect_accepts_example =
    handle_reconnect_accepts server 9 eight 150 8 8 eight_may (λ e. omega arith) eight-SitsLow

pub eight_old :
    (id o : ℕ)
    → client_list_find_by_id server.world.client server.list id ≡ some o
    → atoi eight ≡ pos id
    → (9 ≢ o) × SitsLow waiting_for o
eight_old id o h e =
    subst (λ q. (9 ≢ q) × SitsLow waiting_for q) (some_eq (sym found ∙ at_eight ∙ h))
      (λ f. omega arith, eight-SitsLow)
  where
    pos_eq : pos 8 ≡ pos id → 8 ≡ id
    pos_eq f = cc

    at_eight :
        client_list_find_by_id server.world.client server.list 8
        ≡ client_list_find_by_id server.world.client server.list id
    at_eight =
        ap (client_list_find_by_id server.world.client server.list) (pos_eq (sym reads_eight ∙ e))

-- Two cards, of which one is hidden.
abbrev shown : ℕ → List Card
shown v = record { value = 3; state = revealed } ∷ record { value = v; state = hidden } ∷ []

abbrev small : ℕ → Game
small v = record running { cards = shown v; total_cards = 2 }

game_format_state_message_iff_example :
    (game_format_state_message on.client (small 5) ≡ game_format_state_message on.client (small 6))
    ↔ ((k : ℕ) → k < 2 → SameFace (get_or (shown 5) k no_card) (get_or (shown 6) k no_card))
game_format_state_message_iff_example =
    game_format_state_message_iff on.client (small 5) (shown 6) (positive 5 (omega arith))
      (positive 6 (omega arith))
  where
    positive : (v : ℕ) → 0 < v → (k : ℕ) → k < 2 → 0 < (get_or (shown v) k no_card).value
    positive v h zero lt = omega arith
    positive v h (suc zero) lt = h
    positive v h (suc (suc k)) lt = absurd (omega arith)
