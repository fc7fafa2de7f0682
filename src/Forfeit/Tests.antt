-- ===== src/Forfeit/Tests.antt =====
-- A forfeit at a concrete game: the client at 30 leaves, and two with equal scores remain.
use tmwmf_sem_ups.Base.{◌+◌, ◌-◌, ◌≡◌, refl, none, some, [], ◌∷◌, false, arith, negsuc, tally}
use tmwmf_sem_ups.Game.{Game, playing}
use tmwmf_sem_ups.Game.Valid.{itself}
use tmwmf_sem_ups.Forfeit.{forfeit_scores}
use tmwmf_sem_ups.Forfeit.Share.{forfeit_scores_total}

abbrev interrupted : Game
interrupted = record {
  board_size = 4;
  total_cards = 16;
  total_pairs = 8;
  cards = [];
  players = some 10 ∷ some 20 ∷ some 30 ∷ none ∷ [];
  player_count = 3;
  player_scores = 1 ∷ 1 ∷ 3 ∷ 0 ∷ [];
  player_ready = false ∷ false ∷ false ∷ false ∷ [];
  current_player_index = 0;
  first_card_index = negsuc 0;
  second_card_index = negsuc 0;
  flips_this_turn = 0;
  matched_pairs = 5;
  state = playing;
}

-- The two share the three pairs that are left, and the first gets the odd one.
forfeit_run : forfeit_scores interrupted 30 ≡ 3 ∷ 2 ∷ 3 ∷ 0 ∷ []
unfolding forfeit_scores
forfeit_run = refl

forfeit_scores_total_example : tally itself (forfeit_scores interrupted 30) ≡ 5 + (8 - 5)
forfeit_scores_total_example =
    forfeit_scores_total interrupted 30 (omega arith) (0, omega arith, refl)
