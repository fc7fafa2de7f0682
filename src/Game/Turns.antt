-- ===== src/Game/Turns.antt =====
-- Whose turn it is and who scores, in server_src/game.c.
use tmwmf_sem_ups.Base.{◌+◌, ◌%◌, ◌≡◌, some, Bool, true, false, index?, get_or, set, arith, ◌⊎◌}
use tmwmf_sem_ups.Game.{Card, Game, finished, game_check_match}

-- What two cards of the same value bring: the player scores one pair and stays on turn, and the
-- game is over when that was the last pair.
abbrev pub Scored : Game → Game → Type 0
Scored g g' =
    (g'.current_player_index ≡ g.current_player_index)
    × (g'.player_scores
        ≡ set g.player_scores g.current_player_index
            (get_or g.player_scores g.current_player_index 0 + 1))
    × (g'.matched_pairs ≡ g.matched_pairs + 1)
    × (g'.matched_pairs ≡ g.total_pairs → g'.state ≡ finished)

-- What two cards of different values bring: no score, and the turn of the next player, in a circle.
abbrev pub Passed : Game → Game → Type 0
Passed g g' =
    (g'.current_player_index ≡ (g.current_player_index + 1) % g.player_count)
    × (g'.player_scores ≡ g.player_scores)
    × (g'.matched_pairs ≡ g.matched_pairs)
    × (g'.state ≡ g.state)

-- After two flips the result says whether the two indexed cards have the same value; with it the
-- player scores a pair and stays on turn (the last pair ends the game), without it the turn passes
-- to the next player with no score. Either way no flip of the turn is left over, and the players
-- and the number of pairs are the same.
pub game_check_match_turn :
    (g g' : Game) (m : Bool) (a b : Card)
    → g.flips_this_turn ≡ 2
    → index? g.cards g.first_card_index ≡ some a
    → index? g.cards g.second_card_index ≡ some b
    → game_check_match g ≡ some (g', m)
    → (((m ≡ true) × (a.value ≡ b.value) × Scored g g')
        ⊎ ((m ≡ false) × (¬ (a.value ≡ b.value)) × Passed g g'))
      × (g'.flips_this_turn ≡ 0)
      × (g'.players ≡ g.players)
      × (g'.player_count ≡ g.player_count)
      × (g'.total_pairs ≡ g.total_pairs)
unfolding game_check_match
game_check_match_turn g g' m a b f ea eb h = ground arith
