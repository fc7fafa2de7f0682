-- ===== src/Forfeit.antt =====
-- The forfeit of a game, in `room_remove_player` of server_src/room.c and, in the same words, in
-- the timeout checker of server_src/server.c: the pairs that are left go to the remaining players
-- with the highest score.
pub mod Share
mod Tests
use tmwmf_sem_ups.Base.{
  ℕ, zero, suc, ◌+◌, ◌-◌, ◌/◌, ◌%◌, Bool, true, false, not, ◌&&◌, Option, none, some, List, [], ◌∷◌,
  ◌++◌, get_or, set, ltb, ◌==◌, if◌then◌else◌, points_to, is_null,
}
use tmwmf_sem_ups.Client.{Client, Memory}
use tmwmf_sem_ups.Game.{Game}

-- `players[k] != NULL && players[k] != client`
abbrev pub remains : Option ℕ → ℕ → Bool
remains p client = not (is_null p) && not (points_to p client)

-- `score > highest_score`, where `none` stands for the initial -1.
abbrev pub beats : ℕ → Option ℕ → Bool
beats score none = true
beats score (some highest) = ltb highest score

abbrev pub equals : ℕ → Option ℕ → Bool
equals score none = false
equals score (some highest) = score == highest

module _ (players : List (Option ℕ)) (client : ℕ) where
  -- One round of the first loop: a higher score starts the count anew, an equal one adds to it.
  pub next_highest : ℕ → ℕ → Option ℕ → Option ℕ
  next_highest k score highest =
      if remains (get_or players k none) client && beats score highest then some score else highest

  pub next_count : ℕ → ℕ → Option ℕ → ℕ → ℕ
  next_count k score highest count =
      if remains (get_or players k none) client && beats score highest
      then 1
      else if remains (get_or players k none) client && equals score highest
      then count + 1
      else count

  -- The first loop: the highest score so far and how many remaining players have it.
  pub find_highest : ℕ → ℕ → List ℕ → Option ℕ → ℕ → Option ℕ × ℕ
  unfolding next_highest next_count
  find_highest zero k scores highest count = (highest, count)
  find_highest (suc n) k scores highest count =
      find_highest n (k + 1) scores (next_highest k (get_or scores k 0) highest)
        (next_count k (get_or scores k 0) highest count)

  -- The second loop: `bonus` to each of them, and one more to the first `extra`.
  pub distribute : ℕ → ℕ → List ℕ → Option ℕ → ℕ → ℕ → List ℕ
  distribute zero k scores highest bonus extra = scores
  distribute (suc n) k scores highest bonus extra =
      let score = get_or scores k 0 in
      let wins = remains (get_or players k none) client && equals score highest in
      let more = wins && ltb 0 extra in
      distribute n (k + 1)
        (if wins then set scores k (score + bonus + (if more then 1 else 0)) else scores) highest
        bonus (if more then extra - 1 else extra)

-- The scores once the remaining pairs are given away.
unfoldable pub forfeit_scores : Game → ℕ → List ℕ
unfolding find_highest distribute
forfeit_scores g client =
    let (highest, count) = find_highest g.players client g.player_count 0 g.player_scores none 0 in
    let remaining : ℕ = g.total_pairs - g.matched_pairs in
    if ltb 0 count && ltb 0 remaining
    then distribute g.players client g.player_count 0 g.player_scores highest (remaining / count)
        (remaining % count)
    else g.player_scores

-- The nicknames and scores of the seats that hold a player, as GAME_END and GAME_END_FORFEIT list
-- them.
unfoldable pub final_scores : Memory Client → ℕ → ℕ → List (Option ℕ) → List ℕ → List (List ℕ × ℕ)
final_scores mem zero k players scores = []
final_scores mem (suc n) k players scores = elim (get_or players k none) [
  | none ↦ final_scores mem n (k + 1) players scores
  | some c ↦ ((mem c).nickname, get_or scores k 0) ∷ final_scores mem n (k + 1) players scores
]
