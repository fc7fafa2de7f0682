-- ===== src/Reconnect/Reads.antt =====
-- The messages that tell of a game, of server_src/game.c, read no card outside the array and no
-- nickname through NULL.
use tmwmf_sem_ups.Base.{
  ℕ, zero, suc, ◌+◌, ◌≤◌, ◌<◌, ◌≡◌, ◌≢◌, ◌∙◌, ap, sym, Option, none, some, List, [], ◌∷◌, map,
  length, get_or, get_elem?, get_elem?-eq-get_or, get_or-eq, some_eq, none-ne-some, arith, ℤ,
}
use tmwmf_sem_ups.Client.{Client, Memory, nickname_at}
use tmwmf_sem_ups.Game.{Game, Card, no_card}
use tmwmf_sem_ups.Game.Players.{Playable}
use tmwmf_sem_ups.World.{Message, game_state}
use tmwmf_sem_ups.Play.{player_names}
use tmwmf_sem_ups.Reconnect.{
  card_number_at, card_numbers, names_and_scores, game_format_state_message,
}

-- No read has failed.
abbrev pub AllRead {ℓ} : {A : Type ℓ} → List (Option A) → Type ℓ
AllRead xs = (k : ℕ) → get_elem? xs k ≢ some none

-- A loop that stays within the array reads an element each time.
card_numbers-AllRead :
    (n i : ℕ) (cards : List Card) → i + n ≤ length cards → AllRead (card_numbers n i cards)
unfolding card_numbers
card_numbers-AllRead zero i cards h k = λ e. none-ne-some e
card_numbers-AllRead (suc n) i cards h zero = λ e. none-ne-some (
    some_eq (
      sym e
      ∙ ap (λ p. some (card_number_at p)) (get_elem?-eq-get_or cards i no_card (omega arith))))
card_numbers-AllRead (suc n) i cards h (suc k) =
    card_numbers-AllRead n (i + 1) cards (omega (arith, h)) k

-- A nickname that is read from a seat with a client.
nickname_read :
    (mem : Memory Client) (players : List (Option ℕ)) (i c : ℕ)
    → get_elem? players i ≡ some (some c)
    → some (nickname_at mem (get_or players i none)) ≢ some none
nickname_read mem players i c h e =
    none-ne-some (some_eq (sym e ∙ ap (λ p. some (nickname_at mem p)) (get_or-eq players i none h)))

-- The seats from `i` on, in the next `n`, hold clients.
abbrev Filled : ℕ → ℕ → List (Option ℕ) → Type 0
Filled n i players = (j : ℕ) → i ≤ j → j < i + n → (c : ℕ) × (get_elem? players j ≡ some (some c))

player_names-AllRead :
    (mem : Memory Client) (n i : ℕ) (players : List (Option ℕ))
    → Filled n i players
    → AllRead (player_names mem n i players)
unfolding player_names
player_names-AllRead mem zero i players filled k = λ e. none-ne-some e
player_names-AllRead mem (suc n) i players filled zero =
    let (c, h) = filled i (omega arith) (omega arith) in nickname_read mem players i c h
player_names-AllRead mem (suc n) i players filled (suc k) =
    player_names-AllRead mem n (i + 1) players (λ j lo hi. filled j (omega arith) (omega arith)) k

abbrev pub name_of : Option (List ℕ) × ℕ → Option (List ℕ)
name_of p = p.0

names_and_scores-AllRead :
    (mem : Memory Client) (n i : ℕ) (players : List (Option ℕ)) (scores : List ℕ)
    → Filled n i players
    → AllRead (map name_of (names_and_scores mem n i players scores))
unfolding names_and_scores
names_and_scores-AllRead mem zero i players scores filled k = λ e. none-ne-some e
names_and_scores-AllRead mem (suc n) i players scores filled zero =
    let (c, h) = filled i (omega arith) (omega arith) in nickname_read mem players i c h
names_and_scores-AllRead mem (suc n) i players scores filled (suc k) =
    names_and_scores-AllRead mem n (i + 1) players scores
      (λ j lo hi. filled j (omega arith) (omega arith)) k

-- What is read for a GAME_STATE message: the cards, and the nicknames.
abbrev pub told_cards : Message → List (Option ℤ)
told_cards message = elim message [ game_state _ _ _ cards ↦ cards | _ ↦ [] ]

abbrev pub told_names : Message → List (Option (List ℕ))
told_names message = elim message [
  | game_state _ current scores _ ↦ current ∷ map name_of scores
  | _ ↦ []
]

-- GAME_START and GAME_STATE for the game are made without a read that fails.
abbrev pub ReadsOk : Memory Client → Game → Type 0
ReadsOk mem g =
    AllRead (player_names mem g.player_count 0 g.players)
    × AllRead (told_names (game_format_state_message mem g))
    × AllRead (told_cards (game_format_state_message mem g))

pub Playable-ReadsOk : (mem : Memory Client) (g : Game) → Playable g → ReadsOk mem g
unfolding game_format_state_message
Playable-ReadsOk mem g v = (
  player_names-AllRead mem g.player_count 0 g.players filled,
  names,
  card_numbers-AllRead g.total_cards 0 g.cards (omega (arith, v.valid.sizes.cards_size)),
)
  where
    filled : Filled g.player_count 0 g.players
    filled j lo hi = v.seated j (omega arith)

    names : AllRead (told_names (game_format_state_message mem g))
    names zero =
        let (c, h) = v.seated g.current_player_index v.valid.sizes.current_seated in
        nickname_read mem g.players g.current_player_index c h
    names (suc k) = names_and_scores-AllRead mem g.player_count 0 g.players g.player_scores filled k
