-- ===== src/Game/Progress.antt =====
-- A game of server_src/game.c can always be played to its end.
use tmwmf_sem_ups.Base.{
  ℕ, zero, suc, ◌+◌, ◌-◌, ◌<◌, ◌≡◌, ◌≢◌, refl, ◌⊎◌, inl, inr, none, some, List, [], ◌∷◌, length,
  get_elem?, get_or, get_or-eq, get_elem?-lt, get_elem?-set_self, get_elem?-set_ne, set, tally,
  tally-set, tally_witness, le-tally, arith, pos, sym, index?, length-set, ◌∙◌, Bool,
}
use tmwmf_sem_ups.Game.{
  hidden, matched, Card, Game, playing, finished, no_card, current_player, game_flip_card,
  game_check_match, reveal,
}
use tmwmf_sem_ups.Game.Flip.{MayFlip, reveal_fields, shown, flip_accepts, game_flip_card-IsValid}
use tmwmf_sem_ups.Game.Match.{game_check_match-IsValid}
use tmwmf_sem_ups.Game.Turns.{game_check_match_turn}
use tmwmf_sem_ups.Game.Valid.{IsValid, in_play, state_is_matched, state_is_revealed, Seated}

abbrev state_is_hidden : Card → ℕ
state_is_hidden c = elim c.state [ hidden ↦ 1 | _ ↦ 0 ]

tally_states :
    (cards : List Card)
    → tally state_is_hidden cards + tally state_is_revealed cards + tally state_is_matched cards
      ≡ length cards
tally_states [] = refl
tally_states (c ∷ cards) = ground (arith, tally_states cards)

-- Two face-down cards of one value.
record Twins (g : Game) : Type 0 where
  i : ℕ
  j : ℕ
  a : Card
  b : Card
  apart : i ≢ j
  first : get_elem? g.cards i ≡ some a
  second : get_elem? g.cards j ≡ some b
  first_down : a.state ≡ hidden
  second_down : b.state ≡ hidden
  same : a.value ≡ b.value

module _ (g : Game) (v : IsValid g) (calm : g.flips_this_turn ≡ 0) where
  hidden_of_in_play :
      (val j : ℕ) (b : Card)
      → get_elem? g.cards j ≡ some b
      → 0 < in_play val b
      → (b.state ≡ hidden) × (b.value ≡ val)
  hidden_of_in_play val j b e h =
      ground (arith, le-tally state_is_revealed g.cards j b e, v.counts.revealed_cards)

  some_hidden : g.matched_pairs < g.total_pairs → 0 < tally state_is_hidden g.cards
  some_hidden h = omega (arith, tally_states g.cards, v.counts, v.sizes)

  twin_from :
      (i : ℕ) (a : Card) (j : ℕ) (b : Card)
      → get_elem? g.cards i ≡ some a
      → a.state ≡ hidden
      → get_elem? (set g.cards i (record a { state = matched })) j ≡ some b
      → 0 < in_play a.value b
      → Twins g
  twin_from i a j b e down at_j h = record {
    i = i;
    j = j;
    a = a;
    b = b;
    apart = ne;
    first = e;
    second = other;
    first_down = down;
    second_down = found.0;
    same = sym found.1;
  }
    where
      ne : i ≢ j
      ne p = ground (
        arith,
        get_elem?-set_self g.cards i (record a { state = matched }) (get_elem?-lt g.cards i e),
      )

      other : get_elem? g.cards j ≡ some b
      other = sym (get_elem?-set_ne g.cards i j (record a { state = matched }) ne) ∙ at_j

      found : (b.state ≡ hidden) × (b.value ≡ a.value)
      found = hidden_of_in_play a.value j b other h

  twin_of : (i : ℕ) (a : Card) → get_elem? g.cards i ≡ some a → a.state ≡ hidden → Twins g
  twin_of i a e down =
      let gone : Card = record a { state = matched } in
      let (j, b, at_j, h) =
        tally_witness (in_play a.value) (set g.cards i gone)
          (ground (arith, v.paired a.value, tally-set (in_play a.value) g.cards i a gone e)) in
      twin_from i a j b e down at_j h

  hidden_state : (a : Card) → 0 < state_is_hidden a → a.state ≡ hidden
  hidden_state a h = ground arith

  twins : g.matched_pairs < g.total_pairs → Twins g
  twins h =
      let (i, a, e, p) = tally_witness state_is_hidden g.cards (some_hidden h) in
      twin_of i a e (hidden_state a p)

-- The games that flips and checks lead to.
pub data Reach (g : Game) : Game → Type 0 where
  here : Reach g g
  flip :
      {h h' : Game} (client i : ℕ)
      → Reach g h
      → game_flip_card h client (pos i) ≡ some h'
      → Reach g h'
  check : {h h' : Game} (m : Bool) → Reach g h → game_check_match h ≡ some (h', m) → Reach g h'

-- A game that waits for the first flip of a turn.
record AtTurn (g : Game) : Type 0 where
  valid : IsValid g
  calm : g.flips_this_turn ≡ 0
  seated : Seated g

module _ (g : Game) (client : ℕ) (t : Twins g) (v : IsValid g) (calm : g.flips_this_turn ≡ 0)
    (run : g.state ≡ playing) (turn : current_player g ≡ some client) where
  may_first : MayFlip g client t.i
  may_first = record {
    running = run;
    on_turn = turn;
    one_left = omega (arith, calm);
    on_board = omega (arith, v.sizes.cards_size, get_elem?-lt g.cards t.i t.first);
    face_down = rw (get_or-eq g.cards t.i no_card t.first) t.first_down;
  }

  one_turned : Game
  one_turned = reveal g t.i

  may_second : MayFlip (reveal g t.i) client t.j
  may_second =
      let r = reveal_fields g t.i in
      record {
        running = r.state_after ∙ run;
        on_turn = ground (arith, r, turn);
        one_left = omega (arith, calm, r.flips_after);
        on_board =
            omega
              (arith, v.sizes.cards_size, get_elem?-lt g.cards t.j t.second, r.total_cards_after);
        face_down = ground (arith, r.cards_after, t.second_down, still);
      }
    where
      still : get_or (set g.cards t.i (shown g t.i)) t.j no_card ≡ t.b
      still =
          get_or-eq (set g.cards t.i (shown g t.i)) t.j no_card
            (get_elem?-set_ne g.cards t.i t.j (shown g t.i) t.apart ∙ t.second)

  both_turned : Game
  both_turned = reveal (reveal g t.i) t.j

  first_index : index? both_turned.cards both_turned.first_card_index ≡ some (shown g t.i)
  unfolding both_turned
  first_index = ground (
    arith,
    calm,
    reveal_fields g t.i,
    reveal_fields (reveal g t.i) t.j,
    get_elem?-set_ne (set g.cards t.i (shown g t.i)) t.j t.i (shown (reveal g t.i) t.j)
        (λ p. t.apart (sym p)),
    get_elem?-set_self g.cards t.i (shown g t.i) (get_elem?-lt g.cards t.i t.first),
  )

  second_index :
      index? both_turned.cards both_turned.second_card_index ≡ some (shown (reveal g t.i) t.j)
  unfolding both_turned
  second_index = ground (
    arith,
    calm,
    reveal_fields g t.i,
    reveal_fields (reveal g t.i) t.j,
    get_elem?-set_self (set g.cards t.i (shown g t.i)) t.j (shown (reveal g t.i) t.j)
        (omega (arith, length-set g.cards t.i (shown g t.i), get_elem?-lt g.cards t.j t.second)),
  )

  same_value : (shown g t.i).value ≡ (shown (reveal g t.i) t.j).value
  same_value = ground (
    arith,
    t.same,
    get_or-eq g.cards t.i no_card t.first,
    get_or-eq g.cards t.j no_card t.second,
    (reveal_fields g t.i).cards_after,
    get_or-eq (set g.cards t.i (shown g t.i)) t.j no_card
        (get_elem?-set_ne g.cards t.i t.j (shown g t.i) t.apart ∙ t.second),
  )

  both_turned-IsValid : IsValid both_turned
  unfolding both_turned
  both_turned-IsValid =
      game_flip_card-IsValid (reveal g t.i) client t.j
        (game_flip_card-IsValid g client t.i v (flip_accepts g client t.i may_first))
        (flip_accepts (reveal g t.i) client t.j may_second)

  -- What taking the pair leads to.
  record Taken (g' : Game) : Type 0 where
    pub valid : IsValid g'
    pub one_more : g'.matched_pairs ≡ g.matched_pairs + 1
    pub calm_after : g'.flips_this_turn ≡ 0
    pub seats : g'.players ≡ g.players
    pub seat_count : g'.player_count ≡ g.player_count
    pub same_total : g'.total_pairs ≡ g.total_pairs

  taken :
      (g' : Game) (m : Bool) → game_check_match both_turned ≡ some (g', m) → IsValid g' → Taken g'
  unfolding both_turned
  taken g' m e v' =
      let rule =
        game_check_match_turn both_turned g' m (shown g t.i) (shown (reveal g t.i) t.j)
          (omega (
            arith,
            calm,
            (reveal_fields g t.i).flips_after,
            (reveal_fields (reveal g t.i) t.j).flips_after,
          ))
          first_index second_index e in
      let f = reveal_fields g t.i in
      let f' = reveal_fields (reveal g t.i) t.j in
      record {
        valid = v';
        one_more = ground (arith, rule.0, same_value, f.matched_after, f'.matched_after);
        calm_after = rule.1;
        seats = rule.2 ∙ f'.players_after ∙ f.players_after;
        seat_count = rule.3 ∙ f'.count_after ∙ f.count_after;
        same_total = rule.4 ∙ f'.total_pairs_after ∙ f.total_pairs_after;
      }

  take_pair : (start : Game) → Reach start g → (g' : Game) × Reach start g' × Taken g'
  unfolding both_turned
  take_pair start r =
      let (g', m, e, v') = game_check_match-IsValid both_turned both_turned-IsValid in
      (
        g',
        check m
            (flip client t.j (flip client t.i r (flip_accepts g client t.i may_first))
              (flip_accepts (reveal g t.i) client t.j may_second))
            e,
        taken g' m e v',
      )

state_cases :
    (g : Game) → IsValid g → 0 < g.matched_pairs → (g.state ≡ finished) ⊎ (g.state ≡ playing)
state_cases g v h = ground (arith, v.counts)

Seated-same :
    (g g' : Game) → g'.players ≡ g.players → g'.player_count ≡ g.player_count → Seated g → Seated g'
Seated-same g g' p c s i h = let (client, e) = s i (omega arith) in (client, rw p e)

module _ (start : Game) where
  -- With `n` pairs left, from any game that `start` leads to.
  finish :
      (n : ℕ) (g : Game)
      → Reach start g
      → IsValid g
      → Seated g
      → g.flips_this_turn ≡ 0
      → g.state ≡ playing
      → g.matched_pairs + n ≡ g.total_pairs
      → (g' : Game) × Reach start g' × (g'.state ≡ finished)
  finish zero g r v s calm run e = absurd (ground (arith, v.counts.not_over))
  finish (suc n) g r v s calm run e =
      let t = twins g v calm (omega arith) in
      let (client, seat) = s g.current_player_index v.sizes.current_seated in
      let (g', r', k) =
        take_pair g client t v calm run (get_or-eq g.players g.current_player_index none seat) start
          r in
      elim (state_cases g' k.valid (omega (arith, k.one_more))) [
        | inl done ↦ (g', r', done)
        | inr more ↦
            finish n g' r' k.valid (Seated-same g g' k.seats k.seat_count s) k.calm_after more
              (omega (arith, k.one_more, k.same_total))
      ]

-- From any valid game that is running, between two turns and with a client in each seat, some
-- sequence of accepted flips and match checks leads to a finished game.
pub game_can_finish :
    (g : Game)
    → IsValid g
    → Seated g
    → g.state ≡ playing
    → g.flips_this_turn ≡ 0
    → (g' : Game) × Reach g g' × (g'.state ≡ finished)
game_can_finish g v s run calm =
    finish g (g.total_pairs - g.matched_pairs) g here v s calm run
      (ground (arith, v.counts.not_over))
