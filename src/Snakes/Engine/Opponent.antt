-- ===== src/Snakes/Engine/Opponent.antt =====
-- SnakeLadderEngine.ts, playAITurn: what the difficulty and the draws decide; and boards on which
-- the bounce leaves the board.
use usbi.Prelude.{
  ℕ, ◌-◌, ◌*◌, ◌≤◌, ◌<◌, ◌≡◌, refl, ◌∙◌, sym, ap, true, false, none, some, [], ◌∷◌, arith, inl, inr,
  Bool-cases,
}
use usbi.Prelude.Int.{ℤ, pos, ltb_ℤ, ◌+ℤ◌, ◌-ℤ◌, ◌≤ℤ◌}
use usbi.Snakes.WeightedRandom.{Draw, IsDraw, weighted_random, ok}
use usbi.Snakes.BoardMap.{map_to_grid}
use usbi.Snakes.Engine.{
  player_turn, ai_turn, resolving_ai_tile, game_over, fail_tenths, tenths, Difficulty, ai,
  SnakeLadderState, SnakeLadderConfig, win_position, find, final_position, bounce, die, Decision,
  fail, optimal, settle, roll_player, play_decided, play_ai_turn, is_ai_turn,
}
use usbi.Snakes.Engine.Turns.{
  roll_player-settle, ai_roll, ai_target, play_decided-settle, decided, ai_turn-eq,
}

-- The AI's turn once its roll is fixed.
ai_played : SnakeLadderConfig → SnakeLadderState → ℤ → SnakeLadderState
ai_played c s roll =
    let target = bounce (win_position c) (s.ai_position +ℤ roll) in
    settle c ai (final_position c target)
      (record s { state = resolving_ai_tile; ai_position = target; last_roll = roll })

play_decided-ai_played :
    (c : SnakeLadderConfig) (x : Decision) (d : Draw) (s : SnakeLadderState)
    → play_decided c x d s ≡ ai_played c s (ai_roll c x d s)
unfolding ai_played
play_decided-ai_played c x d s = play_decided-settle c x d s

ai_roll-far :
    (c : SnakeLadderConfig) (x : Decision) (d : Draw) (s : SnakeLadderState)
    → ltb_ℤ (pos 6) (win_position c -ℤ s.ai_position) ≡ true
    → ai_roll c x d s ≡ pos (die d)
ai_roll-far c fail d s h = refl
ai_roll-far c optimal d s h = simp h

-- Far from the end the decision does not matter, near the end the difficulty does not.
decision-irrelevant :
    (c : SnakeLadderConfig) (x y : Decision) (d : Draw) (s : SnakeLadderState)
    → ltb_ℤ (pos 6) (win_position c -ℤ s.ai_position) ≡ true
    → play_decided c x d s ≡ play_decided c y d s
decision-irrelevant c x y d s h =
    play_decided-ai_played c x d s
    ∙ ap (ai_played c s) (ai_roll-far c x d s h ∙ sym (ai_roll-far c y d s h))
    ∙ sym (play_decided-ai_played c y d s)

tenths-near :
    (x y : Difficulty) (remaining : ℤ)
    → ltb_ℤ (pos 6) remaining ≡ false
    → fail_tenths x remaining ≡ fail_tenths y remaining
unfolding fail_tenths
tenths-near x y remaining h = ground arith

play-decided :
    (c : SnakeLadderConfig) (d₁ d₂ : Draw) (s : SnakeLadderState) (x : Decision)
    → s.state ≡ ai_turn
    → weighted_random
        (fail ∷ optimal ∷ [])
        (tenths (fail_tenths c.ai_difficulty (win_position c -ℤ s.ai_position)))
        d₁
      ≡ ok x
    → play_ai_turn c d₁ d₂ s ≡ some (play_decided c x d₂ s)
unfolding play_ai_turn
play-decided c d₁ d₂ s x e h = simp (e, h)

play_decided-config :
    (c : SnakeLadderConfig) (level : Difficulty) (x : Decision) (d : Draw) (s : SnakeLadderState)
    → play_decided (record c { ai_difficulty = level }) x d s ≡ play_decided c x d s
unfolding play_decided
play_decided-config c level x d s = refl

-- The difficulty of the AI has no effect: with the same draws the turn leads to the same state at
-- every difficulty, in every state and on every board.
pub difficulty_irrelevant :
    (c : SnakeLadderConfig) (level : Difficulty) (d₁ d₂ : Draw) (s : SnakeLadderState)
    → IsDraw d₁
    → play_ai_turn (record c { ai_difficulty = level }) d₁ d₂ s ≡ play_ai_turn c d₁ d₂ s
difficulty_irrelevant c level d₁ d₂ s h =
    let c' = record c { ai_difficulty = level } in
    let remaining = win_position c -ℤ s.ai_position in
    elim (Bool-cases (is_ai_turn s.state)) [
      | inr away ↦ unfold play_ai_turn in simp away
      | inl here ↦
          let turn : s.state ≡ ai_turn = ai_turn-eq s.state here in
          let (x, chosen) = decided c d₁ remaining h in
          let (y, chosen') = decided c' d₁ remaining h in
          elim (Bool-cases (ltb_ℤ (pos 6) remaining)) [
            | inl far ↦
                play-decided c' d₁ d₂ s y turn chosen'
                ∙ ap some (play_decided-config c level y d₂ s ∙ decision-irrelevant c y x d₂ s far)
                ∙ sym (play-decided c d₁ d₂ s x turn chosen)
            | inr near ↦
                let chosen'' = rw (tenths-near c.ai_difficulty level remaining near) at chosen in
                play-decided c' d₁ d₂ s x turn chosen''
                ∙ ap some (play_decided-config c level x d₂ s)
                ∙ sym (play-decided c d₁ d₂ s x turn chosen)
          ]
    ]

optimal-above :
    (d : Draw)
    → 8 * d.den < 10 * d.num
    → weighted_random (fail ∷ optimal ∷ []) (tenths 8) d ≡ ok optimal
unfolding weighted_random
optimal-above d h = ground arith

exact : (n : ℕ) (p : ℤ) → p ≤ℤ pos n → bounce (pos n) (p +ℤ (pos n -ℤ p)) ≡ pos n
unfolding bounce ◌+ℤ◌ ◌-ℤ◌
exact n p h = ground arith

near-end :
    (n : ℕ) (p : ℤ)
    → p ≤ℤ pos n
    → pos n ≤ℤ p +ℤ pos 6
    → (ltb_ℤ (pos 6) (pos n -ℤ p) ≡ false) × (ltb_ℤ (pos 10) (pos n -ℤ p) ≡ false)
unfolding ◌+ℤ◌ ◌-ℤ◌
near-end n p h k = (ground arith, ground arith)

eight :
    (c : SnakeLadderConfig) (n : ℕ) (p : ℤ)
    → win_position c ≡ pos n
    → ltb_ℤ (pos 10) (pos n -ℤ p) ≡ false
    → fail_tenths c.ai_difficulty (win_position c -ℤ p) ≡ 8
unfolding fail_tenths
eight c n p w h = rw w (simp h)

plain :
    (n : ℕ) (c : SnakeLadderConfig) (p : ℤ)
    → find (pos n) c.ladders ≡ none
    → find (pos n) c.snakes ≡ none
    → p ≡ pos n
    → final_position c p ≡ pos n
unfolding final_position
plain n c p l k e = ground arith

settled :
    (n : ℕ) (c : SnakeLadderConfig) (p : ℤ) (s : SnakeLadderState)
    → win_position c ≡ pos n
    → find (pos n) c.ladders ≡ none
    → find (pos n) c.snakes ≡ none
    → p ≡ pos n
    → let s' = settle c ai (final_position c p) s in
      (s'.state ≡ game_over) × (s'.winner ≡ some ai) × (s'.ai_position ≡ pos n)
unfolding settle
settled n c p s w l k e = ground (arith, plain n c p l k e)

-- In the AI's turn, six cells or fewer from the end and with no link on the last cell, the AI wins
-- at once if its first draw is above 0.8.
pub ai_wins_above :
    (n : ℕ) (c : SnakeLadderConfig) (d₁ d₂ : Draw) (s : SnakeLadderState)
    → s.state ≡ ai_turn
    → win_position c ≡ pos n
    → s.ai_position ≤ℤ pos n
    → pos n ≤ℤ s.ai_position +ℤ pos 6
    → find (pos n) c.ladders ≡ none
    → find (pos n) c.snakes ≡ none
    → 8 * d₁.den < 10 * d₁.num
    → (s' : SnakeLadderState) × (play_ai_turn c d₁ d₂ s ≡ some s')
      × (s'.state ≡ game_over)
      × (s'.winner ≡ some ai)
      × (s'.ai_position ≡ pos n)
ai_wins_above n c d₁ d₂ s e w low near l k above =
    let (within, within') = near-end n s.ai_position low near in
    let chosen : weighted_random (fail ∷ optimal ∷ [])
          (tenths (fail_tenths c.ai_difficulty (win_position c -ℤ s.ai_position))) d₁
        ≡ ok optimal =
      rw (eight c n s.ai_position w within') (optimal-above d₁ above) in
    let roll : ai_roll c optimal d₂ s ≡ win_position c -ℤ s.ai_position = rw w (simp within) in
    let target : ai_target c optimal d₂ s ≡ pos n = rw (roll, w) (exact n s.ai_position low) in
    let (over, won, at) = settled n c (ai_target c optimal d₂ s) _ w l k target in
    let same_state = play_decided-settle c optimal d₂ s in
    (
      play_decided c optimal d₂ s,
      play-decided c d₁ d₂ s optimal e chosen,
      ap (λ (t : SnakeLadderState). t.state) same_state ∙ over,
      ap (λ (t : SnakeLadderState). t.winner) same_state ∙ won,
      ap (λ (t : SnakeLadderState). t.ai_position) same_state ∙ at,
    )

-- On a board of n cells, 2 ≤ n ≤ 5, a player on the last cell but one who rolls a six in the turn of
-- the player, where no ladder and no snake starts at the position n - 5, bounces to n - 5: off the
-- board, where the position has no place on the grid.
pub small_board_bounce :
    (n w h : ℕ) (c : SnakeLadderConfig) (d : Draw) (s : SnakeLadderState)
    → 2 ≤ n
    → n ≤ 5
    → win_position c ≡ pos n
    → s.state ≡ player_turn
    → s.player_position ≡ pos (n - 1)
    → die d ≡ 6
    → find (pos n -ℤ pos 5) c.ladders ≡ none
    → find (pos n -ℤ pos 5) c.snakes ≡ none
    → (s' : SnakeLadderState) × (roll_player c d s ≡ some s')
      × (s'.player_position ≡ pos n -ℤ pos 5)
      × (map_to_grid s'.player_position w h ≡ none)
unfolding settle final_position find map_to_grid bounce ◌+ℤ◌ ◌-ℤ◌
small_board_bounce n w h c d s p q e t at six nl ns =
    let left = record s {
      state = ai_turn;
      player_position = pos n -ℤ pos 5;
      last_roll = pos 6;
      message = "AI's turn";
    } in
    (left, ground (arith, roll_player-settle c d s t), refl, ground arith)
