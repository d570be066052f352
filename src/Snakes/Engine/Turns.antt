-- ===== src/Snakes/Engine/Turns.antt =====
-- SnakeLadderEngine.ts: the turns as a state machine, over any sequence of calls.
use usbi.Prelude.{
  ℕ, ◌≤◌, ◌≡◌, refl, true, false, ◌&&◌, not, none, some, [], ◌∷◌, if◌then◌else◌, arith, ◌⊎◌, inl,
  inr, if_cases, ◌≢◌,
}
use usbi.Prelude.Int.{ℤ, pos, ltb_ℤ, ◌+ℤ◌, ◌-ℤ◌, eq_of_parts}
use usbi.Snakes.WeightedRandom.{Draw, IsDraw, weighted_random, weighted_random_correct, ok}
use usbi.Snakes.Engine.{
  Difficulty, GameState, idle, player_turn, resolving_player_tile, ai_turn, resolving_ai_tile,
  game_over, fail_tenths, tenths, Who, player, ai, SnakeLadderState, SnakeLadderConfig, same,
  construct, win_position, final_position, bounce, die, Decision, fail, optimal, is_optimal, settle,
  resolve_tile, roll_player, play_decided, is_idle, is_player_turn, is_ai_turn,
}
use usbi.Snakes.Engine.Board.{IsCell, IsBoard, die_bounds, bounce-IsCell, final_position-IsCell}

module _ (x : GameState) where
  pub idle-eq : is_idle x ≡ true → x ≡ idle
  idle-eq h = ground arith

  pub player_turn-eq : is_player_turn x ≡ true → x ≡ player_turn
  player_turn-eq h = ground arith

  pub ai_turn-eq : is_ai_turn x ≡ true → x ≡ ai_turn
  ai_turn-eq h = ground arith

  pub not-idle : is_idle x ≡ false → x ≢ idle
  not-idle h e = ground arith

  pub not-player_turn : is_player_turn x ≡ false → x ≢ player_turn
  not-player_turn h e = ground arith

  pub not-ai_turn : is_ai_turn x ≡ false → x ≢ ai_turn
  not-ai_turn h e = ground arith

-- Between calls the game is in one of four states; it is over exactly when there is a winner, whose
-- piece is then on the winning cell.
abbrev pub IsPhase : SnakeLadderConfig → SnakeLadderState → Type 0
IsPhase c s =
    (((s.state ≡ idle) ⊎ ((s.state ≡ player_turn) ⊎ (s.state ≡ ai_turn))) × (s.winner ≡ none))
    ⊎ (((s.state ≡ game_over) × (s.winner ≡ some player) × (s.player_position ≡ win_position c))
        ⊎ ((s.state ≡ game_over) × (s.winner ≡ some ai) × (s.ai_position ≡ win_position c)))

pub record IsValid (n : ℕ) (c : SnakeLadderConfig) (s : SnakeLadderState) : Type 0 where
  pub phase : IsPhase c s
  pub player_cell : IsCell n s.player_position
  pub ai_cell : IsCell n s.ai_position

same-eq : (a b : ℤ) → same a b ≡ true → a ≡ b
same-eq a b h = eq_of_parts a b (ground arith)

pub construct-IsValid : (n : ℕ) (c : SnakeLadderConfig) → IsBoard n c → IsValid n c (construct c)
unfolding construct
construct-IsValid n c b = record {
  phase = inl (inl refl, refl);
  player_cell = b.first;
  ai_cell = b.first;
}

settle-IsValid :
    (n : ℕ) (c : SnakeLadderConfig) (who : Who) (p : ℤ) (s : SnakeLadderState)
    → IsCell n p
    → IsCell n s.player_position
    → IsCell n s.ai_position
    → s.winner ≡ none
    → IsValid n c (settle c who p s)
unfolding settle
settle-IsValid n c player p s h k l w =
    if_cases (IsValid n c) (same p (win_position c))
      (λ e. record {
        phase = inr (inl (refl, refl, same-eq p (win_position c) e));
        player_cell = h;
        ai_cell = l;
      })
      (λ e. record { phase = inl (inr (inr refl), w); player_cell = h; ai_cell = l })
settle-IsValid n c ai p s h k l w =
    if_cases (IsValid n c) (same p (win_position c))
      (λ e. record {
        phase = inr (inr (refl, refl, same-eq p (win_position c) e));
        player_cell = k;
        ai_cell = h;
      })
      (λ e. record { phase = inl (inr (inl refl), w); player_cell = k; ai_cell = h })

-- Where the player's piece comes to rest.
abbrev pub player_rest : SnakeLadderConfig → Draw → SnakeLadderState → ℤ
player_rest c d s = final_position c (bounce (win_position c) (s.player_position +ℤ pos (die d)))

pub player-winner :
    (c : SnakeLadderConfig) (s : SnakeLadderState)
    → IsPhase c s
    → s.state ≡ player_turn
    → s.winner ≡ none
player-winner c s v e = ground arith

pub ai-winner :
    (c : SnakeLadderConfig) (s : SnakeLadderState)
    → IsPhase c s
    → s.state ≡ ai_turn
    → s.winner ≡ none
ai-winner c s v e = ground arith

-- The state in which `resolveTile` finds the player's piece.
abbrev player_moved : SnakeLadderConfig → Draw → SnakeLadderState → SnakeLadderState
player_moved c d s = record s {
  state = resolving_player_tile;
  player_position = bounce (win_position c) (s.player_position +ℤ pos (die d));
  last_roll = pos (die d);
}

pub roll_player-settle :
    (c : SnakeLadderConfig) (d : Draw) (s : SnakeLadderState)
    → s.state ≡ player_turn
    → roll_player c d s ≡ some (settle c player (player_rest c d s) (player_moved c d s))
unfolding roll_player resolve_tile
roll_player-settle c d s e = simp e

-- What the AI adds to its position.
abbrev pub ai_roll : SnakeLadderConfig → Decision → Draw → SnakeLadderState → ℤ
ai_roll c x d s =
    let remaining = win_position c -ℤ s.ai_position in
    if is_optimal x && not (ltb_ℤ (pos 6) remaining) then remaining else pos (die d)

abbrev pub ai_target : SnakeLadderConfig → Decision → Draw → SnakeLadderState → ℤ
ai_target c x d s = bounce (win_position c) (s.ai_position +ℤ ai_roll c x d s)

abbrev ai_moved : SnakeLadderConfig → Decision → Draw → SnakeLadderState → SnakeLadderState
ai_moved c x d s = record s {
  state = resolving_ai_tile;
  ai_position = ai_target c x d s;
  last_roll = ai_roll c x d s;
}

pub play_decided-settle :
    (c : SnakeLadderConfig) (x : Decision) (d : Draw) (s : SnakeLadderState)
    → play_decided c x d s ≡ settle c ai (final_position c (ai_target c x d s)) (ai_moved c x d s)
unfolding play_decided resolve_tile
play_decided-settle c x d s = refl

exact-IsCell : (n : ℕ) (p : ℤ) → 7 ≤ n → IsCell n p → IsCell n (bounce (pos n) (p +ℤ (pos n -ℤ p)))
unfolding bounce ◌+ℤ◌ ◌-ℤ◌
exact-IsCell n p h (low, high) = ground arith

module _ (n : ℕ) (c : SnakeLadderConfig) (s : SnakeLadderState) (b : IsBoard n c)
    (v : IsValid n c s) where
  pub roll_player-IsValid :
      (d : Draw)
      → IsDraw d
      → s.state ≡ player_turn
      → (s' : SnakeLadderState) × (roll_player c d s ≡ some s') × IsValid n c s'
  roll_player-IsValid d h e =
      let (low, high) = die_bounds d h in
      let target : IsCell n (bounce (win_position c) (s.player_position +ℤ pos (die d))) =
        rw b.last (bounce-IsCell n (die d) s.player_position b.long high v.player_cell) in
      let rest = final_position-IsCell n c _ b target in
      let won = player-winner c s v.phase e in
      (
        settle c player (player_rest c d s) (player_moved c d s),
        roll_player-settle c d s e,
        settle-IsValid n c player (player_rest c d s) _ rest target v.ai_cell won,
      )

  pub play_decided-IsValid :
      (x : Decision) (d : Draw) → IsDraw d → s.winner ≡ none → IsValid n c (play_decided c x d s)
  play_decided-IsValid x d h e =
      let (low, high) = die_bounds d h in
      let target : IsCell n (ai_target c x d s) = rw b.last (
        if_cases (λ r. IsCell n (bounce (pos n) (s.ai_position +ℤ r)))
          (is_optimal x && not (ltb_ℤ (pos 6) (pos n -ℤ s.ai_position)))
          (λ _. exact-IsCell n s.ai_position b.long v.ai_cell)
          (λ _. bounce-IsCell n (die d) s.ai_position b.long high v.ai_cell)) in
      let rest = final_position-IsCell n c (ai_target c x d s) b target in
      rw (play_decided-settle c x d s) (
        settle-IsValid n c ai (final_position c (ai_target c x d s)) (ai_moved c x d s) rest
          v.player_cell target e)

pub fail_tenths-le : (x : Difficulty) (remaining : ℤ) → fail_tenths x remaining ≤ 10
unfolding fail_tenths
fail_tenths-le x remaining = ground arith

pub decided :
    (c : SnakeLadderConfig) (d : Draw) (remaining : ℤ)
    → IsDraw d
    → (x : Decision) × (weighted_random
          (fail ∷ optimal ∷ [])
          (tenths (fail_tenths c.ai_difficulty remaining))
          d
        ≡ ok x)
decided c d remaining h =
    let f = fail_tenths c.ai_difficulty remaining in
    let (x, made, _) =
      weighted_random_correct fail (optimal ∷ []) (tenths f) d refl
        (ground arith, (ground arith, tt)) (omega (arith, fail_tenths-le c.ai_difficulty remaining))
        h in
    (x, made)
