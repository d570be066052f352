-- ===== src/Snakes/Engine/Games.antt =====
-- SnakeLadderEngine.ts: any sequence of calls, from the constructor on.
use usbi.Prelude.{
  ℕ, ◌≡◌, refl, Option, none, some, List, [], ◌∷◌, arith, ◌⊎◌, inl, inr, Bool-cases, ◌≢◌,
}
use usbi.Prelude.Int.{◌-ℤ◌}
use usbi.Snakes.WeightedRandom.{Draw, IsDraw}
use usbi.Snakes.Engine.{
  GameState, idle, player_turn, ai_turn, ai_thinking, SnakeLadderState, SnakeLadderConfig,
  construct, win_position, Decision, start_game, roll_player, play_decided, play_ai_turn, is_idle,
  is_player_turn, is_ai_turn,
}
use usbi.Snakes.Engine.Board.{IsCell, IsBoard}
use usbi.Snakes.Engine.Turns.{
  IsValid, IsPhase, construct-IsValid, roll_player-IsValid, play_decided-IsValid, decided,
  ai-winner, idle-eq, player_turn-eq, ai_turn-eq, not-idle, not-player_turn, not-ai_turn,
}

-- The calls of the game, with the draws that they make.
pub data Call : Type 0 where
  starts : Call
  rolls : Draw → Call
  plays : Draw → Draw → Call

unfoldable pub call : SnakeLadderConfig → Call → SnakeLadderState → Option SnakeLadderState
call c starts s = start_game s
call c (rolls d) s = roll_player c d s
call c (plays d₁ d₂) s = play_ai_turn c d₁ d₂ s

abbrev pub AreDraws : Call → Type 0
AreDraws starts = Unit {0}
AreDraws (rolls d) = IsDraw d
AreDraws (plays d₁ d₂) = IsDraw d₁ × IsDraw d₂

-- The state in which a call is accepted.
abbrev pub turn_of : Call → GameState
turn_of starts = idle
turn_of (rolls d) = player_turn
turn_of (plays d₁ d₂) = ai_turn

play_decided-state :
    (c : SnakeLadderConfig) (x : Decision) (d : Draw) (s : SnakeLadderState)
    → play_decided c x d (record s { state = ai_thinking }) ≡ play_decided c x d s
unfolding play_decided
play_decided-state c x d s = refl

-- What a call does: succeed with a valid state in its own turn, or throw in any other.
abbrev pub Answers : ℕ → SnakeLadderConfig → Call → SnakeLadderState → Type 0
Answers n c k s =
    ((s.state ≡ turn_of k) × ((s' : SnakeLadderState) × (call c k s ≡ some s') × IsValid n c s'))
    ⊎ ((s.state ≢ turn_of k) × (call c k s ≡ none))

module _ (n : ℕ) (c : SnakeLadderConfig) (s : SnakeLadderState) (b : IsBoard n c)
    (v : IsValid n c s) where
  start-Answers : Answers n c starts s
  unfolding call start_game
  start-Answers = elim (Bool-cases (is_idle s.state)) [
    | inl e ↦
        let s' = record s { state = player_turn; message = "¡Juego iniciado. Tu turno!" } in
        let unwon : s.winner ≡ none = won (idle-eq s.state e) in
        inl (
          idle-eq s.state e,
          (
            s',
            simp e,
            record {
              phase = inl (inr (inl refl), unwon);
              player_cell = v.player_cell;
              ai_cell = v.ai_cell;
            },
          ),
        )
    | inr e ↦ inr (not-idle s.state e, simp e)
  ]
    where
      won : s.state ≡ idle → s.winner ≡ none
      won e = let w = v.phase in ground arith

  roll-Answers : (d : Draw) → IsDraw d → Answers n c (rolls d) s
  unfolding call
  roll-Answers d h = elim (Bool-cases (is_player_turn s.state)) [
    | inl e ↦
        let turn = player_turn-eq s.state e in inl (turn, roll_player-IsValid n c s b v d h turn)
    | inr e ↦ inr (not-player_turn s.state e, unfold roll_player in simp e)
  ]

  play-Answers : (d₁ d₂ : Draw) → IsDraw d₁ → IsDraw d₂ → Answers n c (plays d₁ d₂) s
  unfolding call
  play-Answers d₁ d₂ h k = elim (Bool-cases (is_ai_turn s.state)) [
    | inl e ↦
        let turn = ai_turn-eq s.state e in
        let (x, chosen) = decided c d₁ (win_position c -ℤ s.ai_position) h in
        let thinking = record s { state = ai_thinking } in
        let unwon = ai-winner c s v.phase turn in
        inl (
          turn,
          (
            play_decided c x d₂ thinking,
            unfold play_ai_turn in simp (e, chosen),
            rw (play_decided-state c x d₂ s) (play_decided-IsValid n c s b v x d₂ k unwon),
          ),
        )
    | inr e ↦ inr (not-ai_turn s.state e, unfold play_ai_turn in simp e)
  ]

pub call-Answers :
    (n : ℕ) (c : SnakeLadderConfig) (k : Call) (s : SnakeLadderState)
    → IsBoard n c
    → IsValid n c s
    → AreDraws k
    → Answers n c k s
call-Answers n c starts s b v h = start-Answers n c s b v
call-Answers n c (rolls d) s b v h = roll-Answers n c s b v d h
call-Answers n c (plays d₁ d₂) s b v h = play-Answers n c s b v d₁ d₂ h.0 h.1

-- A call that throws leaves the state as it was.
abbrev pub after : SnakeLadderState → Option SnakeLadderState → SnakeLadderState
after s none = s
after s (some s') = s'

unfoldable pub run : SnakeLadderConfig → List Call → SnakeLadderState → SnakeLadderState
run c [] s = s
run c (k ∷ ks) s = run c ks (after s (call c k s))

abbrev pub AllDraws : List Call → Type 0
AllDraws [] = Unit {0}
AllDraws (k ∷ ks) = AreDraws k × AllDraws ks

run-IsValid :
    (n : ℕ) (c : SnakeLadderConfig) (ks : List Call) (s : SnakeLadderState)
    → IsBoard n c
    → IsValid n c s
    → AllDraws ks
    → IsValid n c (run c ks s)
unfolding run
run-IsValid n c [] s b v h = v
run-IsValid n c (k ∷ ks) s b v h = elim (call-Answers n c k s b v h.0) [
  | inl (turn, (s', made, w)) ↦ rw (made, run) (run-IsValid n c ks s' b w h.1)
  | inr (away, thrown) ↦ rw (thrown, run) (run-IsValid n c ks s b v h.1)
]

-- On a board of seven cells or more, whose start and links lie on it, any sequence of calls with
-- any draws, accepted or not, leaves both pieces on the board, and the game is over exactly when
-- there is a winner, whose piece is then on the winning cell.
pub run_stays_on_board :
    (n : ℕ) (c : SnakeLadderConfig) (ks : List Call)
    → IsBoard n c
    → AllDraws ks
    → let s = run c ks (construct c) in
      IsCell n s.player_position × IsCell n s.ai_position × IsPhase c s
run_stays_on_board n c ks b h =
    let v = run-IsValid n c ks (construct c) b (construct-IsValid n c b) h in
    (v.player_cell, v.ai_cell, v.phase)
