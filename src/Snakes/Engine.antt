-- ===== src/Snakes/Engine.antt =====
-- frontend/packages/engine/src/games/snakes/SnakeLadderEngine.ts. Positions are integers. Each call
-- takes the draws of `random()` that it makes; `none` is a thrown Error. The probabilities 0, 0.1
-- and 0.8 are weights in tenths.
pub mod Board
pub mod Turns
pub mod Opponent
pub mod Games
use Prim.Native.String.{String}
use usbi.Prelude.{
  ℕ, zero, suc, ◌+◌, ◌-◌, Bool, true, false, ◌&&◌, not, Option, none, some, List, [], ◌∷◌, ◌==◌,
  if◌then◌else◌,
}
use usbi.Prelude.Int.{ℤ, pos, negsuc, pos_part, neg_part, ltb_ℤ, ◌+ℤ◌, ◌-ℤ◌}
use usbi.Snakes.WeightedRandom.{Draw, scale, weighted_random, Result, ok, err}

pub data GameState : Type 0 where
  idle starting player_turn player_rolling player_moving resolving_player_tile : GameState
  ai_turn ai_thinking ai_rolling ai_moving resolving_ai_tile game_over : GameState

pub data Who : Type 0 where
  player ai : Who

pub data Difficulty : Type 0 where
  easy medium hard : Difficulty

pub record Link : Type 0 where
  pub start : ℤ
  pub end : ℤ

pub record SnakeLadderState : Type 0 where
  pub state : GameState
  pub player_position : ℤ
  pub ai_position : ℤ
  pub winner : Option Who
  pub last_roll : ℤ
  pub message : String

pub record SnakeLadderConfig : Type 0 where
  pub board_size : ℤ
  pub start_position : Option ℤ
  pub end_position : Option ℤ
  pub snakes : List Link
  pub ladders : List Link
  pub ai_difficulty : Difficulty

abbrev pub or_else : Option ℤ → ℤ → ℤ
or_else none d = d
or_else (some z) d = z

-- `a === b` on numbers
abbrev pub same : ℤ → ℤ → Bool
same a b = pos_part a + neg_part b == pos_part b + neg_part a

unfoldable pub construct : SnakeLadderConfig → SnakeLadderState
construct c = record {
  state = idle;
  player_position = or_else c.start_position (pos 1);
  ai_position = or_else c.start_position (pos 1);
  winner = none;
  last_roll = pos 0;
  message = "";
}

abbrev pub is_idle : GameState → Bool
is_idle idle = true
is_idle _ = false

abbrev pub is_player_turn : GameState → Bool
is_player_turn player_turn = true
is_player_turn _ = false

abbrev pub is_ai_turn : GameState → Bool
is_ai_turn ai_turn = true
is_ai_turn _ = false

unfoldable pub start_game : SnakeLadderState → Option SnakeLadderState
start_game s =
    if is_idle s.state
    then some (record s { state = player_turn; message = "¡Juego iniciado. Tu turno!" })
    else none

abbrev pub win_position : SnakeLadderConfig → ℤ
win_position c = or_else c.end_position c.board_size

-- `links.find(l => l.start === position)`
unfoldable pub find : ℤ → List Link → Option Link
find position [] = none
find position (l ∷ ls) = if same l.start position then some l else find position ls

-- `finalPos`: a ladder overrules a snake.
unfoldable pub final_position : SnakeLadderConfig → ℤ → ℤ
final_position c position = elim (find position c.ladders) [
  | some ladder ↦ ladder.end
  | none ↦ elim (find position c.snakes) [ some snake ↦ snake.end | none ↦ position ]
]

-- The end of `resolveTile`; the messages of snakes and ladders are overwritten there in all cases.
unfoldable pub settle : SnakeLadderConfig → Who → ℤ → SnakeLadderState → SnakeLadderState
settle c player final s =
    if same final (win_position c)
    then record s {
      player_position = final;
      state = game_over;
      winner = some player;
      message = "¡El jugador gana!";
    }
    else record s { player_position = final; state = ai_turn; message = "AI's turn" }
settle c ai final s =
    if same final (win_position c)
    then record s {
      ai_position = final;
      state = game_over;
      winner = some ai;
      message = "¡La IA gana!";
    }
    else record s { ai_position = final; state = player_turn; message = "Player's turn" }

unfoldable pub resolve_tile : SnakeLadderConfig → Who → ℤ → SnakeLadderState → SnakeLadderState
unfolding final_position settle
resolve_tile c who position s = settle c who (final_position c position) s

-- Past the last cell the piece bounces back by the excess.
unfoldable pub bounce : ℤ → ℤ → ℤ
bounce end_ target = if ltb_ℤ end_ target then end_ -ℤ (target -ℤ end_) else target

-- `Math.floor(this.random() * 6) + 1`
unfoldable pub die : Draw → ℕ
unfolding scale
die d = scale d 6 + 1

unfoldable pub roll_player : SnakeLadderConfig → Draw → SnakeLadderState → Option SnakeLadderState
unfolding resolve_tile bounce die
roll_player c d s =
    let roll = pos (die d) in
    let rolling = record s { state = player_rolling; last_roll = roll } in
    let moving = record rolling { state = player_moving } in
    let target = bounce (win_position c) (s.player_position +ℤ roll) in
    let moved = record moving { player_position = target; state = resolving_player_tile } in
    if is_player_turn s.state then some (resolve_tile c player target moved) else none

-- `failProbability` in tenths.
unfoldable pub fail_tenths : Difficulty → ℤ → ℕ
fail_tenths difficulty remaining =
    if ltb_ℤ (pos 10) remaining then elim difficulty [ easy ↦ 8 | medium ↦ 0 | hard ↦ 1 ] else 8

pub data Decision : Type 0 where
  fail optimal : Decision

abbrev pub is_optimal : Decision → Bool
is_optimal fail = false
is_optimal optimal = true

abbrev pub tenths : ℕ → List ℤ
tenths f = pos f ∷ pos (10 - f) ∷ []

-- The turn after the decision.
unfoldable pub play_decided :
    SnakeLadderConfig → Decision → Draw → SnakeLadderState → SnakeLadderState
unfolding resolve_tile bounce die
play_decided c decision d s =
    let remaining = win_position c -ℤ s.ai_position in
    let roll =
      if is_optimal decision && not (ltb_ℤ (pos 6) remaining) then remaining else pos (die d) in
    let rolling = record s { last_roll = roll; state = ai_rolling } in
    let moving = record rolling { state = ai_moving } in
    let target = bounce (win_position c) (s.ai_position +ℤ roll) in
    let moved = record moving { ai_position = target; state = resolving_ai_tile } in
    resolve_tile c ai target moved

-- The first draw decides, the second is the die.
unfoldable pub play_ai_turn :
    SnakeLadderConfig → Draw → Draw → SnakeLadderState → Option SnakeLadderState
unfolding fail_tenths play_decided
play_ai_turn c d₁ d₂ s =
    let remaining = win_position c -ℤ s.ai_position in
    let thinking = record s { state = ai_thinking } in
    let decided =
      weighted_random (fail ∷ optimal ∷ []) (tenths (fail_tenths c.ai_difficulty remaining)) d₁ in
    let played : Option SnakeLadderState = elim decided [
      | err _ ↦ none
      | ok decision ↦ some (play_decided c decision d₂ thinking)
    ] in
    if is_ai_turn s.state then played else none
