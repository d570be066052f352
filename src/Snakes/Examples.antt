-- ===== src/Snakes/Examples.antt =====
-- The snakes-and-ladders modules on a board of ten cells, and on smaller ones.
use usbi.Prelude.{ltb, ◌++◌, ℕ, ◌*◌, ◌≤◌, ◌≡◌, refl, none, some, List, [], ◌∷◌, length, arith}
use usbi.Prelude.Int.{ℤ, pos, ◌-ℤ◌}
use usbi.Snakes.BoardMap.{map_to_grid, cell_at, cell_at-map_to_grid}
use usbi.Snakes.WeightedRandom.{
  Draw, weighted_random, ok, Picks, NonNegative, weighted_random_correct,
}
use usbi.Snakes.WeightedRandom as Weighted
use usbi.Snakes.Engine.{
  ai_turn, player_turn, easy, medium, hard, SnakeLadderState, SnakeLadderConfig, construct, die,
  roll_player, play_ai_turn, find,
}
use usbi.Snakes.Engine.Board.{IsCell, IsBoard}
use usbi.Snakes.Engine.Turns.{IsPhase}
use usbi.Snakes.Engine.Games.{Call, starts, rolls, plays, run, run_stays_on_board}
use usbi.Snakes.Engine.Opponent.{difficulty_irrelevant, small_board_bounce}
use usbi.Prelude.Sets.{range}
use usbi.Prelude.Swap.{swap}
use usbi.Snakes.Questions
use usbi.Snakes.Questions.Round
use usbi.Snakes.Questions.{
  handle_roll_click, handle_answer, execute_roll, miss, open_page, shuffled_indices,
}
use usbi.Snakes.Questions.Round.{InRound, answered_right, Move, roll, answer, run_keeps_round}
use usbi.Snakes.Layout.{Generated, clamp_int, max_feature_count, generate_snake_ladder_links}
use usbi.Snakes.Schema.{Question, Snakes, refine, check_questions, issue_if, end_out_of_range}
use usbi.Snakes.Schema.Generated.{engine_config, generated_passes, generated_stays_on_board}

cell_at-map_to_grid_example :
    (map_to_grid (pos (cell_at 2 1 3 4)) 3 4 ≡ some (1, 2)) × (cell_at 2 1 3 4 ≤ 3 * 4)
cell_at-map_to_grid_example = cell_at-map_to_grid 2 1 3 4 (omega arith) (omega arith)

abbrev half : Draw
half = record { num = 1; den = 2 }

abbrev high : Draw
high = record { num = 9; den = 10 }

abbrev weights : List ℤ
weights = pos 1 ∷ pos 2 ∷ []

weighted_random_correct_example :
    (a : ℕ) × (weighted_random (5 ∷ 6 ∷ []) weights half ≡ ok a)
    × Picks (5 ∷ 6 ∷ []) weights half.den (half.num * Weighted.total weights) a
weighted_random_correct_example =
    weighted_random_correct 5 (6 ∷ []) weights half refl (refl, (refl, tt)) (omega arith)
      (omega arith)

abbrev board : SnakeLadderConfig
board = record {
  board_size = pos 10;
  start_position = none;
  end_position = none;
  snakes = record { start = pos 8; end = pos 2 } ∷ [];
  ladders = record { start = pos 3; end = pos 6 } ∷ [];
  ai_difficulty = hard;
}

board-IsBoard : IsBoard 10 board
board-IsBoard = record {
  long = omega arith;
  last = refl;
  first = (omega arith, omega arith);
  snakes_end = ((omega arith, omega arith), tt);
  ladders_end = ((omega arith, omega arith), tt);
}

abbrev calls : List Call
calls = starts ∷ rolls half ∷ plays high half ∷ rolls high ∷ []

run_stays_on_board_example :
    IsCell 10 (run board calls (construct board)).player_position
    × IsCell 10 (run board calls (construct board)).ai_position
    × IsPhase board (run board calls (construct board))
run_stays_on_board_example =
    run_stays_on_board 10 board calls board-IsBoard
      (tt, (omega arith, ((omega arith, omega arith), (omega arith, tt))))

abbrev ai_to_move : ℕ → SnakeLadderState
ai_to_move p = record (construct board) { state = ai_turn; ai_position = pos p }

difficulty_irrelevant_example :
    play_ai_turn (record board { ai_difficulty = easy }) high half (ai_to_move 5)
    ≡ play_ai_turn board high half (ai_to_move 5)
difficulty_irrelevant_example =
    difficulty_irrelevant board easy high half (ai_to_move 5) (omega arith)

abbrev small : SnakeLadderConfig
small = record board {
  board_size = pos 4;
  snakes = record { start = pos 3; end = pos 1 } ∷ [];
  ladders = [];
}

abbrev at_three : SnakeLadderState
at_three = record (construct small) { state = player_turn; player_position = pos 3 }

small_board_bounce_example :
    (s' : SnakeLadderState) × (roll_player small high at_three ≡ some s')
    × (s'.player_position ≡ pos 4 -ℤ pos 5)
    × (map_to_grid s'.player_position 2 2 ≡ none)
unfolding die Weighted.scale find ◌-ℤ◌
small_board_bounce_example =
    small_board_bounce 4 2 2 small high at_three (omega arith) (omega arith) refl refl refl refl
      refl refl

abbrev made : Generated
made = generate_snake_ladder_links 5 4 (some (pos 2)) (some (pos 3)) (pos 42)

abbrev level : Snakes
level = record {
  board_width = 5;
  board_height = 4;
  start_position = 1;
  end_position = 20;
  seed = some (pos 42);
  snakes = some made.snakes;
  ladders = some made.ladders;
  difficulty = some medium;
  questions = [];
}

generated_passes_example :
    (length made.snakes ≡ clamp_int (some (pos 2)) 0 (max_feature_count 5 4))
    × (length made.ladders ≡ clamp_int (some (pos 3)) 0 (max_feature_count 5 4))
    × (refine level
        ≡ issue_if (ltb 20 level.end_position) end_out_of_range
          ++ check_questions 0 level.questions)
generated_passes_example =
    generated_passes 5 4 (some (pos 2)) (some (pos 3)) (pos 42) (omega arith) level refl refl refl
      refl

generated_stays_on_board_example :
    IsCell 20 (run (engine_config level) calls (construct (engine_config level))).player_position
    × IsCell 20 (run (engine_config level) calls (construct (engine_config level))).ai_position
    × IsPhase
        (engine_config level)
        (run (engine_config level) calls (construct (engine_config level)))
generated_stays_on_board_example =
    generated_stays_on_board 5 4 (some (pos 2)) (some (pos 3)) (pos 42) level calls (omega arith)
      (refl, refl) refl (omega arith) (omega arith)
      (tt, (omega arith, ((omega arith, omega arith), (omega arith, tt))))

abbrev asked : List Question
asked =
    record { question = b'q' ∷ []; options = []; correct_index = 1 }
    ∷ record { question = b'r' ∷ []; options = []; correct_index = 0 }
    ∷ []

abbrev first : ℕ → ℕ
first i = 0

abbrev moves : List Move
moves = roll first ∷ answer 0 ∷ roll first ∷ answer 0 ∷ []

run_keeps_round_example :
    InRound 2
      (answered_right asked moves [] (open_page asked first (construct board)))
      (Round.run asked moves (open_page asked first (construct board)))
unfolding Round.play handle_roll_click handle_answer execute_roll miss open_page shuffled_indices
    Questions.shuffle range swap
run_keeps_round_example =
    run_keeps_round asked first (construct board) moves (omega arith) (refl, (tt, (refl, (tt, tt))))
