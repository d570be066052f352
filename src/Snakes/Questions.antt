-- ===== src/Snakes/Questions.antt =====
-- frontend/src/features/games/components/SnakeLadderGame.tsx: the questions that a player answers to roll
-- the dice. The scene is taken to be there; it hears the events ROLL_DICE and AI_PLAY, which are kept in
-- a list. `draw i` stands for `Math.floor(Math.random() * (i + 1))`.
pub mod Round
use usbi.Prelude.{
  ℕ, zero, suc, ◌-◌, Bool, true, false, Option, none, some, List, [], ◌∷◌, ◌++◌, ◌==◌,
  if◌then◌else◌, length, get_elem?,
}
use usbi.Prelude.Sets.{range}
use usbi.Prelude.Swap.{swap}
use usbi.Snakes.Engine.{SnakeLadderState, ai_turn}
use usbi.Snakes.Schema.{Question}

pub data Emitted : Type 0 where
  roll_dice ai_play : Emitted

pub record Page : Type 0 where
  pub queue : List ℕ
  pub current : Option ℕ
  pub can_roll : Bool
  pub game : SnakeLadderState
  pub emitted : List Emitted

unfoldable pub shuffle : (ℕ → ℕ) → ℕ → List ℕ → List ℕ
shuffle draw zero indices = indices
shuffle draw (suc i) indices = shuffle draw i (swap indices (suc i) (draw (suc i)))

unfoldable pub shuffled_indices : (ℕ → ℕ) → ℕ → List ℕ
shuffled_indices draw n = shuffle draw (n - 1) (range 0 n)

unfoldable pub execute_roll : Page → Page
execute_roll p =
    if p.can_roll then record p { can_roll = false; emitted = p.emitted ++ roll_dice ∷ [] } else p

-- `queue.length > 0 ? queue : shuffledIndices(questions.length)`
abbrev pub pending : (ℕ → ℕ) → ℕ → List ℕ → List ℕ
pending draw n [] = shuffled_indices draw n
pending draw n (q ∷ qs) = q ∷ qs

abbrev pub ask : List ℕ → Page → Page
ask [] p = record p { queue = []; current = none }
ask (next_index ∷ rest) p = record p { queue = rest; current = some next_index }

unfoldable pub handle_roll_click : List Question → (ℕ → ℕ) → Page → Page
handle_roll_click questions draw p =
    if length questions == 0
    then execute_roll p
    else ask (pending draw (length questions) p.queue) p

-- `currentQuestion`
abbrev pub question_at : List Question → Option ℕ → Option Question
question_at questions none = none
question_at questions (some i) = get_elem? questions i

-- A wrong answer: the question goes to the end of the queue and the turn to the opponent.
unfoldable pub miss : ℕ → Page → Page
miss i p = record p {
  queue = p.queue ++ i ∷ [];
  can_roll = false;
  game = record (p.game) {
    message = "¡Respuesta incorrecta! La pregunta vuelve a la cola. Pierdes el turno.";
    state = ai_turn;
  };
  emitted = p.emitted ++ ai_play ∷ [];
}

abbrev pub answer_question : Option ℕ → Option Question → ℕ → Page → Page
answer_question none question index p = p
answer_question (some i) none index p = p
answer_question (some i) (some q) index p =
    let p' : Page = record p { current = none } in
    if index == q.correct_index then execute_roll p' else miss i p'

unfoldable pub handle_answer : List Question → ℕ → Page → Page
handle_answer questions index p =
    answer_question p.current (question_at questions p.current) index p

unfoldable pub open_page : List Question → (ℕ → ℕ) → SnakeLadderState → Page
open_page questions draw game = record {
  queue = shuffled_indices draw (length questions);
  current = none;
  can_roll = true;
  game = game;
  emitted = [];
}
