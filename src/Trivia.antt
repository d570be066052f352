-- ===== src/Trivia.antt =====
-- frontend/packages/engine/src/games/TriviaEngine.ts: timed multiple-choice questions.
-- The window's timers are part of the state: whether the interval runs, and how many delayed calls
-- of `nextQuestion` are still to come. The window calls them back by the events `ticks` and
-- `transitions`. `none` is the TypeError of reading a field of a missing question.
mod Examples
pub mod Rules
pub mod Session
pub mod Rounds
use Prim.Native.String.{String}
use usbi.Prelude.{
  ℕ, zero, suc, ◌+◌, ◌-◌, ◌*◌, Bool, true, false, ◌||◌, Option, none, some, List, [], ◌∷◌, ltb,
  ◌==◌, if◌then◌else◌, length, get_elem?,
}
use usbi.Prelude.Int.{ℤ, pos, negsuc, pos_part, neg_part}
use usbi.Prelude.Channel
use usbi.Prelude.Channel.{Channel}

pub record MultipleChoice : Type 0 where
  pub question : String
  pub options : List String
  pub correct_index : ℤ
  pub media_url : Option String

pub record TriviaState : Type 0 where
  pub current_question_index : ℕ
  pub score : ℕ
  pub selected_answer : Option ℤ
  pub is_finished : Bool
  pub time_left : ℕ
  pub questions : List MultipleChoice

pub record Trivia : Type 0 where
  pub state : TriviaState
  pub open state use *
  pub channel : Channel TriviaState
  pub timer : Bool
  pub transitions : ℕ

abbrev pub default_time_per_question : ℕ
default_time_per_question = 30

-- `a === b` on numbers
abbrev pub same : ℤ → ℤ → Bool
same a b = pos_part a + neg_part b == pos_part b + neg_part a

abbrev pub is_set : Option ℤ → Bool
is_set none = false
is_set (some a) = true

unfoldable pub construct : List MultipleChoice → Trivia
construct questions = record {
  state = record {
    current_question_index = 0;
    score = 0;
    selected_answer = none;
    is_finished = length questions == 0;
    time_left = default_time_per_question;
    questions = questions;
  };
  channel = Channel.silent;
  timer = false;
  transitions = 0;
}

unfoldable pub notify : Trivia → Trivia
notify e = record e { channel = Channel.notify e.state e.channel }

unfoldable pub stop_timer : Trivia → Trivia
stop_timer e = record e { timer = false }

-- The old interval, if any, is cleared before the new one is set.
unfoldable pub start_timer : Trivia → Trivia
unfolding stop_timer
start_timer e = record (stop_timer e) { timer = true }

-- `submitAnswer` behind its guard, at the current question.
unfoldable pub record_answer : ℤ → MultipleChoice → Trivia → Trivia
unfolding stop_timer notify
record_answer answer q e =
    let earned =
      if same answer q.correct_index then e.score + (100 + e.time_left * 2) else e.score in
    let answered = notify (record (stop_timer e) {
      state = record (e.state) { selected_answer = some answer; score = earned };
    }) in
    record answered { transitions = e.transitions + 1 }

unfoldable pub submit_answer : ℤ → Trivia → Option Trivia
unfolding record_answer
submit_answer answer e =
    if e.is_finished || is_set e.selected_answer
    then some e
    else elim (get_elem? e.questions e.current_question_index) [
      | none ↦ none
      | some q ↦ some (record_answer answer q e)
    ]

unfoldable pub next_question : Trivia → Trivia
unfolding notify start_timer
next_question e =
    if ltb e.current_question_index (length e.questions - 1)
    then start_timer (
        notify (record e {
          state = record (e.state) {
            current_question_index = e.current_question_index + 1;
            selected_answer = none;
            time_left = default_time_per_question;
          };
        }))
    else notify (record e { state = record (e.state) { is_finished = true } })

-- The callback of the interval.
unfoldable pub tick : Trivia → Option Trivia
unfolding submit_answer notify
tick e =
    if ltb 0 e.time_left
    then some (notify (record e { state = record (e.state) { time_left = e.time_left - 1 } }))
    else submit_answer (negsuc 0) e

unfoldable pub reset : Trivia → Trivia
unfolding start_timer stop_timer notify
reset e = start_timer (
    notify (record (stop_timer e) {
      state = record (e.state) {
        current_question_index = 0;
        score = 0;
        selected_answer = none;
        is_finished = length e.questions == 0;
        time_left = default_time_per_question;
      };
    }))

unfoldable pub destroy : Trivia → Trivia
unfolding stop_timer
destroy e = record (stop_timer e) { channel = Channel.clear e.channel }

unfoldable pub subscribe : ℕ → Trivia → Trivia
subscribe l e = record e { channel = Channel.subscribe l e.state e.channel }

unfoldable pub unsubscribe : ℕ → Trivia → Trivia
unsubscribe l e = record e { channel = Channel.unsubscribe l e.channel }

pub data Event : Type 0 where
  starts stops ticks transitions resets destroys : Event
  submits : ℤ → Event
  subscribes unsubscribes : ℕ → Event

-- A callback comes only while its timer is set: the interval, or one of the delayed transitions.
unfoldable pub step : Event → Trivia → Option Trivia
step starts e = some (start_timer e)
step stops e = some (stop_timer e)
step ticks e = if e.timer then tick e else some e
step transitions e =
    if ltb 0 e.transitions
    then some (next_question (record e { transitions = e.transitions - 1 }))
    else some e
step resets e = some (reset e)
step destroys e = some (destroy e)
step (submits answer) e = submit_answer answer e
step (subscribes l) e = some (subscribe l e)
step (unsubscribes l) e = some (unsubscribe l e)

unfoldable pub run : List Event → Trivia → Option Trivia
run [] e = some e
run (ev ∷ evs) e = elim (step ev e) [ none ↦ none | some e' ↦ run evs e' ]
