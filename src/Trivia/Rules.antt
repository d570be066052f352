-- ===== src/Trivia/Rules.antt =====
-- TriviaEngine.ts: the invariant of a session, and what each call does on every branch.
use usbi.Prelude.{
  ℕ, ◌+◌, ◌*◌, ◌≤◌, ◌<◌, ◌≡◌, refl, true, false, ◌||◌, Option, none, some, List, [], ◌∷◌, ltb,
  if◌then◌else◌, length, get_elem?, arith, inl, inr, Bool-cases, if_cases,
}
use usbi.Prelude.Slices.{get_elem?-some}
use usbi.Prelude.Int.{ℤ, negsuc}
use usbi.Trivia.{
  MultipleChoice, Trivia, is_set, construct, stop_timer, start_timer, record_answer, submit_answer,
  next_question, tick, reset, destroy, subscribe, unsubscribe, Event, starts, stops, ticks,
  transitions, resets, destroys, submits, subscribes, unsubscribes, step, run,
}

-- The questions that have been answered.
abbrev pub answered : Trivia → ℕ
answered e = e.current_question_index + (if is_set e.selected_answer then 1 else 0)

pub record IsValid (e : Trivia) : Type 0 where
  pub inside : 0 < length e.questions → e.current_question_index < length e.questions
  pub over : e.is_finished ≡ true → length e.questions ≤ e.current_question_index + 1
  pub empty : length e.questions ≡ 0 → (e.is_finished ≡ true) × (e.score ≡ 0)
  pub timed : e.time_left ≤ 30
  pub earned : e.score ≤ 160 * answered e

pub construct-IsValid : (qs : List MultipleChoice) → IsValid (construct qs)
unfolding construct
construct-IsValid qs = ground arith

record_answer-IsValid :
    (a : ℤ) (q : MultipleChoice) (e : Trivia)
    → e.is_finished ≡ false
    → e.selected_answer ≡ none
    → IsValid e
    → IsValid (record_answer a q e)
unfolding record_answer
record_answer-IsValid a q e h k v = ground arith

-- `Runs P r`: the call returns, and its result satisfies P.
abbrev pub Runs : (Trivia → Type 0) → Option Trivia → Type 0
Runs P r = (e : Trivia) × (r ≡ some e) × P e

-- A call on an open question returns the recorded answer; any other changes nothing.
pub submit_answer_open :
    (a : ℤ) (e : Trivia)
    → IsValid e
    → e.is_finished ≡ false
    → e.selected_answer ≡ none
    → (q : MultipleChoice) × (get_elem? e.questions e.current_question_index ≡ some q)
      × (submit_answer a e ≡ some (record_answer a q e))
unfolding submit_answer
submit_answer_open a e v h k =
    let (q, found) =
      get_elem?-some e.questions e.current_question_index (v.inside (ground (arith, v.empty))) in
    (q, found, ground arith)

pub submit_answer_ignored :
    (a : ℤ) (e : Trivia)
    → (e.is_finished || is_set e.selected_answer) ≡ true
    → submit_answer a e ≡ some e
unfolding submit_answer
submit_answer_ignored a e h = rw (h, submit_answer)

not_set : (o : Option ℤ) → is_set o ≡ false → o ≡ none
not_set none h = refl
not_set (some a) h = cc

submit_answer-IsValid : (a : ℤ) (e : Trivia) → IsValid e → Runs IsValid (submit_answer a e)
submit_answer-IsValid a e v = elim (Bool-cases (e.is_finished || is_set e.selected_answer)) [
  | inl h ↦ (e, submit_answer_ignored a e h, v)
  | inr h ↦
      let going : e.is_finished ≡ false = ground arith in
      let unset : e.selected_answer ≡ none = not_set e.selected_answer (ground arith) in
      let (q, found, made) = submit_answer_open a e v going unset in
      (record_answer a q e, made, record_answer-IsValid a q e going unset v)
]

tick-IsValid : (e : Trivia) → IsValid e → Runs IsValid (tick e)
unfolding tick
tick-IsValid e v =
    if_cases (Runs IsValid) (ltb 0 e.time_left)
      (λ h. (
        _,
        refl,
        record {
          inside = v.inside;
          over = v.over;
          empty = v.empty;
          timed = omega (arith, v.timed);
          earned = v.earned;
        },
      ))
      (λ h. submit_answer-IsValid (negsuc 0) e v)

next_question-IsValid : (e : Trivia) → IsValid e → IsValid (next_question e)
unfolding next_question
next_question-IsValid e v = ground arith

reset-IsValid : (e : Trivia) → IsValid e → IsValid (reset e)
unfolding reset
reset-IsValid e v = ground arith

step-IsValid : (ev : Event) (e : Trivia) → IsValid e → Runs IsValid (step ev e)
unfolding step start_timer stop_timer destroy subscribe unsubscribe
step-IsValid starts e v = (_, refl, ground arith)
step-IsValid stops e v = (_, refl, ground arith)
step-IsValid ticks e v = if_cases (Runs IsValid) e.timer (λ _. tick-IsValid e v) (λ _. (e, refl, v))
step-IsValid transitions e v =
    if_cases (Runs IsValid) (ltb 0 e.transitions)
      (λ _. (_, refl, next_question-IsValid _ (ground arith))) (λ _. (e, refl, v))
step-IsValid resets e v = (_, refl, reset-IsValid e v)
step-IsValid destroys e v = (_, refl, ground arith)
step-IsValid (submits a) e v = submit_answer-IsValid a e v
step-IsValid (subscribes l) e v = (_, refl, ground arith)
step-IsValid (unsubscribes l) e v = (_, refl, ground arith)

pub run-IsValid : (evs : List Event) (e : Trivia) → IsValid e → Runs IsValid (run evs e)
unfolding run
run-IsValid [] e v = (e, refl, v)
run-IsValid (ev ∷ evs) e v =
    let (e', made, v') = step-IsValid ev e v in rw (made, run) (run-IsValid evs e' v')
