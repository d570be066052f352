-- ===== src/Trivia/Session.antt =====
-- TriviaEngine.ts: whole sessions, from the constructor on.
use usbi.Prelude.{
  ℕ, zero, suc, ◌+◌, ◌-◌, ◌*◌, ◌≤◌, ◌<◌, ◌≡◌, refl, ap, ◌∙◌, true, false, none, some, List, [], ◌∷◌,
  ◌++◌, if◌then◌else◌, length, get_elem?, replicate, arith, inl, inr, Option-cases,
}
use usbi.Prelude.Int.{ℤ, negsuc}
use usbi.Trivia.{
  MultipleChoice, Trivia, same, construct, notify, stop_timer, start_timer, record_answer,
  submit_answer, next_question, tick, reset, destroy, subscribe, unsubscribe, Event, ticks, submits,
  step, run,
}
use usbi.Trivia.Rules.{IsValid, construct-IsValid, submit_answer_open, run-IsValid}

submit_answer-questions :
    (a : ℤ) (e e' : Trivia) → submit_answer a e ≡ some e' → e'.questions ≡ e.questions
unfolding submit_answer
submit_answer-questions a e e' h = ground arith

step-questions : (ev : Event) (e e' : Trivia) → step ev e ≡ some e' → e'.questions ≡ e.questions
unfolding step tick start_timer stop_timer destroy subscribe unsubscribe reset next_question
step-questions ticks e e' h = ground (arith, submit_answer-questions (negsuc 0) e e')
step-questions (submits a) e e' h = submit_answer-questions a e e' h
step-questions ev e e' h = ground arith

run-questions :
    (evs : List Event) (e e' : Trivia) → run evs e ≡ some e' → e'.questions ≡ e.questions
unfolding run
run-questions [] e e' h = ground arith
run-questions (ev ∷ evs) e e' h = elim (Option-cases (step ev e)) [
  | inl n ↦ absurd (ground arith)
  | inr (m, s) ↦ run-questions evs m e' (rw (s, run) at h) ∙ step-questions ev e m s
]

bounded :
    (e : Trivia) (qs : List MultipleChoice)
    → e.questions ≡ qs
    → IsValid e
    → e.score ≤ 160 * length qs
bounded e qs kept v = ground (arith, ap length kept)

-- Whatever calls and timer callbacks follow the constructor, in any order, none of them reads a
-- question that is not there, and the score never passes 160 points a question.
pub run_bounded :
    (qs : List MultipleChoice) (evs : List Event)
    → (e : Trivia) × (run evs (construct qs) ≡ some e)
      × (e.questions ≡ qs)
      × (e.score ≤ 160 * length qs)
      × (e.time_left ≤ 30)
unfolding construct
run_bounded qs evs =
    let (e, made, v) = run-IsValid evs (construct qs) (construct-IsValid qs) in
    let kept = run-questions evs (construct qs) e made in
    (e, made, kept, bounded e qs kept v, v.timed)

-- The state after one tick of the clock that is not the last.
second : Trivia → Trivia
second e = notify (record e { state = record (e.state) { time_left = e.time_left - 1 } })

pub waits : ℕ → Trivia → Trivia
waits zero e = e
waits (suc n) e = waits n (second e)

pub waits-fields :
    (n : ℕ) (e : Trivia)
    → ((waits n e).state ≡ record (e.state) { time_left = e.time_left - n })
      × ((waits n e).timer ≡ e.timer)
      × ((waits n e).transitions ≡ e.transitions)
unfolding waits second notify
waits-fields zero e = ground arith
waits-fields (suc n) e =
    let less : e.time_left - 1 - n ≡ e.time_left - suc n = omega arith in
    let (s, t, d) = waits-fields n (second e) in (s ∙ rw less, t, d)

step-second : (e : Trivia) → e.timer ≡ true → 0 < e.time_left → step ticks e ≡ some (second e)
unfolding step tick second
step-second e h k = ground arith

second-fields :
    (e : Trivia) → ((second e).timer ≡ e.timer) × ((second e).time_left ≡ e.time_left - 1)
unfolding second notify
second-fields e = (refl, refl)

pub run-ticks :
    (n : ℕ) (evs : List Event) (e : Trivia)
    → e.timer ≡ true
    → n ≤ e.time_left
    → run (replicate n ticks ++ evs) e ≡ run evs (waits n e)
unfolding run waits
run-ticks zero evs e h k = refl
run-ticks (suc n) evs e h k =
    let (t, l) = second-fields e in
    rw (step-second e h (omega arith), run) (run-ticks n evs (second e) (t ∙ h) (omega arith))

pub run-cons :
    (ev : Event) (evs : List Event) (e : Trivia) {e' : Trivia}
    → step ev e ≡ some e'
    → run (ev ∷ evs) e ≡ run evs e'
unfolding run
run-cons ev evs e h = rw (h, run)

run-one : (ev : Event) (e e' : Trivia) → step ev e ≡ some e' → run (ev ∷ []) e ≡ some e'
unfolding run
run-one ev e e' h = run-cons ev [] e h

waits-IsValid : (n : ℕ) (e : Trivia) → IsValid e → IsValid (waits n e)
waits-IsValid n e v = let f = waits-fields n e in ground arith

step-timeout :
    (e : Trivia) → e.timer ≡ true → e.time_left ≡ 0 → step ticks e ≡ submit_answer (negsuc 0) e
unfolding step tick
step-timeout e h k = ground arith

pub record_answer-fields :
    (a : ℤ) (q : MultipleChoice) (e : Trivia)
    → let e' = record_answer a q e in
      (e'.score ≡ (if same a q.correct_index then e.score + (100 + e.time_left * 2) else e.score))
      × (e'.selected_answer ≡ some a)
      × (e'.timer ≡ false)
      × (e'.transitions ≡ e.transitions + 1)
      × (e'.current_question_index ≡ e.current_question_index)
      × (e'.questions ≡ e.questions)
      × (e'.is_finished ≡ e.is_finished)
unfolding record_answer
record_answer-fields a q e = (refl, refl, refl, refl, refl, refl, refl)

-- With the interval running, a question left alone is submitted as the answer -1 by the tick after
-- its last second: it then counts as answered, the interval stops, one transition is due, and no
-- point is won, or 100 if the question itself names -1 as its correct option.
pub timeout_submits :
    (e : Trivia)
    → IsValid e
    → e.is_finished ≡ false
    → e.selected_answer ≡ none
    → e.timer ≡ true
    → (e' : Trivia) × (q : MultipleChoice) × (run (replicate e.time_left ticks ++ ticks ∷ []) e
        ≡ some e')
      × (get_elem? e.questions e.current_question_index ≡ some q)
      × (e'.selected_answer ≡ some (negsuc 0))
      × (e'.timer ≡ false)
      × (e'.transitions ≡ e.transitions + 1)
      × (e'.score ≡ e.score + (if same (negsuc 0) q.correct_index then 100 else 0))
timeout_submits e v h k t =
    let n = e.time_left in
    let e₀ = waits n e in
    let (s, t', d) = waits-fields n e in
    let (q, found, made) =
      submit_answer_open (negsuc 0) e₀ (waits-IsValid n e v) (ground arith) (ground arith) in
    let (score, chosen, stopped, due, at, asked, going) = record_answer-fields (negsuc 0) q e₀ in
    let last : step ticks e₀ ≡ some (record_answer (negsuc 0) q e₀) =
      step-timeout e₀ (t' ∙ t) (ground arith) ∙ made in
    let all = run-ticks n (ticks ∷ []) e t (omega arith) ∙ run-one ticks e₀ _ last in
    (
      record_answer (negsuc 0) q e₀,
      q,
      all,
      ground arith,
      chosen,
      stopped,
      due ∙ ap (λ (m : ℕ). m + 1) d,
      ground arith,
    )
