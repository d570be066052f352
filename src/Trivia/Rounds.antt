-- ===== src/Trivia/Rounds.antt =====
-- TriviaEngine.ts: a session played to its end, question by question, and a reset that comes
-- between an answer and the delayed move to the next question.
use usbi.Prelude.{
  ℕ, suc, ◌+◌, ◌-◌, ◌*◌, ◌≤◌, ◌<◌, ◌≡◌, refl, ◌∙◌, true, false, none, some, List, [], ◌∷◌, ◌++◌,
  if◌then◌else◌, length, get_elem?, drop, replicate, arith,
}
use usbi.Prelude.Int.{ℤ}
use usbi.Trivia.{
  MultipleChoice, Trivia, same, construct, start_timer, record_answer, submit_answer, next_question,
  reset, Event, starts, ticks, transitions, resets, submits, step, run,
}
use usbi.Trivia.Session.{waits, waits-fields, run-ticks, record_answer-fields, run-cons}
use usbi.Prelude.Slices.{get_elem?-some, drop-cons}

-- What an answer after `wait` seconds earns.
abbrev pub points : ℕ → ℤ → MultipleChoice → ℕ
points wait a q = if same a q.correct_index then 100 + (30 - wait) * 2 else 0

abbrev pub total : List MultipleChoice → List (ℕ × ℤ) → ℕ
total [] rs = 0
total (q ∷ qs) [] = 0
total (q ∷ qs) ((wait, a) ∷ rs) = points wait a q + total qs rs

-- `wait` seconds pass, the player answers, and the delayed transition comes.
abbrev pub plays : List (ℕ × ℤ) → List Event
plays [] = []
plays ((wait, a) ∷ rs) = replicate wait ticks ++ submits a ∷ transitions ∷ plays rs

abbrev pub InTime : List (ℕ × ℤ) → Type 0
InTime [] = Unit {0}
InTime ((wait, a) ∷ rs) = (wait ≤ 30) × InTime rs

record IsReady (i : ℕ) (e : Trivia) : Type 0 where
  at : e.current_question_index ≡ i
  going : e.is_finished ≡ false
  unset : e.selected_answer ≡ none
  full : e.time_left ≡ 30
  running : e.timer ≡ true
  settled : e.transitions ≡ 0

-- The delayed transition.
advance : Trivia → Trivia
advance e = next_question (record e { transitions = e.transitions - 1 })

after : ℕ → ℤ → MultipleChoice → Trivia → Trivia
after wait a q e = advance (record_answer a q (waits wait e))

submit-recorded :
    (a : ℤ) (q : MultipleChoice) (e : Trivia)
    → e.is_finished ≡ false
    → e.selected_answer ≡ none
    → get_elem? e.questions e.current_question_index ≡ some q
    → step (submits a) e ≡ some (record_answer a q e)
unfolding step submit_answer
submit-recorded a q e h k found = ground arith

step-advance :
    (a : ℤ) (q : MultipleChoice) (e : Trivia)
    → step transitions (record_answer a q e) ≡ some (advance (record_answer a q e))
unfolding step record_answer advance
step-advance a q e = ground arith

run-submit :
    (a : ℤ) (q : MultipleChoice) (e : Trivia) (evs : List Event)
    → e.is_finished ≡ false
    → e.selected_answer ≡ none
    → get_elem? e.questions e.current_question_index ≡ some q
    → run (submits a ∷ transitions ∷ evs) e ≡ run evs (advance (record_answer a q e))
run-submit a q e evs h k found =
    run-cons (submits a) _ e (submit-recorded a q e h k found)
    ∙ run-cons transitions evs _ (step-advance a q e)

run-round :
    (wait : ℕ) (a : ℤ) (q : MultipleChoice) (i : ℕ) (e : Trivia) (evs : List Event)
    → IsReady i e
    → wait ≤ 30
    → get_elem? e.questions i ≡ some q
    → run (replicate wait ticks ++ submits a ∷ transitions ∷ evs) e ≡ run evs (after wait a q e)
unfolding after
run-round wait a q i e evs r h found =
    let (s, t, d) = waits-fields wait e in
    run-ticks wait _ e r.running (omega (arith, r.full))
    ∙ run-submit a q (waits wait e) evs (ground arith) (ground arith) (ground arith)

module _ (wait : ℕ) (a : ℤ) (q : MultipleChoice) (i : ℕ) (e : Trivia) (r : IsReady i e)
    (h : wait ≤ 30) where
  after-score :
      ((after wait a q e).score ≡ e.score + points wait a q)
      × ((after wait a q e).questions ≡ e.questions)
  unfolding after advance next_question
  after-score = ground (arith, r, waits-fields wait e, record_answer-fields a q (waits wait e))

  after-IsReady : suc i < length e.questions → IsReady (i + 1) (after wait a q e)
  unfolding after advance next_question
  after-IsReady more =
      ground (arith, r, waits-fields wait e, record_answer-fields a q (waits wait e))

  after-is_finished : length e.questions ≤ suc i → (after wait a q e).is_finished ≡ true
  unfolding after advance next_question
  after-is_finished last =
      ground (arith, r, waits-fields wait e, record_answer-fields a q (waits wait e))

run-plays :
    (q : MultipleChoice) (qs : List MultipleChoice) (rs : List (ℕ × ℤ)) (i : ℕ) (e : Trivia)
    → IsReady i e
    → drop i e.questions ≡ q ∷ qs
    → length rs ≡ suc (length qs)
    → InTime rs
    → (e' : Trivia) × (run (plays rs) e ≡ some e')
      × (e'.is_finished ≡ true)
      × (e'.score ≡ e.score + total (q ∷ qs) rs)
run-plays q qs [] i e r left n t = absurd (omega arith)
run-plays q [] ((w, a) ∷ []) i e r left n t =
    let (found, rest, all) = drop-cons i e.questions [] q left in
    (
      after w a q e,
      run-round w a q i e [] r t.0 found ∙ unfold run in refl,
      after-is_finished w a q i e r t.0 (omega (arith, all)),
      (after-score w a q i e r t.0).0 ∙ ground arith,
    )
run-plays q [] ((w, a) ∷ r' ∷ rs) i e r left n t = absurd (omega arith)
run-plays q (q' ∷ qs) ((w, a) ∷ rs) i e r left n t =
    let (found, rest, all) = drop-cons i e.questions (q' ∷ qs) q left in
    let (scored, asked) = after-score w a q i e r t.0 in
    let left' : drop (i + 1) (after w a q e).questions ≡ q' ∷ qs = rw asked rest in
    let ready = after-IsReady w a q i e r t.0 (omega (arith, all)) in
    let (e', played, done, score) =
      run-plays q' qs rs (i + 1) (after w a q e) ready left' (omega arith) t.1 in
    (e', run-round w a q i e (plays rs) r t.0 found ∙ played, done, omega (arith, scored, score))

started-IsReady :
    (q : MultipleChoice) (qs : List MultipleChoice) → IsReady 0 (start_timer (construct (q ∷ qs)))
unfolding start_timer construct
started-IsReady q qs = ground arith

-- A session in which every question is answered within its 30 seconds ends: it is finished after
-- the last delayed transition, and its score is the sum over the questions of 100 points and 2 for
-- each second left, for the right answers only.
pub session_total :
    (q : MultipleChoice) (qs : List MultipleChoice) (rs : List (ℕ × ℤ))
    → length rs ≡ length (q ∷ qs)
    → InTime rs
    → (e : Trivia) × (run (starts ∷ plays rs) (construct (q ∷ qs)) ≡ some e)
      × (e.is_finished ≡ true)
      × (e.score ≡ total (q ∷ qs) rs)
session_total q qs rs n t =
    let e₀ = start_timer (construct (q ∷ qs)) in
    let (e, played, done, score) =
      run-plays q qs rs 0 e₀ (started-IsReady q qs) (unfold start_timer construct in refl) n t in
    let begun : step starts (construct (q ∷ qs)) ≡ some e₀ = unfold step in refl in
    (
      e,
      run-cons starts (plays rs) _ begun ∙ played,
      done,
      score ∙ unfold start_timer construct in omega arith,
    )

reset-due :
    (a : ℤ) (q : MultipleChoice) (e : Trivia)
    → step transitions (reset (record_answer a q e)) ≡ some (advance (reset (record_answer a q e)))
unfolding step reset record_answer advance
reset-due a q e = ground arith

skipped :
    (a : ℤ) (q : MultipleChoice) (e : Trivia)
    → 2 ≤ length e.questions
    → let e' = advance (reset (record_answer a q e)) in
      (e'.current_question_index ≡ 1)
      × (e'.selected_answer ≡ none)
      × (e'.is_finished ≡ false)
      × (e'.score ≡ 0)
unfolding reset record_answer advance next_question
skipped a q e two = ground arith

-- `reset` leaves a due transition pending. In a quiz of two or more questions, a reset between an
-- answer and its transition therefore starts the new game at the second question: the first is
-- passed over unanswered.
pub reset_skips_first :
    (a : ℤ) (e : Trivia)
    → e.is_finished ≡ false
    → e.selected_answer ≡ none
    → e.current_question_index < length e.questions
    → 2 ≤ length e.questions
    → (e' : Trivia) × (run (submits a ∷ resets ∷ transitions ∷ []) e ≡ some e')
      × (e'.current_question_index ≡ 1)
      × (e'.selected_answer ≡ none)
      × (e'.is_finished ≡ false)
      × (e'.score ≡ 0)
reset_skips_first a e h k inside two =
    let (q, found) = get_elem?-some e.questions e.current_question_index inside in
    let e₁ = record_answer a q e in
    let s = skipped a q e two in
    let again : step resets e₁ ≡ some (reset e₁) = unfold step in refl in
    let due : step transitions (reset e₁) ≡ some (advance (reset e₁)) = reset-due a q e in
    (
      advance (reset e₁),
      run-cons (submits a) _ e (submit-recorded a q e h k found)
          ∙ run-cons resets _ e₁ again
          ∙ run-cons transitions [] (reset e₁) due
          ∙ unfold run in refl,
      s.0,
      s.1,
      s.2,
      s.3,
    )
