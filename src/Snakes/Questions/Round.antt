-- ===== src/Snakes/Questions/Round.antt =====
-- SnakeLadderGame.tsx: a round asks each question until it is answered right once.
use mathlib.Core.List.Perm
use mathlib.Core.List.{append-nil, perm_middle}
use mathlib.Core.Path.{subst}
use usbi.Prelude.{
  ◌≡◌, sym, ℕ, zero, suc, ◌-◌, Option, none, some, List, [], ◌∷◌, ◌++◌, Perm, ◌==◌, length,
  get_elem?, if_cases, inl, inr, Option-cases, Bool-cases, ==_iff, ◌<◌, arith, if◌then◌else◌,
}
use usbi.Prelude.Sets.{range}
use usbi.Prelude.Swap.{swap, swap-perm}
use usbi.Snakes.Engine.{SnakeLadderState}
use usbi.Snakes.Schema.{Question}
use usbi.Snakes.Questions.{
  Page, shuffle, shuffled_indices, execute_roll, pending, ask, handle_roll_click, question_at, miss,
  answer_question, handle_answer, open_page,
}

-- The question that is shown, if any.
abbrev pub shown : Option ℕ → List ℕ
shown none = []
shown (some i) = i ∷ []

-- The questions `answered` right in the round, the one that is shown and those that wait are together
-- each of the n questions once.
abbrev pub InRound : ℕ → List ℕ → Page → Type 0
InRound n answered p = Perm (answered ++ (shown p.current ++ p.queue)) (range 0 n)

shuffle-perm : (draw : ℕ → ℕ) (i : ℕ) (indices : List ℕ) → Perm (shuffle draw i indices) indices
unfolding shuffle
shuffle-perm draw zero indices = Perm.refl indices
shuffle-perm draw (suc i) indices =
    Perm.trans (shuffle-perm draw i (swap indices (suc i) (draw (suc i))))
      (swap-perm indices (suc i) (draw (suc i)))

shuffled_indices-perm : (draw : ℕ → ℕ) (n : ℕ) → Perm (shuffled_indices draw n) (range 0 n)
unfolding shuffled_indices
shuffled_indices-perm draw n = shuffle-perm draw (n - 1) (range 0 n)

-- What the player does: a click on the button, with the draws of a shuffle, or an answer.
pub data Move : Type 0 where
  roll : (ℕ → ℕ) → Move
  answer : ℕ → Move

unfoldable pub play : List Question → Move → Page → Page
play questions (roll draw) p = handle_roll_click questions draw p
play questions (answer index) p = handle_answer questions index p

-- The button is not clicked while a question is shown.
abbrev pub Orderly : Move → Page → Type 0
Orderly (roll draw) p = p.current ≡ none
Orderly (answer index) p = Unit {0}

unfoldable pub run : List Question → List Move → Page → Page
run questions [] p = p
run questions (m ∷ ms) p = run questions ms (play questions m p)

abbrev pub AllOrderly : List Question → List Move → Page → Type 0
AllOrderly questions [] p = Unit {0}
AllOrderly questions (m ∷ ms) p = Orderly m p × AllOrderly questions ms (play questions m p)

-- What one move does to the questions answered right in the round: the answer to the question that is
-- shown adds it if it is the right one, and a click begins a new round once no question waits.
abbrev right_after : Option ℕ → Option Question → ℕ → List ℕ → List ℕ
right_after none q index answered = answered
right_after (some i) none index answered = answered
right_after (some i) (some q) index answered =
    if index == q.correct_index then i ∷ answered else answered

abbrev begun_after : List ℕ → List ℕ → List ℕ
begun_after [] answered = []
begun_after (q ∷ qs) answered = answered

unfoldable pub right_by : List Question → Move → List ℕ → Page → List ℕ
right_by questions (roll draw) answered p = begun_after p.queue answered
right_by questions (answer index) answered p =
    right_after p.current (question_at questions p.current) index answered

-- The questions answered right in the round that is going on after the moves.
unfoldable pub answered_right : List Question → List Move → List ℕ → Page → List ℕ
answered_right questions [] answered p = answered
answered_right questions (m ∷ ms) answered p =
    answered_right questions ms (right_by questions m answered p) (play questions m p)

ask-InRound :
    (draw : ℕ → ℕ) (n : ℕ) (answered qs : List ℕ) (p : Page)
    → Perm (answered ++ qs) (range 0 n)
    → InRound n (begun_after qs answered) (ask (pending draw n qs) p)
ask-InRound draw n answered [] p h = start (shuffled_indices draw n) (shuffled_indices-perm draw n)
  where
    start : (is : List ℕ) → Perm is (range 0 n) → InRound n [] (ask is p)
    start [] k = k
    start (i ∷ is) k = k
ask-InRound draw n answered (q ∷ qs) p h = h

execute_roll-InRound :
    (n : ℕ) (answered : List ℕ) (p : Page)
    → InRound n answered p
    → InRound n answered (execute_roll p)
unfolding execute_roll
execute_roll-InRound n answered p h = if_cases (InRound n answered) p.can_roll (λ _. h) (λ _. h)

miss-InRound :
    (n : ℕ) (answered : List ℕ) (i : ℕ) (p : Page)
    → Perm (answered ++ i ∷ p.queue) (range 0 n)
    → InRound n answered (miss i (record p { current = none }))
unfolding miss
miss-InRound n answered i p asked =
    let last : Perm (p.queue ++ i ∷ []) (i ∷ p.queue) =
      subst (λ qs. Perm (p.queue ++ i ∷ []) (i ∷ qs)) (append-nil p.queue)
        (perm_middle p.queue []) in
    Perm.trans (Perm.append_left answered last) asked

answer_question-InRound :
    (n : ℕ) (answered : List ℕ) (i : ℕ) (q : Option Question) (index : ℕ) (p : Page)
    → p.current ≡ some i
    → InRound n answered p
    → InRound n (right_after (some i) q index answered) (answer_question (some i) q index p)
answer_question-InRound n answered i none index p e h = h
answer_question-InRound n answered i (some q) index p e h =
    let asked : Perm (answered ++ i ∷ p.queue) (range 0 n) =
      subst (λ c. Perm (answered ++ (shown c ++ p.queue)) (range 0 n)) e h in
    let p' : Page = record p { current = none } in
    elim (Bool-cases (index == q.correct_index)) [
      | inl right ↦ rw (right) (
          execute_roll-InRound n (i ∷ answered) p'
            (Perm.trans (Perm.symm (perm_middle answered p.queue)) asked))
      | inr wrong ↦ rw (wrong) (miss-InRound n answered i p asked)
    ]

handle_answer-InRound :
    (questions : List Question) (answered : List ℕ) (index : ℕ) (p : Page)
    → InRound (length questions) answered p
    → InRound
        (length questions)
        (right_by questions (answer index) answered p)
        (handle_answer questions index p)
unfolding handle_answer right_by
handle_answer-InRound questions answered index p h =
    let n = length questions in
    let P : Option ℕ → Type 0 = λ c.
      InRound n (right_after c (question_at questions c) index answered)
        (answer_question c (question_at questions c) index p) in
    elim (Option-cases p.current) [
      | inl e ↦ subst P (sym e) h
      | inr (i, e) ↦
          subst P (sym e) (answer_question-InRound n answered i (get_elem? questions i) index p e h)
    ]

play-InRound :
    (questions : List Question) (answered : List ℕ) (m : Move) (p : Page)
    → 0 < length questions
    → Orderly m p
    → InRound (length questions) answered p
    → InRound (length questions) (right_by questions m answered p) (play questions m p)
unfolding play handle_roll_click right_by
play-InRound questions answered (roll draw) p some_question o h =
    let n = length questions in
    let waiting : Perm (answered ++ p.queue) (range 0 n) =
      subst (λ c. Perm (answered ++ (shown c ++ p.queue)) (range 0 n)) o h in
    if_cases (InRound n (begun_after p.queue answered)) (n == 0)
      (λ none_asked. absurd (omega (arith, (==_iff n 0).0 none_asked)))
      (λ _. ask-InRound draw n answered p.queue p waiting)
play-InRound questions answered (answer index) p some_question o h =
    handle_answer-InRound questions answered index p h

run-InRound :
    (questions : List Question) (answered : List ℕ) (ms : List Move) (p : Page)
    → 0 < length questions
    → AllOrderly questions ms p
    → InRound (length questions) answered p
    → InRound (length questions) (answered_right questions ms answered p) (run questions ms p)
unfolding run answered_right
run-InRound questions answered [] p some_question o h = h
run-InRound questions answered (m ∷ ms) p some_question (o, os) h =
    run-InRound questions (right_by questions m answered p) ms (play questions m p) some_question os
      (play-InRound questions answered m p some_question o h)

-- In a level with questions, when the button is not clicked while one is shown: after any clicks
-- and answers, the questions answered right in the round that is going on, the one that is shown
-- and those that wait are together each question of the level once. So a question answered wrong
-- waits again, and none that was answered right is asked again before a click finds no question
-- waiting.
pub run_keeps_round :
    (questions : List Question) (draw : ℕ → ℕ) (game : SnakeLadderState) (ms : List Move)
    → 0 < length questions
    → AllOrderly questions ms (open_page questions draw game)
    → let p = open_page questions draw game in
      InRound (length questions) (answered_right questions ms [] p) (run questions ms p)
unfolding open_page
run_keeps_round questions draw game ms some_question o =
    run-InRound questions [] ms (open_page questions draw game) some_question o
      (shuffled_indices-perm draw (length questions))
