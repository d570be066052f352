-- ===== src/Trivia/Examples.antt =====
-- TriviaEngine.ts: a quiz of one question and one of two, played.
use usbi.Prelude.{◌*◌, ◌≤◌, ◌≡◌, refl, false, true, none, some, [], ◌∷◌, length, arith}
use usbi.Prelude.Int.{pos}
use usbi.Trivia.{
  MultipleChoice, Trivia, construct, run, starts, submits, resets, ticks, transitions,
}
use usbi.Trivia.Session.{run_bounded}
use usbi.Trivia.Rounds.{plays, total, session_total, reset_skips_first}

abbrev capital : MultipleChoice
capital = record {
  question = "Capital de Francia";
  options = "Lyon" ∷ "París" ∷ [];
  correct_index = pos 1;
  media_url = none;
}

abbrev two_asked : Trivia
two_asked = construct (capital ∷ capital ∷ [])

session_total_example :
    (e : Trivia) × (run
        (starts ∷ plays ((3, pos 1) ∷ (30, pos 0) ∷ []))
        (construct (capital ∷ capital ∷ []))
      ≡ some e)
    × (e.is_finished ≡ true)
    × (e.score ≡ total (capital ∷ capital ∷ []) ((3, pos 1) ∷ (30, pos 0) ∷ []))
session_total_example =
    session_total capital (capital ∷ []) ((3, pos 1) ∷ (30, pos 0) ∷ []) refl
      (omega arith, (omega arith, tt))

reset_skips_first_example :
    (e' : Trivia) × (run (submits (pos 1) ∷ resets ∷ transitions ∷ []) two_asked ≡ some e')
    × (e'.current_question_index ≡ 1)
    × (e'.selected_answer ≡ none)
    × (e'.is_finished ≡ false)
    × (e'.score ≡ 0)
unfolding construct
reset_skips_first_example =
    reset_skips_first (pos 1) two_asked refl refl (omega arith) (omega arith)

run_bounded_example :
    (e : Trivia) × (run (starts ∷ ticks ∷ submits (pos 1) ∷ []) (construct (capital ∷ [])) ≡ some e)
    × (e.questions ≡ capital ∷ [])
    × (e.score ≤ 160 * length (capital ∷ []))
    × (e.time_left ≤ 30)
run_bounded_example = run_bounded (capital ∷ []) (starts ∷ ticks ∷ submits (pos 1) ∷ [])
