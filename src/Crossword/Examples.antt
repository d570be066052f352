-- ===== src/Crossword/Examples.antt =====
-- CrosswordEngine.ts: a crossword of two words that cross at the L.
use usbi.Prelude.{List, [], ◌∷◌}
use usbi.Prelude.Int.{pos}
use usbi.Crossword.{construct}
use usbi.Crossword.Building.{build_crossword_layout}
use usbi.Crossword.Layout.{CrosswordWord, Unicode}
use usbi.Crossword.Reading.{AllRead}
use usbi.Crossword.Placing.{build_crossword_layout-AllRead}
use usbi.Crossword.Solving.{Call, selects, inputs, navigates, IsValid, run, run_keeps_IsValid}

-- Text that is in capitals without marks already.
abbrev plain : Unicode
plain = record { nfd = λ t. t; upper = λ t. t }

abbrev sky : List CrosswordWord
sky =
    record { word = b'S' ∷ b'O' ∷ b'L' ∷ []; clue = b'd' ∷ b'i' ∷ b'a' ∷ [] }
    ∷ record { word = b'L' ∷ b'U' ∷ b'N' ∷ b'A' ∷ []; clue = b'n' ∷ b'o' ∷ b'c' ∷ b'h' ∷ b'e' ∷ [] }
    ∷ []

build_crossword_layout-AllRead_example :
    AllRead (build_crossword_layout plain sky).grid (build_crossword_layout plain sky).placed_words
build_crossword_layout-AllRead_example = build_crossword_layout-AllRead plain sky

abbrev calls : List Call
calls =
    selects (record { x = pos 0; y = pos 0 }) ∷ inputs (b'L' ∷ []) ∷ navigates (pos 1) (pos 0) ∷ []

run_keeps_IsValid_example : IsValid plain (run plain calls (construct plain sky))
run_keeps_IsValid_example = run_keeps_IsValid plain sky calls
