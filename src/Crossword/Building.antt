-- ===== src/Crossword/Building.antt =====
-- CrosswordEngine.ts, buildCrosswordLayout: the words in order of length, laid out once for each that
-- comes first, and moved so that the least coordinates are 0.
use usbi.Prelude.{
  ℕ, Bool, false, ◌&&◌, ◌||◌, not, List, [], ◌∷◌, ◌++◌, map, ltb, leb, ◌==◌, if◌then◌else◌, length,
}
use usbi.Prelude.Int.{ℤ, pos, ltb_ℤ, ◌-ℤ◌}
use usbi.Prelude.Sets.{keep}
use usbi.Prelude.Sort.{sort_by}
use usbi.Prelude.Text.{Text, eq_text, trim}
use usbi.Crossword.Layout.{
  Position, CrosswordCell, CrosswordWord, PlacedWord, Unicode, CrosswordLayout,
  NormalizedCrosswordWord, normalize_crossword_answer, place_word, place_all,
}

abbrev pub min_ℤ : ℤ → ℤ → ℤ
min_ℤ a b = if ltb_ℤ b a then b else a

abbrev pub max_ℤ : ℤ → ℤ → ℤ
max_ℤ a b = if ltb_ℤ a b then b else a

unfoldable pub extreme : (ℤ → ℤ → ℤ) → (Position → ℤ) → ℤ → List CrosswordCell → ℤ
extreme choose part z [] = z
extreme choose part z (c ∷ cs) = extreme choose part (choose z (part c.position)) cs

abbrev pub shift : ℤ → ℤ → Position → Position
shift dx dy p = record { x = p.x -ℤ dx; y = p.y -ℤ dy }

unfoldable pub shift_cell : ℤ → ℤ → CrosswordCell → CrosswordCell
shift_cell dx dy c = record c { position = shift dx dy c.position }

unfoldable pub shift_word : ℤ → ℤ → PlacedWord → PlacedWord
shift_word dx dy w = record w { position = shift dx dy w.position }

abbrev part_x : Position → ℤ
part_x p = p.x

abbrev part_y : Position → ℤ
part_y p = p.y

-- The keys of the cells differ, so that each `set` into the new map adds a cell.
unfoldable pub normalize_layout :
    List CrosswordCell → List PlacedWord → List CrosswordWord → CrosswordLayout
normalize_layout [] placed unplaced = record {
  grid = [];
  placed_words = placed;
  unplaced_words = unplaced;
  max_x = pos 0;
  max_y = pos 0;
}
normalize_layout (c ∷ cs) placed unplaced =
    let min_x = extreme min_ℤ part_x c.position.x cs in
    let min_y = extreme min_ℤ part_y c.position.y cs in
    record {
      grid = map (shift_cell min_x min_y) (c ∷ cs);
      placed_words = map (shift_word min_x min_y) placed;
      unplaced_words = unplaced;
      max_x = extreme max_ℤ part_x c.position.x cs -ℤ min_x;
      max_y = extreme max_ℤ part_y c.position.y cs -ℤ min_y;
    }

-- `placedWords.some((placed) => placed.word === word)`
unfoldable pub is_placed : Text → List PlacedWord → Bool
is_placed w [] = false
is_placed w (p ∷ ps) = eq_text p.word w || is_placed w ps

unfoldable pub build_greedy_layout :
    Unicode
    → NormalizedCrosswordWord
    → List NormalizedCrosswordWord
    → List CrosswordWord
    → CrosswordLayout
build_greedy_layout u first rest words =
    let origin : Position = record { x = pos 0; y = pos 0 } in
    let board =
      place_all rest (place_word first origin false (record { cells = []; placed = [] })) in
    normalize_layout board.cells board.placed
      (keep (λ w. not (is_placed (normalize_crossword_answer u w.word) board.placed)) words)

unfoldable pub empty_layout : List CrosswordWord → CrosswordLayout
empty_layout words = record {
  grid = [];
  placed_words = [];
  unplaced_words = words;
  max_x = pos 0;
  max_y = pos 0;
}

-- The loop over the word that comes first: `before` has come first already, the latest last.
unfoldable pub best_layout :
    Unicode
    → List NormalizedCrosswordWord
    → List NormalizedCrosswordWord
    → List CrosswordWord
    → CrosswordLayout
    → CrosswordLayout
best_layout u before [] words best = best
best_layout u before (w ∷ ws) words best =
    let layout = build_greedy_layout u w (before ++ ws) words in
    let best' =
      if ltb (length best.placed_words) (length layout.placed_words) then layout else best in
    let rest = best_layout u (before ++ w ∷ []) ws words best' in
    if length layout.unplaced_words == 0 then layout else rest

unfoldable pub normalize_words : Unicode → List CrosswordWord → List NormalizedCrosswordWord
normalize_words u [] = []
normalize_words u (w ∷ ws) =
    let n : NormalizedCrosswordWord = record {
      word = w.word;
      clue = w.clue;
      normalized_word = normalize_crossword_answer u w.word;
    } in
    let rest = normalize_words u ws in
    if leb 2 (length n.normalized_word) && ltb 0 (length (trim n.clue)) then n ∷ rest else rest

abbrev pub size_of : NormalizedCrosswordWord → ℕ
size_of w = length w.normalized_word

unfoldable pub build_crossword_layout : Unicode → List CrosswordWord → CrosswordLayout
build_crossword_layout u words =
    best_layout u [] (sort_by size_of (normalize_words u words)) words (empty_layout words)

unfoldable pub can_build_connected_crossword : Unicode → List CrosswordWord → Bool
can_build_connected_crossword u words =
    let layout = build_crossword_layout u words in
    length layout.unplaced_words == 0 && length layout.placed_words == length words
