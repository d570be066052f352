-- ===== src/Crossword/Layout.antt =====
-- CrosswordEngine.ts, buildCrosswordLayout and what it calls: words placed greedily so that they cross.
use usbi.Prelude.{
  ℕ, ◌+◌, Bool, true, false, ◌&&◌, ◌||◌, not, Option, none, some, List, [], ◌∷◌, ◌++◌, ltb, leb,
  ◌==◌, if◌then◌else◌, length,
}
use usbi.Prelude.Int.{ℤ, pos, negsuc, pos_part, neg_part, ◌+ℤ◌, ◌-ℤ◌}
use usbi.Prelude.Sets.{keep}
use usbi.Prelude.Text.{Text, trim}

pub record Position : Type 0 where
  pub x : ℤ
  pub y : ℤ

pub record CrosswordCell : Type 0 where
  pub position : Position
  pub char : ℕ

pub record CrosswordWord : Type 0 where
  pub word : Text
  pub clue : Text

pub record PlacedWord : Type 0 where
  pub word : Text
  pub clue : Text
  pub position : Position
  pub is_vertical : Bool

-- The platform's functions on strings.
pub record Unicode : Type 0 where
  pub nfd : Text → Text
  pub upper : Text → Text

pub record CrosswordLayout : Type 0 where
  pub grid : List CrosswordCell
  pub placed_words : List PlacedWord
  pub unplaced_words : List CrosswordWord
  pub max_x : ℤ
  pub max_y : ℤ

pub record NormalizedCrosswordWord : Type 0 where
  pub word : Text
  pub clue : Text
  pub normalized_word : Text

pub record Placement : Type 0 where
  pub position : Position
  pub is_vertical : Bool
  pub score : ℕ

unfoldable pub without_marks : Text → Text
without_marks t = keep (λ c. not (leb 768 c && leb c 879)) t

-- `[A-ZÑ]`
abbrev pub is_capital : ℕ → Bool
is_capital c = (leb b'A' c && leb c b'Z') || c == 209

unfoldable pub normalize_crossword_answer : Unicode → Text → Text
normalize_crossword_answer u value = keep is_capital (u.upper (without_marks (u.nfd (trim value))))

-- `a === b` on integers
abbrev pub same : ℤ → ℤ → Bool
same a b = pos_part a + neg_part b == pos_part b + neg_part a

abbrev pub same_position : Position → Position → Bool
same_position p q = same p.x q.x && same p.y q.y

-- `grid.get(key)`, its letter
unfoldable pub cell_at : Position → List CrosswordCell → Option ℕ
cell_at p [] = none
cell_at p (c ∷ cs) = if same_position c.position p then some c.char else cell_at p cs

abbrev pub is_some : Option ℕ → Bool
is_some none = false
is_some (some c) = true

unfoldable pub has : Position → List CrosswordCell → Bool
has p cs = is_some (cell_at p cs)

-- `grid.set(key, …)`
unfoldable pub set_cell : Position → ℕ → List CrosswordCell → List CrosswordCell
set_cell p char [] = record { position = p; char = char } ∷ []
set_cell p char (c ∷ cs) =
    if same_position c.position p
    then record { position = p; char = char } ∷ cs
    else c ∷ set_cell p char cs

-- One step along a word.
abbrev pub along : Bool → Position → ℤ → Position
along true p d = record p { y = p.y +ℤ d }
along false p d = record p { x = p.x +ℤ d }

-- One step across it.
abbrev pub across : Bool → Position → ℤ → Position
across true p d = record p { x = p.x +ℤ d }
across false p d = record p { y = p.y +ℤ d }

unfoldable pub place_letters : Text → Position → Bool → List CrosswordCell → List CrosswordCell
place_letters [] p vertical grid = grid
place_letters (c ∷ cs) p vertical grid =
    place_letters cs (along vertical p (pos 1)) vertical (set_cell p c grid)

-- One letter of the loop of `canPlaceWord`: the letter that is there, and whether another word lies
-- beside an empty cell.
abbrev pub cross_next : Option ℕ → ℕ → Bool → Option ℕ → Option ℕ
cross_next none c beside rest = if beside then none else rest
cross_next (some d) c beside none = none
cross_next (some d) c beside (some n) = if d == c then some (n + 1) else none

-- The loop: the number of letters that are there already, or `none` for its `return false`.
unfoldable pub crossings : Text → Position → Bool → List CrosswordCell → Option ℕ
crossings [] p vertical grid = some 0
crossings (c ∷ cs) p vertical grid =
    let beside = has (across vertical p (negsuc 0)) grid || has (across vertical p (pos 1)) grid in
    cross_next (cell_at p grid) c beside (crossings cs (along vertical p (pos 1)) vertical grid)

abbrev pub crosses : Option ℕ → Bool
crosses none = false
crosses (some n) = ltb 0 n

unfoldable pub can_place_word : Text → Position → Bool → List CrosswordCell → Bool
can_place_word letters p vertical grid =
    crosses (crossings letters p vertical grid)
    && not (has (along vertical p (negsuc 0)) grid)
    && not (has (along vertical p (pos (length letters))) grid)

abbrev pub absolute : ℤ → ℕ
absolute z = pos_part z + neg_part z

abbrev pub better : Placement → Option Placement → Option Placement
better p none = some p
better p (some q) = if ltb p.score q.score then some p else some q

-- The loop over the letters of a placed word, from `index` on.
unfoldable pub try_letters :
    Text → ℕ → ℕ → Text → ℕ → PlacedWord → List CrosswordCell → Option Placement → Option Placement
try_letters letters word_index letter [] index placed grid best = best
try_letters letters word_index letter (c ∷ cs) index placed grid best =
    let vertical = not placed.is_vertical in
    let crossing = along placed.is_vertical placed.position (pos index) in
    let start = along vertical crossing (pos 0 -ℤ pos word_index) in
    let found : Placement = record {
      position = start;
      is_vertical = vertical;
      score = absolute start.x + absolute start.y;
    } in
    let best' =
      if c == letter && can_place_word letters start vertical grid
      then better found best
      else best in
    try_letters letters word_index letter cs (index + 1) placed grid best'

unfoldable pub try_placed :
    Text → ℕ → ℕ → List PlacedWord → List CrosswordCell → Option Placement → Option Placement
try_placed letters word_index letter [] grid best = best
try_placed letters word_index letter (w ∷ ws) grid best =
    try_placed letters word_index letter ws grid
      (try_letters letters word_index letter w.word 0 w grid best)

unfoldable pub try_indices :
    Text → Text → ℕ → List PlacedWord → List CrosswordCell → Option Placement → Option Placement
try_indices letters [] index placed grid best = best
try_indices letters (c ∷ cs) index placed grid best =
    try_indices letters cs (index + 1) placed grid (try_placed letters index c placed grid best)

unfoldable pub find_best_placement : Text → List CrosswordCell → List PlacedWord → Option Placement
find_best_placement letters grid placed = try_indices letters letters 0 placed grid none

pub record Board : Type 0 where
  pub cells : List CrosswordCell
  pub placed : List PlacedWord

unfoldable pub place_word : NormalizedCrosswordWord → Position → Bool → Board → Board
place_word w p vertical b = record {
  cells = place_letters w.normalized_word p vertical b.cells;
  placed =
      b.placed
      ++ record { word = w.normalized_word; clue = w.clue; position = p; is_vertical = vertical }
        ∷ [];
}

abbrev pub place_found : NormalizedCrosswordWord → Option Placement → Board → Board
place_found w none b = b
place_found w (some p) b = place_word w p.position p.is_vertical b

unfoldable pub place_all : List NormalizedCrosswordWord → Board → Board
place_all [] b = b
place_all (w ∷ ws) b =
    place_all ws (place_found w (find_best_placement w.normalized_word b.cells b.placed) b)
