-- ===== src/Crossword.antt =====
-- frontend/packages/engine/src/games/CrosswordEngine.ts: a crossword that is laid out from a list of
-- words, and solved letter by letter. A cell's key `x,y` is its two integers, and a map from keys is
-- the list of its cells in the order of insertion. A letter is a UTF-16 code unit; `nfd` and `upper`
-- stand for `String.prototype.normalize("NFD")` and `toUpperCase`.
mod Examples
pub mod Layout
pub mod Building
pub mod Reading
mod Shifting
pub mod Placing
pub mod Solving
use usbi.Prelude.{
  ℕ, zero, suc, ◌+◌, ◌*◌, Bool, true, false, ◌&&◌, ◌||◌, not, Option, none, some, List, [], ◌∷◌,
  ◌++◌, map, ltb, leb, ◌==◌, if◌then◌else◌, length,
}
use usbi.Prelude.Int.{ℤ, pos, negsuc, pos_part, neg_part, ◌+ℤ◌, ◌-ℤ◌}
use usbi.Prelude.Channel
use usbi.Prelude.Channel.{Channel}
use usbi.Prelude.Sets.{keep}
use usbi.Prelude.Text.{Text, eq_text}
use usbi.Crossword.Building.{build_crossword_layout}
use usbi.Crossword.Layout.{
  CrosswordCell, CrosswordWord, PlacedWord, CrosswordLayout, Position, Unicode, without_marks,
  normalize_crossword_answer, same_position, has, cell_at, set_cell,
}

pub data Orientation : Type 0 where
  horizontal vertical : Orientation

pub record CrosswordState : Type 0 where
  pub score : ℕ
  pub is_finished : Bool
  pub user_grid : List CrosswordCell
  pub selected_cell : Option Position
  pub orientation : Orientation
  pub locked_cells : List Position

pub record Crossword : Type 0 where
  pub layout : CrosswordLayout
  pub open layout use *
  pub initial_words : List CrosswordWord
  pub state : CrosswordState
  pub open state use *
  pub channel : Channel CrosswordState

abbrev pub blank : CrosswordState
blank = record {
  score = 0;
  is_finished = false;
  user_grid = [];
  selected_cell = none;
  orientation = horizontal;
  locked_cells = [];
}

unfoldable pub construct : Unicode → List CrosswordWord → Crossword
construct u words = record {
  layout = build_crossword_layout u words;
  initial_words = words;
  state = blank;
  channel = Channel.silent;
}

unfoldable pub is_build_complete : Crossword → Bool
is_build_complete e =
    length e.unplaced_words == 0 && length e.placed_words == length e.initial_words

unfoldable pub notify : Crossword → Crossword
notify e = record e { channel = Channel.notify e.state e.channel }

unfoldable pub subscribe : ℕ → Crossword → Crossword
subscribe l e = record e { channel = Channel.subscribe l e.state e.channel }

unfoldable pub unsubscribe : ℕ → Crossword → Crossword
unsubscribe l e = record e { channel = Channel.unsubscribe l e.channel }

unfoldable pub destroy : Crossword → Crossword
destroy e = record e { channel = Channel.clear e.channel }

-- `cell.char.toUpperCase().normalize("NFD")` without its marks
unfoldable pub expected_char : Unicode → ℕ → Text
expected_char u c = without_marks (u.nfd (u.upper (c ∷ [])))

abbrev pub is_answer : Unicode → CrosswordCell → Option ℕ → Bool
is_answer u cell none = false
is_answer u cell (some c) = eq_text (c ∷ []) (expected_char u cell.char)

-- `userChar === expectedChar`
unfoldable pub is_correct : Unicode → List CrosswordCell → CrosswordCell → Bool
is_correct u user cell = is_answer u cell (cell_at cell.position user)

unfoldable pub correct_cells :
    Unicode → List CrosswordCell → List CrosswordCell → List CrosswordCell
correct_cells u user grid = keep (is_correct u user) grid

abbrev pub position_of : CrosswordCell → Position
position_of c = c.position

unfoldable pub validate : Unicode → Crossword → Crossword
validate u e =
    let correct = correct_cells u e.user_grid e.grid in
    let all_correct = length correct == length e.grid in
    record e {
      state = record (e.state) {
        score = length correct * 10;
        locked_cells = map position_of correct;
        is_finished = if all_correct && ltb 0 (length e.grid) then true else e.is_finished;
      };
    }

-- `lockedCells.has(key)`
unfoldable pub is_locked : List Position → Position → Bool
is_locked [] p = false
is_locked (q ∷ qs) p = same_position q p || is_locked qs p

unfoldable pub delete_cell : Position → List CrosswordCell → List CrosswordCell
delete_cell p [] = []
delete_cell p (c ∷ cs) = if same_position c.position p then cs else c ∷ delete_cell p cs

abbrev pub moved : Orientation → Position → Position
moved horizontal p = record p { x = p.x +ℤ pos 1 }
moved vertical p = record p { y = p.y +ℤ pos 1 }

-- The change of the letter at the selected cell, for the first letter of the cleaned input if any.
abbrev pub write : Text → Position → Crossword → CrosswordState
write [] p e = record (e.state) { user_grid = delete_cell p e.user_grid }
write (c ∷ cs) p e =
    let next = moved e.orientation p in
    record (e.state) {
      user_grid = set_cell p c e.user_grid;
      selected_cell = if has next e.grid then some next else some p;
    }

abbrev pub input_at : Unicode → Text → Option Position → Crossword → Crossword
input_at u char none e = e
input_at u char (some p) e =
    if not (has p e.grid)
    then e
    else if is_locked e.locked_cells p
    then e
    else notify (validate u (record e { state = write (normalize_crossword_answer u char) p e }))

unfoldable pub input_char : Unicode → Text → Crossword → Crossword
input_char u char e = if e.is_finished then e else input_at u char e.selected_cell e

abbrev pub flip : Orientation → Orientation
flip horizontal = vertical
flip vertical = horizontal

abbrev pub is_selected : Position → Option Position → Bool
is_selected p none = false
is_selected p (some q) = same_position q p

abbrev pub beside : Position → ℤ → ℤ → Position
beside p dx dy = record { x = p.x +ℤ dx; y = p.y +ℤ dy }

abbrev pub guess : Position → Crossword → Orientation
guess p e =
    let horiz_has =
      has (beside p (pos 1) (pos 0)) e.grid || has (beside p (negsuc 0) (pos 0)) e.grid in
    let vert_has =
      has (beside p (pos 0) (pos 1)) e.grid || has (beside p (pos 0) (negsuc 0)) e.grid in
    let first = if horiz_has && not vert_has then horizontal else e.orientation in
    if vert_has && not horiz_has then vertical else first

unfoldable pub select_cell : Position → Crossword → Crossword
select_cell p e =
    if not (has p e.grid)
    then e
    else if is_selected p e.selected_cell
    then notify (record e { state = record (e.state) { orientation = flip e.orientation } })
    else notify
        (record e { state = record (e.state) { selected_cell = some p; orientation = guess p e } })

abbrev pub navigate_from : Option Position → ℤ → ℤ → Crossword → Crossword
navigate_from none dx dy e = e
navigate_from (some p) dx dy e =
    let next = beside p dx dy in
    if has next e.grid
    then notify (record e { state = record (e.state) { selected_cell = some next } })
    else e

unfoldable pub navigate : ℤ → ℤ → Crossword → Crossword
navigate dx dy e = navigate_from e.selected_cell dx dy e

unfoldable pub reset : Crossword → Crossword
reset e = notify (record e { state = blank })
