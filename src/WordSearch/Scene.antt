-- ===== src/WordSearch/Scene.antt =====
-- frontend/src/features/games/WordSearchScene.ts: selecting letters with the pointer or the keyboard.
-- Positions of the pointer are whole pixels; what is drawn is left out. `none` is an error that a handler
-- throws.
pub mod Dragging
pub mod Selection
pub mod Throws
use usbi.Prelude.{
  ℕ, zero, suc, ◌+◌, ◌-◌, ◌/◌, ◌*◌, max, Bool, true, false, ◌&&◌, ◌||◌, Option, none, some, List,
  [], ◌∷◌, map, ltb, ◌==◌, if◌then◌else◌,
}
use usbi.Prelude.Int.{ℤ, pos, negsuc, ◌-ℤ◌}
use usbi.Prelude.Sets.{range}
use usbi.WordSearch.{WordSearch, check_word}

pub record Scene : Type 0 where
  pub engine : WordSearch
  pub offset_x : ℤ
  pub offset_y : ℤ
  pub selected_coords : List (ℕ × ℕ)
  pub is_selecting : Bool
  pub cursor : ℕ × ℕ

abbrev pub cell_size : ℕ
cell_size = 40

-- `Math.floor(d / cellSize)` when it is at least 0.
abbrev pub grid_index : ℤ → Option ℕ
grid_index (pos d) = some (d / cell_size)
grid_index (negsuc d) = none

abbrev pub coord_in : ℕ → ℕ → Option ℕ → Option ℕ → Option (ℕ × ℕ)
coord_in width height none gy = none
coord_in width height (some x) none = none
coord_in width height (some x) (some y) = if ltb x width && ltb y height then some (x, y) else none

unfoldable pub get_grid_coord : Scene → ℤ → ℤ → Option (ℕ × ℕ)
get_grid_coord s x y =
    coord_in s.engine.width s.engine.height (grid_index (x -ℤ s.offset_x))
      (grid_index (y -ℤ s.offset_y))

-- `Math.abs(a - b)`
abbrev pub distance : ℕ → ℕ → ℕ
distance a b = if ltb a b then b - a else a - b

-- `a + step * i`, the step being 1, -1 or 0 towards b.
abbrev pub toward : ℕ → ℕ → ℕ → ℕ
toward a b i = if ltb a b then a + i else if ltb b a then a - i else a

unfoldable pub straight : ℕ × ℕ → ℕ × ℕ → List (ℕ × ℕ)
straight start coord =
    map (λ i. (toward start.0 coord.0 i, toward start.1 coord.1 i))
      (range 0 (max (distance coord.0 start.0) (distance coord.1 start.1) + 1))

unfoldable pub extended : ℕ × ℕ → ℕ × ℕ → List (ℕ × ℕ) → List (ℕ × ℕ)
extended start coord selected =
    let dx = distance coord.0 start.0 in
    let dy = distance coord.1 start.1 in
    if dx == 0 || dy == 0 || dx == dy then straight start coord else selected

-- Reading a field of the first of no coordinates throws.
abbrev pub extend_from : List (ℕ × ℕ) → ℕ × ℕ → Scene → Option Scene
extend_from [] coord s = none
extend_from (start ∷ rest) coord s =
    some (record s { selected_coords = extended start coord (start ∷ rest) })

unfoldable pub extend_selection_to : ℕ × ℕ → Scene → Option Scene
extend_selection_to coord s = extend_from s.selected_coords coord s

abbrev pub after_check : Option WordSearch → Scene → Option Scene
after_check none s = none
after_check (some e) s = some (record s { engine = e; is_selecting = false; selected_coords = [] })

unfoldable pub submit_selection : Scene → Option Scene
submit_selection s = after_check (check_word s.selected_coords s.engine) s

abbrev pub begin : Option (ℕ × ℕ) → Scene → Scene
begin none s = s
begin (some c) s = record s { is_selecting = true; selected_coords = c ∷ [] }

unfoldable pub handle_pointer_down : ℤ → ℤ → Scene → Scene
handle_pointer_down x y s = begin (get_grid_coord s x y) s

abbrev pub extend_to : Option (ℕ × ℕ) → Scene → Option Scene
extend_to none s = some s
extend_to (some c) s = extend_selection_to c s

unfoldable pub handle_pointer_move : ℤ → ℤ → Scene → Option Scene
handle_pointer_move x y s = if s.is_selecting then extend_to (get_grid_coord s x y) s else some s

unfoldable pub handle_pointer_up : Scene → Option Scene
handle_pointer_up s = if s.is_selecting then submit_selection s else some s

pub data Key : Type 0 where
  arrow_right arrow_left arrow_down arrow_up enter space escape other : Key

-- `Phaser.Math.Clamp(a, 0, size - 1)`
abbrev pub clamp : ℕ → ℕ → ℕ
clamp a size = if ltb a size then a else size - 1

abbrev pub move_cursor : ℕ → ℕ → Scene → Option Scene
move_cursor x y s =
    let c : ℕ × ℕ = (clamp x s.engine.width, clamp y s.engine.height) in
    let s' : Scene = record s { cursor = c } in
    if s.is_selecting then extend_selection_to c s' else some s'

unfoldable pub press : Scene → Option Scene
press s =
    if s.is_selecting
    then submit_selection s
    else some (record s { is_selecting = true; selected_coords = s.cursor ∷ [] })

unfoldable pub handle_key_down : Key → Scene → Option Scene
handle_key_down arrow_right s = move_cursor (s.cursor.0 + 1) s.cursor.1 s
handle_key_down arrow_left s = move_cursor (s.cursor.0 - 1) s.cursor.1 s
handle_key_down arrow_down s = move_cursor s.cursor.0 (s.cursor.1 + 1) s
handle_key_down arrow_up s = move_cursor s.cursor.0 (s.cursor.1 - 1) s
handle_key_down enter s = press s
handle_key_down space s = press s
handle_key_down escape s =
    if s.is_selecting
    then some (record s { is_selecting = false; selected_coords = [] })
    else some s
handle_key_down other s = some s
