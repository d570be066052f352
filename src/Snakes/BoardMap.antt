-- ===== src/Snakes/BoardMap.antt =====
-- frontend/packages/engine/src/games/snakes/BoardMap.ts (mapToGrid), and its counterpart in the
-- level editor, frontend/src/features/content/maker/snakesLayout.ts (cellAt).
-- A grid position is a column and a row counted from the top; `none` is "Index out of bounds".
use usbi.Prelude.{
  ℕ, ◌+◌, ◌-◌, ◌*◌, ◌/◌, ◌%◌, ◌≤◌, ◌<◌, ◌≡◌, ◌||◌, Option, none, some, ◌==◌, if◌then◌else◌, arith,
}
use usbi.Prelude.Int.{ℤ, pos, pos_part, ltb_ℤ}

unfoldable pub map_to_grid : ℤ → ℕ → ℕ → Option (ℕ × ℕ)
map_to_grid index width height =
    if ltb_ℤ index (pos 1) || ltb_ℤ (pos (width * height)) index
    then none
    else let i = pos_part index - 1 in
      let row = i / width in
      let x = i % width in some (if row % 2 == 0 then x else width - 1 - x, height - 1 - row)

-- For a row and a column of the board, where no difference is negative.
unfoldable pub cell_at : ℕ → ℕ → ℕ → ℕ → ℕ
cell_at row col board_width board_height =
    let row_from_bottom = board_height - 1 - row in
    let base = row_from_bottom * board_width in
    let offset = if row_from_bottom % 2 == 0 then col else board_width - 1 - col in
    base + offset + 1

div_unique : (w q r : ℕ) → r < w → ((q * w + r) / w ≡ q) × ((q * w + r) % w ≡ r)
div_unique w q r h = (grind arith, grind arith)

row-lt : (i w h : ℕ) → i < w * h → i / w < h
row-lt i w h p = grind arith

-- Every index from 1 to width * height has a place on the grid, and the editor's numbering of that
-- place is the index.
pub map_to_grid-cell_at :
    (i w h : ℕ)
    → 1 ≤ i
    → i ≤ w * h
    → (x y : ℕ) × (map_to_grid (pos i) w h ≡ some (x, y))
      × (x < w)
      × (y < h)
      × (cell_at y x w h ≡ i)
unfolding map_to_grid cell_at
map_to_grid-cell_at i w h p q =
    let row = (i - 1) / w in
    let r = (i - 1) % w in
    let low : row < h = row-lt (i - 1) w h (omega arith) in
    let side : r < w = grind arith in
    let split : row * w + r ≡ i - 1 = grind arith in
    let back : h - 1 - (h - 1 - row) ≡ row = omega arith in
    (
      (if row % 2 == 0 then r else w - 1 - r),
      h - 1 - row,
      ground arith,
      ground arith,
      omega arith,
      rw back (ground arith),
    )

-- Every place of the grid has an index of at most width * height, which `map_to_grid` takes back to
-- that place.
pub cell_at-map_to_grid :
    (row col w h : ℕ)
    → row < h
    → col < w
    → (map_to_grid (pos (cell_at row col w h)) w h ≡ some (col, row))
      × (cell_at row col w h ≤ w * h)
unfolding map_to_grid cell_at
cell_at-map_to_grid row col w h p q =
    let up = h - 1 - row in
    let offset = if up % 2 == 0 then col else w - 1 - col in
    let side : offset < w = ground arith in
    let (whole, part) = div_unique w up offset side in
    let inside : up * w + offset < w * h = grind arith in
    let index : up * w + offset + 1 - 1 ≡ up * w + offset = omega arith in
    (rw (index, whole, part) (ground arith), omega arith)
