-- ===== src/WordSearch/Placing.antt =====
-- WordSearchEngine.ts, generateGrid: every word that is kept can be read off the finished grid.
use usbi.Prelude.{
  ℕ, zero, suc, ◌+◌, ◌-◌, ◌*◌, ◌≤◌, ◌<◌, ◌≡◌, refl, ap, ◌∙◌, true, ◌||◌, Option, none, some, List,
  [], ◌∷◌, ◌++◌, ltb, if◌then◌else◌, length, get_elem?, arith, if_cases,
}
use usbi.Prelude.Text.{Text}
use usbi.Prelude.Sort.{sort_by}
use usbi.Rng.{random, pick}
use usbi.WordSearch.{
  Grid, WordSearch, flat, cell, can_place_word, dir_x, dir_y, Tried, try_word, place_words,
  fill_row, fill_grid, generate_grid,
}
use usbi.WordSearch.Grid.{IsSized, Extends, Reads, Extends-Reads, place_word-Reads}

-- The word lies on a line of the grid: to the right, down, or both.
abbrev pub IsHidden : Grid → Text → Type 0
IsHidden g w =
    (x : ℕ) × (y : ℕ) × (dx : ℕ) × (dy : ℕ) × (dx ≤ 1)
    × (dy ≤ 1)
    × (0 < dx + dy)
    × Reads g w x y dx dy

abbrev pub AllHidden : Grid → List Text → Type 0
AllHidden g [] = Unit {0}
AllHidden g (w ∷ ws) = IsHidden g w × AllHidden g ws

IsHidden-Extends : (g g' : Grid) (w : Text) → Extends g g' → IsHidden g w → IsHidden g' w
IsHidden-Extends g g' w e (x, y, dx, dy, a, b, c, r) =
    (x, y, dx, dy, a, b, c, Extends-Reads g g' w x y dx dy e r)

all-Extends : (g g' : Grid) (ws : List Text) → Extends g g' → AllHidden g ws → AllHidden g' ws
all-Extends g g' [] e h = tt
all-Extends g g' (w ∷ ws) e h = (IsHidden-Extends g g' w e h.0, all-Extends g g' ws e h.1)

all-append :
    (g : Grid) (vs : List Text) (w : Text)
    → AllHidden g vs
    → IsHidden g w
    → AllHidden g (vs ++ w ∷ [])
all-append g [] w h k = (k, tt)
all-append g (v ∷ vs) w h k = (h.0, all-append g vs w h.1 k)

pub record Keeps (w h : ℕ) (g : Grid) (word : Text) (t : Tried) : Type 0 where
  pub hidden : t.placed ≡ true → IsHidden t.board word
  pub extends : Extends g t.board
  pub sized : IsSized w h t.board

dir_bounds : (dir : ℕ) → (dir_x dir ≤ 1) × (dir_y dir ≤ 1) × (0 < dir_x dir + dir_y dir)
dir_bounds dir = (ground arith, ground arith, ground arith)

try_word-Keeps :
    (k : ℕ) (word : Text) (w h : ℕ) (g : Grid) (seed : ℕ)
    → IsSized w h g
    → Keeps w h g word (try_word k word w h g seed)
unfolding try_word
try_word-Keeps zero word w h g seed d = record {
  hidden = λ e. cc;
  extends = λ x y c e. e;
  sized = d;
}
try_word-Keeps (suc k) word w h g seed d =
    let s₁ = random seed in
    let dir = pick s₁ 3 in
    let dx = dir_x dir in
    let dy = dir_y dir in
    let s₂ = random s₁ in
    let x = pick s₂ (w - length word * dx + 1) in
    let s₃ = random s₂ in
    let y = pick s₃ (h - length word * dy + 1) in
    if_cases (Keeps w h g word) (ltb w (length word * dx) || ltb h (length word * dy))
      (λ _. try_word-Keeps k word w h g s₁ d)
      (λ _.
        if_cases (Keeps w h g word) (can_place_word word x y dx dy w h g)
          (λ ok.
            let (a, b, c) = dir_bounds dir in
            let (reads, kept, size) = place_word-Reads word x y dx dy w h g d c ok in
            record { hidden = λ _. (x, y, dx, dy, a, b, c, reads); extends = kept; sized = size })
          (λ _. try_word-Keeps k word w h g s₃ d))

place_words-AllHidden :
    (ws done : List Text) (w h : ℕ) (g : Grid) (seed : ℕ)
    → IsSized w h g
    → AllHidden g done
    → let laid = place_words ws done w h g seed in
      AllHidden laid.board laid.placed_words × IsSized w h laid.board
unfolding place_words
place_words-AllHidden [] done w h g seed d a = (a, d)
place_words-AllHidden (word ∷ ws) done w h g seed d a =
    let t = try_word 500 word w h g seed in
    let k = try_word-Keeps 500 word w h g seed d in
    let a' = all-Extends g t.board done k.extends a in
    place_words-AllHidden ws (if t.placed then done ++ word ∷ [] else done) w h t.board t.next
      k.sized
      (if_cases (AllHidden t.board) t.placed (λ e. all-append t.board done word a' (k.hidden e))
        (λ _. a'))

fill_row-keeps :
    (r : List (Option ℕ)) (seed x c : ℕ)
    → flat (get_elem? r x) ≡ some c
    → flat (get_elem? (fill_row r seed).0 x) ≡ some c
unfolding fill_row
fill_row-keeps [] seed x c h = h
fill_row-keeps (some d ∷ r) seed zero c h = h
fill_row-keeps (some d ∷ r) seed (suc x) c h = fill_row-keeps r seed x c h
fill_row-keeps (none ∷ r) seed zero c h = cc
fill_row-keeps (none ∷ r) seed (suc x) c h = fill_row-keeps r (random seed) x c h

fill_grid-Extends : (g : Grid) (seed : ℕ) → Extends g (fill_grid g seed).0
unfolding fill_grid cell
fill_grid-Extends [] seed x y c h = h
fill_grid-Extends (r ∷ g) seed x zero c h = fill_row-keeps r seed x c h
fill_grid-Extends (r ∷ g) seed x (suc y) c h = fill_grid-Extends g (fill_row r seed).1 x y c h

length-fill_row : (r : List (Option ℕ)) (seed : ℕ) → length (fill_row r seed).0 ≡ length r
unfolding fill_row
length-fill_row [] seed = refl
length-fill_row (some d ∷ r) seed = ap suc (length-fill_row r seed)
length-fill_row (none ∷ r) seed = ap suc (length-fill_row r (random seed))

fill_grid-IsSized : (g : Grid) (seed w h : ℕ) → IsSized w h g → IsSized w h (fill_grid g seed).0
unfolding fill_grid
fill_grid-IsSized [] seed w h d = record { tall = d.tall; wide = tt }
fill_grid-IsSized (r ∷ g) seed w zero d = absurd (omega (arith, d.tall))
fill_grid-IsSized (r ∷ g) seed w (suc h) d =
    let rest =
      fill_grid-IsSized g (fill_row r seed).1 w h
        (record { tall = omega (arith, d.tall); wide = d.wide.1 }) in
    record { tall = ap suc rest.tall; wide = (length-fill_row r seed ∙ d.wide.0, rest.wide) }

-- After `generateGrid` every word that is kept lies on a line.
pub generate_grid-AllHidden :
    (e : WordSearch)
    → IsSized e.width e.height e.grid
    → let e' = generate_grid e in AllHidden e'.grid e'.words × IsSized e.width e.height e'.grid
unfolding generate_grid
generate_grid-AllHidden e d =
    let laid = place_words (sort_by length e.words) [] e.width e.height e.grid e.seed in
    let (hidden, size) =
      place_words-AllHidden (sort_by length e.words) [] e.width e.height e.grid e.seed d tt in
    (
      all-Extends laid.board _ laid.placed_words (fill_grid-Extends laid.board laid.next) hidden,
      fill_grid-IsSized laid.board laid.next e.width e.height size,
    )
