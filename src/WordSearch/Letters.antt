-- ===== src/WordSearch/Letters.antt =====
-- WordSearchEngine.ts, normalizeWord and generateGrid: the letters of the words and of the finished
-- grid.
use usbi.Prelude.{
  ℕ, zero, suc, ◌+◌, ◌-◌, ◌*◌, ◌≤◌, List, [], ◌∷◌, ◌++◌, map, Option, none, some, ltb, leb, ◌||◌,
  if◌then◌else◌, length, get_elem?, set, replicate, arith, if_cases, Bool-cases, inl, inr, not,
}
use usbi.Prelude.Sets.{keep}
use usbi.Prelude.Sort.{insert_by, sort_by}
use usbi.Prelude.Text.{Text}
use usbi.Rng.{random, pick, random-lt, pick-lt}
use usbi.WordSearch.{
  Grid, WordSearch, is_mark, is_letter, upper, normalize_word, includes, unique, row_or, set_cell,
  can_place_word, place_word, dir_x, dir_y, Tried, try_word, place_words, fill_row, fill_grid,
  generate_grid,
}

-- A letter from A to Z.
abbrev pub IsCapital : ℕ → Type 0
IsCapital c = (b'A' ≤ c) × (c ≤ b'Z')

abbrev AllCapital : Text → Type 0
AllCapital [] = Unit {0}
AllCapital (c ∷ cs) = IsCapital c × AllCapital cs

abbrev pub EachCapital : List Text → Type 0
EachCapital [] = Unit {0}
EachCapital (w ∷ ws) = AllCapital w × EachCapital ws

-- The cells that are not empty hold letters.
abbrev LettersRow : List (Option ℕ) → Type 0
LettersRow [] = Unit {0}
LettersRow (none ∷ cs) = LettersRow cs
LettersRow (some c ∷ cs) = IsCapital c × LettersRow cs

abbrev pub Letters : Grid → Type 0
Letters [] = Unit {0}
Letters (r ∷ rs) = LettersRow r × Letters rs

-- Every cell holds a letter.
abbrev FullRow : List (Option ℕ) → Type 0
FullRow [] = Unit {0}
FullRow (none ∷ cs) = ⊥
FullRow (some c ∷ cs) = IsCapital c × FullRow cs

abbrev pub Full : Grid → Type 0
Full [] = Unit {0}
Full (r ∷ rs) = FullRow r × Full rs

letters-AllCapital : (t : Text) → AllCapital (map upper (keep is_letter t))
unfolding upper keep is_letter
letters-AllCapital [] = tt
letters-AllCapital (c ∷ cs) = elim (Bool-cases (is_letter c)) [
  | inl yes_letter ↦
      let capital : IsCapital (upper c) = ground arith in
      rw (yes_letter) (capital, letters-AllCapital cs)
  | inr no_letter ↦ rw (no_letter) (letters-AllCapital cs)
]

pub normalized-EachCapital :
    (nfd : Text → Text) (words : List Text) → EachCapital (map (normalize_word nfd) words)
unfolding normalize_word
normalized-EachCapital nfd [] = tt
normalized-EachCapital nfd (w ∷ ws) =
    (letters-AllCapital (keep (λ c. not (is_mark c)) (nfd w)), normalized-EachCapital nfd ws)

EachCapital-snoc :
    (ws : List Text) (w : Text) → EachCapital ws → AllCapital w → EachCapital (ws ++ w ∷ [])
EachCapital-snoc [] w h k = (k, tt)
EachCapital-snoc (v ∷ ws) w h k = (h.0, EachCapital-snoc ws w h.1 k)

pub unique-EachCapital :
    (seen ws : List Text) → EachCapital seen → EachCapital ws → EachCapital (unique seen ws)
unfolding unique
unique-EachCapital seen [] h k = h
unique-EachCapital seen (w ∷ ws) h k =
    unique-EachCapital (if includes seen w then seen else seen ++ w ∷ []) ws
      (if_cases EachCapital (includes seen w) (λ _. h) (λ _. EachCapital-snoc seen w h k.0)) k.1

insert_by-EachCapital :
    (key : Text → ℕ) (w : Text) (ws : List Text)
    → AllCapital w
    → EachCapital ws
    → EachCapital (insert_by key w ws)
unfolding insert_by
insert_by-EachCapital key w [] h k = (h, tt)
insert_by-EachCapital key w (v ∷ vs) h k =
    if_cases EachCapital (leb (key v) (key w)) (λ _. (h, k))
      (λ _. (k.0, insert_by-EachCapital key w vs h k.1))

sort_by-EachCapital :
    (key : Text → ℕ) (ws : List Text) → EachCapital ws → EachCapital (sort_by key ws)
unfolding sort_by
sort_by-EachCapital key [] h = h
sort_by-EachCapital key (w ∷ ws) h =
    insert_by-EachCapital key w (sort_by key ws) h.0 (sort_by-EachCapital key ws h.1)

set-LettersRow :
    (r : List (Option ℕ)) (x c : ℕ) → LettersRow r → IsCapital c → LettersRow (set r x (some c))
set-LettersRow [] x c h k = tt
set-LettersRow (none ∷ r) zero c h k = (k, h)
set-LettersRow (some d ∷ r) zero c h k = (k, h.1)
set-LettersRow (none ∷ r) (suc x) c h k = set-LettersRow r x c h k
set-LettersRow (some d ∷ r) (suc x) c h k = (h.0, set-LettersRow r x c h.1 k)

set-Letters :
    (g : Grid) (y : ℕ) (r : List (Option ℕ)) → Letters g → LettersRow r → Letters (set g y r)
set-Letters [] y r h k = tt
set-Letters (q ∷ g) zero r h k = (k, h.1)
set-Letters (q ∷ g) (suc y) r h k = (h.0, set-Letters g y r h.1 k)

row-Letters : (g : Grid) (y : ℕ) → Letters g → LettersRow (row_or (get_elem? g y))
row-Letters [] y h = tt
row-Letters (r ∷ g) zero h = h.0
row-Letters (r ∷ g) (suc y) h = row-Letters g y h.1

place_word-Letters :
    (w : Text) (x y dx dy : ℕ) (g : Grid)
    → AllCapital w
    → Letters g
    → Letters (place_word w x y dx dy g)
unfolding place_word set_cell
place_word-Letters [] x y dx dy g h k = k
place_word-Letters (c ∷ cs) x y dx dy g h k =
    let row = row_or (get_elem? g y) in
    place_word-Letters cs (x + dx) (y + dy) dx dy (set_cell g x y c) h.1
      (set-Letters g y (set row x (some c)) k (set-LettersRow row x c (row-Letters g y k) h.0))

try_word-Letters :
    (k : ℕ) (word : Text) (w h : ℕ) (g : Grid) (seed : ℕ)
    → AllCapital word
    → Letters g
    → Letters (try_word k word w h g seed).board
unfolding try_word
try_word-Letters zero word w h g seed a l = l
try_word-Letters (suc k) word w h g seed a l =
    let s₁ = random seed in
    let dx = dir_x (pick s₁ 3) in
    let dy = dir_y (pick s₁ 3) in
    let s₂ = random s₁ in
    let x = pick s₂ (w - length word * dx + 1) in
    let s₃ = random s₂ in
    let y = pick s₃ (h - length word * dy + 1) in
    let P : Tried → Type 0 = λ t. Letters t.board in
    if_cases P (ltb w (length word * dx) || ltb h (length word * dy))
      (λ _. try_word-Letters k word w h g s₁ a l)
      (λ _.
        if_cases P (can_place_word word x y dx dy w h g)
          (λ _. place_word-Letters word x y dx dy g a l)
          (λ _. try_word-Letters k word w h g s₃ a l))

place_words-Letters :
    (ws done : List Text) (w h : ℕ) (g : Grid) (seed : ℕ)
    → EachCapital ws
    → Letters g
    → Letters (place_words ws done w h g seed).board
unfolding place_words
place_words-Letters [] done w h g seed a l = l
place_words-Letters (word ∷ ws) done w h g seed a l =
    let t = try_word 500 word w h g seed in
    place_words-Letters ws (if t.placed then done ++ word ∷ [] else done) w h t.board t.next a.1
      (try_word-Letters 500 word w h g seed a.0 l)

fill_row-FullRow : (r : List (Option ℕ)) (seed : ℕ) → LettersRow r → FullRow (fill_row r seed).0
unfolding fill_row
fill_row-FullRow [] seed h = tt
fill_row-FullRow (some c ∷ r) seed h = (h.0, fill_row-FullRow r seed h.1)
fill_row-FullRow (none ∷ r) seed h =
    let below = pick-lt (random seed) 26 (random-lt seed) (omega arith) in
    ((omega arith, omega (arith, below)), fill_row-FullRow r (random seed) h)

fill_grid-Full : (g : Grid) (seed : ℕ) → Letters g → Full (fill_grid g seed).0
unfolding fill_grid
fill_grid-Full [] seed h = tt
fill_grid-Full (r ∷ g) seed h =
    (fill_row-FullRow r seed h.0, fill_grid-Full g (fill_row r seed).1 h.1)

pub replicate-Letters : (w h : ℕ) → Letters (replicate h (replicate w none))
replicate-Letters w zero = tt
replicate-Letters w (suc h) = (row w, replicate-Letters w h)
  where
    row : (n : ℕ) → LettersRow (replicate n none)
    row zero = tt
    row (suc n) = row n

-- After `generateGrid` every cell of the grid holds a letter from A to Z.
pub generate_grid-Full :
    (e : WordSearch) → EachCapital e.words → Letters e.grid → Full (generate_grid e).grid
unfolding generate_grid
generate_grid-Full e a l =
    let sorted = sort_by length e.words in
    let laid = place_words sorted [] e.width e.height e.grid e.seed in
    fill_grid-Full laid.board laid.next (
      place_words-Letters sorted [] e.width e.height e.grid e.seed
        (sort_by-EachCapital length e.words a) l)
