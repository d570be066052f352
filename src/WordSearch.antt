-- ===== src/WordSearch.antt =====
-- frontend/packages/engine/src/games/WordSearchEngine.ts: words hidden on a grid of letters.
-- A word is its list of UTF-16 code units, and the parameter `nfd` of `construct` stands for
-- `String.prototype.normalize("NFD")`. A cell is `none` while it is the empty string. Sizes, seeds
-- and the positions that a player selects are natural numbers; `none` as a result of `check_word`
-- is the TypeError of a row that is not there.
mod Examples
pub mod Grid
pub mod Letters
pub mod Placing
pub mod Words
pub mod Play
pub mod TooLong
pub mod Points
pub mod Scene
use usbi.Prelude.{
  ℕ, zero, suc, ◌+◌, ◌-◌, ◌*◌, Bool, true, false, ◌&&◌, ◌||◌, not, Option, none, some, List, [],
  ◌∷◌, ◌++◌, map, ltb, leb, ◌==◌, if◌then◌else◌, length, get_elem?, set, replicate,
}
use mathlib.Core.List.{reverse}
use usbi.Prelude.Channel
use usbi.Prelude.Channel.{Channel}
use usbi.Prelude.Sets.{keep}
use usbi.Prelude.Sort.{sort_by}
use usbi.Prelude.Text.{Text, eq_text}
use usbi.Rng.{random, pick}

abbrev pub Grid : Type 0
Grid = List (List (Option ℕ))

pub record WordSearchState : Type 0 where
  pub grid : Grid
  pub words : List Text
  pub found_words : List Text
  pub is_finished : Bool
  pub score : ℕ
  pub width : ℕ
  pub height : ℕ

pub record WordSearch : Type 0 where
  pub state : WordSearchState
  pub open state use *
  pub channel : Channel WordSearchState
  pub seed : ℕ

-- `/[\u0300-\u036f]/`, `/[a-zA-Z]/` and `toUpperCase` on those letters
unfoldable pub is_mark : ℕ → Bool
is_mark c = leb 768 c && leb c 879

unfoldable pub is_letter : ℕ → Bool
is_letter c = (leb b'a' c && leb c b'z') || (leb b'A' c && leb c b'Z')

unfoldable pub upper : ℕ → ℕ
upper c = if leb b'a' c && leb c b'z' then c - 32 else c

unfoldable pub normalize_word : (Text → Text) → Text → Text
unfolding is_mark is_letter upper
normalize_word nfd word = map upper (keep is_letter (keep (λ c. not (is_mark c)) (nfd word)))

-- `words.includes(word)`
unfoldable pub includes : List Text → Text → Bool
includes [] w = false
includes (v ∷ vs) w = eq_text v w || includes vs w

-- `Array.from(new Set(words))`, with the words seen so far
unfoldable pub unique : List Text → List Text → List Text
unfolding includes
unique seen [] = seen
unique seen (w ∷ ws) = unique (if includes seen w then seen else seen ++ w ∷ []) ws

-- `grid[y][x]`, with `none` for a cell that is empty or not there
abbrev pub flat : Option (Option ℕ) → Option ℕ
flat none = none
flat (some c) = c

abbrev pub row_or : Option (List (Option ℕ)) → List (Option ℕ)
row_or none = []
row_or (some r) = r

unfoldable pub cell : Grid → ℕ → ℕ → Option ℕ
cell g x y = flat (get_elem? (row_or (get_elem? g y)) x)

unfoldable pub set_cell : Grid → ℕ → ℕ → ℕ → Grid
set_cell g x y c = set g y (set (row_or (get_elem? g y)) x (some c))

abbrev pub fits_in : Option ℕ → ℕ → Bool
fits_in none c = true
fits_in (some d) c = d == c

-- The loop of `canPlaceWord`, the position going on by (dx, dy) with each letter.
unfoldable pub can_place_word : Text → ℕ → ℕ → ℕ → ℕ → ℕ → ℕ → Grid → Bool
can_place_word [] x y dx dy width height g = true
can_place_word (c ∷ cs) x y dx dy width height g =
    ltb x width
    && ltb y height
    && fits_in (cell g x y) c
    && can_place_word cs (x + dx) (y + dy) dx dy width height g

unfoldable pub place_word : Text → ℕ → ℕ → ℕ → ℕ → Grid → Grid
place_word [] x y dx dy g = g
place_word (c ∷ cs) x y dx dy g = place_word cs (x + dx) (y + dy) dx dy (set_cell g x y c)

abbrev pub dir_x : ℕ → ℕ
dir_x dir = if dir == 0 then 1 else if dir == 1 then 0 else 1

abbrev pub dir_y : ℕ → ℕ
dir_y dir = if dir == 0 then 0 else 1

pub record Tried : Type 0 where
  pub placed : Bool
  pub board : Grid
  pub next : ℕ

-- The `while` loop for one word, with the attempts that are left; `next` is the seed.
unfoldable pub try_word : ℕ → Text → ℕ → ℕ → Grid → ℕ → Tried
try_word zero word width height g seed = record { placed = false; board = g; next = seed }
try_word (suc k) word width height g seed =
    let s₁ = random seed in
    let dir = pick s₁ 3 in
    let dx = dir_x dir in
    let dy = dir_y dir in
    let s₂ = random s₁ in
    let x = pick s₂ (width - length word * dx + 1) in
    let s₃ = random s₂ in
    let y = pick s₃ (height - length word * dy + 1) in
    let no_room = try_word k word width height g s₁ in
    let conflict = try_word k word width height g s₃ in
    let done : Tried = record { placed = true; board = place_word word x y dx dy g; next = s₃ } in
    if ltb width (length word * dx) || ltb height (length word * dy)
    then no_room
    else if can_place_word word x y dx dy width height g
    then done
    else conflict

pub record Laid : Type 0 where
  pub placed_words : List Text
  pub board : Grid
  pub next : ℕ

-- The `for` loop over the sorted words, `placedWords` being what has been placed so far.
unfoldable pub place_words : List Text → List Text → ℕ → ℕ → Grid → ℕ → Laid
place_words [] done width height g seed = record { placed_words = done; board = g; next = seed }
place_words (w ∷ ws) done width height g seed =
    let tried = try_word 500 w width height g seed in
    place_words ws (if tried.placed then done ++ w ∷ [] else done) width height tried.board
      tried.next

-- The letters that fill the empty cells, row by row.
unfoldable pub fill_row : List (Option ℕ) → ℕ → List (Option ℕ) × ℕ
fill_row [] seed = ([], seed)
fill_row (some c ∷ cs) seed = let (rest, s) = fill_row cs seed in (some c ∷ rest, s)
fill_row (none ∷ cs) seed =
    let s₁ = random seed in let (rest, s) = fill_row cs s₁ in (some (b'A' + pick s₁ 26) ∷ rest, s)

unfoldable pub fill_grid : Grid → ℕ → Grid × ℕ
fill_grid [] seed = ([], seed)
fill_grid (r ∷ rs) seed =
    let (row, s₁) = fill_row r seed in let (rest, s₂) = fill_grid rs s₁ in (row ∷ rest, s₂)

unfoldable pub generate_grid : WordSearch → WordSearch
generate_grid e =
    let laid = place_words (sort_by length e.words) [] e.width e.height e.grid e.seed in
    let (filled, seed') = fill_grid laid.board laid.next in
    record e { state = record (e.state) { words = laid.placed_words; grid = filled }; seed = seed' }

abbrev pub fresh : List Text → ℕ → ℕ → ℕ → WordSearch
fresh words width height seed = record {
  state = record {
    grid = replicate height (replicate width none);
    words = words;
    found_words = [];
    is_finished = false;
    score = 0;
    width = width;
    height = height;
  };
  channel = Channel.silent;
  seed = seed;
}

-- The constructor; `none` is the error "no words provided".
unfoldable pub construct : (Text → Text) → List Text → ℕ → ℕ → ℕ → Option WordSearch
construct nfd words width height seed =
    if length words == 0
    then none
    else some (generate_grid (fresh (unique [] (map (normalize_word nfd) words)) width height seed))

-- `selectedLetters.map(pos => grid[pos.y][pos.x]).join('')`: a missing column adds nothing.
abbrev pub letter : Option ℕ → Text
letter none = []
letter (some c) = c ∷ []

abbrev pub spell_next : Option (List (Option ℕ)) → ℕ → Option Text → Option Text
spell_next none x rest = none
spell_next (some row) x none = none
spell_next (some row) x (some rest) = some (letter (flat (get_elem? row x)) ++ rest)

unfoldable pub spell : Grid → List (ℕ × ℕ) → Option Text
spell g [] = some []
spell g (p ∷ ps) = spell_next (get_elem? g p.1) p.0 (spell g ps)

abbrev pub is_new : WordSearchState → Text → Bool
is_new s w = includes s.words w && not (includes s.found_words w)

unfoldable pub add_found : Text → WordSearch → WordSearch
add_found w e =
    let found = e.found_words ++ w ∷ [] in
    let state' : WordSearchState = record (e.state) {
      found_words = found;
      score = e.score + 100;
      is_finished = if length found == length e.words then true else e.is_finished;
    } in
    record e { state = state'; channel = Channel.notify state' e.channel }

unfoldable pub check_word : List (ℕ × ℕ) → WordSearch → Option WordSearch
check_word selected e =
    let checked : Option WordSearch = elim (spell e.grid selected) [
      | none ↦ none
      | some w ↦ some (
          if is_new e.state w
          then add_found w e
          else if is_new e.state (reverse w)
          then add_found (reverse w) e
          else e)
    ] in
    if e.is_finished then some e else checked

unfoldable pub reset : WordSearch → WordSearch
reset e =
    let state' = record (e.state) { found_words = []; score = 0; is_finished = false } in
    record e { state = state'; channel = Channel.notify state' e.channel }

unfoldable pub subscribe : ℕ → WordSearch → WordSearch
subscribe l e = record e { channel = Channel.subscribe l e.state e.channel }

unfoldable pub unsubscribe : ℕ → WordSearch → WordSearch
unsubscribe l e = record e { channel = Channel.unsubscribe l e.channel }

unfoldable pub destroy : WordSearch → WordSearch
destroy e = record e { channel = Channel.clear e.channel }
