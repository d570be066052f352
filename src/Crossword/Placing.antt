-- ===== src/Crossword/Placing.antt =====
-- CrosswordEngine.ts, the layout: every placed word can be read on the finished grid.
use usbi.Prelude.{
  ℕ, ◌+◌, ◌≡◌, refl, Bool, true, false, ◌&&◌, ◌||◌, not, Option, none, some, List, [], ◌∷◌, ◌++◌,
  ltb, ◌==◌, if◌then◌else◌, length, arith, Option-cases, if_cases, inl, inr,
}
use usbi.Prelude.Int.{pos, negsuc, ◌-ℤ◌}
use usbi.Prelude.Text.{Text}
use usbi.Prelude.Sort.{sort_by}
use usbi.Crossword.Building.{
  build_greedy_layout, empty_layout, best_layout, normalize_words, size_of, build_crossword_layout,
}
use usbi.Crossword.Layout.{
  Position, CrosswordCell, CrosswordWord, PlacedWord, Unicode, CrosswordLayout,
  NormalizedCrosswordWord, Placement, cell_at, has, along, across, place_letters, cross_next,
  crossings, crosses, can_place_word, better, try_letters, try_placed, try_indices,
  find_best_placement, Board, place_word, place_found, place_all, absolute,
}
use usbi.Crossword.Reading.{
  fits_in, Fits, AllRead, AllRead-Extends, AllRead-append, place_letters-Reads,
}
use usbi.Crossword.Shifting.{normalize_layout-AllRead}

cross_next-some :
    (o : Option ℕ) (c : ℕ) (beside : Bool) (rest : Option ℕ) (n : ℕ)
    → cross_next o c beside rest ≡ some n
    → (fits_in o c ≡ true) × (m : ℕ) × (rest ≡ some m)
cross_next-some none c beside rest n h = (refl, n, ground arith)
cross_next-some (some d) c beside none n h = absurd cc
cross_next-some (some d) c beside (some m) n h = (ground arith, m, refl)

crossings-Fits :
    (cs : Text) (p : Position) (v : Bool) (g : List CrosswordCell) (n : ℕ)
    → crossings cs p v g ≡ some n
    → Fits g cs p v
unfolding crossings
crossings-Fits [] p v g n h = tt
crossings-Fits (c ∷ cs) p v g n h =
    let beside = has (across v p (negsuc 0)) g || has (across v p (pos 1)) g in
    let next = along v p (pos 1) in
    let (fits, m, rest) = cross_next-some (cell_at p g) c beside (crossings cs next v g) n h in
    (fits, crossings-Fits cs next v g m rest)

can_place_word-Fits :
    (cs : Text) (p : Position) (v : Bool) (g : List CrosswordCell)
    → can_place_word cs p v g ≡ true
    → Fits g cs p v
unfolding can_place_word
can_place_word-Fits cs p v g h = elim (Option-cases (crossings cs p v g)) [
  | inl e ↦ absurd (
      let gone : (crosses none
            && not (has (along v p (negsuc 0)) g)
            && not (has (along v p (pos (length cs))) g))
          ≡ true =
        (rw e at h) in
      cc)
  | inr (n, e) ↦ crossings-Fits cs p v g n e
]

-- What the search has found so far may be placed.
abbrev Good : Text → List CrosswordCell → Option Placement → Type 0
Good cs g none = Unit {0}
Good cs g (some p) = can_place_word cs p.position p.is_vertical g ≡ true

better-Good :
    (cs : Text) (g : List CrosswordCell) (p : Placement) (best : Option Placement)
    → can_place_word cs p.position p.is_vertical g ≡ true
    → Good cs g best
    → Good cs g (better p best)
better-Good cs g p none h b = h
better-Good cs g p (some q) h b = if_cases (Good cs g) (ltb p.score q.score) (λ _. h) (λ _. b)

try_letters-Good :
    (cs : Text) (i letter : ℕ) (ds : Text) (j : ℕ) (w : PlacedWord) (g : List CrosswordCell)
    (best : Option Placement)
    → Good cs g best
    → Good cs g (try_letters cs i letter ds j w g best)
unfolding try_letters
try_letters-Good cs i letter [] j w g best b = b
try_letters-Good cs i letter (d ∷ ds) j w g best b =
    let vertical = not w.is_vertical in
    let start = along vertical (along w.is_vertical w.position (pos j)) (pos 0 -ℤ pos i) in
    let found : Placement = record {
      position = start;
      is_vertical = vertical;
      score = absolute start.x + absolute start.y;
    } in
    let test = d == letter && can_place_word cs start vertical g in
    try_letters-Good cs i letter ds (j + 1) w g (if test then better found best else best)
      (if_cases (Good cs g) test (λ e. better-Good cs g found best (ground arith) b) (λ _. b))

try_placed-Good :
    (cs : Text) (i letter : ℕ) (ws : List PlacedWord) (g : List CrosswordCell)
    (best : Option Placement)
    → Good cs g best
    → Good cs g (try_placed cs i letter ws g best)
unfolding try_placed
try_placed-Good cs i letter [] g best b = b
try_placed-Good cs i letter (w ∷ ws) g best b =
    try_placed-Good cs i letter ws g (try_letters cs i letter w.word 0 w g best)
      (try_letters-Good cs i letter w.word 0 w g best b)

try_indices-Good :
    (cs ds : Text) (i : ℕ) (ws : List PlacedWord) (g : List CrosswordCell) (best : Option Placement)
    → Good cs g best
    → Good cs g (try_indices cs ds i ws g best)
unfolding try_indices
try_indices-Good cs [] i ws g best b = b
try_indices-Good cs (d ∷ ds) i ws g best b =
    try_indices-Good cs ds (i + 1) ws g (try_placed cs i d ws g best)
      (try_placed-Good cs i d ws g best b)

place_word-AllRead :
    (w : NormalizedCrosswordWord) (p : Position) (v : Bool) (b : Board)
    → Fits b.cells w.normalized_word p v
    → AllRead b.cells b.placed
    → AllRead (place_word w p v b).cells (place_word w p v b).placed
unfolding place_word
place_word-AllRead w p v b f a =
    let (reads, kept) = place_letters-Reads w.normalized_word p v b.cells f in
    let g' = place_letters w.normalized_word p v b.cells in
    AllRead-append g' b.placed _ (AllRead-Extends b.cells g' b.placed kept a) reads

place_found-AllRead :
    (w : NormalizedCrosswordWord) (p : Option Placement) (b : Board)
    → Good w.normalized_word b.cells p
    → AllRead b.cells b.placed
    → AllRead (place_found w p b).cells (place_found w p b).placed
place_found-AllRead w none b h a = a
place_found-AllRead w (some p) b h a =
    place_word-AllRead w p.position p.is_vertical b
      (can_place_word-Fits w.normalized_word p.position p.is_vertical b.cells h) a

place_all-AllRead :
    (ws : List NormalizedCrosswordWord) (b : Board)
    → AllRead b.cells b.placed
    → AllRead (place_all ws b).cells (place_all ws b).placed
unfolding place_all find_best_placement
place_all-AllRead [] b a = a
place_all-AllRead (w ∷ ws) b a =
    let letters = w.normalized_word in
    let best = find_best_placement letters b.cells b.placed in
    place_all-AllRead ws (place_found w best b)
      (place_found-AllRead w best b (try_indices-Good letters letters 0 b.placed b.cells none tt) a)

Fits-nil : (cs : Text) (p : Position) (v : Bool) → Fits [] cs p v
unfolding cell_at
Fits-nil [] p v = tt
Fits-nil (c ∷ cs) p v = (refl, Fits-nil cs (along v p (pos 1)) v)

greedy-AllRead :
    (u : Unicode) (w : NormalizedCrosswordWord) (ws : List NormalizedCrosswordWord)
    (words : List CrosswordWord)
    → let l = build_greedy_layout u w ws words in AllRead l.grid l.placed_words
unfolding build_greedy_layout
greedy-AllRead u w ws words =
    let origin : Position = record { x = pos 0; y = pos 0 } in
    let b₀ : Board = record { cells = []; placed = [] } in
    let b = place_all ws (place_word w origin false b₀) in
    normalize_layout-AllRead b.cells b.placed _ (
      place_all-AllRead ws (place_word w origin false b₀)
        (place_word-AllRead w origin false b₀ (Fits-nil w.normalized_word origin false) tt))

best_layout-AllRead :
    (u : Unicode) (before ws : List NormalizedCrosswordWord) (words : List CrosswordWord)
    (best : CrosswordLayout)
    → AllRead best.grid best.placed_words
    → let l = best_layout u before ws words best in AllRead l.grid l.placed_words
unfolding best_layout
best_layout-AllRead u before [] words best a = a
best_layout-AllRead u before (w ∷ ws) words best a =
    let l = build_greedy_layout u w (before ++ ws) words in
    let al = greedy-AllRead u w (before ++ ws) words in
    let test = ltb (length best.placed_words) (length l.placed_words) in
    let P : CrosswordLayout → Type 0 = λ k. AllRead k.grid k.placed_words in
    if_cases P (length l.unplaced_words == 0) (λ _. al)
      (λ _.
        best_layout-AllRead u (before ++ w ∷ []) ws words (if test then l else best)
          (if_cases P test (λ _. al) (λ _. a)))

-- Every word that the layout lists as placed can be read on its grid, letter by letter from the
-- position of the word and in its direction, whatever the words are.
pub build_crossword_layout-AllRead :
    (u : Unicode) (words : List CrosswordWord)
    → let l = build_crossword_layout u words in AllRead l.grid l.placed_words
unfolding build_crossword_layout empty_layout
build_crossword_layout-AllRead u words =
    best_layout-AllRead u [] (sort_by size_of (normalize_words u words)) words (empty_layout words)
      tt
