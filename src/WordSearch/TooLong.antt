-- ===== src/WordSearch/TooLong.antt =====
-- WordSearchEngine.ts, the constructor and checkWord on words that do not fit on the board.
use usbi.Prelude.{
  ℕ, zero, suc, ◌*◌, ◌<◌, ◌≡◌, refl, ap, ◌∙◌, true, false, ◌||◌, none, some, List, [], ◌∷◌, ◌++◌,
  map, ltb, leb, ◌==◌, if◌then◌else◌, length, arith, Bool-cases, Option-cases, if_cases, inl, inr,
  ◌⊎◌,
}
use mathlib.Core.List.{reverse}
use usbi.Prelude.Text.{Text}
use usbi.WordSearch.{
  Grid, WordSearch, includes, unique, normalize_word, fresh, generate_grid, construct, spell,
  is_new, check_word, try_word, place_words, dir_x, dir_y,
}
use usbi.Prelude.Sort.{insert_by, sort_by}
use usbi.Rng.{random, pick}
use usbi.WordSearch.Play.{play, construct-fresh}

-- Every word is longer than both sides of the board.
abbrev pub TooLong : ℕ → ℕ → List Text → Type 0
TooLong w h [] = Unit {0}
TooLong w h (v ∷ vs) = (w < length v) × (h < length v) × TooLong w h vs

TooLong-insert_by :
    (w h : ℕ) (v : Text) (vs : List Text)
    → w < length v
    → h < length v
    → TooLong w h vs
    → TooLong w h (insert_by length v vs)
unfolding insert_by
TooLong-insert_by w h v [] a b l = (a, b, tt)
TooLong-insert_by w h v (u ∷ vs) a b (c, d, l) =
    if_cases (TooLong w h) (leb (length u) (length v)) (λ _. (a, b, (c, d, l)))
      (λ _. (c, d, TooLong-insert_by w h v vs a b l))

TooLong-sort_by : (w h : ℕ) (vs : List Text) → TooLong w h vs → TooLong w h (sort_by length vs)
unfolding sort_by
TooLong-sort_by w h [] l = tt
TooLong-sort_by w h (v ∷ vs) (a, b, l) =
    TooLong-insert_by w h v (sort_by length vs) a b (TooLong-sort_by w h vs l)

one_step : (dir : ℕ) → (dir_x dir ≡ 1) ⊎ (dir_y dir ≡ 1)
one_step dir = elim (Bool-cases (dir == 0)) [
  | inl e ↦ inl (ground arith)
  | inr e ↦ inr (ground arith)
]

no_room :
    (n w h dx dy : ℕ)
    → w < n
    → h < n
    → (dx ≡ 1) ⊎ (dy ≡ 1)
    → (ltb w (n * dx) || ltb h (n * dy)) ≡ true
no_room n w h dx dy a b (inl e) = rw e (ground arith)
no_room n w h dx dy a b (inr e) = rw e (ground arith)

try_word_too_long :
    (k : ℕ) (v : Text) (w h : ℕ) (g : Grid) (seed : ℕ)
    → w < length v
    → h < length v
    → (try_word k v w h g seed).placed ≡ false
unfolding try_word
try_word_too_long zero v w h g seed a b = refl
try_word_too_long (suc k) v w h g seed a b =
    let dir = pick (random seed) 3 in
    simp (
      no_room (length v) w h (dir_x dir) (dir_y dir) a b (one_step dir),
      try_word_too_long k v w h g (random seed) a b,
    )

place_words-TooLong :
    (ws done : List Text) (w h : ℕ) (g : Grid) (seed : ℕ)
    → TooLong w h ws
    → (place_words ws done w h g seed).placed_words ≡ done
unfolding place_words
place_words-TooLong [] done w h g seed l = refl
place_words-TooLong (v ∷ vs) done w h g seed (a, b, l) =
    let t = try_word 500 v w h g seed in
    place_words-TooLong vs (if t.placed then done ++ v ∷ [] else done) w h t.board t.next l
    ∙ rw (try_word_too_long 500 v w h g seed a b) refl

never_new : (e : WordSearch) (v : Text) → e.words ≡ [] → is_new e.state v ≡ false
unfolding includes
never_new e v ew = simp ew

-- Without words a selection is an error or changes nothing.
no_words :
    (p : List (ℕ × ℕ)) (e : WordSearch)
    → e.words ≡ []
    → (check_word p e ≡ none) ⊎ (check_word p e ≡ some e)
unfolding check_word
no_words p e ew = elim (Bool-cases e.is_finished) [
  | inl over ↦ inr (simp over)
  | inr going ↦ elim (Option-cases (spell e.grid p)) [
    | inl s ↦ inl (simp (going, s))
    | inr (v, s) ↦ inr (simp (going, s, never_new e v ew, never_new e (reverse v) ew))
  ]
]

play_no_words :
    (moves : List (List (ℕ × ℕ))) (e e' : WordSearch)
    → e.words ≡ []
    → play moves e ≡ some e'
    → e' ≡ e
unfolding play
play_no_words [] e e' ew h = ground arith
play_no_words (p ∷ ps) e e' ew h = elim (no_words p e ew) [
  | inl stop ↦ let gone : none ≡ some e' = (rw stop at h) in absurd cc
  | inr same ↦ play_no_words ps e e' ew (rw same at h)
]

-- When every word is longer than both sides of the board, no sequence of selections on the game that
-- the constructor returns ever ends it or scores a point, and the game has no words.
pub TooLong-never_ends :
    (nfd : Text → Text) (words : List Text) (w h seed : ℕ) (e : WordSearch)
    → construct nfd words w h seed ≡ some e
    → TooLong w h (unique [] (map (normalize_word nfd) words))
    → (moves : List (List (ℕ × ℕ))) (e' : WordSearch) → play moves e ≡ some e'
    → (e'.words ≡ []) × (e'.is_finished ≡ false) × (e'.score ≡ 0)
unfolding generate_grid
TooLong-never_ends nfd words w h seed e made long moves e' played =
    let e₀ = fresh (unique [] (map (normalize_word nfd) words)) w h seed in
    let start : e ≡ generate_grid e₀ = construct-fresh nfd words w h seed e made in
    let none_placed : (generate_grid e₀).words ≡ [] =
      place_words-TooLong (sort_by length e₀.words) [] w h e₀.grid seed
        (TooLong-sort_by w h e₀.words long) in
    let listed : e.words ≡ [] = ap (λ x. x.words) start ∙ none_placed in
    let same : e' ≡ generate_grid e₀ = play_no_words moves e e' listed played ∙ start in
    (ap (λ x. x.words) same ∙ none_placed, ap (λ x. x.is_finished) same, ap (λ x. x.score) same)
