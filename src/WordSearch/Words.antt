-- ===== src/WordSearch/Words.antt =====
-- WordSearchEngine.ts, the lists of words: the ones that the grid keeps are different from each other.
use mathlib.Core.Path.{subst}
use usbi.Prelude.{
  ℕ, ◌≡◌, refl, sym, ap, ◌∙◌, false, ◌||◌, List, [], ◌∷◌, ◌++◌, leb, if◌then◌else◌, length, arith,
  if_cases,
}
use usbi.Prelude.Text.{Text, eq_text, eq_text-sym}
use usbi.Prelude.Sort.{insert_by, sort_by}
use usbi.WordSearch.{Grid, WordSearch, includes, unique, try_word, place_words, generate_grid}

-- No word stands twice.
abbrev pub Distinct : List Text → Type 0
Distinct [] = Unit {0}
Distinct (w ∷ ws) = (includes ws w ≡ false) × Distinct ws

pub includes-append :
    (vs ws : List Text) (x : Text) → includes (vs ++ ws) x ≡ (includes vs x || includes ws x)
unfolding includes
includes-append [] ws x = refl
includes-append (v ∷ vs) ws x = ground (arith, includes-append vs ws x)

includes-insert_by :
    (key : Text → ℕ) (w : Text) (ws : List Text) (x : Text)
    → includes (insert_by key w ws) x ≡ (eq_text w x || includes ws x)
unfolding insert_by includes
includes-insert_by key w [] x = refl
includes-insert_by key w (v ∷ vs) x = ground (arith, includes-insert_by key w vs x)

includes-sort_by :
    (key : Text → ℕ) (ws : List Text) (x : Text) → includes (sort_by key ws) x ≡ includes ws x
unfolding sort_by includes
includes-sort_by key [] x = refl
includes-sort_by key (w ∷ ws) x =
    includes-insert_by key w (sort_by key ws) x
    ∙ ap (λ b. eq_text w x || b) (includes-sort_by key ws x)

insert_by-Distinct :
    (key : Text → ℕ) (w : Text) (ws : List Text)
    → includes ws w ≡ false
    → Distinct ws
    → Distinct (insert_by key w ws)
unfolding insert_by includes
insert_by-Distinct key w [] h d = (refl, tt)
insert_by-Distinct key w (v ∷ vs) h d =
    if_cases Distinct (leb (key v) (key w)) (λ _. (h, d))
      (λ _. (
        ground (arith, includes-insert_by key w vs v, eq_text-sym v w, d.0),
        insert_by-Distinct key w vs (ground arith) d.1,
      ))

sort_by-Distinct : (key : Text → ℕ) (ws : List Text) → Distinct ws → Distinct (sort_by key ws)
unfolding sort_by
sort_by-Distinct key [] d = d
sort_by-Distinct key (w ∷ ws) d =
    insert_by-Distinct key w (sort_by key ws) (includes-sort_by key ws w ∙ d.0)
      (sort_by-Distinct key ws d.1)

pub Distinct-snoc :
    (vs : List Text) (w : Text) → Distinct vs → includes vs w ≡ false → Distinct (vs ++ w ∷ [])
unfolding includes
Distinct-snoc [] w d h = (refl, tt)
Distinct-snoc (v ∷ vs) w d h = (
  ground (arith, includes-append vs (w ∷ []) v, eq_text-sym v w),
  Distinct-snoc vs w d.1 (ground arith),
)

pub Distinct-middle :
    (vs : List Text) (w : Text) (ws : List Text) → Distinct (vs ++ w ∷ ws) → includes vs w ≡ false
unfolding includes
Distinct-middle [] w ws d = refl
Distinct-middle (v ∷ vs) w ws d =
    ground (arith, includes-append vs (w ∷ ws) v, eq_text-sym v w, Distinct-middle vs w ws d.1, d.0)

Distinct-drop :
    (vs : List Text) (w : Text) (ws : List Text) → Distinct (vs ++ w ∷ ws) → Distinct (vs ++ ws)
unfolding includes
Distinct-drop [] w ws d = d.1
Distinct-drop (v ∷ vs) w ws d = (
  ground (arith, includes-append vs (w ∷ ws) v, includes-append vs ws v, d.0),
  Distinct-drop vs w ws d.1,
)

pub append-snoc : (vs : List Text) (w : Text) (ws : List Text) → (vs ++ w ∷ []) ++ ws ≡ vs ++ w ∷ ws
append-snoc [] w ws = refl
append-snoc (v ∷ vs) w ws = ap (◌∷◌ v) (append-snoc vs w ws)

append-nil : (vs : List Text) → vs ++ [] ≡ vs
append-nil [] = refl
append-nil (v ∷ vs) = ap (◌∷◌ v) (append-nil vs)

pub unique-Distinct : (seen ws : List Text) → Distinct seen → Distinct (unique seen ws)
unfolding unique
unique-Distinct seen [] d = d
unique-Distinct seen (w ∷ ws) d =
    unique-Distinct (if includes seen w then seen else seen ++ w ∷ []) ws
      (if_cases Distinct (includes seen w) (λ _. d) (λ n. Distinct-snoc seen w d n))

place_words-Distinct :
    (ws done : List Text) (w h : ℕ) (g : Grid) (seed : ℕ)
    → Distinct (done ++ ws)
    → Distinct (place_words ws done w h g seed).placed_words
unfolding place_words
place_words-Distinct [] done w h g seed d = subst Distinct (append-nil done) d
place_words-Distinct (word ∷ ws) done w h g seed d =
    let t = try_word 500 word w h g seed in
    place_words-Distinct ws (if t.placed then done ++ word ∷ [] else done) w h t.board t.next (
      if_cases (λ l. Distinct (l ++ ws)) t.placed
        (λ _. subst Distinct (sym (append-snoc done word ws)) d)
        (λ _. Distinct-drop done word ws d))

pub generate_grid-Distinct : (e : WordSearch) → Distinct e.words → Distinct (generate_grid e).words
unfolding generate_grid
generate_grid-Distinct e d =
    place_words-Distinct (sort_by length e.words) [] e.width e.height e.grid e.seed
      (sort_by-Distinct length e.words d)
