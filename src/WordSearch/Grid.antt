-- ===== src/WordSearch/Grid.antt =====
-- WordSearchEngine.ts, canPlaceWord and placeWord: writing one word keeps every letter that the
-- grid holds.
use usbi.Prelude.{
  ℕ, zero, suc, ◌+◌, ◌<◌, ◌≡◌, refl, ap, ◌∙◌, true, ◌&&◌, Option, none, some, List, [], ◌∷◌, ◌==◌,
  ==_iff, length, get_elem?, set, arith, Bool-cases, Option-cases, inl, inr, ◌⊎◌, ◌≢◌,
  get_elem?-set_self, get_elem?-set_ne, length-set,
}
use usbi.Prelude.Text.{Text}
use usbi.Prelude.Slices.{get_elem?-some, get_elem?-lt}
use usbi.WordSearch.{Grid, row_or, cell, set_cell, fits_in, can_place_word, place_word}

-- Every row has the width.
abbrev pub Wide : ℕ → Grid → Type 0
Wide w [] = Unit {0}
Wide w (r ∷ rs) = (length r ≡ w) × Wide w rs

pub record IsSized (w h : ℕ) (g : Grid) : Type 0 where
  pub tall : length g ≡ h
  pub wide : Wide w g

Wide-row :
    (w : ℕ) (g : Grid) (y : ℕ) {r : List (Option ℕ)}
    → Wide w g
    → get_elem? g y ≡ some r
    → length r ≡ w
Wide-row w [] y d h = cc
Wide-row w (r ∷ g) zero d h = ground arith
Wide-row w (r ∷ g) (suc y) d h = Wide-row w g y d.1 h

Wide-set :
    (w : ℕ) (g : Grid) (y : ℕ) (r : List (Option ℕ)) → Wide w g → length r ≡ w → Wide w (set g y r)
Wide-set w [] y r d h = tt
Wide-set w (q ∷ g) zero r d h = (h, d.1)
Wide-set w (q ∷ g) (suc y) r d h = (d.0, Wide-set w g y r d.1 h)

module _ {w h : ℕ} (g : Grid) (d : IsSized w h g) (x y c : ℕ) (hx : x < w) (hy : y < h) where
  pub set_cell-IsSized : IsSized w h (set_cell g x y c)
  unfolding set_cell
  set_cell-IsSized =
      let (r, e) = get_elem?-some g y (omega (arith, d.tall)) in
      record {
        tall = length-set g y _ ∙ d.tall;
        wide = rw e (
            Wide-set w g y (set r x (some c)) d.wide
              (length-set r x (some c) ∙ Wide-row w g y d.wide e));
      }

  pub cell-set_cell_self : cell (set_cell g x y c) x y ≡ some c
  unfolding cell set_cell
  cell-set_cell_self =
      let (r, e) = get_elem?-some g y (omega (arith, d.tall)) in
      let size : length r ≡ w = Wide-row w g y d.wide e in
      rw (
        e,
        get_elem?-set_self g y (set r x (some c)) (omega (arith, d.tall)),
        get_elem?-set_self r x (some c) (omega arith),
      )

set_missing : (g : Grid) (y : ℕ) (r : List (Option ℕ)) → get_elem? g y ≡ none → set g y r ≡ g
set_missing [] y r h = refl
set_missing (q ∷ g) zero r h = cc
set_missing (q ∷ g) (suc y) r h = ap (◌∷◌ q) (set_missing g y r h)

same_row : (g : Grid) (x y c x' : ℕ) → x ≢ x' → cell (set_cell g x y c) x' y ≡ cell g x' y
unfolding cell set_cell
same_row g x y c x' n = elim (Option-cases (get_elem? g y)) [
  | inl e ↦ rw (set_missing g y (set (row_or (get_elem? g y)) x (some c)) e)
  | inr (r, e) ↦
      rw (e, get_elem?-set_self g y (set r x (some c)) (get_elem?-lt g y e))
        (rw (get_elem?-set_ne r (some c) n))
]

pub cell-set_cell_ne :
    (g : Grid) (x y c x' y' : ℕ)
    → (x ≢ x') ⊎ (y ≢ y')
    → cell (set_cell g x y c) x' y' ≡ cell g x' y'
unfolding cell set_cell
cell-set_cell_ne g x y c x' y' (inr n) =
    rw (get_elem?-set_ne g (set (row_or (get_elem? g y)) x (some c)) n)
cell-set_cell_ne g x y c x' y' (inl n) = elim (Bool-cases (y == y')) [
  | inr m ↦
      let apart : y ≢ y' = λ e. ground (arith, ==_iff y y') in
      rw (get_elem?-set_ne g (set (row_or (get_elem? g y)) x (some c)) apart)
  | inl e ↦ let same : y ≡ y' = (==_iff y y').0 e in rw (← same) (same_row g x y c x' n)
]

-- Every letter of `g` stands in `g'`.
abbrev pub Extends : Grid → Grid → Type 0
Extends g g' = (x y c : ℕ) → cell g x y ≡ some c → cell g' x y ≡ some c

-- The word can be read off the grid from (x, y) on, by steps of (dx, dy).
abbrev pub Reads : Grid → Text → ℕ → ℕ → ℕ → ℕ → Type 0
Reads g [] x y dx dy = Unit {0}
Reads g (c ∷ cs) x y dx dy = (cell g x y ≡ some c) × Reads g cs (x + dx) (y + dy) dx dy

pub Extends-Reads :
    (g g' : Grid) (word : Text) (x y dx dy : ℕ)
    → Extends g g'
    → Reads g word x y dx dy
    → Reads g' word x y dx dy
Extends-Reads g g' [] x y dx dy e r = tt
Extends-Reads g g' (c ∷ cs) x y dx dy e r =
    (e x y c r.0, Extends-Reads g g' cs (x + dx) (y + dy) dx dy e r.1)

pub Extends-trans : (a b c : Grid) → Extends a b → Extends b c → Extends a c
Extends-trans a b c p q x y k h = q x y k (p x y k h)

set_cell-Extends :
    {w h : ℕ} (g : Grid)
    → IsSized w h g
    → (x y c : ℕ) → x < w
    → y < h
    → fits_in (cell g x y) c ≡ true
    → Extends g (set_cell g x y c)
set_cell-Extends g d x y c hx hy f x' y' k at = elim (Bool-cases (x == x' && y == y')) [
  | inl e ↦
      let ex : x ≡ x' = ground (arith, ==_iff x x') in
      let ey : y ≡ y' = ground (arith, ==_iff y y') in
      let old : cell g x y ≡ some k = rw (ex, ey) at in
      let new : c ≡ k = ground arith in rw (← ex, ← ey, ← new) (cell-set_cell_self g d x y c hx hy)
  | inr n ↦
      let apart : (x ≢ x') ⊎ (y ≢ y') = ground arith in cell-set_cell_ne g x y c x' y' apart ∙ at
]

-- Writing a cell does not disturb the test of positions further on.
can_place-later :
    (word : Text) (x y dx dy w h : ℕ) (g : Grid) (x₀ y₀ c : ℕ)
    → x₀ + y₀ < x + y
    → 0 < dx + dy
    → can_place_word word x y dx dy w h g ≡ true
    → can_place_word word x y dx dy w h (set_cell g x₀ y₀ c) ≡ true
unfolding can_place_word
can_place-later [] x y dx dy w h g x₀ y₀ c before moves ok = refl
can_place-later (k ∷ ks) x y dx dy w h g x₀ y₀ c before moves ok =
    let apart : (x₀ ≢ x) ⊎ (y₀ ≢ y) = ground arith in
    ground (
      arith,
      cell-set_cell_ne g x₀ y₀ c x y apart,
      can_place-later ks (x + dx) (y + dy) dx dy w h g x₀ y₀ c,
    )

-- A word that may be placed is written so that it can be read, every letter that was there stays,
-- and the grid keeps its size.
pub place_word-Reads :
    (word : Text) (x y dx dy w h : ℕ) (g : Grid)
    → IsSized w h g
    → 0 < dx + dy
    → can_place_word word x y dx dy w h g ≡ true
    → let g' = place_word word x y dx dy g in
      Reads g' word x y dx dy × Extends g g' × IsSized w h g'
unfolding place_word can_place_word
place_word-Reads [] x y dx dy w h g d moves ok = (tt, (λ x' y' c e. e), d)
place_word-Reads (c ∷ cs) x y dx dy w h g d moves ok =
    let hx : x < w = ground arith in
    let hy : y < h = ground arith in
    let fits : fits_in (cell g x y) c ≡ true = ground arith in
    let rest : can_place_word cs (x + dx) (y + dy) dx dy w h g ≡ true = ground arith in
    let g₁ = set_cell g x y c in
    let later = can_place-later cs (x + dx) (y + dy) dx dy w h g x y c (omega arith) moves rest in
    let (reads, kept, size) =
      place_word-Reads cs (x + dx) (y + dy) dx dy w h g₁ (set_cell-IsSized g d x y c hx hy) moves
        later in
    (
      (kept x y c (cell-set_cell_self g d x y c hx hy), reads),
      Extends-trans g g₁ _ (set_cell-Extends g d x y c hx hy fits) kept,
      size,
    )
