-- ===== src/Crossword/Reading.antt =====
-- CrosswordEngine.ts, the layout: a word that is written where it fits can be read on the grid.
use usbi.Prelude.{
  ℕ, ◌+◌, ◌≡◌, refl, ◌∙◌, Bool, true, false, Option, none, some, List, [], ◌∷◌, ◌++◌, ◌==◌, ==_iff,
  arith, Bool-cases, inl, inr,
}
use mathlib.Core.Path.{subst}
use usbi.Prelude.Int.{ℤ, pos, pos_part, neg_part, ◌+ℤ◌, ◌≤ℤ◌, eq_of_parts, +ℤ_parts}
use usbi.Prelude.Text.{Text}
use usbi.Crossword.Layout.{
  Position, CrosswordCell, PlacedWord, same, same_position, cell_at, set_cell, along, place_letters,
}

pub same_eq : (a b : ℤ) → same a b ≡ true → a ≡ b
same_eq a b h = eq_of_parts a b ((==_iff (pos_part a + neg_part b) (pos_part b + neg_part a)).0 h)

pub same_position_eq : (p q : Position) → same_position p q ≡ true → p ≡ q
same_position_eq p q h =
    let ex : p.x ≡ q.x = same_eq p.x q.x (ground arith) in
    let ey : p.y ≡ q.y = same_eq p.y q.y (ground arith) in
    subst (λ z. p ≡ record { x = z; y = q.y }) ex
      (subst (λ z. p ≡ record { x = p.x; y = z }) ey refl)

pub same_position_self : (p : Position) → same_position p p ≡ true
same_position_self p = ground (
  arith,
  ==_iff (pos_part p.x + neg_part p.x) (pos_part p.x + neg_part p.x),
  ==_iff (pos_part p.y + neg_part p.y) (pos_part p.y + neg_part p.y),
)

pub cell_at-set_cell_self :
    (p : Position) (c : ℕ) (g : List CrosswordCell) → cell_at p (set_cell p c g) ≡ some c
unfolding cell_at set_cell
cell_at-set_cell_self p c [] = rw (same_position_self p) refl
cell_at-set_cell_self p c (d ∷ g) = elim (Bool-cases (same_position d.position p)) [
  | inl e ↦ rw e (rw (same_position_self p) refl)
  | inr e ↦ rw e (rw e (cell_at-set_cell_self p c g))
]

pub cell_at-set_cell_ne :
    (p q : Position) (c : ℕ) (g : List CrosswordCell)
    → same_position p q ≡ false
    → cell_at q (set_cell p c g) ≡ cell_at q g
unfolding cell_at set_cell
cell_at-set_cell_ne p q c [] n = rw n refl
cell_at-set_cell_ne p q c (d ∷ g) n = elim (Bool-cases (same_position d.position p)) [
  | inl e ↦
      let eq : d.position ≡ p = same_position_eq d.position p e in
      let other : same_position d.position q ≡ false = rw eq n in rw (e, n, other) refl
  | inr e ↦ rw e (rw (cell_at-set_cell_ne p q c g n) refl)
]

abbrev pub fits_in : Option ℕ → ℕ → Bool
fits_in none c = true
fits_in (some d) c = d == c

-- Every position of the word is empty or has its letter.
abbrev pub Fits : List CrosswordCell → Text → Position → Bool → Type 0
Fits g [] p v = Unit {0}
Fits g (c ∷ cs) p v = (fits_in (cell_at p g) c ≡ true) × Fits g cs (along v p (pos 1)) v

-- The word can be read on the grid from the position on.
abbrev pub Reads : List CrosswordCell → Text → Position → Bool → Type 0
Reads g [] p v = Unit {0}
Reads g (c ∷ cs) p v = (cell_at p g ≡ some c) × Reads g cs (along v p (pos 1)) v

abbrev pub AllRead : List CrosswordCell → List PlacedWord → Type 0
AllRead g [] = Unit {0}
AllRead g (w ∷ ws) = Reads g w.word w.position w.is_vertical × AllRead g ws

abbrev pub Extends : List CrosswordCell → List CrosswordCell → Type 0
Extends g g' = (q : Position) (c : ℕ) → cell_at q g ≡ some c → cell_at q g' ≡ some c

Reads-Extends :
    (g g' : List CrosswordCell) (cs : Text) (p : Position) (v : Bool)
    → Extends g g'
    → Reads g cs p v
    → Reads g' cs p v
Reads-Extends g g' [] p v e r = tt
Reads-Extends g g' (c ∷ cs) p v e r = (e p c r.0, Reads-Extends g g' cs (along v p (pos 1)) v e r.1)

pub AllRead-Extends :
    (g g' : List CrosswordCell) (ws : List PlacedWord) → Extends g g' → AllRead g ws → AllRead g' ws
AllRead-Extends g g' [] e r = tt
AllRead-Extends g g' (w ∷ ws) e r =
    (Reads-Extends g g' w.word w.position w.is_vertical e r.0, AllRead-Extends g g' ws e r.1)

pub AllRead-append :
    (g : List CrosswordCell) (ws : List PlacedWord) (w : PlacedWord)
    → AllRead g ws
    → Reads g w.word w.position w.is_vertical
    → AllRead g (ws ++ w ∷ [])
AllRead-append g [] w a r = (r, tt)
AllRead-append g (v ∷ ws) w a r = (a.0, AllRead-append g ws w a.1 r)

-- The coordinate that grows along a word.
abbrev coordinate : Bool → Position → ℤ
coordinate true p = p.y
coordinate false p = p.x

before_apart :
    (v : Bool) (p q : Position)
    → coordinate v p +ℤ pos 1 ≤ℤ coordinate v q
    → same_position p q ≡ false
before_apart true p q h = ground (
  arith,
  +ℤ_parts p.y (pos 1),
  ==_iff (pos_part p.y + neg_part q.y) (pos_part q.y + neg_part p.y),
)
before_apart false p q h = ground (
  arith,
  +ℤ_parts p.x (pos 1),
  ==_iff (pos_part p.x + neg_part q.x) (pos_part q.x + neg_part p.x),
)

step_before :
    (v : Bool) (p : Position) → coordinate v p +ℤ pos 1 ≤ℤ coordinate v (along v p (pos 1))
step_before true p = omega arith
step_before false p = omega arith

before_step :
    (v : Bool) (p q : Position)
    → coordinate v p +ℤ pos 1 ≤ℤ coordinate v q
    → coordinate v p +ℤ pos 1 ≤ℤ coordinate v (along v q (pos 1))
before_step true p q h = omega (arith, +ℤ_parts q.y (pos 1))
before_step false p q h = omega (arith, +ℤ_parts q.x (pos 1))

-- A letter before a word does not change whether it fits.
Fits-set_cell :
    (g : List CrosswordCell) (cs : Text) (p q : Position) (v : Bool) (k : ℕ)
    → coordinate v p +ℤ pos 1 ≤ℤ coordinate v q
    → Fits g cs q v
    → Fits (set_cell p k g) cs q v
Fits-set_cell g [] p q v k h f = tt
Fits-set_cell g (c ∷ cs) p q v k h f = (
  rw (cell_at-set_cell_ne p q k g (before_apart v p q h)) f.0,
  Fits-set_cell g cs p (along v q (pos 1)) v k (before_step v p q h) f.1,
)

set_cell-Extends :
    (g : List CrosswordCell) (p : Position) (c : ℕ)
    → fits_in (cell_at p g) c ≡ true
    → Extends g (set_cell p c g)
set_cell-Extends g p c f q k at = elim (Bool-cases (same_position p q)) [
  | inl e ↦
      let eq : p ≡ q = same_position_eq p q e in
      let old : cell_at p g ≡ some k = rw eq at in
      let new : c ≡ k = ground (arith, old) in rw (← eq, ← new) (cell_at-set_cell_self p c g)
  | inr n ↦ cell_at-set_cell_ne p q c g n ∙ at
]

-- A word that fits is written so that it can be read, and every letter that was there stays.
pub place_letters-Reads :
    (cs : Text) (p : Position) (v : Bool) (g : List CrosswordCell)
    → Fits g cs p v
    → Reads (place_letters cs p v g) cs p v × Extends g (place_letters cs p v g)
unfolding place_letters
place_letters-Reads [] p v g f = (tt, λ q c e. e)
place_letters-Reads (c ∷ cs) p v g f =
    let g₁ = set_cell p c g in
    let next = along v p (pos 1) in
    let (reads, kept) =
      place_letters-Reads cs next v g₁ (Fits-set_cell g cs p next v c (step_before v p) f.1) in
    (
      (kept p c (cell_at-set_cell_self p c g), reads),
      λ q k e. kept q k (set_cell-Extends g p c f.0 q k e),
    )
