-- ===== src/Crossword/Shifting.antt =====
-- CrosswordEngine.ts, normalizeLayout: a crossword that is moved as a whole keeps its words.
use usbi.Prelude.{
  ◌+◌, ◌≡◌, refl, sym, ap, ◌∙◌, Bool, true, false, List, [], ◌∷◌, map, ==_iff, arith,
}
use mathlib.Core.Path.{subst}
use usbi.Prelude.Int.{ℤ, pos, pos_part, neg_part, ◌+ℤ◌, ◌-ℤ◌, int_laws, eq_of_parts, -ℤ_parts}
use usbi.Prelude.Text.{Text}
use usbi.Crossword.Building.{shift, shift_cell, shift_word, normalize_layout}
use usbi.Crossword.Layout.{Position, CrosswordCell, CrosswordWord, PlacedWord, same, cell_at, along}
use usbi.Crossword.Reading.{Reads, AllRead}

same-shift : (d a b : ℤ) → same (a -ℤ d) (b -ℤ d) ≡ same a b
same-shift d a b = ground (
  arith,
  ==_iff (pos_part (a -ℤ d) + neg_part (b -ℤ d)) (pos_part (b -ℤ d) + neg_part (a -ℤ d)),
  ==_iff (pos_part a + neg_part b) (pos_part b + neg_part a),
  -ℤ_parts a d,
  -ℤ_parts b d,
)

cell_at-shift :
    (dx dy : ℤ) (p : Position) (g : List CrosswordCell)
    → cell_at (shift dx dy p) (map (shift_cell dx dy) g) ≡ cell_at p g
unfolding cell_at shift_cell
cell_at-shift dx dy p [] = refl
cell_at-shift dx dy p (c ∷ g) =
    simp (same-shift dx c.position.x p.x, same-shift dy c.position.y p.y, cell_at-shift dx dy p g)

shift_step : (a d : ℤ) → a -ℤ d +ℤ pos 1 ≡ a +ℤ pos 1 -ℤ d
shift_step a d = eq_of_parts (a -ℤ d +ℤ pos 1) (a +ℤ pos 1 -ℤ d) (omega int_laws)

along-shift :
    (v : Bool) (dx dy : ℤ) (p : Position)
    → along v (shift dx dy p) (pos 1) ≡ shift dx dy (along v p (pos 1))
along-shift true dx dy p = ap (λ z. record { x = p.x -ℤ dx; y = z }) (shift_step p.y dy)
along-shift false dx dy p = ap (λ z. record { x = z; y = p.y -ℤ dy }) (shift_step p.x dx)

Reads-shift :
    (dx dy : ℤ) (g : List CrosswordCell) (cs : Text) (p : Position) (v : Bool)
    → Reads g cs p v
    → Reads (map (shift_cell dx dy) g) cs (shift dx dy p) v
Reads-shift dx dy g [] p v r = tt
Reads-shift dx dy g (c ∷ cs) p v r = (
  cell_at-shift dx dy p g ∙ r.0,
  subst (λ q. Reads (map (shift_cell dx dy) g) cs q v) (sym (along-shift v dx dy p))
      (Reads-shift dx dy g cs (along v p (pos 1)) v r.1),
)

AllRead-shift :
    (dx dy : ℤ) (g : List CrosswordCell) (ws : List PlacedWord)
    → AllRead g ws
    → AllRead (map (shift_cell dx dy) g) (map (shift_word dx dy) ws)
unfolding shift_word
AllRead-shift dx dy g [] a = tt
AllRead-shift dx dy g (w ∷ ws) a =
    (Reads-shift dx dy g w.word w.position w.is_vertical a.0, AllRead-shift dx dy g ws a.1)

pub normalize_layout-AllRead :
    (g : List CrosswordCell) (placed : List PlacedWord) (unplaced : List CrosswordWord)
    → AllRead g placed
    → let l = normalize_layout g placed unplaced in AllRead l.grid l.placed_words
unfolding normalize_layout
normalize_layout-AllRead [] placed unplaced a = a
normalize_layout-AllRead (c ∷ g) placed unplaced a = AllRead-shift _ _ (c ∷ g) placed a
