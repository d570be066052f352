-- ===== src/WordSearch/Scene/Dragging.antt =====
-- WordSearchScene.ts: dragging the pointer from the first to the last letter of a word.
use usbi.Prelude.{
  ◌≡◌, ◌≤◌, ◌<◌, refl, ap, ◌∙◌, ℕ, zero, suc, ◌+◌, ◌*◌, max, true, false, ◌||◌, some, List, [], ◌∷◌,
  map, ◌==◌, length, arith,
}
use usbi.Prelude.Int.{ℤ}
use usbi.Prelude.Sets.{range}
use usbi.Prelude.Text.{Text}
use usbi.WordSearch.{is_new, add_found}
use usbi.WordSearch.Grid.{Reads}
use usbi.WordSearch.Play.{line, check_word-line}
use usbi.WordSearch.Scene.{
  Scene, get_grid_coord, distance, toward, straight, extended, extend_selection_to, after_check,
  submit_selection, begin, extend_to, handle_pointer_down, handle_pointer_move, handle_pointer_up,
}

module _ (fx fy : ℕ → ℕ) (dx dy : ℕ) (hx : (i : ℕ) → fx (i + 1) ≡ fx i + dx)
    (hy : (i : ℕ) → fy (i + 1) ≡ fy i + dy) where
  map-line :
      (w : Text) (a : ℕ) → map (λ i. (fx i, fy i)) (range a (length w)) ≡ line w (fx a) (fy a) dx dy
  unfolding range
  map-line [] a = refl
  map-line (c ∷ cs) a = ap (◌∷◌ (fx a, fy a)) (map-line cs (a + 1) ∙ rw (hx a, hy a) refl)

-- One coordinate of a line of k steps of 0 or 1.
toward_step :
    (x d k i : ℕ) → d ≤ 1 → 0 < k → toward x (x + d * k) (i + 1) ≡ toward x (x + d * k) i + d
toward_step x zero k i h p = ground arith
toward_step x (suc zero) k i h p = ground arith
toward_step x (suc (suc d)) k i h p = absurd (omega arith)

toward_zero : (x y : ℕ) → toward x y 0 ≡ x
toward_zero x y = ground arith

-- The last position of a word of k + 1 letters.
abbrev pub last : ℕ → ℕ → ℕ → ℕ → ℕ → ℕ × ℕ
last x y dx dy k = (x + dx * k, y + dy * k)

distance_lem : (x m : ℕ) → distance (x + m) x ≡ m
distance_lem x m = ground arith

max_steps : (dx dy k : ℕ) → dx ≤ 1 → dy ≤ 1 → 0 < dx + dy → max (dx * k) (dy * k) ≡ k
max_steps zero zero k hx hy h = absurd (omega arith)
max_steps zero (suc zero) k hx hy h = omega arith
max_steps (suc zero) zero k hx hy h = omega arith
max_steps (suc zero) (suc zero) k hx hy h = omega arith
max_steps (suc (suc dx)) dy k hx hy h = absurd (omega arith)
max_steps dx (suc (suc dy)) k hx hy h = absurd (omega arith)

module _ (x y dx dy : ℕ) (hx : dx ≤ 1) (hy : dy ≤ 1) (h : 0 < dx + dy) where
  count_steps : (k : ℕ) → max (distance (x + dx * k) x) (distance (y + dy * k) y) + 1 ≡ suc k
  count_steps k =
      rw (distance_lem x (dx * k), distance_lem y (dy * k), max_steps dx dy k hx hy h) (omega arith)

  from_start :
      (k : ℕ) (w : Text)
      → line w (toward x (x + dx * k) 0) (toward y (y + dy * k) 0) dx dy ≡ line w x y dx dy
  from_start k w = rw (toward_zero x (x + dx * k), toward_zero y (y + dy * k)) refl

  steps : ℕ → ℕ → List (ℕ × ℕ)
  steps k n = map (λ i. (toward x (x + dx * k) i, toward y (y + dy * k) i)) (range 0 n)

  straight_lem :
      (c : ℕ) (cs : Text) → straight (x, y) (last x y dx dy (length cs)) ≡ line (c ∷ cs) x y dx dy
  unfolding straight steps range
  straight_lem c [] = ap (steps 0) (count_steps 0) ∙ from_start 0 (c ∷ [])
  straight_lem c (d ∷ cs) =
      let k = suc (length cs) in
      let enough : 0 < k = omega arith in
      ap (steps k) (count_steps k)
      ∙ map-line (toward x (x + dx * k)) (toward y (y + dy * k)) dx dy
          (λ i. toward_step x dx k i hx enough) (λ i. toward_step y dy k i hy enough) (c ∷ d ∷ cs) 0
      ∙ from_start k (c ∷ d ∷ cs)

  aligned : (k : ℕ) → (dx * k == 0 || dy * k == 0 || dx * k == dy * k) ≡ true
  aligned k = one_way dx dy k hx hy
    where
      one_way :
          (dx dy k : ℕ) → dx ≤ 1 → dy ≤ 1 → (dx * k == 0 || dy * k == 0 || dx * k == dy * k) ≡ true
      one_way zero dy k hx hy = ground arith
      one_way (suc zero) zero k hx hy = ground arith
      one_way (suc zero) (suc zero) k hx hy = ground arith
      one_way (suc (suc dx)) dy k hx hy = absurd (omega arith)
      one_way (suc zero) (suc (suc dy)) k hx hy = absurd (omega arith)

  extended_lem :
      (c : ℕ) (cs : Text) (selected : List (ℕ × ℕ))
      → extended (x, y) (last x y dx dy (length cs)) selected ≡ line (c ∷ cs) x y dx dy
  unfolding extended
  extended_lem c cs selected =
      let k = length cs in
      rw (distance_lem x (dx * k), distance_lem y (dy * k), aligned k) (straight_lem c cs)

pressed :
    (s : Scene) (px py : ℤ) (p : ℕ × ℕ)
    → get_grid_coord s px py ≡ some p
    → handle_pointer_down px py s ≡ record s { is_selecting = true; selected_coords = p ∷ [] }
unfolding handle_pointer_down
pressed s px py p e = ap (λ o. begin o s) e

dragged :
    (s : Scene) (p q : ℕ × ℕ) (qx qy : ℤ)
    → get_grid_coord s qx qy ≡ some q
    → handle_pointer_move qx qy (record s { is_selecting = true; selected_coords = p ∷ [] })
      ≡ some (record s { is_selecting = true; selected_coords = extended p q (p ∷ []) })
unfolding handle_pointer_move extend_selection_to get_grid_coord
dragged s p q qx qy e =
    ap (λ o. extend_to o (record s { is_selecting = true; selected_coords = p ∷ [] })) e

-- When the pointer is pressed over the first letter of a word on the board, moved over its last letter and
-- released, with the word on a line to the right, down or both, still to be found, and the game going
-- on: no handler throws, the word is found, and the selection is over.
pub drag-add_found :
    (s : Scene) (c : ℕ) (cs : Text) (x y dx dy : ℕ) (px py qx qy : ℤ)
    → dx ≤ 1
    → dy ≤ 1
    → 0 < dx + dy
    → get_grid_coord s px py ≡ some (x, y)
    → get_grid_coord s qx qy ≡ some (last x y dx dy (length cs))
    → s.engine.is_finished ≡ false
    → is_new s.engine.state (c ∷ cs) ≡ true
    → Reads s.engine.grid (c ∷ cs) x y dx dy
    → (s₁ : Scene) × (s₂ : Scene) × (handle_pointer_move qx qy (handle_pointer_down px py s)
        ≡ some s₁)
      × (handle_pointer_up s₁ ≡ some s₂)
      × (s₂.engine ≡ add_found (c ∷ cs) s.engine)
      × (s₂.is_selecting ≡ false)
unfolding handle_pointer_up submit_selection
drag-add_found s c cs x y dx dy px py qx qy hx hy h start end_ going new reads =
    let begun : Scene = record s { is_selecting = true; selected_coords = (x, y) ∷ [] } in
    let selected = line (c ∷ cs) x y dx dy in
    let s₁ : Scene = record s { is_selecting = true; selected_coords = selected } in
    let s₂ : Scene = record s {
      engine = add_found (c ∷ cs) s.engine;
      is_selecting = false;
      selected_coords = [];
    } in
    let moved =
      ap (handle_pointer_move qx qy) (pressed s px py (x, y) start)
      ∙ dragged s (x, y) (last x y dx dy (length cs)) qx qy end_
      ∙ ap (λ l. some (record s { is_selecting = true; selected_coords = l }))
          (extended_lem x y dx dy hx hy h c cs ((x, y) ∷ [])) in
    let found =
      ap (λ o. after_check o s₁) (check_word-line s.engine (c ∷ cs) x y dx dy going new reads) in
    (s₁, s₂, moved, found, refl, refl)
