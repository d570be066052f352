-- ===== src/WordSearch/Scene/Selection.antt =====
-- WordSearchScene.ts: what a selection and its submission keep of the scene.
use usbi.Prelude.{
  ◌≡◌, ◌≤◌, ◌<◌, refl, ◌∙◌, ℕ, zero, suc, ◌+◌, max, Bool, true, false, ◌&&◌, ◌||◌, Option, none,
  some, List, [], ◌∷◌, ◌++◌, map, ltb, leb, ◌==◌, if◌then◌else◌, length, get_elem?, arith, inl, inr,
  ◌⊎◌, if_cases,
}
use mathlib.Core.List.{reverse}
use usbi.Prelude.Slices.{get_elem?-some}
use usbi.Prelude.Int.{ℤ, ◌-ℤ◌}
use usbi.Prelude.Sets.{range}
use usbi.Prelude.Text.{Text}
use usbi.WordSearch.{Grid, WordSearch, check_word, spell, is_new, add_found, letter, flat}
use usbi.WordSearch.Grid.{IsSized}
use usbi.WordSearch.Scene.{
  Scene, get_grid_coord, coord_in, grid_index, distance, toward, straight, extended, extend_from,
  extend_selection_to, submit_selection, begin, extend_to,
}

module _ (w h : ℕ) where
  abbrev pub In : ℕ × ℕ → Type 0
  In p = (p.0 < w) × (p.1 < h)

  abbrev pub AllIn : List (ℕ × ℕ) → Type 0
  AllIn [] = Unit {0}
  AllIn (p ∷ ps) = In p × AllIn ps

  -- The board has its size, the cursor and the selection lie on it, and a selection that has begun is not
  -- empty.
  pub record IsValid (s : Scene) : Type 0 where
    pub sized : IsSized w h s.engine.grid
    pub width : s.engine.width ≡ w
    pub height : s.engine.height ≡ h
    pub cursor : In s.cursor
    pub selected : AllIn s.selected_coords
    pub begun : (s.is_selecting ≡ false) ⊎ (0 < length s.selected_coords)

  -- The same board after a check.
  abbrev SameBoard : WordSearch → WordSearch → Type 0
  SameBoard e e' = (e'.grid ≡ e.grid) × (e'.width ≡ e.width) × (e'.height ≡ e.height)

  spell-some :
      (g : Grid) (ps : List (ℕ × ℕ)) → length g ≡ h → AllIn ps → (t : Text) × (spell g ps ≡ some t)
  unfolding spell
  spell-some g [] tall a = ([], refl)
  spell-some g (p ∷ ps) tall ((px, py), a) =
      let (r, er) = get_elem?-some g p.1 (omega arith) in
      let (t, et) = spell-some g ps tall a in
      (letter (flat (get_elem? r p.0)) ++ t, rw (er, et) refl)

  checked-SameBoard :
      (e : WordSearch) (t u : Text) (a b : Bool)
      → SameBoard e (if a then add_found t e else if b then add_found u e else e)
  unfolding add_found
  checked-SameBoard e t u true b = (refl, refl, refl)
  checked-SameBoard e t u false true = (refl, refl, refl)
  checked-SameBoard e t u false false = (refl, refl, refl)

  check_word-some :
      (e : WordSearch) (ps : List (ℕ × ℕ))
      → length e.grid ≡ h
      → AllIn ps
      → (e' : WordSearch) × (check_word ps e ≡ some e') × SameBoard e e'
  unfolding check_word
  check_word-some e ps tall a =
      let (t, et) = spell-some e.grid ps tall a in
      if_cases (λ (o : Option WordSearch). (e' : WordSearch) × (o ≡ some e') × SameBoard e e')
        e.is_finished (λ _. (e, refl, (refl, refl, refl)))
        (λ _. rw (et) (
          _,
          refl,
          checked-SameBoard e t (reverse t) (is_new e.state t) (is_new e.state (reverse t)),
        ))

  toward-lt :
      (a b i m : ℕ)
      → a < m
      → b < m
      → (distance b a == 0 || leb i (distance b a)) ≡ true
      → toward a b i < m
  toward-lt a b i m ha hb hi = ground arith

  on_line :
      (dx dy i : ℕ)
      → (dx == 0 || dy == 0 || dx == dy) ≡ true
      → i ≤ max dx dy
      → ((dx == 0 || leb i dx) ≡ true) × ((dy == 0 || leb i dy) ≡ true)
  on_line dx dy i g hi = (ground arith, ground arith)

  map-AllIn :
      (f : ℕ → ℕ × ℕ) (a n : ℕ) → ((i : ℕ) → i < a + n → In (f i)) → AllIn (map f (range a n))
  unfolding range
  map-AllIn f a zero k = tt
  map-AllIn f a (suc n) k = (k a (omega arith), map-AllIn f (a + 1) n (λ i lt. k i (omega arith)))

  extended-AllIn :
      (p q : ℕ × ℕ) (ps : List (ℕ × ℕ)) → In p → In q → AllIn ps → AllIn (extended p q ps)
  unfolding extended straight
  extended-AllIn p q ps hp hq a =
      let dx = distance q.0 p.0 in
      let dy = distance q.1 p.1 in
      if_cases AllIn (dx == 0 || dy == 0 || dx == dy)
        (λ g.
          map-AllIn (λ i. (toward p.0 q.0 i, toward p.1 q.1 i)) 0 (max dx dy + 1)
            (λ i lt.
              let (cx, cy) = on_line dx dy i g (omega arith) in
              (toward-lt p.0 q.0 i w hp.0 hq.0 cx, toward-lt p.1 q.1 i h hp.1 hq.1 cy)))
        (λ _. a)

  map-some : (f : ℕ → ℕ × ℕ) (a n : ℕ) → 0 < n → 0 < length (map f (range a n))
  unfolding range
  map-some f a zero k = absurd (omega arith)
  map-some f a (suc n) k = omega arith

  extended-some : (p q : ℕ × ℕ) (ps : List (ℕ × ℕ)) → 0 < length ps → 0 < length (extended p q ps)
  unfolding extended straight
  extended-some p q ps k =
      let dx = distance q.0 p.0 in
      let dy = distance q.1 p.1 in
      if_cases (λ (l : List (ℕ × ℕ)). 0 < length l) (dx == 0 || dy == 0 || dx == dy)
        (λ g. map-some (λ i. (toward p.0 q.0 i, toward p.1 q.1 i)) 0 (max dx dy + 1) (omega arith))
        (λ _. k)

  -- The handler does not throw, and leaves a valid scene.
  abbrev pub Goes : Option Scene → Type 0
  Goes o = (s : Scene) × (o ≡ some s) × IsValid s

  extend_from-Goes :
      (ps : List (ℕ × ℕ)) (c : ℕ × ℕ) (s : Scene)
      → IsValid s
      → In c
      → AllIn ps
      → 0 < length ps
      → Goes (extend_from ps c s)
  extend_from-Goes [] c s v hc a k = absurd (omega arith)
  extend_from-Goes (p ∷ ps) c s v hc a k = (
    record s { selected_coords = extended p c (p ∷ ps) },
    refl,
    record {
      sized = v.sized;
      width = v.width;
      height = v.height;
      cursor = v.cursor;
      selected = extended-AllIn p c (p ∷ ps) a.0 hc a;
      begun = inr (extended-some p c (p ∷ ps) k);
    },
  )

  -- While a selection goes on.
  pub extend_selection_to-Goes :
      (c : ℕ × ℕ) (s : Scene)
      → IsValid s
      → In c
      → s.is_selecting ≡ true
      → Goes (extend_selection_to c s)
  unfolding extend_selection_to
  extend_selection_to-Goes c s v hc on =
      extend_from-Goes s.selected_coords c s v hc v.selected
        (elim v.begun [ inl off ↦ absurd cc | inr k ↦ k ])

  abbrev pub InIf : Option (ℕ × ℕ) → Type 0
  InIf none = Unit {0}
  InIf (some p) = In p

  coord_in-InIf : (gx gy : Option ℕ) → InIf (coord_in w h gx gy)
  coord_in-InIf none gy = tt
  coord_in-InIf (some x) none = tt
  coord_in-InIf (some x) (some y) =
      if_cases InIf (ltb x w && ltb y h) (λ e. (ground arith, ground arith)) (λ _. tt)

  pub get_grid_coord-InIf : (s : Scene) (x y : ℤ) → IsValid s → InIf (get_grid_coord s x y)
  unfolding get_grid_coord
  get_grid_coord-InIf s x y v =
      rw (v.width, v.height)
        (coord_in-InIf (grid_index (x -ℤ s.offset_x)) (grid_index (y -ℤ s.offset_y)))

  pub submit_selection-Goes : (s : Scene) → IsValid s → Goes (submit_selection s)
  unfolding submit_selection
  submit_selection-Goes s v =
      let (e, ee, same) = check_word-some s.engine s.selected_coords v.sized.tall v.selected in
      (
        record s { engine = e; is_selecting = false; selected_coords = [] },
        rw (ee) refl,
        record {
          sized = rw (same.0) v.sized;
          width = same.1 ∙ v.width;
          height = same.2 ∙ v.height;
          cursor = v.cursor;
          selected = tt;
          begun = inl refl;
        },
      )

  pub begin-IsValid : (o : Option (ℕ × ℕ)) (s : Scene) → InIf o → IsValid s → IsValid (begin o s)
  begin-IsValid none s i v = v
  begin-IsValid (some p) s i v = record {
    sized = v.sized;
    width = v.width;
    height = v.height;
    cursor = v.cursor;
    selected = (i, tt);
    begun = inr (omega arith);
  }

  pub extend_to-Goes :
      (o : Option (ℕ × ℕ)) (s : Scene)
      → InIf o
      → IsValid s
      → s.is_selecting ≡ true
      → Goes (extend_to o s)
  extend_to-Goes none s i v on = (s, refl, v)
  extend_to-Goes (some p) s i v on = extend_selection_to-Goes p s v i on
