-- ===== src/Puzzle/Moves.antt =====
-- PuzzleEngine.ts: the shuffle and a move only reorder the pieces, and where a moved piece lands.
use mathlib.Core.List.Perm
use usbi.Prelude.{
  ℕ, zero, suc, ◌+◌, ◌-◌, ◌≤◌, ◌<◌, ◌≡◌, refl, ap, some, inl, inr, List, [], ◌∷◌, Perm, arith,
  length, get_elem?, Bool-cases, Option-cases,
}
use usbi.Prelude.Slices.{get_elem?-some}
use usbi.Prelude.Swap.{swap-perm}
use usbi.Rng.{random}
use usbi.Puzzle.{Piece, in_order, shuffle_pass, shuffle, remove_at, insert_at, move_piece}

shuffle_pass-perm : (i seed : ℕ) (ps : List Piece) → Perm (shuffle_pass i seed ps).0 ps
unfolding shuffle_pass
shuffle_pass-perm zero seed ps = Perm.refl ps
shuffle_pass-perm (suc i) seed ps =
    Perm.trans (shuffle_pass-perm i (random seed) _) (swap-perm ps (suc i) _)

pub shuffle-perm : (k seed : ℕ) (ps : List Piece) → Perm (shuffle k seed ps).0 ps
unfolding shuffle
shuffle-perm zero seed ps = Perm.refl ps
shuffle-perm (suc k) seed ps =
    let pass = shuffle_pass (length ps - 1) seed ps in
    let once : Perm pass.0 ps = shuffle_pass-perm (length ps - 1) seed ps in
    elim (Bool-cases (in_order 0 pass.0)) [
      | inl e ↦ rw (e, shuffle) (Perm.trans (shuffle-perm k pass.1 pass.0) once)
      | inr e ↦ rw (e, shuffle) once
    ]

insert_at-perm : (i : ℕ) (x : Piece) (xs : List Piece) → Perm (insert_at i x xs) (x ∷ xs)
insert_at-perm zero x [] = Perm.refl _
insert_at-perm (suc i) x [] = Perm.refl _
insert_at-perm zero x (y ∷ ys) = Perm.refl _
insert_at-perm (suc i) x (y ∷ ys) =
    Perm.trans (Perm.cons y (insert_at-perm i x ys)) (Perm.swap x y ys)

remove_at-perm :
    (i : ℕ) (xs : List Piece) {x : Piece} → get_elem? xs i ≡ some x → Perm (x ∷ remove_at i xs) xs
remove_at-perm i [] h = cc
remove_at-perm zero (y ∷ ys) {x} h = let e : y ≡ x = cc in rw e (Perm.refl _)
remove_at-perm (suc i) (y ∷ ys) {x} h =
    Perm.trans (Perm.swap y x _) (Perm.cons y (remove_at-perm i ys h))

pub move_piece-perm : (from to : ℕ) (ps : List Piece) → Perm (move_piece from to ps) ps
unfolding move_piece
move_piece-perm from to ps = elim (Option-cases (get_elem? ps from)) [
  | inl e ↦ rw (e, move_piece) (Perm.refl ps)
  | inr (x, e) ↦
      rw (e, move_piece)
        (Perm.trans (insert_at-perm to x (remove_at from ps)) (remove_at-perm from ps e))
]

get_elem?-insert_at :
    (i : ℕ) (x : Piece) (xs : List Piece) → i ≤ length xs → get_elem? (insert_at i x xs) i ≡ some x
get_elem?-insert_at zero x [] h = refl
get_elem?-insert_at (suc i) x [] h = absurd (omega arith)
get_elem?-insert_at zero x (y ∷ ys) h = refl
get_elem?-insert_at (suc i) x (y ∷ ys) h = get_elem?-insert_at i x ys (omega arith)

remove_at-insert_at :
    (i : ℕ) (x : Piece) (xs : List Piece) → i ≤ length xs → remove_at i (insert_at i x xs) ≡ xs
remove_at-insert_at zero x [] h = refl
remove_at-insert_at (suc i) x [] h = absurd (omega arith)
remove_at-insert_at zero x (y ∷ ys) h = refl
remove_at-insert_at (suc i) x (y ∷ ys) h = ap (◌∷◌ y) (remove_at-insert_at i x ys (omega arith))

length-remove_at :
    (i : ℕ) (xs : List Piece) → i < length xs → length (remove_at i xs) + 1 ≡ length xs
length-remove_at i [] h = absurd (omega arith)
length-remove_at zero (x ∷ xs) h = omega arith
length-remove_at (suc i) (x ∷ xs) h = omega (arith, length-remove_at i xs)

-- The moved piece stands at its new index, and the other pieces keep their order.
pub move_piece_places :
    (from to : ℕ) (ps : List Piece)
    → from < length ps
    → to < length ps
    → (get_elem? (move_piece from to ps) to ≡ get_elem? ps from)
      × (remove_at to (move_piece from to ps) ≡ remove_at from ps)
unfolding move_piece
move_piece_places from to ps h k =
    let (x, e) = get_elem?-some ps from h in
    let room : to ≤ length (remove_at from ps) = omega (arith, length-remove_at from ps h) in
    (
      rw (e, move_piece) (get_elem?-insert_at to x (remove_at from ps) room),
      rw (e, move_piece) (remove_at-insert_at to x (remove_at from ps) room),
    )
