-- ===== src/Puzzle/Pieces.antt =====
-- PuzzleEngine.ts, generatePieces: how the phrase is cut, and what "in order" decides.
use mathlib.Core.Logic.Or
use mathlib.Core.List.{Mem, mem-cons, mem-cons_self, not-mem-nil}
use mathlib.Core.List.Perm
use native.Mathlib.Bridge.{le_prop}
use usbi.Prelude.{
  ℕ, zero, suc, ◌+◌, ◌-◌, ◌*◌, ◌/◌, ◌%◌, ◌≤◌, ◌<◌, min, ◌≡◌, refl, sym, ap, ◌∙◌, true, List, [],
  ◌∷◌, ◌++◌, Perm, arith, ltb, if◌then◌else◌, length, take, drop,
}
use usbi.Prelude.Slices.{drop-drop, take-append-take, take-all}
use usbi.Puzzle.{Piece, cut, cut_phrase, in_order}

-- The text that a list of pieces spells.
abbrev pub spelled : List Piece → List ℕ
spelled [] = []
spelled (p ∷ ps) = p.text ++ spelled ps

spelled-cut :
    (n i base remainder start : ℕ) (phrase : List ℕ)
    → spelled (cut n i base remainder start phrase)
      ≡ take (n * base + min remainder n) (drop start phrase)
unfolding cut
spelled-cut zero i base remainder start phrase =
    let e : 0 * base + min remainder 0 ≡ 0 = omega arith in rw e
spelled-cut (suc n) i base remainder start phrase =
    let len = base + (if ltb 0 remainder then 1 else 0) in
    let total : suc n * base + min remainder (suc n) ≡ len + (n * base + min (remainder - 1) n) =
      ground arith in
    rw
      (
        total,
        spelled-cut n (i + 1) base (remainder - 1) (start + len) phrase,
        ← drop-drop start len phrase,
      )
      (take-append-take len (n * base + min (remainder - 1) n) (drop start phrase))

-- The pieces, in the order in which they are cut, spell the phrase.
pub spelled-cut_phrase :
    (phrase : List ℕ) (count : ℕ) → 0 < count → spelled (cut_phrase phrase count) ≡ phrase
unfolding cut_phrase
spelled-cut_phrase phrase count h =
    spelled-cut count 0 (length phrase / count) (length phrase % count) 0 phrase
    ∙ take-all _ phrase (grind arith)

pub length-cut :
    (n i base remainder start : ℕ) (phrase : List ℕ)
    → length (cut n i base remainder start phrase) ≡ n
unfolding cut
length-cut zero i base remainder start phrase = refl
length-cut (suc n) i base remainder start phrase = ap suc (length-cut n _ _ _ _ phrase)

in_order-cut :
    (n i base remainder start : ℕ) (phrase : List ℕ)
    → in_order i (cut n i base remainder start phrase) ≡ true
unfolding cut in_order
in_order-cut zero i base remainder start phrase = refl
in_order-cut (suc n) i base remainder start phrase = ground (
  arith,
  in_order-cut n (i + 1) base (remainder - 1) (start + (base + (if ltb 0 remainder then 1 else 0)))
      phrase,
)

pub in_order-cut_phrase :
    (phrase : List ℕ) (count : ℕ) → in_order 0 (cut_phrase phrase count) ≡ true
unfolding cut_phrase
in_order-cut_phrase phrase count =
    in_order-cut count 0 (length phrase / count) (length phrase % count) 0 phrase

le_of_mem :
    (i : ℕ) (ps : List Piece) {p : Piece} → in_order i ps ≡ true → Mem p ps → i ≤ p.original_index
unfolding in_order
le_of_mem i [] h m = absurd (not-mem-nil m)
le_of_mem i (q ∷ qs) {p} h m =
    Or.elim le_prop (mem-cons.0 m) (λ e. rw e (ground arith))
      (λ m'.
        let tail : in_order (i + 1) qs ≡ true = ground arith in
        omega (arith, le_of_mem (i + 1) qs tail m'))

Piece-set : IsSet Piece
Piece-set = hlevel

-- Two arrangements of the same pieces that are both in order are the same.
pub in_order_unique :
    (i : ℕ) (ps qs : List Piece)
    → in_order i ps ≡ true
    → in_order i qs ≡ true
    → Perm ps qs
    → ps ≡ qs
unfolding in_order
in_order_unique i [] qs h k r = sym (Perm.eq-nil (Perm.symm r))
in_order_unique i (p ∷ ps) [] h k r = absurd (not-mem-nil ((Perm.mem_iff r).0 mem-cons_self))
in_order_unique i (p ∷ ps) (q ∷ qs) h k r =
    let first : p.original_index ≡ i = ground arith in
    let rest : in_order (i + 1) ps ≡ true = ground arith in
    let rest' : in_order (i + 1) qs ≡ true = ground arith in
    let same : p ≡ q =
      Or.elim (Piece-set p q) (mem-cons.0 ((Perm.mem_iff r).0 mem-cons_self)) (λ e. e)
        (λ m. absurd (omega (arith, le_of_mem (i + 1) qs rest' m))) in
    let shorter : Perm ps qs = Perm.cons_inv (rw same at r) in
    rw (same, in_order_unique (i + 1) ps qs rest rest' shorter)
