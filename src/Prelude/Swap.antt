-- ===== src/Prelude/Swap.antt =====
-- `[a[i], a[j]] = [a[j], a[i]]` and the Fisher-Yates loop over a source of indices, as in
-- frontend/packages/engine/src/games/PuzzleEngine.ts and MemoryEngine.ts.
use mathlib.Core.List.Perm
use Prim.Native.Nat.{ℕ, zero, suc}
use mathlib.Core.Path.{◌≡◌, ◌∙◌}
use mathlib.Core.Logic.{inl, inr}
use mathlib.Core.List.{List, [], ◌∷◌, Perm}
use mathlib.Core.Option.{none, some}
use native.Mathlib.Omega.{arith}
use usbi.Prelude.Tests.{◌==◌, Bool-cases, ==_iff, Option-cases}
use usbi.Prelude.Slices.{get_elem?-lt}
use usbi.Prelude.Lists.{get_elem?, set, get_elem?-set_self, get_elem?-set_ne}

module _ {ℓ} {A : Type ℓ} where
  -- Both indices are in range wherever the programs swap.
  unfoldable pub swap : List A → ℕ → ℕ → List A
  swap xs i j = elim (get_elem? xs i) [
    | none ↦ xs
    | some a ↦ elim (get_elem? xs j) [ none ↦ xs | some b ↦ set (set xs i b) j a ]
  ]

  -- A write trades the old entry for the new one.
  set-perm :
      (xs : List A) (i : ℕ) (v : A) {a : A}
      → get_elem? xs i ≡ some a
      → Perm (a ∷ set xs i v) (v ∷ xs)
  set-perm [] i v h = cc
  set-perm (x ∷ xs) zero v {a} h = let e : x ≡ a = cc in rw e (Perm.swap v a xs)
  set-perm (x ∷ xs) (suc i) v {a} h =
      Perm.trans (Perm.swap x a _) (Perm.trans (Perm.cons x (set-perm xs i v h)) (Perm.swap v x xs))

  pub read_after_write :
      (xs : List A) (i j : ℕ) {a b : A}
      → get_elem? xs i ≡ some a
      → get_elem? xs j ≡ some b
      → get_elem? (set xs i b) j ≡ some b
  read_after_write xs i j {a} {b} h k = elim (Bool-cases (i == j)) [
    | inl e ↦
        let e' : i ≡ j = (==_iff i j).0 e in rw e' (get_elem?-set_self xs j b (get_elem?-lt xs j k))
    | inr n ↦ get_elem?-set_ne xs b (λ e. ground (arith, ==_iff i j)) ∙ k
  ]

  -- A swap only reorders.
  pub swap-perm : (xs : List A) (i j : ℕ) → Perm (swap xs i j) xs
  unfolding swap
  swap-perm xs i j = elim (Option-cases (get_elem? xs i)) [
    | inl e ↦ rw (e, swap) (Perm.refl xs)
    | inr (a, e) ↦ elim (Option-cases (get_elem? xs j)) [
      | inl n ↦ rw (e, n, swap) (Perm.refl xs)
      | inr (b, f) ↦
          rw (e, f, swap)
            (Perm.cons_inv (
              Perm.trans (set-perm (set xs i b) j a (read_after_write xs i j e f))
                (set-perm xs i b e)))
    ]
  ]
