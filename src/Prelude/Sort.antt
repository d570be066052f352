-- ===== src/Prelude/Sort.antt =====
-- `[...xs].sort((a, b) => key(b) - key(a))`: the stable sort of the engines, longest first.
use mathlib.Core.List.Perm
use Prim.Native.Nat.{ℕ}
use mathlib.Core.List.{List, [], ◌∷◌, Perm}
use usbi.Prelude.Tests.{leb, if◌then◌else◌, if_cases}

module _ {ℓ} {A : Type ℓ} where
  -- `x` stood before the entries of the sorted list, so it stays before those of its own size.
  unfoldable pub insert_by : (A → ℕ) → A → List A → List A
  insert_by key x [] = x ∷ []
  insert_by key x (y ∷ ys) = if leb (key y) (key x) then x ∷ y ∷ ys else y ∷ insert_by key x ys

  unfoldable pub sort_by : (A → ℕ) → List A → List A
  unfolding insert_by
  sort_by key [] = []
  sort_by key (x ∷ xs) = insert_by key x (sort_by key xs)

  insert_by-perm : (key : A → ℕ) (x : A) (xs : List A) → Perm (insert_by key x xs) (x ∷ xs)
  unfolding insert_by
  insert_by-perm key x [] = Perm.refl _
  insert_by-perm key x (y ∷ ys) =
      if_cases (λ l. Perm l (x ∷ y ∷ ys)) (leb (key y) (key x)) (λ _. Perm.refl _)
        (λ _. Perm.trans (Perm.cons y (insert_by-perm key x ys)) (Perm.swap x y ys))

  pub sort_by-perm : (key : A → ℕ) (xs : List A) → Perm (sort_by key xs) xs
  unfolding sort_by
  sort_by-perm key [] = Perm.refl _
  sort_by-perm key (x ∷ xs) =
      Perm.trans (insert_by-perm key x (sort_by key xs)) (Perm.cons x (sort_by-perm key xs))
