-- ===== src/Prelude/Slices.antt =====
-- Consecutive slices of a list join up.
use Prim.Native.Nat.{ℕ, zero, suc, ◌+◌, ◌≤◌, ◌<◌}
use mathlib.Core.Path.{◌≡◌, refl, ap}
use mathlib.Core.List.{List, [], ◌∷◌, ◌++◌}
use native.Mathlib.Omega.{arith}
use mathlib.Core.Option.{some}
use usbi.Prelude.Lists.{length, get_elem?, take, drop}

module _ {ℓ} {A : Type ℓ} where
  take-nil : (n : ℕ) → take {A = A} n [] ≡ []
  take-nil zero = refl
  take-nil (suc n) = refl

  drop-nil : (n : ℕ) → drop {A = A} n [] ≡ []
  drop-nil zero = refl
  drop-nil (suc n) = refl

  pub drop-drop : (a b : ℕ) (xs : List A) → drop b (drop a xs) ≡ drop (a + b) xs
  drop-drop zero b xs = let e : 0 + b ≡ b = omega arith in rw e
  drop-drop (suc a) b [] = rw (drop-nil b, drop-nil (suc a + b))
  drop-drop (suc a) b (x ∷ xs) =
      let e : suc a + b ≡ suc (a + b) = omega arith in rw e (drop-drop a b xs)

  pub take-append-take : (a b : ℕ) (xs : List A) → take a xs ++ take b (drop a xs) ≡ take (a + b) xs
  take-append-take zero b xs = let e : 0 + b ≡ b = omega arith in rw e
  take-append-take (suc a) b [] = rw (take-nil b, take-nil (suc a + b))
  take-append-take (suc a) b (x ∷ xs) =
      let e : suc a + b ≡ suc (a + b) = omega arith in rw e (ap (◌∷◌ x) (take-append-take a b xs))

  pub take-all : (n : ℕ) (xs : List A) → length xs ≤ n → take n xs ≡ xs
  take-all zero [] h = refl
  take-all zero (x ∷ xs) h = absurd (omega arith)
  take-all (suc n) [] h = refl
  take-all (suc n) (x ∷ xs) h = ap (◌∷◌ x) (take-all n xs (omega arith))

  pub get_elem?-some : (xs : List A) (i : ℕ) → i < length xs → (x : A) × (get_elem? xs i ≡ some x)
  get_elem?-some [] i h = absurd (omega arith)
  get_elem?-some (x ∷ xs) zero h = (x, refl)
  get_elem?-some (x ∷ xs) (suc i) h = get_elem?-some xs i (omega arith)

  pub get_elem?-lt : (xs : List A) (i : ℕ) {a : A} → get_elem? xs i ≡ some a → i < length xs
  get_elem?-lt [] i h = cc
  get_elem?-lt (x ∷ xs) zero h = omega arith
  get_elem?-lt (x ∷ xs) (suc i) h = omega (arith, get_elem?-lt xs i h)

  -- What a suffix that starts at `i` says of the list.
  pub drop-cons :
      (i : ℕ) (xs ys : List A) (x : A)
      → drop i xs ≡ x ∷ ys
      → (get_elem? xs i ≡ some x) × (drop (i + 1) xs ≡ ys) × (length xs ≡ i + length (x ∷ ys))
  drop-cons zero [] ys x h = cc
  drop-cons zero (z ∷ zs) ys x h = (ground arith, ground arith, omega (arith, ap length h))
  drop-cons (suc i) [] ys x h = cc
  drop-cons (suc i) (z ∷ zs) ys x h =
      let (at, rest, all) = drop-cons i zs ys x h in
      let e : suc i + 1 ≡ suc (i + 1) = omega arith in (at, rw e rest, omega (arith, all))

  pub drop-eq-nil : (i : ℕ) (xs : List A) → drop i xs ≡ [] → length xs ≤ i
  drop-eq-nil zero [] h = omega arith
  drop-eq-nil zero (x ∷ xs) h = cc
  drop-eq-nil (suc i) [] h = omega arith
  drop-eq-nil (suc i) (x ∷ xs) h = omega (arith, drop-eq-nil i xs h)
