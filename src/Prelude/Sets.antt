-- ===== src/Prelude/Sets.antt =====
-- Sets of numbers as lists, the helpers for `new Set`, `has`, `add` and `filter`, and the size of
-- what a set leaves of a range.
use Prim.Native.Nat.{ℕ, zero, suc, ◌+◌, ◌≤◌, ◌<◌}
use mathlib.Core.Path.{◌≡◌, refl}
use mathlib.Core.Bool.{Bool, false, ◌||◌, not}
use mathlib.Core.List.{List, [], ◌∷◌, ◌++◌}
use native.Mathlib.Omega.{arith}
use usbi.Prelude.Tests.{◌==◌, if◌then◌else◌}
use usbi.Prelude.Lists.{length}

unfoldable pub contains : List ℕ → ℕ → Bool
contains [] x = false
contains (k ∷ ks) x = k == x || contains ks x

-- `set.add(x)`: a set keeps the order of insertion.
unfoldable pub add : List ℕ → ℕ → List ℕ
add s x = if contains s x then s else s ++ x ∷ []

module _ {ℓ} {A : Type ℓ} where
  unfoldable pub keep : (A → Bool) → List A → List A
  keep p [] = []
  keep p (x ∷ xs) = if p x then x ∷ keep p xs else keep p xs

  pub length-keep-le : (p : A → Bool) (xs : List A) → length (keep p xs) ≤ length xs
  unfolding keep
  length-keep-le p [] = omega arith
  length-keep-le p (x ∷ xs) = ground (arith, length-keep-le p xs)

-- The n numbers from a on.
unfoldable pub range : ℕ → ℕ → List ℕ
range a zero = []
range a (suc n) = a ∷ range (a + 1) n

pub contains-append : (s : List ℕ) (x y : ℕ) → contains (s ++ x ∷ []) y ≡ (contains s y || x == y)
unfolding contains
contains-append [] x y = ground arith
contains-append (k ∷ s) x y = ground (arith, contains-append s x y)

hits : List ℕ → List ℕ → ℕ
hits s [] = 0
hits s (x ∷ xs) = (if contains s x then 1 else 0) + hits s xs

equals : ℕ → List ℕ → ℕ
equals o [] = 0
equals o (x ∷ xs) = (if o == x then 1 else 0) + equals o xs

hits-cons : (o : ℕ) (s xs : List ℕ) → hits (o ∷ s) xs ≤ equals o xs + hits s xs
unfolding hits equals contains
hits-cons o s [] = omega arith
hits-cons o s (x ∷ xs) = ground (arith, hits-cons o s xs)

hits-nil : (xs : List ℕ) → hits [] xs ≡ 0
unfolding hits contains
hits-nil [] = refl
hits-nil (x ∷ xs) = omega (arith, hits-nil xs)

equals_below : (o a n : ℕ) → o < a → equals o (range a n) ≡ 0
unfolding equals range
equals_below o a zero h = refl
equals_below o a (suc n) h = ground (arith, equals_below o (a + 1) n)

equals-le : (o a n : ℕ) → equals o (range a n) ≤ 1
unfolding equals range
equals-le o a zero = omega arith
equals-le o a (suc n) = ground (arith, equals_below o (a + 1) n, equals-le o (a + 1) n)

hits-le : (s : List ℕ) (a n : ℕ) → hits s (range a n) ≤ length s
hits-le [] a n = omega (arith, hits-nil (range a n))
hits-le (o ∷ s) a n = omega (arith, hits-cons o s (range a n), equals-le o a n, hits-le s a n)

length-keep : (s xs : List ℕ) → length (keep (λ x. not (contains s x)) xs) + hits s xs ≡ length xs
unfolding keep hits
length-keep s [] = omega arith
length-keep s (x ∷ xs) = ground (arith, length-keep s xs)

length-range : (a n : ℕ) → length (range a n) ≡ n
unfolding range
length-range a zero = refl
length-range a (suc n) = omega (arith, length-range (a + 1) n)

-- A set takes at most its size out of a range.
pub length-keep-range :
    (s : List ℕ) (a n : ℕ) → n ≤ length (keep (λ x. not (contains s x)) (range a n)) + length s
length-keep-range s a n = omega (arith, length-keep s (range a n), hits-le s a n, length-range a n)
