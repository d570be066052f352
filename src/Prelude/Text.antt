-- ===== src/Prelude/Text.antt =====
-- Texts as lists of UTF-16 code units: equality and `trim`.
use Prim.Native.Nat.{ℕ, zero, suc, ◌+◌, ◌/◌, ◌%◌}
use mathlib.Core.Path.{◌≡◌, refl}
use mathlib.Core.Bool.{Bool, true, false, ◌||◌, ◌&&◌}
use mathlib.Core.List.{List, [], ◌∷◌, ◌++◌, reverse}
use native.Mathlib.Omega.{arith}
use usbi.Prelude.Tests.{◌==◌, ==_iff, ltb, leb, if◌then◌else◌}

abbrev pub Text : Type 0
Text = List ℕ

unfoldable pub eq_text : Text → Text → Bool
eq_text [] [] = true
eq_text [] (d ∷ ds) = false
eq_text (c ∷ cs) [] = false
eq_text (c ∷ cs) (d ∷ ds) = c == d && eq_text cs ds

pub eq_text→eq : (s t : Text) → eq_text s t ≡ true → s ≡ t
unfolding eq_text
eq_text→eq [] [] h = refl
eq_text→eq [] (d ∷ ds) h = cc
eq_text→eq (c ∷ cs) [] h = cc
eq_text→eq (c ∷ cs) (d ∷ ds) h = ground (arith, eq_text→eq cs ds)

pub eq_text_self : (s : Text) → eq_text s s ≡ true
unfolding eq_text
eq_text_self [] = refl
eq_text_self (c ∷ cs) = ground (arith, eq_text_self cs)

pub eq_text-sym : (s t : Text) → eq_text s t ≡ eq_text t s
unfolding eq_text
eq_text-sym [] [] = refl
eq_text-sym [] (d ∷ ds) = refl
eq_text-sym (c ∷ cs) [] = refl
eq_text-sym (c ∷ cs) (d ∷ ds) = ground (arith, eq_text-sym cs ds, ==_iff c d, ==_iff d c)

-- The white space and line terminators of ECMAScript.
unfoldable pub is_space : ℕ → Bool
is_space c =
    (leb 9 c && leb c 13)
    || c == 32
    || c == 160
    || c == 5760
    || (leb 8192 c && leb c 8202)
    || c == 8232
    || c == 8233
    || c == 8239
    || c == 8287
    || c == 12288
    || c == 65279

unfoldable pub trim_start : Text → Text
unfolding is_space
trim_start [] = []
trim_start (c ∷ cs) = if is_space c then trim_start cs else c ∷ cs

unfoldable pub trim : Text → Text
unfolding trim_start
trim s = reverse (trim_start (reverse (trim_start s)))

-- The decimal numeral of a natural number below 10 ^ 17.
unfoldable pub digits : ℕ → ℕ → Text
digits zero n = []
digits (suc k) n =
    let front = digits k (n / 10) in (if ltb n 10 then [] else front) ++ (b'0' + n % 10) ∷ []

-- `texts.join(separator)`
unfoldable pub join : ℕ → List Text → Text
join separator [] = []
join separator (t ∷ []) = t
join separator (t ∷ u ∷ us) = t ++ separator ∷ join separator (u ∷ us)
