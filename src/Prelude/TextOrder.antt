-- ===== src/Prelude/TextOrder.antt =====
-- `texts.sort()` and `ORDER BY` on a column of texts: the order of texts by code units, and the
-- stable sort by it.
use mathlib.Core.List.Perm
use mathlib.Core.Logic.{∥∥₁_elim}
use mathlib.Core.Path.{◌≡◌, refl, ◌∙◌}
use mathlib.Core.Bool.{Bool, true, false, ◌||◌, ◌&&◌}
use mathlib.Core.List.{List, [], ◌∷◌, Perm, Permᴰ}
use native.Mathlib.Omega.{arith}
use usbi.Prelude.Tests.{ltb, ◌==◌, if◌then◌else◌, if_cases}
use usbi.Prelude.Text.{Text}

unfoldable pub leb_text : Text → Text → Bool
leb_text [] t = true
leb_text (c ∷ cs) [] = false
leb_text (c ∷ cs) (d ∷ ds) = ltb c d || (c == d && leb_text cs ds)

leb_text-total : (s t : Text) → leb_text s t ≡ false → leb_text t s ≡ true
unfolding leb_text
leb_text-total [] t h = cc
leb_text-total (c ∷ cs) [] h = refl
leb_text-total (c ∷ cs) (d ∷ ds) h = ground (arith, leb_text-total cs ds)

leb_text-antisym : (s t : Text) → leb_text s t ≡ true → leb_text t s ≡ true → s ≡ t
unfolding leb_text
leb_text-antisym [] [] h k = refl
leb_text-antisym [] (d ∷ ds) h k = cc
leb_text-antisym (c ∷ cs) [] h k = cc
leb_text-antisym (c ∷ cs) (d ∷ ds) h k = ground (arith, leb_text-antisym cs ds)

leb_text_trans : (s t u : Text) → leb_text s t ≡ true → leb_text t u ≡ true → leb_text s u ≡ true
unfolding leb_text
leb_text_trans [] t u h k = refl
leb_text_trans (c ∷ cs) [] u h k = cc
leb_text_trans (c ∷ cs) (d ∷ ds) [] h k = cc
leb_text_trans (c ∷ cs) (d ∷ ds) (e ∷ es) h k = ground (arith, leb_text_trans cs ds es)

module _ {ℓ} {A : Type ℓ} (key : A → Text) where
  -- `x` stood before the entries of the sorted list, so it stays before those of its own key.
  unfoldable pub insert_by_text : A → List A → List A
  insert_by_text x [] = x ∷ []
  insert_by_text x (y ∷ ys) =
      if leb_text (key x) (key y) then x ∷ y ∷ ys else y ∷ insert_by_text x ys

  unfoldable pub sort_by_text : List A → List A
  unfolding insert_by_text
  sort_by_text [] = []
  sort_by_text (x ∷ xs) = insert_by_text x (sort_by_text xs)

  insert_by_text-perm : (x : A) (xs : List A) → Perm (insert_by_text x xs) (x ∷ xs)
  unfolding insert_by_text
  insert_by_text-perm x [] = Perm.refl _
  insert_by_text-perm x (y ∷ ys) =
      if_cases (λ l. Perm l (x ∷ y ∷ ys)) (leb_text (key x) (key y)) (λ _. Perm.refl _)
        (λ _. Perm.trans (Perm.cons y (insert_by_text-perm x ys)) (Perm.swap x y ys))

  pub sort_by_text-perm : (xs : List A) → Perm (sort_by_text xs) xs
  unfolding sort_by_text
  sort_by_text-perm [] = Perm.refl _
  sort_by_text-perm (x ∷ xs) =
      Perm.trans (insert_by_text-perm x (sort_by_text xs)) (Perm.cons x (sort_by_text-perm xs))

unfoldable pub sort_texts : List Text → List Text
sort_texts ts = sort_by_text (λ (t : Text). t) ts

insert_comm :
    (s t : Text) (ts : List Text)
    → let insert = insert_by_text (λ (u : Text). u) in
      insert s (insert t ts) ≡ insert t (insert s ts)
unfolding insert_by_text
insert_comm s t [] = ground (arith, leb_text-total s t, leb_text-antisym s t)
insert_comm s t (u ∷ us) = ground (
  arith,
  leb_text-total s t,
  leb_text-antisym s t,
  leb_text-total s u,
  leb_text-total t u,
  leb_text_trans s t u,
  leb_text_trans t s u,
  insert_comm s t us,
)

sort_texts_permuted : {ss ts : List Text} → Permᴰ ss ts → sort_texts ss ≡ sort_texts ts
unfolding sort_texts sort_by_text
sort_texts_permuted Permᴰ.nil = refl
sort_texts_permuted (Permᴰ.cons e p) = rw (e, sort_texts_permuted p) refl
sort_texts_permuted (Permᴰ.swap {a} {b} {l} e e') =
    insert_comm a b (sort_texts l) ∙ (rw (e, e') refl)
sort_texts_permuted (Permᴰ.trans p q) = sort_texts_permuted p ∙ sort_texts_permuted q

-- Sorting forgets the order in which the texts are given.
pub sort_texts-perm : (ss ts : List Text) → Perm ss ts → sort_texts ss ≡ sort_texts ts
sort_texts-perm ss ts p =
    ∥∥₁_elim {P = sort_texts ss ≡ sort_texts ts} p (hlevel) sort_texts_permuted
