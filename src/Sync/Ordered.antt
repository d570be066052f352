-- ===== src/Sync/Ordered.antt =====
-- localSyncQueue.ts: what `ORDER BY created_at ASC LIMIT 50` selects of at most fifty rows.
use usbi.Prelude.{
  ◌≡◌, ◌≤◌, refl, ℕ, zero, suc, false, ◌||◌, List, [], ◌∷◌, length, arith, if_cases, ◌∙◌, take, map,
}
use usbi.Prelude.Text.{Text, eq_text}
use usbi.Prelude.TextOrder.{insert_by_text, sort_by_text, leb_text}
use usbi.Sync.{some_negative}
use usbi.Sync.Queue.{Row, select_oldest, has}

abbrev pub ids_of : List Row → List Text
ids_of rows = map (λ (r : Row). r.id) rows

abbrev pub NoneNegative : List Row → Type 0
NoneNegative [] = Unit {0}
NoneNegative (r ∷ rs) = (some_negative r.payload.level_attempts ≡ false) × NoneNegative rs

module _ (key : Row → Text) where
  insert_by_text-has :
      (r : Row) (rows : List Row) (x : Text)
      → has (ids_of (insert_by_text key r rows)) x ≡ (eq_text r.id x || has (ids_of rows) x)
  unfolding insert_by_text has
  insert_by_text-has r [] x = refl
  insert_by_text-has r (q ∷ rows) x = ground (arith, insert_by_text-has r rows x)

  pub sort_by_text-has :
      (rows : List Row) (x : Text) → has (ids_of (sort_by_text key rows)) x ≡ has (ids_of rows) x
  unfolding sort_by_text has
  sort_by_text-has [] x = refl
  sort_by_text-has (r ∷ rows) x =
      insert_by_text-has r (sort_by_text key rows) x ∙ ground (arith, sort_by_text-has rows x)

  length-insert_by_text :
      (r : Row) (rows : List Row) → length (insert_by_text key r rows) ≡ suc (length rows)
  unfolding insert_by_text
  length-insert_by_text r [] = refl
  length-insert_by_text r (q ∷ rows) = ground (arith, length-insert_by_text r rows)

  pub length-sort_by_text : (rows : List Row) → length (sort_by_text key rows) ≡ length rows
  unfolding sort_by_text
  length-sort_by_text [] = refl
  length-sort_by_text (r ∷ rows) =
      omega (arith, length-insert_by_text r (sort_by_text key rows), length-sort_by_text rows)

take_all : (n : ℕ) (rows : List Row) → length rows ≤ n → take n rows ≡ rows
take_all zero [] h = refl
take_all zero (r ∷ rows) h = absurd (omega arith)
take_all (suc n) [] h = refl
take_all (suc n) (r ∷ rows) h = rw (take_all n rows (omega arith)) refl

insert_by_text-NoneNegative :
    (key : Row → Text) (r : Row) (rows : List Row)
    → some_negative r.payload.level_attempts ≡ false
    → NoneNegative rows
    → NoneNegative (insert_by_text key r rows)
unfolding insert_by_text
insert_by_text-NoneNegative key r [] v vs = (v, tt)
insert_by_text-NoneNegative key r (q ∷ rows) v (vq, vs) =
    if_cases NoneNegative (leb_text (key r) (key q)) (λ _. (v, (vq, vs)))
      (λ _. (vq, insert_by_text-NoneNegative key r rows v vs))

pub sort_by_text-NoneNegative :
    (key : Row → Text) (rows : List Row) → NoneNegative rows → NoneNegative (sort_by_text key rows)
unfolding sort_by_text
sort_by_text-NoneNegative key [] vs = tt
sort_by_text-NoneNegative key (r ∷ rows) (v, vs) =
    insert_by_text-NoneNegative key r (sort_by_text key rows) v
      (sort_by_text-NoneNegative key rows vs)

pub select_oldest_all :
    (rows : List Row)
    → length rows ≤ 50
    → select_oldest rows ≡ sort_by_text (λ (r : Row). r.created_at) rows
unfolding select_oldest
select_oldest_all rows few =
    let key = λ (r : Row). r.created_at in
    take_all 50 (sort_by_text key rows) (omega (arith, length-sort_by_text key rows))
