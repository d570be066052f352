-- ===== src/Levels/Kept.antt =====
-- The stored levels are a map from ids to levels, for the pages that import, save, delete and load them.
use usbi.Prelude.{
  ◌≡◌, refl, ap, ◌∙◌, true, false, not, Option, none, some, List, [], ◌∷◌, ltb, if◌then◌else◌,
  length, arith, inl, inr, Bool-cases, Option-cases, ◌*◌,
}
use usbi.Prelude.Sets.{keep}
use usbi.Prelude.Text.{Text, eq_text, eq_text→eq}
use usbi.Levels.Local.{
  Level, find_index, put, stored_levels, process_imported_json, handle_delete, no_title, save_local,
  find_level, load_level,
}

same_left : (s t u : Text) → eq_text s t ≡ true → eq_text s u ≡ eq_text t u
same_left s t u h = ap (λ x. eq_text x u) (eq_text→eq s t h)

same_right : (s t u : Text) → eq_text t u ≡ true → eq_text s t ≡ eq_text s u
same_right s t u h = ap (eq_text s) (eq_text→eq t u h)

module _ {C : Type 0} where
  -- What a deletion keeps.
  abbrev without : Text → List (Level C) → List (Level C)
  without k ls = keep (λ (l : Level C). not (eq_text l.id k)) ls

  put-cons :
      (l q : Level C) (ls : List (Level C))
      → put l (q ∷ ls) ≡ (if eq_text q.id l.id then l ∷ ls else q ∷ put l ls)
  unfolding put find_index
  put-cons l q ls = elim (Bool-cases (eq_text q.id l.id)) [
    | inl e ↦ rw (e) refl
    | inr e ↦ elim (Option-cases (find_index l.id ls)) [
      | inl f ↦ rw (e, f) refl
      | inr (i, f) ↦ rw (e, f) refl
    ]
  ]

  put-nil :
      (id : Text) (l : Level C)
      → find_level id (put l []) ≡ (if eq_text l.id id then some l else none)
  unfolding find_level put find_index
  put-nil id l = refl

  find_level-put :
      (id : Text) (l : Level C) (ls : List (Level C))
      → find_level id (put l ls) ≡ (if eq_text l.id id then some l else find_level id ls)
  unfolding find_level
  find_level-put id l [] = put-nil id l
  find_level-put id l (q ∷ ls) = rw (put-cons l q ls) (elim (Bool-cases (eq_text q.id l.id)) [
    | inl e ↦ rw (e) (ground (arith, same_left q.id l.id id))
    | inr e ↦ rw (e) (ground (arith, find_level-put id l ls, same_right q.id l.id id))
  ])

  without-cons :
      (k : Text) (q : Level C) (ls : List (Level C))
      → without k (q ∷ ls) ≡ (if eq_text q.id k then without k ls else q ∷ without k ls)
  unfolding keep
  without-cons k q ls = elim (Bool-cases (eq_text q.id k)) [
    | inl e ↦ rw (e) refl
    | inr e ↦ rw (e) refl
  ]

  find_level-without :
      (k id : Text) (ls : List (Level C))
      → find_level id (without k ls) ≡ (if eq_text k id then none else find_level id ls)
  unfolding find_level keep
  find_level-without k id [] = elim (Bool-cases (eq_text k id)) [
    | inl e ↦ rw (e) refl
    | inr e ↦ rw (e) refl
  ]
  find_level-without k id (q ∷ ls) = rw (without-cons k q ls) (elim (Bool-cases (eq_text q.id k)) [
    | inl e ↦ rw (e) (find_level-without k id ls ∙ ground (arith, same_left q.id k id))
    | inr e ↦ rw (e) (ground (arith, find_level-without k id ls, same_right q.id k id))
  ])

-- Importing a level of at most 5 MB whose id is not empty, and saving one without errors and with a
-- title, put it under its id and keep every other level; a confirmed deletion on the page that shows
-- the stored levels takes away the level with the id and keeps every other.
pub stored_levels_are_a_map :
    {C : Type 0} (parse : Text → Option (Level C)) (json : Text) (l : Level C)
    (storage : Option (List (Level C))) (k id : Text)
    → ltb (5 * 1024 * 1024) (length json) ≡ false
    → parse json ≡ some l
    → no_title l.title ≡ false
    → (load_level id (process_imported_json parse json storage)
        ≡ (if eq_text l.id id then some l else load_level id storage))
      × (load_level id (save_local false l storage).1
          ≡ (if eq_text l.id id then some l else load_level id storage))
      × (load_level id (handle_delete true k (stored_levels storage) storage)
          ≡ (if eq_text k id then none else load_level id storage))
unfolding process_imported_json save_local handle_delete load_level
stored_levels_are_a_map parse json l storage k id small parsed titled = (
  rw (small, parsed) (find_level-put id l (stored_levels storage)),
  rw (titled) (find_level-put id l (stored_levels storage)),
  find_level-without k id (stored_levels storage),
)
