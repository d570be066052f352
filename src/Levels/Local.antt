-- ===== src/Levels/Local.antt =====
-- The levels kept in `localStorage` under usbi_local_levels: LocalContentSection (processImportedJSON and
-- handleDelete) of frontend/src/features/dashboard/DashboardPage.tsx, saveLocal of
-- frontend/src/features/maker/MakerPage.tsx, and the level that
-- frontend/src/features/content/LocalLevelPage.tsx finds. The list is stored as its JSON text, which is
-- taken to be read back as it was written; `C` is the content of a level.
use usbi.Prelude.{
  ℕ, zero, suc, Bool, true, false, ◌||◌, not, Option, none, some, List, [], ◌∷◌, ◌++◌, set, ltb,
  if◌then◌else◌, ◌*◌, length,
}
use usbi.Prelude.Sets.{keep}
use usbi.Prelude.Text.{Text, eq_text}

pub record Level (C : Type 0) : Type 0 where
  pub id : Text
  pub title : Text
  pub content : C

pub data Status : Type 0 where
  idle success error : Status

-- `levels.findIndex(level => level.metadata.id === id)`, `none` being -1.
abbrev pub next_index : Option ℕ → Option ℕ
next_index none = none
next_index (some i) = some (suc i)

abbrev pub no_title : Text → Bool
no_title [] = true
no_title (c ∷ cs) = false

module _ {C : Type 0} where
  unfoldable pub find_index : Text → List (Level C) → Option ℕ
  find_index id [] = none
  find_index id (l ∷ ls) = if eq_text l.id id then some zero else next_index (find_index id ls)

  abbrev pub put_at : Option ℕ → Level C → List (Level C) → List (Level C)
  put_at none l ls = ls ++ l ∷ []
  put_at (some i) l ls = set ls i l

  -- The list that both pages store.
  unfoldable pub put : Level C → List (Level C) → List (Level C)
  put l ls = put_at (find_index l.id ls) l ls

  -- `localStorage.getItem`: a missing entry is an empty list.
  abbrev pub stored_levels : Option (List (Level C)) → List (Level C)
  stored_levels none = []
  stored_levels (some ls) = ls

  -- `parse` is what `JSON.parse` and the test of `metadata.id` make of the text: a level, when its
  -- metadata has an id that is not empty.
  abbrev pub import_parsed : Option (Level C) → Option (List (Level C)) → Option (List (Level C))
  import_parsed none storage = storage
  import_parsed (some l) storage = some (put l (stored_levels storage))

  unfoldable pub process_imported_json :
      (Text → Option (Level C)) → Text → Option (List (Level C)) → Option (List (Level C))
  process_imported_json parse json storage =
      if ltb (5 * 1024 * 1024) (length json) then storage else import_parsed (parse json) storage

  -- `localLevels` is what the page shows.
  unfoldable pub handle_delete :
      Bool → Text → List (Level C) → Option (List (Level C)) → Option (List (Level C))
  handle_delete confirmed id local_levels storage =
      if confirmed
      then some (keep (λ (l : Level C). not (eq_text l.id id)) local_levels)
      else storage

  unfoldable pub save_local :
      Bool → Level C → Option (List (Level C)) → Status × Option (List (Level C))
  save_local has_errors l storage =
      if has_errors || no_title l.title
      then (error, storage)
      else (success, some (put l (stored_levels storage)))

  -- `levels.find(l => l.metadata.id === levelId)`
  unfoldable pub find_level : Text → List (Level C) → Option (Level C)
  find_level id [] = none
  find_level id (l ∷ ls) = if eq_text l.id id then some l else find_level id ls

  unfoldable pub load_level : Text → Option (List (Level C)) → Option (Level C)
  load_level id storage = find_level id (stored_levels storage)
