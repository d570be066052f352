-- ===== src/Settings/Examples.antt =====
-- A dark theme and a filter, changed by the setters.
use usbi.Prelude.{◌≡◌, true, false, [], ◌∷◌, List}
use usbi.Settings.{
  Settings, class_protanopia, foreign, has, rehydrate, dark, deuteranopia, protanopia, large,
}
use usbi.Settings.Document.{Setter, filters, mutes, wanted, run, settings_are_shown}

abbrev stored : Settings
stored = record {
  color_blind_filter = deuteranopia;
  theme = dark;
  mute_game_sounds = false;
  reduce_motion = true;
  text_scale = large;
}

abbrev setters : List Setter
setters = mutes true ∷ filters protanopia ∷ []

settings_are_shown_example :
    has (run setters (rehydrate stored (foreign 3 ∷ []))).classes class_protanopia
    ≡ wanted
        (foreign 3 ∷ [])
        (run setters (rehydrate stored (foreign 3 ∷ []))).settings
        class_protanopia
settings_are_shown_example = settings_are_shown stored (foreign 3 ∷ []) setters class_protanopia
