-- ===== src/Settings.antt =====
-- frontend/src/stores/useSettingsStore.ts: the settings and the classes that they put on the document;
-- and frontend/src/stores/useGameStore.ts. The class list of the document is the list of its classes.
pub mod Document
mod Examples
use usbi.Prelude.{
  ℕ, ◌+◌, Bool, true, false, ◌||◌, not, Option, none, some, List, [], ◌∷◌, ◌++◌, ◌==◌,
  if◌then◌else◌,
}
use usbi.Prelude.Int.{ℤ, pos}
use usbi.Prelude.Sets.{keep}
use usbi.Prelude.Text.{Text}

pub data ColorBlindFilter : Type 0 where
  no_filter deuteranopia protanopia tritanopia : ColorBlindFilter

pub data Theme : Type 0 where
  light dark : Theme

pub data TextScale : Type 0 where
  normal large larger : TextScale

pub record Settings : Type 0 where
  pub color_blind_filter : ColorBlindFilter
  pub theme : Theme
  pub mute_game_sounds : Bool
  pub reduce_motion : Bool
  pub text_scale : TextScale

-- The classes that the store sets, and those that others set.
pub data Class : Type 0 where
  class_dark class_deuteranopia class_protanopia class_tritanopia : Class
  class_reduce_motion class_scale_large class_scale_larger : Class
  foreign : ℕ → Class

abbrev pub code : Class → ℕ
code class_dark = 0
code class_deuteranopia = 1
code class_protanopia = 2
code class_tritanopia = 3
code class_reduce_motion = 4
code class_scale_large = 5
code class_scale_larger = 6
code (foreign n) = 7 + n

abbrev pub same : Class → Class → Bool
same c d = code c == code d

-- `classList.contains`
unfoldable pub has : List Class → Class → Bool
has [] d = false
has (c ∷ cs) d = same c d || has cs d

-- `classList.add` and `classList.remove`
unfoldable pub add : Class → List Class → List Class
add c cs = if has cs c then cs else cs ++ c ∷ []

unfoldable pub remove : Class → List Class → List Class
remove c cs = keep (λ (d : Class). not (same d c)) cs

unfoldable pub toggle : Class → Bool → List Class → List Class
toggle c force cs = if force then add c cs else remove c cs

abbrev pub is_dark : Theme → Bool
is_dark light = false
is_dark dark = true

abbrev pub add_filter : ColorBlindFilter → List Class → List Class
add_filter no_filter cs = cs
add_filter deuteranopia cs = add class_deuteranopia cs
add_filter protanopia cs = add class_protanopia cs
add_filter tritanopia cs = add class_tritanopia cs

abbrev pub add_scale : TextScale → List Class → List Class
add_scale normal cs = cs
add_scale large cs = add class_scale_large cs
add_scale larger cs = add class_scale_larger cs

unfoldable pub apply_document_classes : Settings → List Class → List Class
apply_document_classes s cs =
    let themed = toggle class_dark (is_dark s.theme) cs in
    let unfiltered =
      remove class_tritanopia (remove class_protanopia (remove class_deuteranopia themed)) in
    let moving =
      toggle class_reduce_motion s.reduce_motion (add_filter s.color_blind_filter unfiltered) in
    add_scale s.text_scale (remove class_scale_larger (remove class_scale_large moving))

-- The store and the document.
pub record Shown : Type 0 where
  pub settings : Settings
  pub classes : List Class

unfoldable pub applied : Settings → Shown → Shown
applied s p = record { settings = s; classes = apply_document_classes s p.classes }

unfoldable pub set_color_blind_filter : ColorBlindFilter → Shown → Shown
set_color_blind_filter f p = applied (record (p.settings) { color_blind_filter = f }) p

unfoldable pub set_theme : Theme → Shown → Shown
set_theme t p = applied (record (p.settings) { theme = t }) p

unfoldable pub set_mute_game_sounds : Bool → Shown → Shown
set_mute_game_sounds b p = record p { settings = record (p.settings) { mute_game_sounds = b } }

unfoldable pub set_reduce_motion : Bool → Shown → Shown
set_reduce_motion b p = applied (record (p.settings) { reduce_motion = b }) p

unfoldable pub set_text_scale : TextScale → Shown → Shown
set_text_scale t p = applied (record (p.settings) { text_scale = t }) p

-- `onRehydrateStorage`, with the settings that were stored.
unfoldable pub rehydrate : Settings → List Class → Shown
rehydrate s cs = applied s (record { settings = s; classes = cs })

pub record GameState : Type 0 where
  pub is_game_active : Bool
  pub current_game_id : Option Text
  pub current_score : ℤ

abbrev pub no_game : GameState
no_game = record { is_game_active = false; current_game_id = none; current_score = pos 0 }

unfoldable pub start_game : Text → GameState → GameState
start_game id g = record { is_game_active = true; current_game_id = some id; current_score = pos 0 }

unfoldable pub update_score : ℤ → GameState → GameState
update_score score g = record g { current_score = score }

unfoldable pub end_game : GameState → GameState
end_game g = no_game
