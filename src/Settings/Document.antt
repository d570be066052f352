-- ===== src/Settings/Document.antt =====
-- useSettingsStore.ts: the classes of the document are those of the settings.
use usbi.Prelude.{
  ◌≡◌, ◌≢◌, refl, leb, ◌∙◌, Bool, true, false, ◌||◌, ◌&&◌, not, List, [], ◌∷◌, ◌++◌, ◌==◌,
  if◌then◌else◌, arith,
}
use usbi.Prelude.Sets.{keep}
use usbi.Settings.{
  ColorBlindFilter, no_filter, deuteranopia, protanopia, tritanopia, Theme, TextScale, normal,
  large, larger, Settings, Class, class_dark, class_deuteranopia, class_protanopia,
  class_tritanopia, class_reduce_motion, class_scale_large, class_scale_larger, foreign, code, same,
  has, add, remove, toggle, is_dark, add_filter, add_scale, apply_document_classes, Shown, applied,
  set_color_blind_filter, set_theme, set_mute_game_sounds, set_reduce_motion, set_text_scale,
  rehydrate,
}

has-append : (cs : List Class) (c d : Class) → has (cs ++ c ∷ []) d ≡ (has cs d || same c d)
unfolding has
has-append [] c d = ground arith
has-append (b ∷ cs) c d = ground (arith, has-append cs c d)

has_congr : (cs : List Class) (c d : Class) → same c d ≡ true → has cs c ≡ has cs d
unfolding has
has_congr [] c d h = refl
has_congr (b ∷ cs) c d h = ground (arith, has_congr cs c d)

has-add : (cs : List Class) (c d : Class) → has (add c cs) d ≡ (same c d || has cs d)
unfolding add
has-add cs c d = ground (arith, has-append cs c d, has_congr cs c d)

has-remove : (cs : List Class) (c d : Class) → has (remove c cs) d ≡ (not (same c d) && has cs d)
unfolding remove has keep
has-remove [] c d = ground arith
has-remove (b ∷ cs) c d = ground (arith, has-remove cs c d)

abbrev is_filter : ColorBlindFilter → Class → Bool
is_filter no_filter d = false
is_filter deuteranopia d = same class_deuteranopia d
is_filter protanopia d = same class_protanopia d
is_filter tritanopia d = same class_tritanopia d

abbrev is_scale : TextScale → Class → Bool
is_scale normal d = false
is_scale large d = same class_scale_large d
is_scale larger d = same class_scale_larger d

has-toggle :
    (c : Class) (b : Bool) (cs : List Class) (d : Class)
    → has (toggle c b cs) d ≡ (if same c d then b else has cs d)
unfolding toggle
has-toggle c true cs d = ground (arith, has-add cs c d)
has-toggle c false cs d = ground (arith, has-remove cs c d)

has-add_filter :
    (f : ColorBlindFilter) (cs : List Class) (d : Class)
    → has (add_filter f cs) d ≡ (is_filter f d || has cs d)
has-add_filter no_filter cs d = refl
has-add_filter deuteranopia cs d = has-add cs class_deuteranopia d
has-add_filter protanopia cs d = has-add cs class_protanopia d
has-add_filter tritanopia cs d = has-add cs class_tritanopia d

has-add_scale :
    (t : TextScale) (cs : List Class) (d : Class)
    → has (add_scale t cs) d ≡ (is_scale t d || has cs d)
has-add_scale normal cs d = refl
has-add_scale large cs d = has-add cs class_scale_large d
has-add_scale larger cs d = has-add cs class_scale_larger d

-- What the document should show: one class for each setting that asks for one, and the classes of others
-- as they were.
abbrev pub wanted : List Class → Settings → Class → Bool
wanted cs s class_dark = is_dark s.theme
wanted cs s class_deuteranopia = is_filter s.color_blind_filter class_deuteranopia
wanted cs s class_protanopia = is_filter s.color_blind_filter class_protanopia
wanted cs s class_tritanopia = is_filter s.color_blind_filter class_tritanopia
wanted cs s class_reduce_motion = s.reduce_motion
wanted cs s class_scale_large = is_scale s.text_scale class_scale_large
wanted cs s class_scale_larger = is_scale s.text_scale class_scale_larger
wanted cs s (foreign n) = has cs (foreign n)

apply-parts :
    (s : Settings) (cs : List Class) (d : Class)
    → has (apply_document_classes s cs) d ≡ (
        is_scale s.text_scale d
        || (not (same class_scale_larger d)
            && (not (same class_scale_large d)
                && (if same class_reduce_motion d
                    then s.reduce_motion
                    else is_filter s.color_blind_filter d
                      || (not (same class_tritanopia d)
                          && (not (same class_protanopia d)
                              && (not (same class_deuteranopia d)
                                  && (if same class_dark d
                                      then is_dark s.theme
                                      else has cs d))))))))
unfolding apply_document_classes
apply-parts s cs d = simp (has-add_scale, has-remove, has-toggle, has-add_filter)

no_scale : (t : TextScale) (d : Class) → code d ≢ 5 → code d ≢ 6 → is_scale t d ≡ false
no_scale normal d h k = refl
no_scale large d h k = ground arith
no_scale larger d h k = ground arith

no_filter_class :
    (f : ColorBlindFilter) (d : Class)
    → (code d == 0 || leb 4 (code d)) ≡ true
    → is_filter f d ≡ false
no_filter_class no_filter d h = refl
no_filter_class deuteranopia d h = ground arith
no_filter_class protanopia d h = ground arith
no_filter_class tritanopia d h = ground arith

apply-wanted :
    (s : Settings) (cs : List Class) (d : Class)
    → has (apply_document_classes s cs) d ≡ wanted cs s d
apply-wanted s cs class_dark =
    apply-parts s cs class_dark
    ∙ ground
        (arith, no_scale s.text_scale class_dark, no_filter_class s.color_blind_filter class_dark)
apply-wanted s cs class_deuteranopia =
    apply-parts s cs class_deuteranopia ∙ ground (arith, no_scale s.text_scale class_deuteranopia)
apply-wanted s cs class_protanopia =
    apply-parts s cs class_protanopia ∙ ground (arith, no_scale s.text_scale class_protanopia)
apply-wanted s cs class_tritanopia =
    apply-parts s cs class_tritanopia ∙ ground (arith, no_scale s.text_scale class_tritanopia)
apply-wanted s cs class_reduce_motion =
    apply-parts s cs class_reduce_motion ∙ ground (arith, no_scale s.text_scale class_reduce_motion)
apply-wanted s cs class_scale_large = apply-parts s cs class_scale_large ∙ ground arith
apply-wanted s cs class_scale_larger = apply-parts s cs class_scale_larger ∙ ground arith
apply-wanted s cs (foreign n) =
    apply-parts s cs (foreign n)
    ∙ ground
        (arith, no_scale s.text_scale (foreign n), no_filter_class s.color_blind_filter (foreign n))

pub data Setter : Type 0 where
  filters : ColorBlindFilter → Setter
  themes : Theme → Setter
  mutes reduces : Bool → Setter
  scales : TextScale → Setter

unfoldable pub call : Setter → Shown → Shown
call (filters f) p = set_color_blind_filter f p
call (themes t) p = set_theme t p
call (mutes b) p = set_mute_game_sounds b p
call (reduces b) p = set_reduce_motion b p
call (scales t) p = set_text_scale t p

unfoldable pub run : List Setter → Shown → Shown
run [] p = p
run (c ∷ cs) p = run cs (call c p)

-- The document shows what the settings want, on top of the classes `base` that others have set.
abbrev pub Agrees : List Class → Shown → Type 0
Agrees base p = (d : Class) → has p.classes d ≡ wanted base p.settings d

-- What others have set stays what it was.
wanted_again :
    (base : List Class) (p : Shown) (s : Settings) (d : Class)
    → Agrees base p
    → wanted p.classes s d ≡ wanted base s d
wanted_again base p s class_dark a = refl
wanted_again base p s class_deuteranopia a = refl
wanted_again base p s class_protanopia a = refl
wanted_again base p s class_tritanopia a = refl
wanted_again base p s class_reduce_motion a = refl
wanted_again base p s class_scale_large a = refl
wanted_again base p s class_scale_larger a = refl
wanted_again base p s (foreign n) a = a (foreign n)

applied-Agrees :
    (base : List Class) (s : Settings) (p : Shown) → Agrees base p → Agrees base (applied s p)
unfolding applied
applied-Agrees base s p a d = apply-wanted s p.classes d ∙ wanted_again base p s d a

muted-Agrees :
    (base : List Class) (b : Bool) (p : Shown)
    → Agrees base p
    → Agrees base (set_mute_game_sounds b p)
unfolding set_mute_game_sounds
muted-Agrees base b p a class_dark = a class_dark
muted-Agrees base b p a class_deuteranopia = a class_deuteranopia
muted-Agrees base b p a class_protanopia = a class_protanopia
muted-Agrees base b p a class_tritanopia = a class_tritanopia
muted-Agrees base b p a class_reduce_motion = a class_reduce_motion
muted-Agrees base b p a class_scale_large = a class_scale_large
muted-Agrees base b p a class_scale_larger = a class_scale_larger
muted-Agrees base b p a (foreign n) = a (foreign n)

run-Agrees :
    (base : List Class) (cs : List Setter) (p : Shown) → Agrees base p → Agrees base (run cs p)
unfolding run call set_color_blind_filter set_theme set_reduce_motion set_text_scale
run-Agrees base [] p a = a
run-Agrees base (filters f ∷ cs) p a =
    run-Agrees base cs (set_color_blind_filter f p) (applied-Agrees base _ p a)
run-Agrees base (themes t ∷ cs) p a = run-Agrees base cs (set_theme t p) (applied-Agrees base _ p a)
run-Agrees base (mutes b ∷ cs) p a =
    run-Agrees base cs (set_mute_game_sounds b p) (muted-Agrees base b p a)
run-Agrees base (reduces b ∷ cs) p a =
    run-Agrees base cs (set_reduce_motion b p) (applied-Agrees base _ p a)
run-Agrees base (scales t ∷ cs) p a =
    run-Agrees base cs (set_text_scale t p) (applied-Agrees base _ p a)

-- From a reload on, whatever the stored settings and the classes on the document, and after any calls of
-- the setters: the document has the dark class, the one class of the filter, the class of reduced motion
-- and the one class of the text scale just when the settings ask for them, and the classes that others
-- have set are as they were.
pub settings_are_shown :
    (s : Settings) (base : List Class) (cs : List Setter) (d : Class)
    → has (run cs (rehydrate s base)).classes d ≡ wanted base (run cs (rehydrate s base)).settings d
unfolding rehydrate applied
settings_are_shown s base cs = run-Agrees base cs (rehydrate s base) (apply-wanted s base)
