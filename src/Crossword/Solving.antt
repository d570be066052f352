-- ===== src/Crossword/Solving.antt =====
-- CrosswordEngine.ts, the engine: what holds throughout a game.
use usbi.Prelude.{
  ℕ, suc, ◌*◌, ◌≡◌, refl, sym, ap, ◌∙◌, Bool, true, false, not, Option, none, some, List, [], ◌∷◌,
  map, ◌==◌, ==_iff, length, arith, Bool-cases, if_cases, inl, inr, ◌⊎◌,
}
use mathlib.Core.Path.{subst}
use usbi.Prelude.Int.{ℤ}
use usbi.Prelude.Text.{Text}
use usbi.Prelude.Sets.{keep, length-keep-le}
use usbi.Crossword.Layout.{
  Position, CrosswordCell, CrosswordWord, Unicode, has, normalize_crossword_answer,
}
use usbi.Crossword.{
  Crossword, construct, notify, subscribe, unsubscribe, destroy, is_correct, correct_cells,
  validate, is_locked, moved, write, input_at, input_char, beside, select_cell, navigate,
  navigate_from, reset, position_of, is_selected, blank,
}

-- A call of the page, for the listeners too.
pub data Call : Type 0 where
  inputs : Text → Call
  selects : Position → Call
  navigates : ℤ → ℤ → Call
  validates resets destroys : Call
  subscribes unsubscribes : ℕ → Call

unfoldable pub call : Unicode → Call → Crossword → Crossword
call u (inputs t) e = input_char u t e
call u (selects p) e = select_cell p e
call u (navigates dx dy) e = navigate dx dy e
call u validates e = validate u e
call u resets e = reset e
call u destroys e = destroy e
call u (subscribes l) e = subscribe l e
call u (unsubscribes l) e = unsubscribe l e

unfoldable pub run : Unicode → List Call → Crossword → Crossword
run u [] e = e
run u (c ∷ cs) e = run u cs (call u c e)

-- The selected cell is a cell of the grid.
abbrev pub OnGrid : Option Position → List CrosswordCell → Type 0
OnGrid none g = Unit {0}
OnGrid (some p) g = has p g ≡ true

-- The score and the locked cells are those of the letters that are right, or no letter has been
-- written yet; a finished crossword has all its letters right.
pub record IsValid (u : Unicode) (e : Crossword) : Type 0 where
  pub locked :
      (e.locked_cells ≡ map position_of (correct_cells u e.user_grid e.grid))
      ⊎ ((e.locked_cells ≡ []) × (e.user_grid ≡ []))
  pub points : e.score ≡ 10 * length e.locked_cells
  pub solved : e.is_finished ≡ true → correct_cells u e.user_grid e.grid ≡ e.grid
  pub selected : OnGrid e.selected_cell e.grid

keep-all :
    (p : CrosswordCell → Bool) (cs : List CrosswordCell)
    → length (keep p cs) ≡ length cs
    → keep p cs ≡ cs
unfolding keep
keep-all p [] h = refl
keep-all p (c ∷ cs) h = elim (Bool-cases (p c)) [
  | inl e ↦
      let rest : length (keep p cs) ≡ length cs = ground (arith, e) in
      rw e (ap (◌∷◌ c) (keep-all p cs rest))
  | inr e ↦ absurd (ground (arith, e, length-keep-le p cs))
]

length-map_position : (cs : List CrosswordCell) → length (map position_of cs) ≡ length cs
length-map_position [] = refl
length-map_position (c ∷ cs) = ap suc (length-map_position cs)

-- `validate` sets the score and the locked cells right; it needs no more than a game in which a
-- finished crossword is solved.
validate-IsValid :
    (u : Unicode) (e : Crossword)
    → (e.is_finished ≡ true → correct_cells u e.user_grid e.grid ≡ e.grid)
    → OnGrid e.selected_cell e.grid
    → IsValid u (validate u e)
unfolding validate correct_cells
validate-IsValid u e solved on =
    let correct = correct_cells u e.user_grid e.grid in
    record {
      locked = inl refl;
      points = omega (arith, length-map_position correct);
      solved = λ h. elim (Bool-cases (length correct == length e.grid)) [
        | inl full ↦
            keep-all (is_correct u e.user_grid) e.grid
              ((==_iff (length correct) (length e.grid)).0 full)
        | inr short ↦ solved (ground (arith, short, h))
      ];
      selected = on;
    }

notify-IsValid : (u : Unicode) (e : Crossword) → IsValid u e → IsValid u (notify e)
unfolding notify
notify-IsValid u e v = record {
  locked = v.locked;
  points = v.points;
  solved = v.solved;
  selected = v.selected;
}

write-selected :
    (t : Text) (p : Position) (e : Crossword)
    → e.selected_cell ≡ some p
    → has p e.grid ≡ true
    → OnGrid (write t p e).selected_cell e.grid
write-selected [] p e s h = subst (λ q. OnGrid q e.grid) (sym s) h
write-selected (c ∷ cs) p e s h =
    let next = moved e.orientation p in
    if_cases (λ q. OnGrid q e.grid) (has next e.grid) (λ k. k) (λ _. h)

write-going : (t : Text) (p : Position) (e : Crossword) → (write t p e).is_finished ≡ e.is_finished
write-going [] p e = refl
write-going (c ∷ cs) p e = refl

input_at-IsValid :
    (u : Unicode) (t : Text) (o : Option Position) (e : Crossword)
    → e.is_finished ≡ false
    → e.selected_cell ≡ o
    → IsValid u e
    → IsValid u (input_at u t o e)
input_at-IsValid u t none e going s v = v
input_at-IsValid u t (some p) e going s v =
    let word = normalize_crossword_answer u t in
    let e₁ : Crossword = record e { state = write word p e } in
    if_cases (IsValid u) (not (has p e.grid)) (λ _. v)
      (λ there.
        if_cases (IsValid u) (is_locked e.locked_cells p) (λ _. v)
          (λ _.
            let on = write-selected word p e s (ground arith) in
            let still : e₁.is_finished ≡ false = write-going word p e ∙ going in
            notify-IsValid u (validate u e₁) (
              validate-IsValid u e₁ (λ h. absurd (let gone : false ≡ true = (rw still at h) in cc))
                on)))

input_char-IsValid :
    (u : Unicode) (t : Text) (e : Crossword) → IsValid u e → IsValid u (input_char u t e)
unfolding input_char
input_char-IsValid u t e v =
    if_cases (IsValid u) e.is_finished (λ _. v)
      (λ going. input_at-IsValid u t e.selected_cell e going refl v)

select_cell-IsValid :
    (u : Unicode) (p : Position) (e : Crossword) → IsValid u e → IsValid u (select_cell p e)
unfolding select_cell
select_cell-IsValid u p e v =
    if_cases (IsValid u) (not (has p e.grid)) (λ _. v)
      (λ there.
        if_cases (IsValid u) (is_selected p e.selected_cell)
          (λ _. notify-IsValid u _ (record {
            locked = v.locked;
            points = v.points;
            solved = v.solved;
            selected = v.selected;
          }))
          (λ _. notify-IsValid u _ (record {
            locked = v.locked;
            points = v.points;
            solved = v.solved;
            selected = ground arith;
          })))

navigate_from-IsValid :
    (u : Unicode) (o : Option Position) (dx dy : ℤ) (e : Crossword)
    → IsValid u e
    → IsValid u (navigate_from o dx dy e)
navigate_from-IsValid u none dx dy e v = v
navigate_from-IsValid u (some p) dx dy e v =
    if_cases (IsValid u) (has (beside p dx dy) e.grid)
      (λ there.
        notify-IsValid u _
          (record { locked = v.locked; points = v.points; solved = v.solved; selected = there }))
      (λ _. v)

-- A crossword without letters, as the constructor and `reset` leave it.
blank-IsValid : (u : Unicode) (e : Crossword) → e.state ≡ blank → IsValid u e
blank-IsValid u e b =
    let locked : e.locked_cells ≡ [] = ap (λ s. s.locked_cells) b in
    let points : e.score ≡ 0 = ap (λ s. s.score) b in
    let going : e.is_finished ≡ false = ap (λ s. s.is_finished) b in
    record {
      locked = inr (locked, ap (λ s. s.user_grid) b);
      points = rw locked (omega (arith, points));
      solved = λ h. absurd (let gone : false ≡ true = (rw going at h) in cc);
      selected = subst (λ q. OnGrid q e.grid) (sym (ap (λ s. s.selected_cell) b)) tt;
    }

call-IsValid : (u : Unicode) (c : Call) (e : Crossword) → IsValid u e → IsValid u (call u c e)
unfolding call navigate reset subscribe unsubscribe destroy
call-IsValid u (inputs t) e v = input_char-IsValid u t e v
call-IsValid u (selects p) e v = select_cell-IsValid u p e v
call-IsValid u (navigates dx dy) e v = navigate_from-IsValid u e.selected_cell dx dy e v
call-IsValid u validates e v = validate-IsValid u e v.solved v.selected
call-IsValid u resets e v = notify-IsValid u _ (blank-IsValid u _ refl)
call-IsValid u destroys e v = record {
  locked = v.locked;
  points = v.points;
  solved = v.solved;
  selected = v.selected;
}
call-IsValid u (subscribes l) e v = record {
  locked = v.locked;
  points = v.points;
  solved = v.solved;
  selected = v.selected;
}
call-IsValid u (unsubscribes l) e v = record {
  locked = v.locked;
  points = v.points;
  solved = v.solved;
  selected = v.selected;
}

run-IsValid : (u : Unicode) (cs : List Call) (e : Crossword) → IsValid u e → IsValid u (run u cs e)
unfolding run
run-IsValid u [] e v = v
run-IsValid u (c ∷ cs) e v = run-IsValid u cs (call u c e) (call-IsValid u c e v)

-- Through any sequence of calls from the constructor on the game stays valid: the score is 10 for
-- each locked cell, the locked cells are those whose letters are right (or none, with no letter
-- written), the selected cell is a cell of the grid, and a finished crossword has every letter right.
pub run_keeps_IsValid :
    (u : Unicode) (words : List CrosswordWord) (cs : List Call)
    → IsValid u (run u cs (construct u words))
unfolding construct
run_keeps_IsValid u words cs =
    run-IsValid u cs (construct u words) (blank-IsValid u (construct u words) refl)
