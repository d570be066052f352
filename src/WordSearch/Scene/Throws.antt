-- ===== src/WordSearch/Scene/Throws.antt =====
-- WordSearchScene.ts: no handler throws, whatever the pointer and the keyboard do.
use usbi.Prelude.{
  ◌≡◌, ◌<◌, refl, ap, ◌∙◌, ℕ, ◌+◌, ◌-◌, false, Option, none, some, List, [], ◌∷◌, arith, inl,
  if_cases,
}
use usbi.Prelude.Int.{ℤ}
use usbi.Prelude.Text.{Text}
use usbi.WordSearch.{WordSearch, construct, generate_grid}
use usbi.WordSearch.Play.{construct-Hides_words, construct-fresh}
use usbi.WordSearch.Scene.{
  Scene, Key, arrow_right, arrow_left, arrow_down, arrow_up, enter, space, escape, other,
  get_grid_coord, handle_pointer_down, handle_pointer_move, handle_pointer_up, clamp, move_cursor,
  press, handle_key_down,
}
use usbi.WordSearch.Scene.Selection.{
  IsValid, In, Goes, get_grid_coord-InIf, submit_selection-Goes, begin-IsValid, extend_to-Goes,
  extend_selection_to-Goes,
}

pub data Event : Type 0 where
  pointer_down pointer_move : ℤ → ℤ → Event
  pointer_up : Event
  key_down : Key → Event

unfoldable pub handle : Event → Scene → Option Scene
handle (pointer_down x y) s = some (handle_pointer_down x y s)
handle (pointer_move x y) s = handle_pointer_move x y s
handle pointer_up s = handle_pointer_up s
handle (key_down k) s = handle_key_down k s

abbrev pub then_run : (Scene → Option Scene) → Option Scene → Option Scene
then_run next none = none
then_run next (some s) = next s

unfoldable pub run : List Event → Scene → Option Scene
run [] s = some s
run (e ∷ es) s = then_run (run es) (handle e s)

-- The scene of a new game.
unfoldable pub create : WordSearch → ℤ → ℤ → Scene
create e ox oy = record {
  engine = e;
  offset_x = ox;
  offset_y = oy;
  selected_coords = [];
  is_selecting = false;
  cursor = (0, 0);
}

module _ (w h : ℕ) (hw : 0 < w) (hh : 0 < h) where
  clamp-lt : (a size m : ℕ) → size ≡ m → 0 < m → clamp a size < m
  clamp-lt a size m e k = ground arith

  move_cursor-Goes : (x y : ℕ) (s : Scene) → IsValid w h s → Goes w h (move_cursor x y s)
  move_cursor-Goes x y s v =
      let c : ℕ × ℕ = (clamp x s.engine.width, clamp y s.engine.height) in
      let hc : In w h c =
        (clamp-lt x s.engine.width w v.width hw, clamp-lt y s.engine.height h v.height hh) in
      let s' : Scene = record s { cursor = c } in
      let v' : IsValid w h s' = record {
        sized = v.sized;
        width = v.width;
        height = v.height;
        cursor = hc;
        selected = v.selected;
        begun = v.begun;
      } in
      if_cases (Goes w h) s.is_selecting (λ on. extend_selection_to-Goes w h c s' v' hc on)
        (λ _. (s', refl, v'))

  -- A scene without a selection.
  cancelled-IsValid :
      (s : Scene)
      → IsValid w h s
      → IsValid w h (record s { is_selecting = false; selected_coords = [] })
  cancelled-IsValid s v = record {
    sized = v.sized;
    width = v.width;
    height = v.height;
    cursor = v.cursor;
    selected = tt;
    begun = inl refl;
  }

  press-Goes : (s : Scene) → IsValid w h s → Goes w h (press s)
  unfolding press
  press-Goes s v =
      if_cases (Goes w h) s.is_selecting (λ _. submit_selection-Goes w h s v)
        (λ _. (_, refl, begin-IsValid w h (some s.cursor) s v.cursor v))

  handle_key_down-Goes : (k : Key) (s : Scene) → IsValid w h s → Goes w h (handle_key_down k s)
  unfolding handle_key_down
  handle_key_down-Goes arrow_right s v = move_cursor-Goes (s.cursor.0 + 1) s.cursor.1 s v
  handle_key_down-Goes arrow_left s v = move_cursor-Goes (s.cursor.0 - 1) s.cursor.1 s v
  handle_key_down-Goes arrow_down s v = move_cursor-Goes s.cursor.0 (s.cursor.1 + 1) s v
  handle_key_down-Goes arrow_up s v = move_cursor-Goes s.cursor.0 (s.cursor.1 - 1) s v
  handle_key_down-Goes enter s v = press-Goes s v
  handle_key_down-Goes space s v = press-Goes s v
  handle_key_down-Goes escape s v =
      if_cases (Goes w h) s.is_selecting (λ _. (_, refl, cancelled-IsValid s v)) (λ _. (s, refl, v))
  handle_key_down-Goes other s v = (s, refl, v)

  handle-Goes : (e : Event) (s : Scene) → IsValid w h s → Goes w h (handle e s)
  unfolding handle handle_pointer_down handle_pointer_move handle_pointer_up
  handle-Goes (pointer_down x y) s v =
      (_, refl, begin-IsValid w h (get_grid_coord s x y) s (get_grid_coord-InIf w h s x y v) v)
  handle-Goes (pointer_move x y) s v =
      if_cases (Goes w h) s.is_selecting
        (λ on. extend_to-Goes w h (get_grid_coord s x y) s (get_grid_coord-InIf w h s x y v) v on)
        (λ _. (s, refl, v))
  handle-Goes pointer_up s v =
      if_cases (Goes w h) s.is_selecting (λ _. submit_selection-Goes w h s v) (λ _. (s, refl, v))
  handle-Goes (key_down k) s v = handle_key_down-Goes k s v

  run-Goes : (es : List Event) (s : Scene) → IsValid w h s → Goes w h (run es s)
  unfolding run
  run-Goes [] s v = (s, refl, v)
  run-Goes (e ∷ es) s v =
      let (s₁, handled, v₁) = handle-Goes e s v in
      let (s₂, ended, v₂) = run-Goes es s₁ v₁ in (s₂, ap (then_run (run es)) handled ∙ ended, v₂)

-- On the board of a new game of at least one cell, whatever the pointer and the keyboard do, no handler
-- throws; the cursor and the selected letters stay on the board, and a selection that has begun holds a
-- letter.
pub scene_never_throws :
    (nfd : Text → Text) (words : List Text) (w h seed : ℕ) (e : WordSearch) (ox oy : ℤ)
    (events : List Event)
    → construct nfd words w h seed ≡ some e
    → 0 < w
    → 0 < h
    → Goes w h (run events (create e ox oy))
unfolding create generate_grid
scene_never_throws nfd words w h seed e ox oy events made hw hh =
    let hides = construct-Hides_words nfd words w h seed e made in
    let fresh_game = construct-fresh nfd words w h seed e made in
    run-Goes w h hw hh events (create e ox oy) (record {
      sized = hides.1;
      width = ap (λ (x : WordSearch). x.width) fresh_game;
      height = ap (λ (x : WordSearch). x.height) fresh_game;
      cursor = (hw, hh);
      selected = tt;
      begun = inl refl;
    })
