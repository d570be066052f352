-- ===== src/WordSearch/Examples.antt =====
-- WordSearchEngine.ts: a board of three columns and two rows, played.
use usbi.Prelude.{ℕ, ◌≡◌, refl, false, some, List, [], ◌∷◌, arith}
use usbi.Prelude.Channel
use usbi.Prelude.Text.{Text}
use usbi.Prelude.Text.{eq_text}
use usbi.Prelude.Sets.{keep}
use usbi.Prelude.Sort.{sort_by, insert_by}
use usbi.Rng.{random, pick}
use usbi.WordSearch.{
  generate_grid, includes, place_words, try_word, place_word, can_place_word, fill_grid, fill_row,
  set_cell, is_mark, is_letter, upper, WordSearch, cell, construct, add_found, check_word, reset,
  unique, normalize_word, spell,
}
use usbi.WordSearch.Play.{Hides, line, play, Won, construct-Hides_words, construct_winnable}
use usbi.Prelude.Int.{pos, ◌-ℤ◌}
use usbi.WordSearch.Scene.{
  Scene, arrow_down, enter, get_grid_coord, handle_pointer_down, handle_pointer_move,
  handle_pointer_up,
}
use usbi.WordSearch.Scene.Dragging.{drag-add_found}
use usbi.WordSearch.Scene.Selection.{Goes}
use usbi.WordSearch.Scene.Throws.{create, key_down, pointer_up, run, scene_never_throws}
use usbi.WordSearch.TooLong.{TooLong-never_ends}
use usbi.WordSearch.Points.{IsValid, played_twice-IsValid}

abbrev plain : Text → Text
plain t = t

abbrev go : Text
go = b'g' ∷ b'o' ∷ []

abbrev upper_go : Text
upper_go = b'G' ∷ b'O' ∷ []

-- The board that the constructor makes for "go" with the seed 7.
abbrev board : WordSearch
board = record {
  state = record {
    grid = (some b'G' ∷ some b'L' ∷ some b'G' ∷ []) ∷ (some b'N' ∷ some b'C' ∷ some b'O' ∷ []) ∷ [];
    words = upper_go ∷ [];
    found_words = [];
    is_finished = false;
    score = 0;
    width = 3;
    height = 2;
  };
  channel = Channel.silent;
  seed = 18326;
}

made : construct plain (go ∷ []) 3 2 7 ≡ some board
unfolding construct generate_grid normalize_word unique includes place_words try_word place_word
    can_place_word fill_grid fill_row cell set_cell random pick eq_text keep sort_by insert_by
    is_mark is_letter upper
made = refl

construct-Hides_words_example : Hides 3 2 board
construct-Hides_words_example = construct-Hides_words plain (go ∷ []) 3 2 7 board made

construct_winnable_example : (moves : List (List (ℕ × ℕ))) × Won board moves
construct_winnable_example = construct_winnable plain (go ∷ []) 3 2 7 board made (omega arith)

abbrev scene : Scene
scene = create board (pos 0) (pos 0)

drag-add_found_example :
    (s₁ : Scene) × (s₂ : Scene) × (handle_pointer_move
        (pos 110)
        (pos 50)
        (handle_pointer_down (pos 100) (pos 20) scene)
      ≡ some s₁)
    × (handle_pointer_up s₁ ≡ some s₂)
    × (s₂.engine ≡ add_found upper_go board)
    × (s₂.is_selecting ≡ false)
unfolding includes eq_text cell get_grid_coord create ◌-ℤ◌
drag-add_found_example =
    drag-add_found scene b'G' (b'O' ∷ []) 2 0 0 1 (pos 100) (pos 20) (pos 110) (pos 50)
      (omega arith) (omega arith) (omega arith) refl refl refl refl (refl, (refl, tt))

scene_never_throws_example :
    Goes 3 2
      (run (key_down enter ∷ key_down arrow_down ∷ pointer_up ∷ []) (create board (pos 0) (pos 0)))
scene_never_throws_example =
    scene_never_throws plain (go ∷ []) 3 2 7 board (pos 0) (pos 0)
      (key_down enter ∷ key_down arrow_down ∷ pointer_up ∷ []) made (omega arith) (omega arith)

played : play (line upper_go 2 0 0 1 ∷ []) board ≡ some (add_found upper_go board)
unfolding play check_word spell includes eq_text
played = refl

played_again : play [] (reset (add_found upper_go board)) ≡ some (reset (add_found upper_go board))
unfolding play
played_again = refl

played_twice-IsValid_example :
    IsValid (add_found upper_go board) × IsValid (reset (add_found upper_go board))
played_twice-IsValid_example =
    played_twice-IsValid plain (go ∷ []) 3 2 7 board made (line upper_go 2 0 0 1 ∷ []) []
      (add_found upper_go board) (reset (add_found upper_go board)) played played_again

-- The board of one cell that the constructor makes for the same word.
abbrev tiny : WordSearch
tiny = record {
  state = record {
    grid = (some b'K' ∷ []) ∷ [];
    words = [];
    found_words = [];
    is_finished = false;
    score = 0;
    width = 1;
    height = 1;
  };
  channel = Channel.silent;
  seed = 90544;
}

tiny_made : construct plain (go ∷ []) 1 1 7 ≡ some tiny
unfolding construct generate_grid normalize_word unique includes place_words try_word place_word
    can_place_word fill_grid fill_row cell set_cell random pick eq_text keep sort_by insert_by
    is_mark is_letter upper
tiny_made = refl

tiny_played : play (((0, 0) ∷ []) ∷ []) tiny ≡ some tiny
unfolding play check_word spell includes
tiny_played = refl

TooLong-never_ends_example : (tiny.words ≡ []) × (tiny.is_finished ≡ false) × (tiny.score ≡ 0)
unfolding normalize_word unique includes eq_text keep is_mark is_letter upper
TooLong-never_ends_example =
    TooLong-never_ends plain (go ∷ []) 1 1 7 tiny tiny_made (omega arith, omega arith, tt)
      (((0, 0) ∷ []) ∷ []) tiny tiny_played
