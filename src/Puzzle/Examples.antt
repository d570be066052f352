-- ===== src/Puzzle/Examples.antt =====
-- PuzzleEngine.ts: the phrase "HOLA" in four pieces, dealt with the seed 7 and put in order.
use usbi.Prelude.{
  ℕ, ◌+◌, ◌-◌, ◌*◌, ◌≤◌, ◌≡◌, max, refl, true, false, List, [], ◌∷◌, if◌then◌else◌, get_elem?,
  arith,
}
use usbi.Prelude.Int.{pos}
use usbi.Prelude.Channel
use usbi.Prelude.Swap.{swap}
use usbi.Rng.{random, pick}
use usbi.Puzzle.{
  Puzzle, Piece, ok, construct, generate_pieces, shuffle, shuffle_pass, cut_phrase, cut, in_order,
  remove_at, move_piece, reorder_pieces, check_completion,
}
use usbi.Puzzle.Pieces.{spelled}
use usbi.Puzzle.Play.{Action, reorders, act, run, finished-spells-phrase, reorder_correct}

abbrev hola : List ℕ
hola = b'H' ∷ b'O' ∷ b'L' ∷ b'A' ∷ []

abbrev piece : ℕ → ℕ → Piece
piece i c = record { id = i; text = c ∷ []; original_index = i }

abbrev dealt : Puzzle
dealt = record {
  state = record {
    phrase = hola;
    pieces_count = 4;
    pieces = piece 2 b'L' ∷ piece 0 b'H' ∷ piece 3 b'A' ∷ piece 1 b'O' ∷ [];
    is_finished = false;
    score = 0;
    moves = 0;
  };
  channel = Channel.silent;
  seed = 26938;
}

made : construct hola 4 7 ≡ ok dealt
unfolding construct generate_pieces shuffle shuffle_pass cut_phrase cut in_order swap random pick
made = refl

abbrev moves : List Action
moves = reorders (pos 1) (pos 0) ∷ reorders (pos 3) (pos 1) ∷ []

finished : (run moves dealt).is_finished ≡ true
unfolding run act reorder_pieces move_piece check_completion in_order
finished = refl

finished-spells-phrase_example :
    (spelled (run moves dealt).pieces ≡ hola)
    × (100 ≤ (run moves dealt).score)
    × ((run moves dealt).score ≤ 1000)
finished-spells-phrase_example = finished-spells-phrase hola 4 7 dealt moves made finished

reorder_correct_example :
    let h = reorder_pieces (pos 1) (pos 0) dealt in
    (get_elem? h.pieces 0 ≡ get_elem? dealt.pieces 1)
    × (remove_at 0 h.pieces ≡ remove_at 1 dealt.pieces)
    × (h.moves ≡ dealt.moves + 1)
    × (h.is_finished ≡ in_order 0 h.pieces)
    × (h.score ≡ (if in_order 0 h.pieces then max 100 (1000 - h.moves * 10) else dealt.score))
    × (h.channel ≡ Channel.notify h.state dealt.channel)
reorder_correct_example = reorder_correct 1 0 dealt refl (omega arith) (omega arith)
