-- ===== src/Puzzle.antt =====
-- frontend/packages/engine/src/games/PuzzleEngine.ts: a phrase is cut into pieces that the player
-- puts back in order. A text is its list of UTF-16 code units, an id `piece-i` is the number i.
-- Piece counts and seeds are natural numbers; indices of `reorder_pieces` are integers.
mod Examples
pub mod Pieces
pub mod Moves
pub mod Play
use usbi.Prelude.{
  ℕ, zero, suc, ◌+◌, ◌-◌, ◌*◌, ◌/◌, ◌%◌, Bool, true, false, ◌&&◌, ◌||◌, not, none, some, List, [],
  ◌∷◌, ltb, ◌==◌, if◌then◌else◌, length, get_elem?, take, drop,
}
use usbi.Prelude.Int.{ℤ, pos, pos_part, ltb_ℤ}
use usbi.Prelude.Swap.{swap}
use usbi.Prelude.Channel
use usbi.Prelude.Channel.{Channel}
use usbi.Rng.{random, pick}

pub record Piece : Type 0 where
  pub id : ℕ
  pub text : List ℕ
  pub original_index : ℕ

pub record PuzzleState : Type 0 where
  pub phrase : List ℕ
  pub pieces_count : ℕ
  pub pieces : List Piece
  pub is_finished : Bool
  pub score : ℕ
  pub moves : ℕ

pub record Puzzle : Type 0 where
  pub state : PuzzleState
  pub open state use *
  pub channel : Channel PuzzleState
  pub seed : ℕ

-- The two errors that the constructor throws.
pub data Error : Type 0 where
  bad_pieces empty_phrase : Error

pub data Result (A : Type 0) : Type 0 where
  ok : A → Result A
  err : Error → Result A

-- `phrase.substring(start, start + length)`
abbrev pub substring : List ℕ → ℕ → ℕ → List ℕ
substring phrase start len = take len (drop start phrase)

-- The `for` loop that cuts the phrase, with `n` rounds left. The source lets `remainder` run below
-- zero, where it is only tested for being positive.
unfoldable pub cut : ℕ → ℕ → ℕ → ℕ → ℕ → List ℕ → List Piece
cut zero i base remainder start phrase = []
cut (suc n) i base remainder start phrase =
    let len = base + (if ltb 0 remainder then 1 else 0) in
    record { id = i; text = substring phrase start len; original_index = i }
    ∷ cut n (i + 1) base (remainder - 1) (start + len) phrase

unfoldable pub cut_phrase : List ℕ → ℕ → List Piece
unfolding cut
cut_phrase phrase count = cut count 0 (length phrase / count) (length phrase % count) 0 phrase

-- `pieces.every((p, i) => p.originalIndex === i)`, counting from `i`.
unfoldable pub in_order : ℕ → List Piece → Bool
in_order i [] = true
in_order i (p ∷ ps) = p.original_index == i && in_order (i + 1) ps

-- The inner loop: `i` runs down to 1.
unfoldable pub shuffle_pass : ℕ → ℕ → List Piece → List Piece × ℕ
shuffle_pass zero seed pieces = (pieces, seed)
shuffle_pass (suc i) seed pieces =
    let seed' = random seed in shuffle_pass i seed' (swap pieces (suc i) (pick seed' (suc i + 1)))

-- The outer loop, `attempts` being `maxAttempts`: it runs again while the pieces are in order.
unfoldable pub shuffle : ℕ → ℕ → List Piece → List Piece × ℕ
shuffle zero seed pieces = (pieces, seed)
shuffle (suc attempts) seed pieces =
    let pass = shuffle_pass (length pieces - 1) seed pieces in
    let again = shuffle attempts pass.1 pass.0 in if in_order 0 pass.0 then again else pass

unfoldable pub generate_pieces : Puzzle → Puzzle
generate_pieces g =
    let (shuffled, seed') = shuffle 100 g.seed (cut_phrase g.phrase g.pieces_count) in
    record g { state = record (g.state) { pieces = shuffled }; seed = seed' }

abbrev fresh : List ℕ → ℕ → ℕ → Puzzle
fresh phrase count seed = record {
  state = record {
    phrase = phrase;
    pieces_count = count;
    pieces = [];
    is_finished = false;
    score = 0;
    moves = 0;
  };
  channel = Channel.silent;
  seed = seed;
}

-- The constructor.
unfoldable pub construct : List ℕ → ℕ → ℕ → Result Puzzle
construct phrase count seed =
    if ltb count 3 || ltb 20 count
    then err bad_pieces
    else if length phrase == 0
    then err empty_phrase
    else ok (generate_pieces (fresh phrase count seed))

-- `newPieces.splice(from, 1)`: the list without its entry `i`.
abbrev pub remove_at : ℕ → List Piece → List Piece
remove_at i [] = []
remove_at zero (x ∷ xs) = xs
remove_at (suc i) (x ∷ xs) = x ∷ remove_at i xs

-- `newPieces.splice(to, 0, moved)`: past the end the entry is appended.
abbrev pub insert_at : ℕ → Piece → List Piece → List Piece
insert_at i x [] = x ∷ []
insert_at zero x (y ∷ ys) = x ∷ y ∷ ys
insert_at (suc i) x (y ∷ ys) = y ∷ insert_at i x ys

-- The two calls of `splice`.
unfoldable pub move_piece : ℕ → ℕ → List Piece → List Piece
move_piece from to pieces = elim (get_elem? pieces from) [
  | none ↦ pieces
  | some moved ↦ insert_at to moved (remove_at from pieces)
]

unfoldable pub check_completion : PuzzleState → PuzzleState
check_completion s =
    let done = in_order 0 s.pieces in
    let points = 1000 - s.moves * 10 in
    record s {
      is_finished = done;
      score = if done then (if ltb points 100 then 100 else points) else s.score;
    }

-- `index < 0 || index >= length`
abbrev pub out_of_range : ℤ → ℕ → Bool
out_of_range i n = ltb_ℤ i (pos 0) || not (ltb_ℤ i (pos n))

unfoldable pub reorder_pieces : ℤ → ℤ → Puzzle → Puzzle
unfolding move_piece check_completion
reorder_pieces from to g =
    let n = length g.pieces in
    let moved = move_piece (pos_part from) (pos_part to) g.pieces in
    let state' = check_completion (record (g.state) { pieces = moved; moves = g.moves + 1 }) in
    if g.is_finished
    then g
    else if out_of_range from n || out_of_range to n
    then g
    else record g { state = state'; channel = Channel.notify state' g.channel }

unfoldable pub reset : Puzzle → Puzzle
reset g =
    let g' =
      generate_pieces
        (record g { state = record (g.state) { moves = 0; score = 0; is_finished = false } }) in
    record g' { channel = Channel.notify g'.state g'.channel }

unfoldable pub subscribe : ℕ → Puzzle → Puzzle
subscribe l g = record g { channel = Channel.subscribe l g.state g.channel }

unfoldable pub unsubscribe : ℕ → Puzzle → Puzzle
unsubscribe l g = record g { channel = Channel.unsubscribe l g.channel }

unfoldable pub destroy : Puzzle → Puzzle
destroy g = record g { channel = Channel.clear g.channel }
