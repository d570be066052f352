-- ===== src/Puzzle/Play.antt =====
-- PuzzleEngine.ts: the invariant of a running puzzle, and what its operations do.
use mathlib.Core.List.Perm
use usbi.Prelude.{
  if◌then◌else◌, ℕ, ◌+◌, ◌-◌, ◌*◌, ◌≤◌, ◌<◌, max, ◌≡◌, refl, ap, ◌∙◌, true, false, ◌||◌, ◌⊎◌, List,
  [], ◌∷◌, Perm, arith, length, get_elem?, if_cases,
}
use usbi.Prelude.Int.{ℤ, pos, pos_part}
use usbi.Prelude.Channel
use usbi.Puzzle.{
  PuzzleState, Puzzle, ok, cut_phrase, in_order, generate_pieces, construct, fresh, remove_at,
  move_piece, check_completion, out_of_range, reorder_pieces, reset, subscribe, unsubscribe,
  destroy,
}
use usbi.Puzzle.Pieces.{spelled, spelled-cut_phrase, in_order-cut_phrase, in_order_unique}
use usbi.Puzzle.Moves.{shuffle-perm, move_piece-perm, move_piece_places}

-- The pieces are those cut from the phrase, and a finished puzzle is in order with a paid score.
pub record IsValid (g : Puzzle) : Type 0 where
  pub counted : 0 < g.pieces_count
  pub same : Perm g.pieces (cut_phrase g.phrase g.pieces_count)
  pub honest : g.is_finished ≡ true → in_order 0 g.pieces ≡ true
  pub paid : g.is_finished ≡ true → (100 ≤ g.score) × (g.score ≤ 1000)

generate_pieces-IsValid :
    (g : Puzzle) → 0 < g.pieces_count → g.is_finished ≡ false → IsValid (generate_pieces g)
unfolding generate_pieces
generate_pieces-IsValid g h e = record {
  counted = h;
  same = shuffle-perm 100 g.seed (cut_phrase g.phrase g.pieces_count);
  honest = λ t. cc;
  paid = λ t. cc;
}

-- A constructed puzzle is valid.
pub construct-IsValid :
    (phrase : List ℕ) (count seed : ℕ) (g : Puzzle) → construct phrase count seed ≡ ok g → IsValid g
unfolding construct
construct-IsValid phrase count seed g h =
    let start = fresh phrase count seed in
    let counted : 0 < count = ground arith in
    let same : generate_pieces start ≡ g = ground arith in
    rw same at (generate_pieces-IsValid start counted refl)

-- What `reorder_pieces` does when it does not return early.
abbrev moved_state : ℤ → ℤ → Puzzle → PuzzleState
moved_state from to g = check_completion (record (g.state) {
  pieces = move_piece (pos_part from) (pos_part to) g.pieces;
  moves = g.moves + 1;
})

abbrev accepted : ℤ → ℤ → Puzzle → Puzzle
accepted from to g = record g {
  state = moved_state from to g;
  channel = Channel.notify (moved_state from to g) g.channel;
}

reorder_cases {ℓ} :
    (P : Puzzle → Type ℓ) (from to : ℤ) (g : Puzzle)
    → P g
    → P (accepted from to g)
    → P (reorder_pieces from to g)
unfolding reorder_pieces
reorder_cases P from to g kept moved =
    if_cases P g.is_finished (λ _. kept)
      (λ _.
        if_cases P (out_of_range from (length g.pieces) || out_of_range to (length g.pieces))
          (λ _. kept) (λ _. moved))

accepted-IsValid : (from to : ℤ) (g : Puzzle) → IsValid g → IsValid (accepted from to g)
unfolding check_completion
accepted-IsValid from to g v = record {
  counted = v.counted;
  same = Perm.trans (move_piece-perm (pos_part from) (pos_part to) g.pieces) v.same;
  honest = λ e. e;
  paid = λ e. rw e (ground arith, ground arith);
}

pub data Action : Type 0 where
  reorders : ℤ → ℤ → Action
  resets destroys : Action
  subscribes unsubscribes : ℕ → Action

unfoldable pub act : Action → Puzzle → Puzzle
act (reorders from to) g = reorder_pieces from to g
act resets g = reset g
act destroys g = destroy g
act (subscribes l) g = subscribe l g
act (unsubscribes l) g = unsubscribe l g

unfoldable pub run : List Action → Puzzle → Puzzle
run [] g = g
run (a ∷ as') g = run as' (act a g)

reset-IsValid : (g : Puzzle) → IsValid g → IsValid (reset g)
unfolding reset
reset-IsValid g v =
    let cleared = record g {
      state = record (g.state) { moves = 0; score = 0; is_finished = false };
    } in
    let w = generate_pieces-IsValid cleared v.counted refl in
    record { counted = w.counted; same = w.same; honest = w.honest; paid = w.paid }

-- Every call keeps the puzzle valid.
pub act-IsValid : (a : Action) (g : Puzzle) → IsValid g → IsValid (act a g)
unfolding act subscribe unsubscribe destroy
act-IsValid (reorders from to) g v =
    reorder_cases IsValid from to g v (accepted-IsValid from to g v)
act-IsValid resets g v = reset-IsValid g v
act-IsValid destroys g v = record {
  counted = v.counted;
  same = v.same;
  honest = v.honest;
  paid = v.paid;
}
act-IsValid (subscribes l) g v = record {
  counted = v.counted;
  same = v.same;
  honest = v.honest;
  paid = v.paid;
}
act-IsValid (unsubscribes l) g v = record {
  counted = v.counted;
  same = v.same;
  honest = v.honest;
  paid = v.paid;
}

run-IsValid : (acts : List Action) (g : Puzzle) → IsValid g → IsValid (run acts g)
unfolding run
run-IsValid [] g v = v
run-IsValid (a ∷ acts) g v = run-IsValid acts (act a g) (act-IsValid a g v)

solved-spelled : (g : Puzzle) → IsValid g → g.is_finished ≡ true → spelled g.pieces ≡ g.phrase
solved-spelled g v e =
    let whole =
      in_order_unique 0 g.pieces (cut_phrase g.phrase g.pieces_count) (v.honest e)
        (in_order-cut_phrase g.phrase g.pieces_count) v.same in
    ap spelled whole ∙ spelled-cut_phrase g.phrase g.pieces_count v.counted

act-phrase : (a : Action) (g : Puzzle) → (act a g).phrase ≡ g.phrase
unfolding act subscribe unsubscribe destroy reset generate_pieces check_completion
act-phrase (reorders from to) g = reorder_cases (λ h. h.phrase ≡ g.phrase) from to g refl refl
act-phrase resets g = refl
act-phrase destroys g = refl
act-phrase (subscribes l) g = refl
act-phrase (unsubscribes l) g = refl

run-phrase : (acts : List Action) (g : Puzzle) → (run acts g).phrase ≡ g.phrase
unfolding run
run-phrase [] g = refl
run-phrase (a ∷ acts) g = run-phrase acts (act a g) ∙ act-phrase a g

construct-phrase :
    (phrase : List ℕ) (count seed : ℕ) (g : Puzzle)
    → construct phrase count seed ≡ ok g
    → g.phrase ≡ phrase
unfolding construct generate_pieces
construct-phrase phrase count seed g h = ground arith

-- After any sequence of calls on a constructed puzzle, if it is marked finished then its pieces,
-- read in order, spell the phrase that it was constructed with, and its score lies between 100
-- and 1000.
pub finished-spells-phrase :
    (phrase : List ℕ) (count seed : ℕ) (g : Puzzle) (acts : List Action)
    → construct phrase count seed ≡ ok g
    → (run acts g).is_finished ≡ true
    → (spelled (run acts g).pieces ≡ phrase)
      × (100 ≤ (run acts g).score)
      × ((run acts g).score ≤ 1000)
finished-spells-phrase phrase count seed g acts made done =
    let v = run-IsValid acts g (construct-IsValid phrase count seed g made) in
    let paid = v.paid done in
    (
      solved-spelled _ v done ∙ run-phrase acts g ∙ construct-phrase phrase count seed g made,
      paid.0,
      paid.1,
    )

-- A call of `reorder_pieces` on a finished puzzle, or with an index that is negative or not below
-- the number of pieces, changes nothing.
pub reorder_refused :
    (from to : ℤ) (g : Puzzle)
    → (g.is_finished ≡ true)
      ⊎ ((out_of_range from (length g.pieces) || out_of_range to (length g.pieces)) ≡ true)
    → reorder_pieces from to g ≡ g
unfolding reorder_pieces
reorder_refused from to g h = ground arith

reorder-accepted :
    (from to : ℕ) (g : Puzzle)
    → g.is_finished ≡ false
    → from < length g.pieces
    → to < length g.pieces
    → reorder_pieces (pos from) (pos to) g ≡ accepted (pos from) (pos to) g
unfolding reorder_pieces
reorder-accepted from to g e h k = ground arith

-- On an unfinished puzzle and indices in range, `reorder_pieces` moves the piece at `from` to `to`
-- and keeps the order of the others, counts one move, notifies the listeners with the new state,
-- and finishes the puzzle exactly when the pieces are then in order, for 1000 points less 10 a
-- move but never under 100; short of that the score stays.
pub reorder_correct :
    (from to : ℕ) (g : Puzzle)
    → g.is_finished ≡ false
    → from < length g.pieces
    → to < length g.pieces
    → let h = reorder_pieces (pos from) (pos to) g in
      (get_elem? h.pieces to ≡ get_elem? g.pieces from)
      × (remove_at to h.pieces ≡ remove_at from g.pieces)
      × (h.moves ≡ g.moves + 1)
      × (h.is_finished ≡ in_order 0 h.pieces)
      × (h.score ≡ (if in_order 0 h.pieces then max 100 (1000 - h.moves * 10) else g.score))
      × (h.channel ≡ Channel.notify h.state g.channel)
unfolding check_completion
reorder_correct from to g e h k =
    let placed = move_piece_places from to g.pieces h k in
    rw (reorder-accepted from to g e h k) (placed.0, placed.1, refl, refl, ground arith, refl)
