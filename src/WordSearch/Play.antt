-- ===== src/WordSearch/Play.antt =====
-- WordSearchEngine.ts, the constructor and checkWord: what is offered can be found, and the whole game
-- can be won.
use usbi.Prelude.{
  ℕ, zero, suc, ◌+◌, ◌*◌, ◌<◌, ◌≡◌, refl, sym, ap, ◌∙◌, true, false, Option, none, some, List, [],
  ◌∷◌, ◌++◌, map, ==_iff, length, get_elem?, replicate, arith, Option-cases, inl, inr,
  length-replicate,
}
use mathlib.Core.Path.{subst}
use usbi.Prelude.Text.{Text, eq_text_self}
use usbi.WordSearch.{
  Grid, WordSearch, cell, flat, letter, includes, unique, normalize_word, fresh, generate_grid,
  construct, spell, is_new, add_found, check_word,
}
use usbi.WordSearch.Grid.{IsSized, Wide, Reads}
use usbi.WordSearch.Letters.{
  Full, normalized-EachCapital, unique-EachCapital, replicate-Letters, generate_grid-Full,
}
use usbi.WordSearch.Placing.{IsHidden, AllHidden, generate_grid-AllHidden}
use usbi.WordSearch.Words.{
  Distinct, Distinct-middle, includes-append, append-snoc, unique-Distinct, generate_grid-Distinct,
}

-- The positions that a player drags over to select a word.
abbrev pub line : Text → ℕ → ℕ → ℕ → ℕ → List (ℕ × ℕ)
line [] x y dx dy = []
line (c ∷ cs) x y dx dy = (x, y) ∷ line cs (x + dx) (y + dy) dx dy

row_there :
    (g : Grid) (x y c : ℕ) → cell g x y ≡ some c → (r : List (Option ℕ)) × (get_elem? g y ≡ some r)
unfolding cell
row_there g x y c h = elim (Option-cases (get_elem? g y)) [
  | inr e ↦ e
  | inl e ↦ absurd (ground arith)
]

spell-cons :
    (g : Grid) (x y : ℕ) (ps : List (ℕ × ℕ)) (row : List (Option ℕ)) (rest : Text)
    → get_elem? g y ≡ some row
    → spell g ps ≡ some rest
    → spell g ((x, y) ∷ ps) ≡ some (letter (flat (get_elem? row x)) ++ rest)
unfolding spell
spell-cons g x y ps row rest e f = simp (e, f)

spell-line :
    (g : Grid) (w : Text) (x y dx dy : ℕ)
    → Reads g w x y dx dy
    → spell g (line w x y dx dy) ≡ some w
unfolding spell cell
spell-line g [] x y dx dy r = refl
spell-line g (c ∷ cs) x y dx dy r =
    let (row, e) = row_there g x y c r.0 in
    let here : flat (get_elem? row x) ≡ some c = (rw e at r.0) in
    spell-cons g x y (line cs (x + dx) (y + dy) dx dy) row cs e
      (spell-line g cs (x + dx) (y + dy) dx dy r.1)
    ∙ ap (λ l. some (letter l ++ cs)) here

-- The selections one after the other, as long as none is an error.
abbrev pub and_then : Option WordSearch → (WordSearch → Option WordSearch) → Option WordSearch
and_then none f = none
and_then (some e) f = f e

unfoldable pub play : List (List (ℕ × ℕ)) → WordSearch → Option WordSearch
play [] e = some e
play (p ∷ ps) e = and_then (check_word p e) (play ps)

-- While the game goes on, selecting the cells of a line that spells a word of the game that is not
-- found yet adds that word to the words found, whatever else the line crosses.
pub check_word-line :
    (e : WordSearch) (w : Text) (x y dx dy : ℕ)
    → e.is_finished ≡ false
    → is_new e.state w ≡ true
    → Reads e.grid w x y dx dy
    → check_word (line w x y dx dy) e ≡ some (add_found w e)
unfolding check_word
check_word-line e w x y dx dy going new reads =
    simp (going, spell-line e.grid w x y dx dy reads, new)

pub construct-fresh :
    (nfd : Text → Text) (words : List Text) (w h seed : ℕ) (e : WordSearch)
    → construct nfd words w h seed ≡ some e
    → e ≡ generate_grid (fresh (unique [] (map (normalize_word nfd) words)) w h seed)
unfolding construct
construct-fresh nfd words w h seed e made = ground arith

Wide-replicate : (w h : ℕ) → Wide w (replicate h (replicate w none))
Wide-replicate w zero = tt
Wide-replicate w (suc h) = (length-replicate w none, Wide-replicate w h)

-- A new game of the size: its words are different and can be read on lines of the board, whose cells
-- all hold letters from A to Z, and nothing is found yet.
abbrev pub Hides : ℕ → ℕ → WordSearch → Type 0
Hides w h e =
    AllHidden e.grid e.words
    × IsSized w h e.grid
    × Full e.grid
    × Distinct e.words
    × (e.found_words ≡ [])
    × (e.is_finished ≡ false)
    × (e.score ≡ 0)

-- What the constructor returns is a board of the size asked for in which every cell holds a letter
-- from A to Z; every word of the game can be read on a line of it, no word stands twice, and nothing
-- is found yet.
pub construct-Hides_words :
    (nfd : Text → Text) (words : List Text) (w h seed : ℕ) (e : WordSearch)
    → construct nfd words w h seed ≡ some e
    → Hides w h e
unfolding generate_grid
construct-Hides_words nfd words w h seed e made =
    let e₀ = fresh (unique [] (map (normalize_word nfd) words)) w h seed in
    let size : IsSized w h e₀.grid = record {
      tall = length-replicate h _;
      wide = Wide-replicate w h;
    } in
    let (hidden, sized) = generate_grid-AllHidden e₀ size in
    let capital =
      unique-EachCapital [] (map (normalize_word nfd) words) tt
        (normalized-EachCapital nfd words) in
    let full = generate_grid-Full e₀ capital (replicate-Letters w h) in
    let apart =
      generate_grid-Distinct e₀ (unique-Distinct [] (map (normalize_word nfd) words) tt) in
    subst (Hides w h) (sym (construct-fresh nfd words w h seed e made))
      (hidden, sized, full, apart, refl, refl, refl)

includes-middle : (vs : List Text) (w : Text) (ws : List Text) → includes (vs ++ w ∷ ws) w ≡ true
unfolding includes
includes-middle vs w ws = ground (arith, includes-append vs (w ∷ ws) w, eq_text_self w)

length-append : (vs ws : List Text) → length (vs ++ ws) ≡ length vs + length ws
length-append [] ws = omega arith
length-append (v ∷ vs) ws = omega (arith, length-append vs ws)

-- The selections are accepted without an error, end the game, and leave 100 points for each word.
abbrev pub Won : WordSearch → List (List (ℕ × ℕ)) → Type 0
Won e moves =
    (e' : WordSearch) × (play moves e ≡ some e')
    × (e'.is_finished ≡ true)
    × (e'.score ≡ 100 * length e'.words)

play-cons :
    (p : List (ℕ × ℕ)) (ps : List (List (ℕ × ℕ))) (e e₁ : WordSearch)
    → check_word p e ≡ some e₁
    → play (p ∷ ps) e ≡ play ps e₁
unfolding play
play-cons p ps e e₁ h = simp h

-- The first of the words that are left can be selected.
select_next :
    (done : List Text) (w : Text) (rest : List Text) (e : WordSearch)
    → e.words ≡ done ++ w ∷ rest
    → e.found_words ≡ done
    → e.is_finished ≡ false
    → Distinct (done ++ w ∷ rest)
    → IsHidden e.grid w
    → (move : List (ℕ × ℕ)) × (check_word move e ≡ some (add_found w e))
select_next done w rest e ew ef going d (x, y, dx, dy, _, _, _, reads) =
    let fresh_word : includes e.found_words w ≡ false = rw ef (Distinct-middle done w rest d) in
    let listed : includes e.words w ≡ true = rw ew (includes-middle done w rest) in
    (line w x y dx dy, check_word-line e w x y dx dy going (ground arith) reads)

-- The words after `done` can be found one after the other, which ends the game.
win_rest :
    (done : List Text) (w : Text) (rest : List Text) (e : WordSearch)
    → e.words ≡ done ++ w ∷ rest
    → e.found_words ≡ done
    → e.score ≡ 100 * length done
    → e.is_finished ≡ false
    → Distinct (done ++ w ∷ rest)
    → AllHidden e.grid (w ∷ rest)
    → (moves : List (List (ℕ × ℕ))) × Won e moves
unfolding add_found play
win_rest done w [] e ew ef es going d hidden =
    let (move, found) = select_next done w [] e ew ef going d hidden.0 in
    let count : length e.words ≡ length done + 1 = rw ew (length-append done (w ∷ [])) in
    let now : length (e.found_words ++ w ∷ []) ≡ length done + 1 =
      rw ef (length-append done (w ∷ [])) in
    (
      move ∷ [],
      (
        add_found w e,
        play-cons move [] e (add_found w e) found,
        ground (arith, ==_iff (length (e.found_words ++ w ∷ [])) (length e.words)),
        omega (arith, es, count),
      ),
    )
win_rest done w (v ∷ rest) e ew ef es going d hidden =
    let (move, found) = select_next done w (v ∷ rest) e ew ef going d hidden.0 in
    let count : length e.words ≡ length done + suc (suc (length rest)) =
      rw ew (length-append done (w ∷ v ∷ rest)) in
    let now : length (e.found_words ++ w ∷ []) ≡ length done + 1 =
      rw ef (length-append done (w ∷ [])) in
    let now' : length (done ++ w ∷ []) ≡ length done + 1 = length-append done (w ∷ []) in
    let e₁ = add_found w e in
    let (moves, (e', played, over, score)) =
      win_rest (done ++ w ∷ []) v rest e₁ (ew ∙ sym (append-snoc done w (v ∷ rest)))
        (ap (λ l. l ++ w ∷ []) ef) (omega (arith, es, now'))
        (ground (arith, ==_iff (length (e.found_words ++ w ∷ [])) (length e.words)))
        (subst Distinct (sym (append-snoc done w (v ∷ rest))) d) hidden.1 in
    (move ∷ moves, (e', play-cons move moves e e₁ found ∙ played, over, score))

win_new :
    (ws : List Text) (w h : ℕ) (e : WordSearch)
    → Hides w h e
    → e.words ≡ ws
    → 0 < length ws
    → (moves : List (List (ℕ × ℕ))) × Won e moves
win_new [] w h e hides ew some_word = absurd (omega arith)
win_new (v ∷ ws) w h e (hidden, _, _, d, ef, going, es) ew some_word =
    win_rest [] v ws e ew ef (omega (arith, es)) going (subst Distinct ew d)
      (subst (AllHidden e.grid) ew hidden)

-- Every new game with at least one word on its board can be won: some sequence of selections is
-- accepted without an error, ends the game, and scores 100 for each word.
pub construct_winnable :
    (nfd : Text → Text) (words : List Text) (w h seed : ℕ) (e : WordSearch)
    → construct nfd words w h seed ≡ some e
    → 0 < length e.words
    → (moves : List (List (ℕ × ℕ))) × Won e moves
construct_winnable nfd words w h seed e made some_word =
    win_new e.words w h e (construct-Hides_words nfd words w h seed e made) refl some_word
