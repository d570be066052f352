-- ===== src/Snakes/Schema/Generated.antt =====
-- What the level editor generates (snakesLayout.ts) against the check of stored levels
-- (packages/schema/snakes.ts), and the engine's configuration of such a level
-- (frontend/src/features/games/components/SnakeLadderGame.tsx).
use usbi.Prelude.{
  ℕ, ◌+◌, ◌*◌, ◌++◌, ◌≤◌, ◌≡◌, refl, ap, Bool, false, Option, none, some, List, [], ◌∷◌, ltb,
  length, arith, map,
}
use usbi.Prelude.Int.{ℤ, pos, negsuc}
use usbi.Prelude.Sets.{add}
use usbi.Snakes.Layout.{
  SnakeLadderLink, Kind, snake, ladder, clamp_int, max_feature_count, seed_state, Links, make_links,
  Generated, generate_snake_ladder_links,
}
use usbi.Snakes.Layout.Origins.{GoesRight, Chain, make_links-made}
use usbi.Snakes.Engine.{Difficulty, medium, Link, SnakeLadderConfig, construct}
use usbi.Snakes.Engine.Turns.{IsPhase}
use usbi.Snakes.Engine.Games.{Call, AllDraws, run, run_stays_on_board}
use usbi.Snakes.Engine.Board.{EndsIn, IsBoard, IsCell}
use usbi.Snakes.Schema.{
  Snakes, Issue, end_out_of_range, issue_if, snake_must_go_down, ladder_must_go_up, or_nil,
  check_links, not_down, not_up, check_questions, refine,
}

abbrev wrong_way : Kind → SnakeLadderLink → Bool
wrong_way snake = not_down
wrong_way ladder = not_up

abbrev way_issue : Kind → Issue
way_issue snake = snake_must_go_down
way_issue ladder = ladder_must_go_up

right_way :
    (kind : Kind) (total : ℕ) (l : SnakeLadderLink)
    → GoesRight kind total l
    → wrong_way kind l ≡ false
right_way snake total l h = ground arith
right_way ladder total l h = ground arith

check_links-Chain :
    (kind : Kind) (total : ℕ) (taken taken' : List ℕ) (ls : List SnakeLadderLink)
    → Chain kind total taken ls taken'
    → ((check_links (wrong_way kind) (way_issue kind) taken ls).issues ≡ [])
      × ((check_links (wrong_way kind) (way_issue kind) taken ls).origins ≡ taken')
unfolding check_links
check_links-Chain kind total taken taken' [] h = (refl, h)
check_links-Chain kind total taken taken' (l ∷ ls) (right, free, rest) =
    let ih = check_links-Chain kind total (add taken l.start) taken' ls rest in
    (rw (right_way kind total l right, free) ih.0, ih.1)

refine_clean :
    (s : Snakes) (down up : List SnakeLadderLink) (taken : List ℕ)
    → or_nil s.snakes ≡ down
    → or_nil s.ladders ≡ up
    → (check_links not_down snake_must_go_down [] down).issues ≡ []
    → (check_links not_down snake_must_go_down [] down).origins ≡ taken
    → (check_links not_up ladder_must_go_up taken up).issues ≡ []
    → refine s
      ≡ issue_if (ltb (s.board_width * s.board_height) s.end_position) end_out_of_range
        ++ check_questions 0 s.questions
unfolding refine
refine_clean s down up taken ed eu di do_ ui = simp (ed, eu, di, do_, ui)

clamp_int-le : (v : Option ℤ) (high : ℕ) → clamp_int v 0 high ≤ high
unfolding clamp_int
clamp_int-le none high = omega arith
clamp_int-le (some (pos v)) high = omega arith
clamp_int-le (some (negsuc v)) high = omega arith

module _ (w h : ℕ) (snake_count ladder_count : Option ℤ) (seed : ℤ) (big : 2 ≤ w * h) where
  abbrev layout : Generated
  layout = generate_snake_ladder_links w h snake_count ladder_count seed

  abbrev most : ℕ
  most = max_feature_count w h

  abbrev snakes_made : Links
  snakes_made = make_links (clamp_int snake_count 0 most) (w * h) [] snake (seed_state seed)

  abbrev ladders_made : Links
  ladders_made =
      make_links (clamp_int ladder_count 0 most) (w * h) snakes_made.taken ladder snakes_made.after

  room : most + most + 2 ≤ w * h
  unfolding max_feature_count
  room = omega arith

  snakes-made :
      (length snakes_made.links ≡ clamp_int snake_count 0 most)
      × (length snakes_made.taken ≡ clamp_int snake_count 0 most)
      × Chain snake (w * h) [] snakes_made.links snakes_made.taken
  snakes-made =
      let (count, size, chain) =
        make_links-made (clamp_int snake_count 0 most) (w * h) [] snake (seed_state seed)
          (omega (arith, room, clamp_int-le snake_count most)) in
      (count, omega (arith, size), chain)

  ladders-made :
      (length ladders_made.links ≡ clamp_int ladder_count 0 most)
      × Chain ladder (w * h) snakes_made.taken ladders_made.links ladders_made.taken
  ladders-made =
      let (count, size, chain) =
        make_links-made (clamp_int ladder_count 0 most) (w * h) snakes_made.taken ladder
          snakes_made.after
          (omega (
            arith,
            room,
            snakes-made.1,
            clamp_int-le snake_count most,
            clamp_int-le ladder_count most,
          )) in
      (count, chain)

  -- On a board of two cells or more the generator makes exactly as many snakes and ladders as the
  -- clamped counts say; and a level of that board with these links passes the checks of the schema on
  -- links, so that its issues are that of an end position past the board, when it has one, and those
  -- of its questions.
  pub generated_passes :
      (s : Snakes)
      → s.board_width ≡ w
      → s.board_height ≡ h
      → s.snakes ≡ some layout.snakes
      → s.ladders ≡ some layout.ladders
      → (length layout.snakes ≡ clamp_int snake_count 0 most)
        × (length layout.ladders ≡ clamp_int ladder_count 0 most)
        × (refine s
            ≡ issue_if (ltb (w * h) s.end_position) end_out_of_range
              ++ check_questions 0 s.questions)
  unfolding generate_snake_ladder_links
  generated_passes s ew eh es el =
      let down = check_links-Chain snake (w * h) [] _ snakes_made.links snakes-made.2 in
      let up = check_links-Chain ladder (w * h) _ _ ladders_made.links ladders-made.1 in
      (
        snakes-made.0,
        ladders-made.0,
        rw (← ew, ← eh)
            (refine_clean s snakes_made.links ladders_made.links snakes_made.taken (ap or_nil es)
              (ap or_nil el) down.0 down.1 up.0),
      )

-- The configuration of the engine for a level; without an opponent's difficulty it is MEDIUM.
abbrev pub engine_link : SnakeLadderLink → Link
engine_link l = record { start = pos l.start; end = pos l.end }

abbrev pub difficulty_or : Option Difficulty → Difficulty
difficulty_or none = medium
difficulty_or (some d) = d

unfoldable pub engine_config : Snakes → SnakeLadderConfig
engine_config s = record {
  board_size = pos (s.board_width * s.board_height);
  start_position = some (pos s.start_position);
  end_position = some (pos s.end_position);
  snakes = map engine_link (or_nil s.snakes);
  ladders = map engine_link (or_nil s.ladders);
  ai_difficulty = difficulty_or s.difficulty;
}

Chain-EndsIn :
    (kind : Kind) (total : ℕ) (taken taken' : List ℕ) (ls : List SnakeLadderLink)
    → Chain kind total taken ls taken'
    → EndsIn total (map engine_link ls)
Chain-EndsIn kind total taken taken' [] h = tt
Chain-EndsIn snake total taken taken' (l ∷ ls) (right, free, rest) =
    ((omega arith, omega arith), Chain-EndsIn snake total (add taken l.start) taken' ls rest)
Chain-EndsIn ladder total taken taken' (l ∷ ls) (right, free, rest) =
    ((omega arith, omega arith), Chain-EndsIn ladder total (add taken l.start) taken' ls rest)

generated-IsBoard :
    (w h : ℕ) (snake_count ladder_count : Option ℤ) (seed : ℤ) (s : Snakes)
    → 7 ≤ w * h
    → (let made = generate_snake_ladder_links w h snake_count ladder_count seed in
        (s.snakes ≡ some made.snakes) × (s.ladders ≡ some made.ladders))
    → s.end_position ≡ w * h
    → 1 ≤ s.start_position
    → s.start_position ≤ w * h
    → IsBoard (w * h) (engine_config s)
unfolding generate_snake_ladder_links engine_config
generated-IsBoard w h sc lc seed s big (es, el) last low high =
    let two : 2 ≤ w * h = omega arith in
    record {
      long = big;
      last = ap pos last;
      first = (omega arith, omega arith);
      snakes_end =
          simp (ap or_nil es)
            (Chain-EndsIn snake (w * h) [] _ _ (snakes-made w h sc lc seed two).2);
      ladders_end =
          simp (ap or_nil el)
            (Chain-EndsIn ladder (w * h) _ _ _ (ladders-made w h sc lc seed two).1);
    }

-- A level with generated links, on a board of seven cells or more that is won on its last cell and
-- starts on it anywhere, is played on its board: any sequence of calls with any draws, accepted or
-- not, leaves both pieces on it, and the game is over exactly when there is a winner, whose piece is
-- then on the last cell.
pub generated_stays_on_board :
    (w h : ℕ) (snake_count ladder_count : Option ℤ) (seed : ℤ) (s : Snakes) (ks : List Call)
    → 7 ≤ w * h
    → (let made = generate_snake_ladder_links w h snake_count ladder_count seed in
        (s.snakes ≡ some made.snakes) × (s.ladders ≡ some made.ladders))
    → s.end_position ≡ w * h
    → 1 ≤ s.start_position
    → s.start_position ≤ w * h
    → AllDraws ks
    → let c = engine_config s in
      let e = run c ks (construct c) in
      IsCell (w * h) e.player_position × IsCell (w * h) e.ai_position × IsPhase c e
generated_stays_on_board w h sc lc seed s ks big made last low high draws =
    run_stays_on_board (w * h) (engine_config s) ks
      (generated-IsBoard w h sc lc seed s big made last low high) draws
