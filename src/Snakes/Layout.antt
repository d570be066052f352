-- ===== src/Snakes/Layout.antt =====
-- frontend/src/features/content/maker/snakesLayout.ts: the layout generator of the level editor.
-- Sizes are natural numbers. A count is its integer part, or `none` where the form left NaN;
-- seeds are integers below 2^32 in size. The generator's fraction `state / 2^32` is exact in a double, and so are the
-- products that are rounded down here.
pub mod Origins
use usbi.Prelude.{
  ℕ, zero, suc, ◌+◌, ◌-◌, ◌*◌, ◌/◌, ◌%◌, ◌^◌, Bool, true, false, ◌&&◌, not, Option, none, some,
  List, [], ◌∷◌, ltb, leb, ◌==◌, if◌then◌else◌, length, get_or, max, min,
}
use usbi.Prelude.Int.{ℤ, pos, negsuc, pos_part}
use usbi.Prelude.Sets.{contains, add, keep, range}

pub record SnakeLadderLink : Type 0 where
  pub start : ℕ
  pub end : ℕ

pub data Kind : Type 0 where
  snake ladder : Kind

-- `clampInt(value, min, max)` for bounds that are not negative
unfoldable pub clamp_int : Option ℤ → ℕ → ℕ → ℕ
clamp_int none low high = max low (min high low)
clamp_int (some (pos v)) low high = max low (min high v)
clamp_int (some (negsuc v)) low high = low

unfoldable pub clamp_board_size : Option ℤ → ℕ
unfolding clamp_int
clamp_board_size value = clamp_int value 2 10

-- `-` on ℕ stops at 0, as the outer `Math.max` does.
unfoldable pub max_feature_count : ℕ → ℕ → ℕ
max_feature_count board_width board_height = (board_width * board_height - 2) / 2

abbrev magnitude : ℤ → ℕ
magnitude (pos n) = n
magnitude (negsuc n) = suc n

-- The first state of `seededRandom(seed)`; a seed of 0 counts as 1.
unfoldable pub seed_state : ℤ → ℕ
seed_state seed = if magnitude seed == 0 then 1 else magnitude seed

-- The next state; the fraction returned is that state over 2^32.
unfoldable pub next_state : ℕ → ℕ
next_state state = (state * 1664525 + 1013904223) % 4294967296

-- `Math.floor(random() * n)` from the state that `random` has left
unfoldable pub fraction_of : ℕ → ℕ → ℕ
fraction_of state n = state * n / 4294967296

unfoldable pub random_int : ℕ → ℕ → ℕ → ℕ
unfolding fraction_of
random_int low high state = fraction_of state (high - low + 1) + low

-- The numbers 2, 3, … of the inner cells that start no link yet.
unfoldable pub candidates : ℕ → List ℕ → List ℕ
candidates total_cells origins =
    keep (λ cell. ltb cell total_cells && not (contains origins cell)) (range 2 (total_cells - 2))

pub record Made : Type 0 where
  pub link : Option SnakeLadderLink
  pub origins : List ℕ
  pub state : ℕ

abbrev pub end_of : Kind → ℕ → ℕ → ℕ → ℕ
end_of snake total_cells start state = random_int 1 (start - 1) state
end_of ladder total_cells start state = random_int (start + 1) total_cells state

-- The loop of `makeLink`, with the attempts that are left.
unfoldable pub attempt : ℕ → ℕ → List ℕ → List ℕ → Kind → ℕ → Made
attempt zero total_cells cells origins kind state = record {
  link = none;
  origins = origins;
  state = state;
}
attempt (suc k) total_cells cells origins kind state =
    let drawn = next_state state in
    let start = get_or cells (fraction_of drawn (length cells)) 0 in
    let drawn' = next_state drawn in
    let end = end_of kind total_cells start drawn' in
    let again = attempt k total_cells cells origins kind drawn' in
    let made : Made = record {
      link = some (record { start = start; end = end });
      origins = add origins start;
      state = drawn';
    } in
    if length cells == 0
    then record { link = none; origins = origins; state = state }
    else if start == end
    then again
    else made

unfoldable pub make_link : ℕ → List ℕ → Kind → ℕ → Made
make_link total_cells origins kind state =
    attempt 80 total_cells (candidates total_cells origins) origins kind state

pub record Links : Type 0 where
  pub links : List SnakeLadderLink
  pub taken : List ℕ
  pub after : ℕ

abbrev pub cons_link : Option SnakeLadderLink → List SnakeLadderLink → List SnakeLadderLink
cons_link none ls = ls
cons_link (some l) ls = l ∷ ls

-- `Array.from({ length }).map(() => makeLink(…)).filter(link => link !== null)`
unfoldable pub make_links : ℕ → ℕ → List ℕ → Kind → ℕ → Links
make_links zero total_cells origins kind state = record {
  links = [];
  taken = origins;
  after = state;
}
make_links (suc n) total_cells origins kind state =
    let made = make_link total_cells origins kind state in
    let rest = make_links n total_cells made.origins kind made.state in
    record { links = cons_link made.link rest.links; taken = rest.taken; after = rest.after }

pub record Generated : Type 0 where
  pub snakes : List SnakeLadderLink
  pub ladders : List SnakeLadderLink

unfoldable pub generate_snake_ladder_links :
    (board_width board_height : ℕ) (snake_count ladder_count : Option ℤ) (seed : ℤ) → Generated
generate_snake_ladder_links board_width board_height snake_count ladder_count seed =
    let total_cells = board_width * board_height in
    let max_count = max_feature_count board_width board_height in
    let snakes =
      make_links (clamp_int snake_count 0 max_count) total_cells [] snake (seed_state seed) in
    let ladders =
      make_links (clamp_int ladder_count 0 max_count) total_cells snakes.taken ladder
        snakes.after in
    record { snakes = snakes.links; ladders = ladders.links }
