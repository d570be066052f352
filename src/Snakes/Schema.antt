-- ===== src/Snakes/Schema.antt =====
-- frontend/packages/schema/snakes.ts: what a stored snakes-and-ladders level must satisfy. A level
-- here has passed the types of the schema: its integers are those that `.int().min(…)` lets by, so
-- they are natural numbers, and the lower bounds are `shape`. zod runs `superRefine` on such a
-- level only.
pub mod Generated
use usbi.Prelude.{
  ℕ, zero, suc, ◌+◌, ◌-◌, ◌*◌, Bool, true, false, ◌&&◌, ◌||◌, not, Option, none, some, List, [],
  ◌∷◌, ◌++◌, ltb, leb, ◌==◌, if◌then◌else◌, length,
}
use usbi.Prelude.Int.{ℤ}
use usbi.Prelude.Sets.{contains, add}
use usbi.Prelude.Text.{Text, trim}
use usbi.Snakes.Layout.{SnakeLadderLink}
use usbi.Snakes.Engine.{Difficulty}

pub record Question : Type 0 where
  pub question : Text
  pub options : List Text
  pub correct_index : ℕ

pub record Snakes : Type 0 where
  pub board_width : ℕ
  pub board_height : ℕ
  pub start_position : ℕ
  pub end_position : ℕ
  pub seed : Option ℤ
  pub snakes : Option (List SnakeLadderLink)
  pub ladders : Option (List SnakeLadderLink)
  pub difficulty : Option Difficulty
  pub questions : List Question

pub data Issue : Type 0 where
  end_out_of_range snake_must_go_down ladder_must_go_up duplicate_origin : Issue
  option_index_out_of_range : ℕ → Issue
  option_empty : ℕ → ℕ → Issue

abbrev pub issue_if : Bool → Issue → List Issue
issue_if true i = i ∷ []
issue_if false i = []

abbrev pub or_nil : Option (List SnakeLadderLink) → List SnakeLadderLink
or_nil none = []
or_nil (some ls) = ls

-- The lower bounds and lengths of the object schema.
unfoldable pub links_positive : List SnakeLadderLink → Bool
links_positive [] = true
links_positive (l ∷ ls) = leb 1 l.start && leb 1 l.end && links_positive ls

unfoldable pub questions_shaped : List Question → Bool
questions_shaped [] = true
questions_shaped (q ∷ qs) =
    leb 1 (length q.question) && length q.options == 2 && questions_shaped qs

unfoldable pub shape : Snakes → Bool
unfolding links_positive questions_shaped
shape s =
    leb 1 s.board_width
    && leb 1 s.board_height
    && leb 1 s.start_position
    && leb 1 s.end_position
    && links_positive (or_nil s.snakes)
    && links_positive (or_nil s.ladders)
    && questions_shaped s.questions
    && leb 8 (length s.questions)

-- The two loops over the links, with the set of origins; they differ in the direction.
pub record Checked : Type 0 where
  pub issues : List Issue
  pub origins : List ℕ

unfoldable pub check_links :
    (SnakeLadderLink → Bool) → Issue → List ℕ → List SnakeLadderLink → Checked
check_links wrong issue origins [] = record { issues = []; origins = origins }
check_links wrong issue origins (l ∷ ls) =
    let rest = check_links wrong issue (add origins l.start) ls in
    record {
      issues =
          issue_if (wrong l) issue
          ++ (issue_if (contains origins l.start) duplicate_origin ++ rest.issues);
      origins = rest.origins;
    }

abbrev pub not_down : SnakeLadderLink → Bool
not_down s = leb s.start s.end

abbrev pub not_up : SnakeLadderLink → Bool
not_up l = leb l.end l.start

unfoldable pub check_options : ℕ → ℕ → List Text → List Issue
check_options q i [] = []
check_options q i (o ∷ os) =
    issue_if (length (trim o) == 0) (option_empty q i) ++ check_options q (i + 1) os

unfoldable pub check_questions : ℕ → List Question → List Issue
unfolding check_options
check_questions i [] = []
check_questions i (q ∷ qs) =
    issue_if (leb (length q.options) q.correct_index) (option_index_out_of_range i)
    ++ (check_options i 0 q.options ++ check_questions (i + 1) qs)

-- `superRefine`
unfoldable pub refine : Snakes → List Issue
refine s =
    let total_cells = s.board_width * s.board_height in
    let down = check_links not_down snake_must_go_down [] (or_nil s.snakes) in
    let up = check_links not_up ladder_must_go_up down.origins (or_nil s.ladders) in
    issue_if (ltb total_cells s.end_position) end_out_of_range
    ++ (down.issues ++ (up.issues ++ check_questions 0 s.questions))

unfoldable pub no_issues : List Issue → Bool
no_issues [] = true
no_issues (i ∷ is') = false

unfoldable pub accepts : Snakes → Bool
accepts s = shape s && no_issues (refine s)
