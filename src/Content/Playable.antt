-- ===== src/Content/Playable.antt =====
-- content/types.ts, normalizeTriviaContent: what the trivia game is given.
use usbi.Prelude.{
  ◌≡◌, ◌≤◌, ◌<◌, ◌*◌, ◌^◌, refl, ℕ, Bool, true, false, ◌&&◌, Option, none, some, List, [], ◌∷◌, leb,
  ltb→lt, leb→le, length, if_cases,
}
use mathlib.Core.Option.{some_inj}
use mathlib.Core.Path.{subst}
use usbi.Prelude.Int.{ℤ, pos, negsuc}
use usbi.Prelude.Sets.{keep}
use usbi.Content.Json.{Value, Number, non_negative, below, read_array, key_questions}
use usbi.Content.{
  MultipleChoice, truthy, filtered, map_items, read_question, is_playable, normalize_trivia_content,
}

-- The number lies from 0 on and below k.
abbrev pub InRange : Number → ℕ → Type 0
InRange n k = (m : ℕ) × (n.mantissa ≡ pos m) × (m < k * 10 ^ n.places)

pub record Playable (q : MultipleChoice) : Type 0 where
  pub asked : truthy q.question ≡ true
  pub optional : 2 ≤ length q.options
  pub answered : InRange q.correct_index (length q.options)

abbrev pub AllPlayable : List MultipleChoice → Type 0
AllPlayable [] = Unit {0}
AllPlayable (q ∷ qs) = Playable q × AllPlayable qs

in_range :
    (m : ℤ) (p k : ℕ)
    → non_negative (record { mantissa = m; places = p }) ≡ true
    → below (record { mantissa = m; places = p }) k ≡ true
    → InRange (record { mantissa = m; places = p }) k
unfolding non_negative below
in_range (pos m) p k h b = (m, refl, ltb→lt m (k * 10 ^ p) b)
in_range (negsuc m) p k h b = absurd cc

and-split : (a b : Bool) → (a && b) ≡ true → (a ≡ true) × (b ≡ true)
and-split true true h = (refl, refl)
and-split true false h = absurd cc
and-split false b h = absurd cc

is_playable-Playable : (q : MultipleChoice) → is_playable q ≡ true → Playable q
unfolding is_playable
is_playable-Playable q h =
    let t = truthy q.question in
    let l = leb 2 (length q.options) in
    let n = non_negative q.correct_index in
    let b = below q.correct_index (length q.options) in
    let (tln, hb) = and-split (t && l && n) b h in
    let (tl, hn) = and-split (t && l) n tln in
    let (ht, hl) = and-split t l tl in
    record {
      asked = ht;
      optional = leb→le 2 (length q.options) hl;
      answered = in_range q.correct_index.mantissa q.correct_index.places (length q.options) hn hb;
    }

keep-AllPlayable : (qs : List MultipleChoice) → AllPlayable (keep is_playable qs)
unfolding keep
keep-AllPlayable [] = tt
keep-AllPlayable (q ∷ qs) =
    if_cases AllPlayable (is_playable q) (λ h. (is_playable-Playable q h, keep-AllPlayable qs))
      (λ _. keep-AllPlayable qs)

filtered-AllPlayable :
    (o : Option (List MultipleChoice)) (qs : List MultipleChoice)
    → filtered is_playable o ≡ some qs
    → AllPlayable qs
filtered-AllPlayable none qs h = absurd cc
filtered-AllPlayable (some as') qs h = subst AllPlayable (some_inj.0 h) (keep-AllPlayable as')

-- Whatever value is stored as the content of a trivia level: each question that `normalizeTriviaContent`
-- returns has a text, at least two options, and a correct index from 0 on and below their number.
pub normalize_trivia_content-AllPlayable :
    (v : Value) (qs : List MultipleChoice) → normalize_trivia_content v ≡ some qs → AllPlayable qs
unfolding normalize_trivia_content
normalize_trivia_content-AllPlayable v qs h =
    filtered-AllPlayable (map_items read_question (read_array v key_questions)) qs h
