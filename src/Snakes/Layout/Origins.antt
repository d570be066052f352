-- ===== src/Snakes/Layout/Origins.antt =====
-- snakesLayout.ts: every link that is asked for is made, and how the links lie.
use usbi.Prelude.{
  ℕ, zero, suc, ◌+◌, ◌-◌, ◌≤◌, ◌<◌, ◌≡◌, refl, ap, false, ◌&&◌, not, some, List, [], ◌∷◌, ltb, ◌==◌,
  length, get_or, length-append, arith, Bool-cases, inl, inr,
}
use usbi.Prelude.Sets.{contains, add, keep, range, length-keep-range}
use usbi.Snakes.Layout.{
  SnakeLadderLink, Kind, snake, ladder, next_state, fraction_of, random_int, candidates, Made,
  end_of, attempt, make_link, make_links,
}

pub next_state-lt : (s : ℕ) → next_state s < 4294967296
unfolding next_state
next_state-lt s = omega arith

fraction_of-lt : (s n : ℕ) → s < 4294967296 → 0 < n → fraction_of s n < n
unfolding fraction_of
fraction_of-lt s n h k = grind arith

random_int_bounds :
    (low high s : ℕ)
    → s < 4294967296
    → low ≤ high
    → (low ≤ random_int low high s) × (random_int low high s ≤ high)
unfolding random_int
random_int_bounds low high s h k =
    (omega arith, omega (arith, fraction_of-lt s (high - low + 1) h (omega arith)))

-- A link of its kind on a board of `total` cells, from an inner cell.
abbrev pub GoesRight : Kind → ℕ → SnakeLadderLink → Type 0
GoesRight snake total l = (2 ≤ l.start) × (l.start < total) × (1 ≤ l.end) × (l.end < l.start)
GoesRight ladder total l = (2 ≤ l.start) × (l.start < total) × (l.start < l.end) × (l.end ≤ total)

-- Links made one after the other, each from a cell that starts none yet.
abbrev pub Chain : Kind → ℕ → List ℕ → List SnakeLadderLink → List ℕ → Type 0
Chain kind total taken [] taken' = taken ≡ taken'
Chain kind total taken (l ∷ ls) taken' =
    GoesRight kind total l
    × (contains taken l.start ≡ false)
    × Chain kind total (add taken l.start) ls taken'

abbrev IsCandidate : ℕ → List ℕ → ℕ → Type 0
IsCandidate total taken cell = (2 ≤ cell) × (cell < total) × (contains taken cell ≡ false)

abbrev AllCandidates : ℕ → List ℕ → List ℕ → Type 0
AllCandidates total taken [] = Unit {0}
AllCandidates total taken (c ∷ cs) = IsCandidate total taken c × AllCandidates total taken cs

kept :
    (total a n : ℕ) (taken : List ℕ)
    → 2 ≤ a
    → AllCandidates total taken
        (keep (λ cell. ltb cell total && not (contains taken cell)) (range a n))
unfolding keep range
kept total a zero taken h = tt
kept total a (suc n) taken h = elim (Bool-cases (ltb a total && not (contains taken a))) [
  | inl e ↦ simp e ((h, ground arith, ground arith), kept total (a + 1) n taken (omega arith))
  | inr e ↦ simp e (kept total (a + 1) n taken (omega arith))
]

candidates-all : (total : ℕ) (taken : List ℕ) → AllCandidates total taken (candidates total taken)
unfolding candidates
candidates-all total taken = kept total 2 (total - 2) taken (omega arith)

all-get_or :
    (total : ℕ) (taken cs : List ℕ) (i : ℕ)
    → AllCandidates total taken cs
    → i < length cs
    → IsCandidate total taken (get_or cs i 0)
all-get_or total taken [] i h k = absurd (omega arith)
all-get_or total taken (c ∷ cs) zero h k = h.0
all-get_or total taken (c ∷ cs) (suc i) h k = all-get_or total taken cs i h.1 (omega arith)

keep-same :
    (total a n : ℕ) (taken : List ℕ)
    → a + n ≤ total
    → keep (λ cell. ltb cell total && not (contains taken cell)) (range a n)
      ≡ keep (λ cell. not (contains taken cell)) (range a n)
unfolding keep range
keep-same total a zero taken h = refl
keep-same total a (suc n) taken h = ground (arith, keep-same total (a + 1) n taken)

candidates-some :
    (total : ℕ) (taken : List ℕ) → length taken + 2 < total → 0 < length (candidates total taken)
unfolding candidates
candidates-some total taken h =
    rw (keep-same total 2 (total - 2) taken (omega arith))
      (omega (arith, length-keep-range taken 2 (total - 2)))

-- The end that is drawn is never the start, and lies on the right side of it.
end_of-GoesRight :
    (kind : Kind) (total start s : ℕ)
    → 2 ≤ start
    → start < total
    → s < 4294967296
    → GoesRight kind total (record { start = start; end = end_of kind total start s })
      × ((start == end_of kind total start s) ≡ false)
end_of-GoesRight snake total start s h k r =
    let (low, high) = random_int_bounds 1 (start - 1) s r (omega arith) in
    ((h, k, low, omega arith), ground arith)
end_of-GoesRight ladder total start s h k r =
    let (low, high) = random_int_bounds (start + 1) total s r (omega arith) in
    ((h, k, omega arith, high), ground arith)

make_link-first :
    (total : ℕ) (cells taken : List ℕ) (kind : Kind) (s : ℕ)
    → candidates total taken ≡ cells
    → (length cells == 0) ≡ false
    → let start = get_or cells (fraction_of (next_state s) (length cells)) 0 in
      let end = end_of kind total start (next_state (next_state s)) in
      (start == end) ≡ false
      → make_link total taken kind s ≡ record {
        link = some (record { start = start; end = end });
        origins = add taken start;
        state = next_state (next_state s);
      }
unfolding make_link attempt
make_link-first total cells taken kind s e h k = rw e (simp (h, k))

-- So the first attempt of `makeLink` succeeds if any cell is free.
make_link-made :
    (total : ℕ) (taken : List ℕ) (kind : Kind) (s : ℕ)
    → length taken + 2 < total
    → (l : SnakeLadderLink) × ((make_link total taken kind s).link ≡ some l)
      × ((make_link total taken kind s).origins ≡ add taken l.start)
      × GoesRight kind total l
      × (contains taken l.start ≡ false)
make_link-made total taken kind s room =
    let cells = candidates total taken in
    let drawn = next_state s in
    let drawn' = next_state drawn in
    let some_cell = candidates-some total taken room in
    let inside = fraction_of-lt drawn (length cells) (next_state-lt s) some_cell in
    let (low, high, free) = all-get_or total taken cells _ (candidates-all total taken) inside in
    let start = get_or cells (fraction_of drawn (length cells)) 0 in
    let (right, apart) = end_of-GoesRight kind total start drawn' low high (next_state-lt drawn) in
    let filled : (length cells == 0) ≡ false = ground arith in
    let first = make_link-first total cells taken kind s refl filled apart in
    (
      record { start = start; end = end_of kind total start drawn' },
      ap (λ (m : Made). m.link) first,
      ap (λ (m : Made). m.origins) first,
      right,
      free,
    )

length-add : (s : List ℕ) (x : ℕ) → contains s x ≡ false → length (add s x) ≡ length s + 1
unfolding add
length-add s x h = rw h (length-append s (x ∷ []))

-- With room for all of them, exactly as many links are made as are asked for.
pub make_links-made :
    (n total : ℕ) (taken : List ℕ) (kind : Kind) (s : ℕ)
    → length taken + n + 2 ≤ total
    → let made = make_links n total taken kind s in
      (length made.links ≡ n)
      × (length made.taken ≡ length taken + n)
      × Chain kind total taken made.links made.taken
unfolding make_links
make_links-made zero total taken kind s room = (refl, omega arith, refl)
make_links-made (suc n) total taken kind s room =
    let (l, made, grown, right, free) = make_link-made total taken kind s (omega arith) in
    let more = length-add taken l.start free in
    let (count, size, rest) =
      make_links-made n total (add taken l.start) kind (make_link total taken kind s).state
        (omega (arith, more)) in
    rw (made, grown) (omega (arith, count), omega (arith, size, more), (right, free, rest))
