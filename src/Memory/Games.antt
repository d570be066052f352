-- ===== src/Memory/Games.antt =====
-- MemoryEngine.ts, whole games: the calls in any order, and what a pair that does not match leaves
-- behind.
use usbi.Prelude.{
  ℕ, ◌≡◌, ◌↔◌, refl, sym, ap, ◌∙◌, true, none, some, List, [], ◌∷◌, ◌==◌, ==_iff, arith, inl, inr,
}
use usbi.Prelude.Text.{Text, eq_text}
use usbi.Memory.{RawPairs, Memory, Checked, construct, flip_card, check_match, settle}
use usbi.Memory.Deck.{All, count-All, All-count}
use usbi.Memory.Rounds.{
  matched, IsValid, construct-IsValid, flip_card-IsValid, check_match_cases, check_match-IsValid,
}

-- A call of the page.
pub data Call : Type 0 where
  flip : ℕ → Call
  check : Call

unfoldable pub call : Call → Memory → Memory
call (flip i) m = (flip_card i m).1
call check m = (check_match m).1

unfoldable pub run : List Call → Memory → Memory
run [] m = m
run (c ∷ cs) m = run cs (call c m)

pub run-IsValid : (cs : List Call) (m : Memory) → IsValid m → IsValid (run cs m)
unfolding run call
run-IsValid [] m v = v
run-IsValid (flip i ∷ cs) m v = run-IsValid cs (flip_card i m).1 (flip_card-IsValid i m v)
run-IsValid (check ∷ cs) m v = run-IsValid cs (check_match m).1 (check_match-IsValid m v)

-- Every card of the deck is matched.
abbrev pub AllMatched : Memory → Type 0
AllMatched m = All matched m.cards

-- In a valid position the pairs counted are all pairs exactly when every card is matched.
pub all_pairs_iff : (m : Memory) → IsValid m → (m.matched_pairs ≡ m.total_pairs) ↔ AllMatched m
all_pairs_iff m v = (
  λ e. count-All matched m.cards (omega (arith, v.in_pairs, v.two_each, e)),
  λ f. omega (arith, v.in_pairs, v.two_each, All-count matched m.cards f),
)

reported :
    (m : Memory) (r : Checked)
    → IsValid m
    → (check_match m).0 ≡ some r
    → r.game_over ≡ ((check_match m).1.matched_pairs == m.total_pairs)
      × ((check_match m).1.total_pairs ≡ m.total_pairs)
reported m r v h = elim (check_match_cases m v) [
  | inl e ↦ let gone : none ≡ some r = (rw e at h) in absurd cc
  | inr (t, e) ↦
      let res = settle (eq_text t.2.pair_id t.3.pair_id) t.0 t.1 m in
      let told : some res.0 ≡ some r = (rw e at h) in
      let same : res.0 ≡ r = ground (arith, told) in rw e (sym (ap (λ x. x.game_over) same), refl)
]

-- Whatever cards are turned and compared, in any order, from a new game on: when `checkMatch` reports
-- a result, it says that the game is over exactly when every card of the deck is matched.
pub game_over_iff_AllMatched :
    (color_of : ℕ → Text) (draw : ℕ → ℕ) (pairs : RawPairs) (cs : List Call) (r : Checked)
    → let m = run cs (construct color_of draw pairs) in
      (check_match m).0 ≡ some r → (r.game_over ≡ true) ↔ AllMatched (check_match m).1
game_over_iff_AllMatched color_of draw pairs cs r h =
    let m = run cs (construct color_of draw pairs) in
    let v =
      run-IsValid cs (construct color_of draw pairs) (construct-IsValid color_of draw pairs) in
    let m' = (check_match m).1 in
    let (over, total) = reported m r v h in
    let all = all_pairs_iff m' (check_match-IsValid m v) in
    let equal = ==_iff m'.matched_pairs m.total_pairs in
    (λ o. all.0 (equal.0 (sym over ∙ o) ∙ sym total), λ a. over ∙ equal.1 (all.1 a ∙ total))
