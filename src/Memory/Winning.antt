-- ===== src/Memory/Winning.antt =====
-- MemoryEngine.ts, whole games: every deck can be cleared.
use usbi.Prelude.{
  ℕ, zero, suc, ◌+◌, ◌-◌, ◌<◌, ◌≡◌, ◌≢◌, refl, sym, ap, ◌∙◌, true, false, ◌||◌, some, List, [], ◌∷◌,
  ◌++◌, if◌then◌else◌, length, get_elem?, set, arith, get_elem?-set_self, get_elem?-set_ne,
}
use mathlib.Core.Path.{subst}
use usbi.Prelude.Slices.{get_elem?-lt}
use usbi.Prelude.Text.{Text, eq_text, eq_text→eq}
use usbi.Memory.{
  MemoryCard, RawPairs, Memory, construct, flip_card, check_match, change, set_matched, settle,
}
use usbi.Memory.Deck.{count, count-set}
use usbi.Memory.Rounds.{open_card, IsValid, construct-IsValid, opened, change_two, count-two}
use usbi.Memory.Games.{Call, flip, check, call, run, run-IsValid, AllMatched, all_pairs_iff}
use usbi.Memory.Left.{unmatched, InTwos, construct-InTwos, count-none, two_left}

flip_ok :
    (i : ℕ) (m : Memory) (c : MemoryCard)
    → get_elem? m.cards i ≡ some c
    → (c.is_flipped || c.is_matched) ≡ false
    → length m.flipped_indices < 2
    → flip_card i m ≡ (true, opened i m c)
unfolding flip_card
flip_ok i m c at down few = rw at (ground arith)

check_two :
    (i j : ℕ) (m : Memory) (c d : MemoryCard)
    → m.flipped_indices ≡ i ∷ j ∷ []
    → get_elem? m.cards i ≡ some c
    → get_elem? m.cards j ≡ some d
    → eq_text c.pair_id d.pair_id ≡ true
    → (check_match m).1 ≡ (settle true i j m).1
unfolding check_match
check_two i j m c d is at at' same = simp (is, at, at', same)

opened-InTwos :
    (cs : List MemoryCard) (i : ℕ) (c : MemoryCard)
    → get_elem? cs i ≡ some c
    → InTwos cs
    → InTwos (set cs i (record c { is_flipped = true }))
opened-InTwos cs i c at twos p =
    let (k, e) = twos p in
    (k, omega (arith, e, count-set (unmatched p) cs i c (record c { is_flipped = true }) at))

matched-InTwos :
    (cs : List MemoryCard) (i j : ℕ) (c d : MemoryCard)
    → get_elem? cs i ≡ some c
    → get_elem? cs j ≡ some d
    → i ≢ j
    → c.is_matched ≡ false
    → d.is_matched ≡ false
    → eq_text c.pair_id d.pair_id ≡ true
    → InTwos cs
    → InTwos (change set_matched j (change set_matched i cs))
matched-InTwos cs i j c d at at' apart free free' same twos p =
    let (k, e) = twos p in
    let now = count-two (unmatched p) set_matched i j cs c d at at' apart in
    let ids : c.pair_id ≡ d.pair_id = eq_text→eq c.pair_id d.pair_id same in
    let together : eq_text c.pair_id p ≡ eq_text d.pair_id p = ap (λ t. eq_text t p) ids in
    (
      if eq_text c.pair_id p then k - 1 else k,
      simp (change_two set_matched i j cs c d at at' apart) (ground (arith, now, e)),
    )

-- A position between two rounds.
record AtRest (m : Memory) : Type 0 where
  valid : IsValid m
  none_turned : m.flipped_indices ≡ []
  twos : InTwos m.cards

-- One round that finds a pair.
one_round :
    (m : Memory)
    → AtRest m
    → m.matched_pairs < m.total_pairs
    → (cs : List Call) × AtRest (run cs m)
      × ((run cs m).matched_pairs ≡ m.matched_pairs + 1)
      × ((run cs m).total_pairs ≡ m.total_pairs)
unfolding run call
one_round m rest left =
    let v = rest.valid in
    let (i, j, c, d, at, at', free, free', apart, same) =
      two_left m.cards rest.twos (omega (arith, v.in_pairs, v.two_each)) in
    let shut : count open_card m.cards ≡ 0 = v.no_other ∙ ap length rest.none_turned in
    let down = count-none open_card m.cards shut i c at in
    let down' = count-none open_card m.cards shut j d at' in
    let m₁ = opened i m c in
    let c' : MemoryCard = record c { is_flipped = true } in
    let d' : MemoryCard = record d { is_flipped = true } in
    let at₁ : get_elem? m₁.cards j ≡ some d = get_elem?-set_ne m.cards c' apart ∙ at' in
    let m₂ = opened j m₁ d in
    let at₂ : get_elem? m₂.cards i ≡ some c' =
      get_elem?-set_ne m₁.cards d' (λ e. apart (sym e))
      ∙ get_elem?-set_self m.cards i c' (get_elem?-lt m.cards i at) in
    let at₂' : get_elem? m₂.cards j ≡ some d' =
      get_elem?-set_self m₁.cards j d' (get_elem?-lt m₁.cards j at₁) in
    let turned : m₂.flipped_indices ≡ i ∷ j ∷ [] =
      ap (λ is. (is ++ i ∷ []) ++ j ∷ []) rest.none_turned in
    let none : length m.flipped_indices ≡ 0 = ap length rest.none_turned in
    let one : length m₁.flipped_indices ≡ 1 = ap (λ is. length (is ++ i ∷ [])) rest.none_turned in
    let first = flip_ok i m c at (ground arith) (omega (arith, none)) in
    let second = flip_ok j m₁ d at₁ (ground arith) (omega (arith, one)) in
    let m₃ = (settle true i j m₂).1 in
    let both : (flip_card j (flip_card i m).1).1 ≡ m₂ =
      ap (λ x. (flip_card j x.1).1) first ∙ ap (λ x. x.1) second in
    let cs = flip i ∷ flip j ∷ check ∷ [] in
    let end : run cs m ≡ m₃ =
      ap (λ x. (check_match x).1) both ∙ check_two i j m₂ c' d' turned at₂ at₂' same in
    let twos = opened-InTwos m₁.cards j d at₁ (opened-InTwos m.cards i c at rest.twos) in
    let rest' : AtRest m₃ = record {
      valid = subst IsValid end (run-IsValid cs m v);
      none_turned = refl;
      twos = matched-InTwos m₂.cards i j c' d' at₂ at₂' apart free free' same twos;
    } in
    (cs, subst AtRest (sym end) rest', ap (λ x. x.matched_pairs) end, ap (λ x. x.total_pairs) end)

run-append : (cs ds : List Call) (m : Memory) → run (cs ++ ds) m ≡ run ds (run cs m)
unfolding run
run-append [] ds m = refl
run-append (c ∷ cs) ds m = run-append cs ds (call c m)

-- The rounds that are left, one for each pair.
all_rounds :
    (left : ℕ) (m : Memory)
    → AtRest m
    → m.matched_pairs + left ≡ m.total_pairs
    → (cs : List Call) × AllMatched (run cs m)
unfolding run
all_rounds zero m rest e = ([], (all_pairs_iff m rest.valid).0 (omega (arith, e)))
all_rounds (suc left) m rest e =
    let (cs, rest', more, total) = one_round m rest (omega (arith, e)) in
    let (ds, all) = all_rounds left (run cs m) rest' (omega (arith, e, more, total)) in
    (cs ++ ds, subst AllMatched (sym (run-append cs ds m)) all)

-- Every deck can be cleared: whatever pairs are stored, also several with one identifier, and however
-- they are shuffled, some sequence of calls leads from the new game to one with every card matched.
pub deck_can_be_cleared :
    (color_of : ℕ → Text) (draw : ℕ → ℕ) (pairs : RawPairs)
    → (cs : List Call) × AllMatched (run cs (construct color_of draw pairs))
unfolding construct
deck_can_be_cleared color_of draw pairs =
    let m = construct color_of draw pairs in
    let rest : AtRest m = record {
      valid = construct-IsValid color_of draw pairs;
      none_turned = refl;
      twos = construct-InTwos color_of draw pairs;
    } in
    all_rounds m.total_pairs m rest (omega arith)
