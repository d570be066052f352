-- ===== src/Memory/Rounds.antt =====
-- MemoryEngine.ts, the constructor, flipCard and checkMatch: what holds throughout a game, when it is
-- over, and what a pair that does not match leaves behind.
use usbi.Prelude.{
  ℕ, ◌+◌, ◌-◌, ◌*◌, ◌≡◌, ◌≢◌, refl, sym, ap, ◌∙◌, Bool, true, false, ◌&&◌, ◌||◌, not, none, some,
  List, [], ◌∷◌, ◌++◌, leb, if◌then◌else◌, length, get_elem?, set, arith, Bool-cases, Option-cases,
  inl, inr, ◌⊎◌, length-set, get_elem?-set_self, get_elem?-set_ne,
}
use mathlib.Core.Path.{subst}
use usbi.Prelude.Slices.{get_elem?-lt}
use usbi.Prelude.Text.{Text, eq_text}
use usbi.Memory.{
  MemoryCard, MemoryPairWithColor, RawPairs, Memory, card, deck, construct, normalize_memory_pairs,
  flip_card, check_match, change, settle, check_indices, set_matched, turn_back,
}
use usbi.Memory.Deck.{count, count-set, count-shuffle, length-deck, doubled, count-deck}

abbrev pub matched : MemoryCard → Bool
matched c = c.is_matched

-- A card that lies open and is not matched yet.
abbrev pub open_card : MemoryCard → Bool
open_card c = c.is_flipped && not c.is_matched

-- The card at the index lies open.
abbrev pub FaceUp : List MemoryCard → ℕ → Type 0
FaceUp cs i = (c : MemoryCard) × (get_elem? cs i ≡ some c) × (open_card c ≡ true)

-- At most two different indices, of cards that lie open.
abbrev pub Turned : List MemoryCard → List ℕ → Type 0
Turned cs [] = Unit {0}
Turned cs (i ∷ []) = FaceUp cs i
Turned cs (i ∷ j ∷ []) = FaceUp cs i × FaceUp cs j × (i ≢ j)
Turned cs (i ∷ j ∷ k ∷ ks) = ⊥

pub record IsValid (m : Memory) : Type 0 where
  pub two_each : length m.cards ≡ 2 * m.total_pairs
  pub in_pairs : count matched m.cards ≡ 2 * m.matched_pairs
  pub turned : Turned m.cards m.flipped_indices
  pub no_other : count open_card m.cards ≡ length m.flipped_indices

doubled_never : (ps : List MemoryPairWithColor) → doubled (λ p. false) ps ≡ 0
unfolding doubled
doubled_never [] = refl
doubled_never (p ∷ ps) = omega (arith, doubled_never ps)

pub construct-IsValid :
    (color_of : ℕ → Text) (draw : ℕ → ℕ) (pairs : RawPairs)
    → IsValid (construct color_of draw pairs)
unfolding construct card
construct-IsValid color_of draw pairs =
    let ps = normalize_memory_pairs color_of pairs in
    let cs = deck 0 ps in
    let (m, l) = count-shuffle matched draw (length cs - 1) cs in
    let (o, _) = count-shuffle open_card draw (length cs - 1) cs in
    let none_matched = count-deck matched (λ p. false) (λ s i p c. refl) 0 ps in
    let none_open = count-deck open_card (λ p. false) (λ s i p c. refl) 0 ps in
    record {
      two_each = l ∙ length-deck 0 ps;
      in_pairs = omega (arith, m, none_matched, doubled_never ps);
      turned = tt;
      no_other = omega (arith, o, none_open, doubled_never ps);
    }

FaceUp-other :
    (cs : List MemoryCard) (i j : ℕ) (v : MemoryCard) → i ≢ j → FaceUp cs j → FaceUp (set cs i v) j
FaceUp-other cs i j v apart (c, at, up) = (c, get_elem?-set_ne cs v apart ∙ at, up)

-- The index of a card that lies face down is not among those turned.
Turned-add :
    (cs : List MemoryCard) (is : List ℕ) (i : ℕ) (c : MemoryCard)
    → get_elem? cs i ≡ some c
    → (c.is_flipped || c.is_matched) ≡ false
    → leb 2 (length is) ≡ false
    → Turned cs is
    → Turned (set cs i (record c { is_flipped = true })) (is ++ i ∷ [])
Turned-add cs [] i c at down few t =
    (record c { is_flipped = true }, get_elem?-set_self cs i _ (get_elem?-lt cs i at), ground arith)
Turned-add cs (j ∷ []) i c at down few (d, at', up) =
    let apart : j ≢ i = λ e.
      let there : get_elem? cs i ≡ some d = subst (λ k. get_elem? cs k ≡ some d) e at' in
      let same : c ≡ d = ground (arith, at, there) in
      let flags : c.is_flipped ≡ d.is_flipped = ap (λ x. x.is_flipped) same in ground arith in
    let opened : MemoryCard = record c { is_flipped = true } in
    (
      FaceUp-other cs i j opened (λ e. apart (sym e)) (d, at', up),
      (opened, get_elem?-set_self cs i opened (get_elem?-lt cs i at), ground arith),
      apart,
    )
Turned-add cs (j ∷ k ∷ []) i c at down few t = absurd (ground arith)
Turned-add cs (j ∷ k ∷ l ∷ ls) i c at down few t = absurd (ground arith)

length-snoc : (is : List ℕ) (i : ℕ) → length (is ++ i ∷ []) ≡ length is + 1
length-snoc [] i = omega arith
length-snoc (j ∷ is) i = omega (arith, length-snoc is i)

-- `flipCard` succeeds exactly when the index is that of a card that lies face down and is not matched
-- while fewer than two cards are turned; it is refused without a change otherwise.
abbrev pub CanFlip : ℕ → Memory → Type 0
CanFlip index m =
    (c : MemoryCard) × (get_elem? m.cards index ≡ some c)
    × ((c.is_flipped || c.is_matched) ≡ false)
    × (leb 2 (length m.flipped_indices) ≡ false)

abbrev pub opened : ℕ → Memory → MemoryCard → Memory
opened index m c = record m {
  cards = set m.cards index (record c { is_flipped = true });
  flipped_indices = m.flipped_indices ++ index ∷ [];
}

pub flip_card_cases :
    (index : ℕ) (m : Memory)
    → (flip_card index m ≡ (false, m))
      ⊎ (ok : CanFlip index m) × (flip_card index m ≡ (true, opened index m ok.0))
unfolding flip_card
flip_card_cases index m = elim (Option-cases (get_elem? m.cards index)) [
  | inl e ↦ inl (rw e refl)
  | inr (c, e) ↦ elim (Bool-cases (c.is_flipped || c.is_matched)) [
    | inl up ↦ inl (rw e (ground arith))
    | inr down ↦ elim (Bool-cases (leb 2 (length m.flipped_indices))) [
      | inl full ↦ inl (rw e (ground arith))
      | inr few ↦ inr ((c, e, down, few), rw e (ground arith))
    ]
  ]
]

pub flip_card-IsValid : (index : ℕ) (m : Memory) → IsValid m → IsValid (flip_card index m).1
flip_card-IsValid index m v = elim (flip_card_cases index m) [
  | inl e ↦ rw e v
  | inr ((c, at, down, few), e) ↦
      let up : MemoryCard = record c { is_flipped = true } in
      let was = count-set matched m.cards index c up at in
      let now = count-set open_card m.cards index c up at in
      rw e (record {
        two_each = length-set m.cards index up ∙ v.two_each;
        in_pairs = ground (arith, was, v.in_pairs);
        turned = Turned-add m.cards m.flipped_indices index c at down few v.turned;
        no_other = ground (arith, now, v.no_other, length-snoc m.flipped_indices index);
      })
]

pub change_two :
    (f : MemoryCard → MemoryCard) (i j : ℕ) (cs : List MemoryCard) (c d : MemoryCard)
    → get_elem? cs i ≡ some c
    → get_elem? cs j ≡ some d
    → i ≢ j
    → change f j (change f i cs) ≡ set (set cs i (f c)) j (f d)
unfolding change
change_two f i j cs c d at at' apart = simp (at, get_elem?-set_ne cs (f c) apart, at')

-- Two changes of the same kind, counted.
pub count-two :
    (p : MemoryCard → Bool) (f : MemoryCard → MemoryCard) (i j : ℕ) (cs : List MemoryCard)
    (c d : MemoryCard)
    → get_elem? cs i ≡ some c
    → get_elem? cs j ≡ some d
    → i ≢ j
    → count p (set (set cs i (f c)) j (f d)) + (if p c then 1 else 0) + (if p d then 1 else 0)
      ≡ count p cs + (if p (f c) then 1 else 0) + (if p (f d) then 1 else 0)
count-two p f i j cs c d at at' apart = omega (
  arith,
  count-set p cs i c (f c) at,
  count-set p (set cs i (f c)) j d (f d) (get_elem?-set_ne cs (f c) apart ∙ at'),
)

settled-IsValid :
    (same : Bool) (i j : ℕ) (m : Memory)
    → IsValid m
    → FaceUp m.cards i
    → FaceUp m.cards j
    → i ≢ j
    → length m.flipped_indices ≡ 2
    → IsValid (settle same i j m).1
settled-IsValid true i j m v (c, at, up) (d, at', up') apart two =
    let cs' = set (set m.cards i (set_matched c)) j (set_matched d) in
    let now = count-two matched set_matched i j m.cards c d at at' apart in
    let shown = count-two open_card set_matched i j m.cards c d at at' apart in
    simp (change_two set_matched i j m.cards c d at at' apart) (record {
      two_each =
          length-set (set m.cards i (set_matched c)) j (set_matched d)
          ∙ length-set m.cards i (set_matched c)
          ∙ v.two_each;
      in_pairs = ground (arith, now, v.in_pairs);
      turned = tt;
      no_other = ground (arith, shown, v.no_other);
    })
settled-IsValid false i j m v (c, at, up) (d, at', up') apart two =
    let now = count-two matched turn_back i j m.cards c d at at' apart in
    let shown = count-two open_card turn_back i j m.cards c d at at' apart in
    simp (change_two turn_back i j m.cards c d at at' apart) (record {
      two_each =
          length-set (set m.cards i (turn_back c)) j (turn_back d)
          ∙ length-set m.cards i (turn_back c)
          ∙ v.two_each;
      in_pairs = ground (arith, now, v.in_pairs);
      turned = tt;
      no_other = ground (arith, shown, v.no_other);
    })

-- What `checkMatch` does: nothing unless two cards are turned, which are then compared.
abbrev pub TwoTurned : Memory → Type 0
TwoTurned m =
    (i : ℕ) × (j : ℕ) × (c : MemoryCard) × (d : MemoryCard) × (m.flipped_indices ≡ i ∷ j ∷ [])
    × (get_elem? m.cards i ≡ some c)
    × (get_elem? m.cards j ≡ some d)
    × (open_card c ≡ true)
    × (open_card d ≡ true)
    × (i ≢ j)

check_cases :
    (is : List ℕ) (m : Memory)
    → m.flipped_indices ≡ is
    → Turned m.cards is
    → (check_indices is m ≡ (none, m))
      ⊎ (t : TwoTurned m) × (let r = settle (eq_text t.2.pair_id t.3.pair_id) t.0 t.1 m in
          check_indices is m ≡ (some r.0, r.1))
check_cases [] m e t = inl refl
check_cases (i ∷ []) m e t = inl refl
check_cases (i ∷ j ∷ []) m e ((c, at, up), (d, at', up'), apart) =
    inr ((i, j, c, d, e, at, at', up, up', apart), rw (at, at') refl)
check_cases (i ∷ j ∷ k ∷ ks) m e t = elim t [ ]

pub check_match_cases :
    (m : Memory)
    → IsValid m
    → (check_match m ≡ (none, m))
      ⊎ (t : TwoTurned m) × (let r = settle (eq_text t.2.pair_id t.3.pair_id) t.0 t.1 m in
          check_match m ≡ (some r.0, r.1))
unfolding check_match
check_match_cases m v = check_cases m.flipped_indices m refl v.turned

pub check_match-IsValid : (m : Memory) → IsValid m → IsValid (check_match m).1
check_match-IsValid m v = elim (check_match_cases m v) [
  | inl e ↦ rw e v
  | inr ((i, j, c, d, is, at, at', up, up', apart), e) ↦ rw e (
      settled-IsValid (eq_text c.pair_id d.pair_id) i j m v (c, at, up) (d, at', up') apart
        (ap length is))
]
