-- ===== src/Memory/Left.antt =====
-- MemoryEngine.ts, a deck in play: the open cards of a pair, and that two of one pair are left.
use usbi.Prelude.{
  ℕ, zero, suc, ◌+◌, ◌-◌, ◌*◌, ◌<◌, ◌≡◌, ◌≢◌, refl, sym, ap, ◌∙◌, Bool, true, false, ◌&&◌, not,
  some, List, [], ◌∷◌, if◌then◌else◌, length, get_elem?, set, arith, Bool-cases, inl, inr,
  get_elem?-set_self, get_elem?-set_ne,
}
use mathlib.Core.Path.{subst}
use usbi.Prelude.Slices.{get_elem?-lt}
use usbi.Prelude.Text.{Text, eq_text, eq_text_self, eq_text-sym}
use usbi.Memory.{
  MemoryCard, MemoryPairWithColor, RawPairs, card, deck, construct, normalize_memory_pairs,
  set_matched,
}
use usbi.Memory.Deck.{count, count-set, count-shuffle, doubled, count-deck}
use usbi.Memory.Rounds.{matched}

-- An open pair of the identifier.
abbrev pub unmatched : Text → MemoryCard → Bool
unmatched p c = not c.is_matched && eq_text c.pair_id p

-- The cards of the identifier that are left come in twos.
abbrev pub InTwos : List MemoryCard → Type 0
InTwos cs = (p : Text) → (k : ℕ) × (count (unmatched p) cs ≡ 2 * k)

doubled_even :
    (q : MemoryPairWithColor → Bool) (ps : List MemoryPairWithColor)
    → (k : ℕ) × (doubled q ps ≡ 2 * k)
unfolding doubled
doubled_even q [] = (0, omega arith)
doubled_even q (p ∷ ps) =
    let (k, e) = doubled_even q ps in ((if q p then 1 else 0) + k, ground (arith, e))

pub construct-InTwos :
    (color_of : ℕ → Text) (draw : ℕ → ℕ) (pairs : RawPairs)
    → InTwos (construct color_of draw pairs).cards
unfolding construct card
construct-InTwos color_of draw pairs p =
    let ps = normalize_memory_pairs color_of pairs in
    let cs = deck 0 ps in
    let q : MemoryPairWithColor → Bool = λ pair. eq_text pair.id p in
    let (c, _) = count-shuffle (unmatched p) draw (length cs - 1) cs in
    let (k, e) = doubled_even q ps in
    (k, c ∙ count-deck (unmatched p) q (λ s i pair t. refl) 0 ps ∙ e)

-- A count that is not 0 counts some card.
find_card :
    (p : MemoryCard → Bool) (cs : List MemoryCard)
    → 0 < count p cs
    → (i : ℕ) × (c : MemoryCard) × (get_elem? cs i ≡ some c) × (p c ≡ true)
unfolding count
find_card p [] h = absurd (omega arith)
find_card p (d ∷ cs) h = elim (Bool-cases (p d)) [
  | inl e ↦ (0, d, refl, e)
  | inr e ↦ let (i, c, at, t) = find_card p cs (ground arith) in (suc i, c, at, t)
]

-- No card of the test is counted nowhere.
pub count-none :
    (p : MemoryCard → Bool) (cs : List MemoryCard)
    → count p cs ≡ 0
    → (i : ℕ) (c : MemoryCard) → get_elem? cs i ≡ some c
    → p c ≡ false
unfolding count
count-none p [] n i c h = cc
count-none p (d ∷ cs) n zero c h = let e : d ≡ c = ground arith in rw (← e) (ground arith)
count-none p (d ∷ cs) n (suc i) c h = count-none p cs (ground arith) i c h

count-not :
    (p : MemoryCard → Bool) (cs : List MemoryCard)
    → count p cs + count (λ c. not (p c)) cs ≡ length cs
unfolding count
count-not p [] = refl
count-not p (c ∷ cs) = ground (arith, count-not p cs)

-- While not every card is matched, two cards of one pair are left.
pub two_left :
    (cs : List MemoryCard)
    → InTwos cs
    → count matched cs < length cs
    → (i : ℕ) × (j : ℕ) × (c : MemoryCard) × (d : MemoryCard) × (get_elem? cs i ≡ some c)
      × (get_elem? cs j ≡ some d)
      × (c.is_matched ≡ false)
      × (d.is_matched ≡ false)
      × (i ≢ j)
      × (eq_text c.pair_id d.pair_id ≡ true)
two_left cs twos some_left =
    let (i, c, at, free) =
      find_card (λ x. not x.is_matched) cs (omega (arith, count-not matched cs, some_left)) in
    let p = c.pair_id in
    let self = eq_text_self p in
    let this : unmatched p c ≡ true = ground arith in
    let less = count-set (unmatched p) cs i c (set_matched c) at in
    let (k, even) = twos p in
    let others : 0 < count (unmatched p) (set cs i (set_matched c)) = ground (arith, less, even) in
    let (j, d, at', same) = find_card (unmatched p) (set cs i (set_matched c)) others in
    let apart : i ≢ j = λ e.
      let here : get_elem? (set cs i (set_matched c)) j ≡ some (set_matched c) =
        subst (λ n. get_elem? (set cs i (set_matched c)) n ≡ some (set_matched c)) e
          (get_elem?-set_self cs i (set_matched c) (get_elem?-lt cs i at)) in
      let eq : d ≡ set_matched c = ground (arith, at', here) in
      let flag : d.is_matched ≡ true = ap (λ x. x.is_matched) eq in ground arith in
    (
      i,
      j,
      c,
      d,
      at,
      sym (get_elem?-set_ne cs (set_matched c) apart) ∙ at',
      ground arith,
      ground arith,
      apart,
      eq_text-sym c.pair_id d.pair_id ∙ ground arith,
    )
