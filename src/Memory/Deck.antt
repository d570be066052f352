-- ===== src/Memory/Deck.antt =====
-- MemoryEngine.ts, the deck: counting its cards, and the two cards of every pair.
use usbi.Prelude.{
  ℕ, zero, suc, ◌+◌, ◌*◌, ◌≤◌, ◌≡◌, refl, ◌∙◌, Bool, true, some, List, [], ◌∷◌, if◌then◌else◌,
  length, get_elem?, set, arith, Option-cases, inl, inr, length-set,
}
use usbi.Prelude.Swap.{swap, read_after_write}
use usbi.Prelude.Text.{Text}
use usbi.Memory.{MemoryCard, MemoryPairWithColor, card, deck, shuffle}

unfoldable pub count : (MemoryCard → Bool) → List MemoryCard → ℕ
count p [] = 0
count p (c ∷ cs) = (if p c then 1 else 0) + count p cs

pub count-set :
    (p : MemoryCard → Bool) (cs : List MemoryCard) (i : ℕ) (c v : MemoryCard)
    → get_elem? cs i ≡ some c
    → count p (set cs i v) + (if p c then 1 else 0) ≡ count p cs + (if p v then 1 else 0)
unfolding count
count-set p [] i c v h = cc
count-set p (d ∷ cs) zero c v h = let e : d ≡ c = ground arith in rw e (omega arith)
count-set p (d ∷ cs) (suc i) c v h = omega (arith, count-set p cs i c v h)

pub count-le : (p : MemoryCard → Bool) (cs : List MemoryCard) → count p cs ≤ length cs
unfolding count
count-le p [] = omega arith
count-le p (c ∷ cs) = ground (arith, count-le p cs)

-- Every card passes the test.
abbrev pub All : (MemoryCard → Bool) → List MemoryCard → Type 0
All p [] = Unit {0}
All p (c ∷ cs) = (p c ≡ true) × All p cs

pub count-All : (p : MemoryCard → Bool) (cs : List MemoryCard) → count p cs ≡ length cs → All p cs
unfolding count
count-All p [] n = tt
count-All p (c ∷ cs) n =
    (ground (arith, count-le p cs), count-All p cs (ground (arith, count-le p cs)))

pub All-count : (p : MemoryCard → Bool) (cs : List MemoryCard) → All p cs → count p cs ≡ length cs
unfolding count
All-count p [] a = refl
All-count p (c ∷ cs) (e, a) = ground (arith, All-count p cs a)

-- A swap leaves every count as it is.
count-swap :
    (p : MemoryCard → Bool) (cs : List MemoryCard) (i j : ℕ)
    → (count p (swap cs i j) ≡ count p cs) × (length (swap cs i j) ≡ length cs)
unfolding swap
count-swap p cs i j = elim (Option-cases (get_elem? cs i)) [
  | inl e ↦ rw (e, swap) (refl, refl)
  | inr (a, e) ↦ elim (Option-cases (get_elem? cs j)) [
    | inl n ↦ rw (e, n, swap) (refl, refl)
    | inr (b, f) ↦
        let one = count-set p cs i a b e in
        let two = count-set p (set cs i b) j b a (read_after_write cs i j e f) in
        rw (e, f, swap) (omega (arith, one, two), length-set (set cs i b) j a ∙ length-set cs i b)
  ]
]

pub count-shuffle :
    (p : MemoryCard → Bool) (draw : ℕ → ℕ) (i : ℕ) (cs : List MemoryCard)
    → (count p (shuffle draw i cs) ≡ count p cs) × (length (shuffle draw i cs) ≡ length cs)
unfolding shuffle
count-shuffle p draw zero cs = (refl, refl)
count-shuffle p draw (suc i) cs =
    let (a, b) = count-shuffle p draw i (swap cs (suc i) (draw (suc i))) in
    let (c, d) = count-swap p cs (suc i) (draw (suc i)) in (a ∙ c, b ∙ d)

pub length-deck :
    (index : ℕ) (ps : List MemoryPairWithColor) → length (deck index ps) ≡ 2 * length ps
unfolding deck
length-deck index [] = omega arith
length-deck index (p ∷ ps) = omega (arith, length-deck (index + 1) ps)

-- Twice the number of pairs of which the test holds.
unfoldable pub doubled : (MemoryPairWithColor → Bool) → List MemoryPairWithColor → ℕ
doubled q [] = 0
doubled q (p ∷ ps) = (if q p then 2 else 0) + doubled q ps

-- A test that does not look at the content holds of both cards of a pair or of neither.
pub count-deck :
    (t : MemoryCard → Bool) (q : MemoryPairWithColor → Bool)
    → ((side index : ℕ) (p : MemoryPairWithColor) (content : Text)
        → t (card side index p content) ≡ q p)
    → (index : ℕ) (ps : List MemoryPairWithColor) → count t (deck index ps) ≡ doubled q ps
unfolding count deck doubled
count-deck t q same index [] = refl
count-deck t q same index (p ∷ ps) =
    let one = same 1 index p p.content1 in
    let two = same 2 index p p.content2 in
    let rest = count-deck t q same (index + 1) ps in simp (one, two, rest) (ground arith)
