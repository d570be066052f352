-- ===== src/Snakes/WeightedRandom.antt =====
-- frontend/packages/engine/src/games/snakes/WeightedRandom.ts.
-- A draw of `random()` is a fraction num / den in [0, 1), and the weights are integers in a common
-- unit, so that the sums and differences of the source are exact.
use usbi.Prelude.{
  ℕ, zero, suc, ◌+◌, ◌-◌, ◌*◌, ◌/◌, leb, ◌⊎◌, ◌≤◌, ◌<◌, ◌≡◌, refl, ap, false, not, Option, none,
  some, List, [], ◌∷◌, ◌==◌, if◌then◌else◌, length, get_elem?, arith, inl, inr, Bool-cases,
}
use usbi.Prelude.Int.{ℤ, pos, pos_part, ltb_ℤ}

pub record Draw : Type 0 where
  pub num : ℕ
  pub den : ℕ

abbrev pub IsDraw : Draw → Type 0
IsDraw d = d.num < d.den

-- `Math.floor(random() * n)`
unfoldable pub scale : Draw → ℕ → ℕ
scale d n = d.num * n / d.den

pub scale-lt : (d : Draw) (n : ℕ) → IsDraw d → 0 < n → scale d n < n
unfolding scale
scale-lt d n h p = grind arith

pub data Error : Type 0 where
  invalid_options negative_weight zero_total : Error

pub data Result {ℓ} (A : Type ℓ) : Type ℓ where
  ok : A → Result A
  err : Error → Result A

-- The loop that adds the weights up; `none` is the throw on a negative one.
unfoldable pub sum_weights : List ℤ → ℕ → Option ℕ
sum_weights [] sum = some sum
sum_weights (w ∷ ws) sum =
    let rest = sum_weights ws (sum + pos_part w) in if ltb_ℤ w (pos 0) then none else rest

module _ {ℓ} {A : Type ℓ} where
  -- The second loop, on `r` times the denominator. It stops as soon as `r` is not positive, so `-`
  -- on ℕ loses nothing. `last` is `options[options.length - 1]`.
  unfoldable pub pick_loop : List A → List ℤ → ℕ → ℕ → A → A
  pick_loop [] ws den r last = last
  pick_loop (o ∷ os) [] den r last = last
  pick_loop (o ∷ os) (w ∷ ws) den r last =
      let rest = pick_loop os ws den (r - pos_part w * den) last in
      if leb r (pos_part w * den) then o else rest

  abbrev pub last_or : A → List A → A
  last_or a [] = a
  last_or a (o ∷ os) = last_or o os

  unfoldable pub weighted_random : List A → List ℤ → Draw → Result A
  unfolding sum_weights pick_loop
  weighted_random [] weights d = err invalid_options
  weighted_random (o ∷ os) weights d =
      if not (length (o ∷ os) == length weights)
      then err invalid_options
      else elim (sum_weights weights 0) [
        | none ↦ err negative_weight
        | some sum ↦
            if sum == 0
            then err zero_total
            else ok (pick_loop (o ∷ os) weights d.den (d.num * sum) (last_or o os))
      ]

-- The weights before index i.
abbrev pub weight_before : List ℤ → ℕ → ℕ
weight_before [] i = 0
weight_before (w ∷ ws) zero = 0
weight_before (w ∷ ws) (suc i) = pos_part w + weight_before ws i

abbrev pub NonNegative : List ℤ → Type 0
NonNegative [] = Unit {0}
NonNegative (w ∷ ws) = (ltb_ℤ w (pos 0) ≡ false) × NonNegative ws

abbrev pub total : List ℤ → ℕ
total [] = 0
total (w ∷ ws) = pos_part w + total ws

sum_weights-total :
    (ws : List ℤ) (sum : ℕ) → NonNegative ws → sum_weights ws sum ≡ some (sum + total ws)
unfolding sum_weights
sum_weights-total [] sum h = ap some (omega arith)
sum_weights-total (w ∷ ws) sum h =
    let e : sum + (pos_part w + total ws) ≡ sum + pos_part w + total ws = omega arith in
    rw (h.0, e) (sum_weights-total ws (sum + pos_part w) h.1)

weight_before-zero : (ws : List ℤ) → weight_before ws 0 ≡ 0
weight_before-zero [] = refl
weight_before-zero (w ∷ ws) = refl

later :
    (w : ℤ) (ws : List ℤ) (den r i : ℕ)
    → leb r (pos_part w * den) ≡ false
    → (i ≡ 0) ⊎ (weight_before ws i * den < r - pos_part w * den)
    → weight_before (w ∷ ws) (suc i) * den < r
later w ws den r i e (inl z) = rw (z, weight_before-zero ws) (ground arith)
later w ws den r i e (inr h) = ground arith

module _ {ℓ} {A : Type ℓ} where
  -- The draw, times the total, lies in the stretch of the option that is picked.
  abbrev pub Picks : List A → List ℤ → ℕ → ℕ → A → Type ℓ
  Picks os ws den r a =
      (i : ℕ) × (get_elem? os i ≡ some a)
      × ((i ≡ 0) ⊎ (weight_before ws i * den < r))
      × (r ≤ weight_before ws (suc i) * den)

  only :
      (o : A) (w : ℤ) (den r : ℕ) (last : A)
      → r ≤ pos_part w * den
      → pick_loop (o ∷ []) (w ∷ []) den r last ≡ o
  unfolding pick_loop
  only o w den r last h = ground arith

  pick_loop-Picks :
      (os : List A) (ws : List ℤ) (den r : ℕ) (last : A)
      → length os ≡ length ws
      → 0 < length os
      → r ≤ total ws * den
      → Picks os ws den r (pick_loop os ws den r last)
  unfolding pick_loop
  pick_loop-Picks [] ws den r last n h k = absurd (omega arith)
  pick_loop-Picks (o ∷ os) [] den r last n h k = absurd (omega arith)
  pick_loop-Picks (o ∷ []) (w ∷ []) den r last n h k =
      let fits : r ≤ pos_part w * den = grind arith in
      rw (only o w den r last fits) (0, refl, inl refl, grind arith)
  pick_loop-Picks (o ∷ []) (w ∷ w' ∷ ws) den r last n h k = absurd (omega arith)
  pick_loop-Picks (o ∷ p ∷ os) (w ∷ ws) den r last n h k =
      elim (Bool-cases (leb r (pos_part w * den))) [
        | inl e ↦ rw (e, pick_loop) (0, refl, inl refl, ground (arith, weight_before-zero ws))
        | inr e ↦
            let left : r - pos_part w * den ≤ total ws * den = ground arith in
            let (i, at, above, below) =
              pick_loop-Picks (p ∷ os) ws den (r - pos_part w * den) last (omega arith)
                (omega arith) left in
            rw (e, pick_loop) (suc i, at, inr (later w ws den r i e above), ground arith)
      ]

-- With as many non-negative weights as options and a positive total the call returns an option, and
-- it is the one in whose stretch of the total weight the draw falls: the draw is above the weights
-- before that option (or the option is the first) and at most the weights up to it.
pub weighted_random_correct {ℓ} :
    {A : Type ℓ} (o : A) (os : List A) (ws : List ℤ) (d : Draw)
    → length (o ∷ os) ≡ length ws
    → NonNegative ws
    → 0 < total ws
    → IsDraw d
    → (a : A) × (weighted_random (o ∷ os) ws d ≡ ok a)
      × Picks (o ∷ os) ws d.den (d.num * total ws) a
unfolding weighted_random
weighted_random_correct o os ws d n h t k =
    let most : d.num * total ws ≤ total ws * d.den = grind arith in
    (
      pick_loop (o ∷ os) ws d.den (d.num * total ws) (last_or o os),
      ground (arith, sum_weights-total ws 0 h),
      pick_loop-Picks (o ∷ os) ws d.den (d.num * total ws) (last_or o os) n (omega arith) most,
    )
