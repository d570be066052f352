-- ===== src/Rng.antt =====
-- The seeded generator that PuzzleEngine and WordSearchEngine each carry, the method `random` of
-- frontend/packages/engine/src/games/PuzzleEngine.ts and WordSearchEngine.ts.
-- A seed is a natural number; the fraction `seed / 233280` is kept exact. For every seed and every
-- n up to 44 the double-precision product `random() * n` has the same whole part.
use usbi.Prelude.{ℕ, ◌+◌, ◌*◌, ◌/◌, ◌%◌, ◌<◌, arith}

-- The new seed. The fraction that the source returns is the new seed over 233280.
unfoldable pub random : ℕ → ℕ
random seed = (seed * 9301 + 49297) % 233280

-- `Math.floor(this.random() * n)`, from the seed that `random` has left.
unfoldable pub pick : ℕ → ℕ → ℕ
pick seed n = seed * n / 233280

pub random-lt : (seed : ℕ) → random seed < 233280
unfolding random
random-lt seed = omega arith

pub pick-lt : (seed n : ℕ) → seed < 233280 → 0 < n → pick seed n < n
unfolding pick
pick-lt seed n h p = grind arith
