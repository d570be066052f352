-- ===== src/Snakes/Engine/Board.antt =====
-- SnakeLadderEngine.ts: the pieces stay on the board.
use usbi.Prelude.{ℕ, ◌≤◌, ◌≡◌, some, List, [], ◌∷◌, arith, inl, inr, Bool-cases, Option-cases}
use usbi.Prelude.Int.{ℤ, pos, ◌+ℤ◌, ◌-ℤ◌, ◌≤ℤ◌}
use usbi.Snakes.WeightedRandom.{Draw, IsDraw, scale-lt}
use usbi.Snakes.Engine.{
  Link, SnakeLadderConfig, or_else, same, win_position, find, final_position, bounce, die,
}

-- A cell of a board of `n` cells.
abbrev pub IsCell : ℕ → ℤ → Type 0
IsCell n z = (pos 1 ≤ℤ z) × (z ≤ℤ pos n)

abbrev pub EndsIn : ℕ → List Link → Type 0
EndsIn n [] = Unit {0}
EndsIn n (l ∷ ls) = IsCell n l.end × EndsIn n ls

-- At least seven cells, a start on the board, and links that end on it.
pub record IsBoard (n : ℕ) (c : SnakeLadderConfig) : Type 0 where
  pub long : 7 ≤ n
  pub last : win_position c ≡ pos n
  pub first : IsCell n (or_else c.start_position (pos 1))
  pub snakes_end : EndsIn n c.snakes
  pub ladders_end : EndsIn n c.ladders

pub die_bounds : (d : Draw) → IsDraw d → (1 ≤ die d) × (die d ≤ 6)
unfolding die
die_bounds d h = (omega arith, omega (arith, scale-lt d 6 h (omega arith)))

pub bounce-IsCell :
    (n r : ℕ) (p : ℤ) → 7 ≤ n → r ≤ 6 → IsCell n p → IsCell n (bounce (pos n) (p +ℤ pos r))
unfolding bounce ◌+ℤ◌ ◌-ℤ◌
bounce-IsCell n r p h k (low, high) = ground arith

find-IsCell :
    (n : ℕ) (p : ℤ) (ls : List Link) (l : Link) → EndsIn n ls → find p ls ≡ some l → IsCell n l.end
unfolding find
find-IsCell n p [] l h e = cc
find-IsCell n p (k ∷ ls) l h e = elim (Bool-cases (same k.start p)) [
  | inl t ↦ let q : k ≡ l = ground arith in rw (← q) h.0
  | inr f ↦ find-IsCell n p ls l h.1 (ground arith)
]

pub final_position-IsCell :
    (n : ℕ) (c : SnakeLadderConfig) (p : ℤ)
    → IsBoard n c
    → IsCell n p
    → IsCell n (final_position c p)
unfolding final_position
final_position-IsCell n c p b h = elim (Option-cases (find p c.ladders)) [
  | inr (l, e) ↦ rw (e, final_position) (find-IsCell n p c.ladders l b.ladders_end e)
  | inl e ↦ elim (Option-cases (find p c.snakes)) [
    | inr (s, e') ↦ rw (e, e', final_position) (find-IsCell n p c.snakes s b.snakes_end e')
    | inl e' ↦ rw (e, e', final_position) h
  ]
]
