-- ===== src/Prelude/Channel.antt =====
-- The listeners of an engine: `subscribe`, `notify` and `destroy` are the same few lines in
-- frontend/packages/engine/src/games/TriviaEngine.ts, PuzzleEngine.ts, WordSearchEngine.ts and
-- CrosswordEngine.ts. A listener is a number; what is delivered to it is recorded in order.
-- A listener is taken not to call the engine back while it is being notified.
use Prim.Native.Nat.{ℕ}
use mathlib.Core.List.{List, [], ◌∷◌, ◌++◌, map}
use usbi.Prelude.Sets.{contains}
use usbi.Prelude.Tests.{◌==◌, if◌then◌else◌}

pub record Channel {ℓ} (S : Type ℓ) : Type ℓ where
  pub listeners : List ℕ
  pub delivered : List (ℕ × S)

remove : List ℕ → ℕ → List ℕ
remove [] l = []
remove (k ∷ ks) l = let rest = remove ks l in if k == l then rest else k ∷ rest

module _ {ℓ} {S : Type ℓ} where
  abbrev pub silent : Channel S
  silent = record { listeners = []; delivered = [] }

  -- `listeners.add(listener); listener(state)`
  unfoldable pub subscribe : ℕ → S → Channel S → Channel S
  unfolding contains
  subscribe l s c = record {
    listeners = if contains c.listeners l then c.listeners else c.listeners ++ l ∷ [];
    delivered = c.delivered ++ (l, s) ∷ [];
  }

  -- the function that `subscribe` returns
  unfoldable pub unsubscribe : ℕ → Channel S → Channel S
  unfolding remove
  unsubscribe l c = record c { listeners = remove c.listeners l }

  unfoldable pub notify : S → Channel S → Channel S
  notify s c = record c { delivered = c.delivered ++ map (λ l. (l, s)) c.listeners }

  unfoldable pub clear : Channel S → Channel S
  clear c = record c { listeners = [] }
