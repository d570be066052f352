-- ===== src/FakeNews.antt =====
-- frontend/packages/engine/src/games/FakeNewsEngine.ts: the player calls each item fake or true.
mod Examples
pub mod Score
use Prim.Native.String.{String}
use usbi.Prelude.{
  ℕ, suc, ◌+◌, Bool, true, false, Option, none, some, List, [], ◌∷◌, leb, if◌then◌else◌, length,
  get_elem?,
}

pub record FakeNewsItem : Type 0 where
  pub title : String
  pub content : String
  pub is_fake : Bool
  pub explanation : Option String
  pub image_url : Option String
  pub reference : String

pub record FakeNews : Type 0 where
  pub news : List FakeNewsItem
  pub current_index : ℕ
  pub score : ℕ

unfoldable pub construct : List FakeNewsItem → FakeNews
construct news = record { news = news; current_index = 0; score = 0 }

unfoldable pub get_current_item : FakeNews → Option FakeNewsItem
get_current_item e =
    if leb (length e.news) e.current_index then none else get_elem? e.news e.current_index

-- `a === b` on booleans
abbrev pub agrees : Bool → Bool → Bool
agrees true true = true
agrees true false = false
agrees false true = false
agrees false false = true

unfoldable pub answer : Bool → FakeNews → Bool × FakeNews
unfolding get_current_item
answer is_fake e = elim (get_current_item e) [
  | none ↦ (false, e)
  | some item ↦
      let correct = agrees item.is_fake is_fake in
      (
        correct,
        record e {
          score = if correct then e.score + 1 else e.score;
          current_index = e.current_index + 1;
        },
      )
]

unfoldable pub is_game_over : FakeNews → Bool
is_game_over e = leb (length e.news) e.current_index

unfoldable pub get_score : FakeNews → ℕ
get_score e = e.score

unfoldable pub get_max_score : FakeNews → ℕ
get_max_score e = length e.news

unfoldable pub answers : List Bool → FakeNews → FakeNews
answers [] e = e
answers (b ∷ bs) e = answers bs (answer b e).1
