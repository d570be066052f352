-- ===== src/FakeNews/Score.antt =====
-- FakeNewsEngine.ts: a game from its first item, under any list of answers.
use usbi.Prelude.{
  ℕ, ◌+◌, ◌≤◌, ◌<◌, min, ◌≡◌, refl, ◌↔◌, Bool, true, some, List, [], ◌∷◌, if◌then◌else◌, length,
  get_elem?, drop, arith,
}
use usbi.Prelude.Slices.{drop-cons, drop-eq-nil}
use usbi.FakeNews.{
  FakeNewsItem, FakeNews, construct, agrees, answer, is_game_over, get_score, get_max_score,
  answers,
}

-- How many answers agree with the items that they meet.
abbrev pub hits : List FakeNewsItem → List Bool → ℕ
hits [] bs = 0
hits (n ∷ ns) [] = 0
hits (n ∷ ns) (b ∷ bs) = (if agrees n.is_fake b then 1 else 0) + hits ns bs

answers-over : (bs : List Bool) (e : FakeNews) → length e.news ≤ e.current_index → answers bs e ≡ e
unfolding answers answer
answers-over [] e h = refl
answers-over (b ∷ bs) e h = ground (arith, answers-over bs e)

answer-item :
    (b : Bool) (n : FakeNewsItem) (e : FakeNews)
    → get_elem? e.news e.current_index ≡ some n
    → e.current_index < length e.news
    → ((answer b e).1.score ≡ e.score + (if agrees n.is_fake b then 1 else 0))
      × ((answer b e).1.current_index ≡ e.current_index + 1)
      × ((answer b e).1.news ≡ e.news)
unfolding answer
answer-item b n e h k = ground arith

answers-hits :
    (left : List FakeNewsItem) (bs : List Bool) (e : FakeNews)
    → drop e.current_index e.news ≡ left
    → ((answers bs e).score ≡ e.score + hits left bs)
      × ((answers bs e).current_index ≡ e.current_index + min (length left) (length bs))
      × ((answers bs e).news ≡ e.news)
unfolding answers
answers-hits [] bs e h =
    rw (answers-over bs e (drop-eq-nil e.current_index e.news h)) (omega arith, omega arith, refl)
answers-hits (n ∷ ns) [] e h = (omega arith, omega arith, refl)
answers-hits (n ∷ ns) (b ∷ bs) e h =
    let (found, rest, size) = drop-cons e.current_index e.news ns n h in
    let (made, at, kept) = answer-item b n e found (omega (arith, size)) in
    let ih = answers-hits ns bs (answer b e).1 (rw (at, kept) rest) in
    (ground arith, ground arith, ground arith)

hits-le : (ns : List FakeNewsItem) (bs : List Bool) → hits ns bs ≤ min (length ns) (length bs)
hits-le [] bs = omega arith
hits-le (n ∷ ns) [] = omega arith
hits-le (n ∷ ns) (b ∷ bs) = ground (arith, hits-le ns bs)

-- After any list of answers the score is the number of answers that agree with the item that they
-- meet, and is at most the maximal score; the game is over exactly when there were at least as many
-- answers as items.
pub answers_correct :
    (news : List FakeNewsItem) (bs : List Bool)
    → let e = answers bs (construct news) in
      (get_score e ≡ hits news bs)
      × (get_score e ≤ get_max_score e)
      × ((is_game_over e ≡ true) ↔ (length news ≤ length bs))
unfolding get_score get_max_score is_game_over construct
answers_correct news bs =
    let (score, at, kept) = answers-hits news bs (construct news) refl in
    let most = hits-le news bs in
    (ground arith, ground arith, (λ h. ground arith, λ h. ground arith))

-- After as many answers as there are items no further answers change anything.
pub answers_after_the_end :
    (news : List FakeNewsItem) (bs more : List Bool)
    → length news ≤ length bs
    → answers more (answers bs (construct news)) ≡ answers bs (construct news)
unfolding construct
answers_after_the_end news bs more h =
    let (_, at, kept) = answers-hits news bs (construct news) refl in
    answers-over more _ (ground arith)
