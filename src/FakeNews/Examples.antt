-- ===== src/FakeNews/Examples.antt =====
-- FakeNewsEngine.ts: two items, answered.
use usbi.Prelude.{◌≡◌, ◌≤◌, ◌↔◌, true, false, none, List, [], ◌∷◌, length}
use usbi.FakeNews.{FakeNewsItem, construct, answers, is_game_over, get_score, get_max_score}
use usbi.FakeNews.Score.{hits, answers_correct}

abbrev rumour : FakeNewsItem
rumour = record {
  title = "Rumor";
  content = "Sin fuente";
  is_fake = true;
  explanation = none;
  image_url = none;
  reference = "ninguna";
}

abbrev items : List FakeNewsItem
items = rumour ∷ record rumour { is_fake = false } ∷ []

answers_correct_example :
    (get_score (answers (true ∷ true ∷ []) (construct items)) ≡ hits items (true ∷ true ∷ []))
    × (get_score (answers (true ∷ true ∷ []) (construct items))
        ≤ get_max_score (answers (true ∷ true ∷ []) (construct items)))
    × ((is_game_over (answers (true ∷ true ∷ []) (construct items)) ≡ true)
        ↔ (length items ≤ length (true ∷ true ∷ [])))
answers_correct_example = answers_correct items (true ∷ true ∷ [])
