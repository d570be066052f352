-- ===== src/Content/Examples.antt =====
-- Stored content: a question that is kept and one whose answer is out of range.
use usbi.Prelude.{◌≡◌, refl, true, none, some, [], ◌∷◌}
use usbi.Prelude.Int.{pos}
use usbi.Prelude.Sets.{keep}
use usbi.Prelude.Text.{eq_text, trim, trim_start, is_space}
use usbi.Content.Json.{
  Value, Number, object, field, end, key_questions, to_list, from_list, lookup, only_texts,
  non_negative, below,
}
use usbi.Content.{
  map_items, read_question, is_playable, is_complete_news, is_clued, is_long, MultipleChoice,
  FakeNewsItem, CrosswordWord, WordSearch, normalize_trivia_content, normalize_fake_news_content,
  normalize_crossword_content, normalize_word_search_content,
}
use usbi.Content.Playable.{AllPlayable, normalize_trivia_content-AllPlayable}
use usbi.Content.Kept.{
  stored_trivia, stored_news, stored_crossword, stored_word_search, stored_content_is_kept,
}

abbrev number : Number
number = record { mantissa = pos 1; places = 0 }

abbrev question : Number → MultipleChoice
question n = record {
  question = b'q' ∷ [];
  options = (b'a' ∷ []) ∷ (b'b' ∷ []) ∷ [];
  correct_index = n;
  media_url = none;
}

abbrev three : Number
three = record { mantissa = pos 3; places = 0 }

abbrev two_questions : Value
two_questions =
    object (field key_questions (stored_trivia (question number ∷ question three ∷ [])) end)

normalize_trivia_content-AllPlayable_example : AllPlayable (question number ∷ [])
unfolding normalize_trivia_content map_items read_question is_playable non_negative below lookup
    eq_text to_list from_list only_texts keep
normalize_trivia_content-AllPlayable_example =
    normalize_trivia_content-AllPlayable two_questions (question number ∷ []) refl

abbrev news : FakeNewsItem
news = record {
  title = b't' ∷ [];
  content = b'c' ∷ [];
  is_fake = true;
  explanation = some (b'e' ∷ []);
  image_url = none;
  reference = [];
}

abbrev clue : CrosswordWord
clue = record { word = b'S' ∷ b'O' ∷ b'L' ∷ []; clue = b'x' ∷ [] }

abbrev search : WordSearch
search = record {
  words = (b'S' ∷ b'O' ∷ b'L' ∷ []) ∷ [];
  width = some three;
  height = none;
  seed = none;
}

stored_content_is_kept_example :
    (normalize_trivia_content (stored_trivia (question number ∷ [])) ≡ some (question number ∷ []))
    × (normalize_fake_news_content (stored_news (news ∷ [])) ≡ some (news ∷ []))
    × (normalize_crossword_content (stored_crossword (clue ∷ [])) ≡ some (clue ∷ []))
    × (normalize_word_search_content (stored_word_search search) ≡ search)
unfolding is_playable non_negative below is_complete_news is_clued is_long trim trim_start is_space
stored_content_is_kept_example =
    stored_content_is_kept (question number ∷ []) (news ∷ []) (clue ∷ []) search (refl, tt)
      (refl, tt) (refl, tt) (refl, tt)
