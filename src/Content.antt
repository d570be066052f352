-- ===== src/Content.antt =====
-- frontend/src/features/content/types.ts: the content of a level, which is any JSON value, read into
-- the types that the games take. `none` where a list is expected is the error that reading a field of
-- `null` throws.
pub mod Json
mod Examples
pub mod Playable
pub mod Kept
use usbi.Prelude.{
  ℕ, Bool, true, false, ◌&&◌, not, Option, none, some, List, [], ◌∷◌, leb, if◌then◌else◌, length,
}
use usbi.Prelude.Int.{pos}
use usbi.Prelude.Sets.{keep}
use usbi.Prelude.Text.{Text, trim}
use Json.{
  Value, Number, null, get, lookup, as_text, as_number, as_bool, as_list, or_else, only_texts,
  read_array, non_negative, below, key_questions, key_question, key_options, key_correct_index,
  key_media_url, key_news, key_title, key_content, key_is_fake, key_explanation, key_image_url,
  key_reference, key_words, key_word, key_clue, key_width, key_height, key_seed, key_phrase,
  key_pieces, key_board_width, key_board_height, key_start_position, key_end_position, key_snakes,
  key_ladders, key_ai_config,
}

pub record MultipleChoice : Type 0 where
  pub question : Text
  pub options : List Text
  pub correct_index : Number
  pub media_url : Option Text

pub record FakeNewsItem : Type 0 where
  pub title : Text
  pub content : Text
  pub is_fake : Bool
  pub explanation : Option Text
  pub image_url : Option Text
  pub reference : Text

pub record CrosswordWord : Type 0 where
  pub word : Text
  pub clue : Text

pub record WordSearch : Type 0 where
  pub words : List Text
  pub width : Option Number
  pub height : Option Number
  pub seed : Option Number

pub record Puzzle : Type 0 where
  pub phrase : Text
  pub pieces : Option Number
  pub seed : Option Number

pub record Snakes : Type 0 where
  pub board_width : Number
  pub board_height : Number
  pub start_position : Number
  pub end_position : Number
  pub seed : Option Number
  pub snakes : List Value
  pub ladders : List Value
  pub ai_config : Option Value
  pub questions : List Value

-- `list.map(f)`, where `f` throws on `null`.
module _ {ℓ} {A : Type ℓ} (f : Value → A) where
  abbrev push : A → Option (List A) → Option (List A)
  push a none = none
  push a (some as') = some (a ∷ as')

  unfoldable pub map_items : List Value → Option (List A)
  map_items [] = some []
  map_items (null ∷ vs) = none
  map_items (v ∷ vs) = push (f v) (map_items vs)

abbrev pub filtered {ℓ} : {A : Type ℓ} → (A → Bool) → Option (List A) → Option (List A)
filtered p none = none
filtered p (some as') = some (keep p as')

abbrev pub truthy : Text → Bool
truthy [] = false
truthy (c ∷ cs) = true

abbrev pub zero_number : Number
zero_number = record { mantissa = pos 0; places = 0 }

unfoldable pub read_question : Value → MultipleChoice
read_question v = record {
  question = or_else [] (as_text (get v key_question));
  options = only_texts (or_else [] (as_list (get v key_options)));
  correct_index = or_else zero_number (as_number (get v key_correct_index));
  media_url = as_text (get v key_media_url);
}

unfoldable pub is_playable : MultipleChoice → Bool
is_playable q =
    truthy q.question
    && leb 2 (length q.options)
    && non_negative q.correct_index
    && below q.correct_index (length q.options)

unfoldable pub normalize_trivia_content : Value → Option (List MultipleChoice)
normalize_trivia_content content =
    filtered is_playable (map_items read_question (read_array content key_questions))

unfoldable pub read_news : Value → FakeNewsItem
read_news v = record {
  title = or_else [] (as_text (get v key_title));
  content = or_else [] (as_text (get v key_content));
  is_fake = or_else false (as_bool (get v key_is_fake));
  explanation = as_text (get v key_explanation);
  image_url = as_text (get v key_image_url);
  reference = or_else [] (as_text (get v key_reference));
}

unfoldable pub is_complete_news : FakeNewsItem → Bool
is_complete_news n = truthy n.title && truthy n.content

unfoldable pub normalize_fake_news_content : Value → Option (List FakeNewsItem)
normalize_fake_news_content content =
    filtered is_complete_news (map_items read_news (read_array content key_news))

unfoldable pub read_crossword_word : Value → CrosswordWord
read_crossword_word v = record {
  word = or_else [] (as_text (get v key_word));
  clue = or_else [] (as_text (get v key_clue));
}

unfoldable pub is_clued : CrosswordWord → Bool
is_clued w = leb 2 (length w.word) && truthy w.clue

unfoldable pub normalize_crossword_content : Value → Option (List CrosswordWord)
normalize_crossword_content content =
    filtered is_clued (map_items read_crossword_word (read_array content key_words))

unfoldable pub is_long : Text → Bool
is_long t = leb 2 (length (trim t))

unfoldable pub normalize_word_search_content : Value → WordSearch
normalize_word_search_content content = record {
  words = keep is_long (only_texts (or_else [] (as_list (get content key_words))));
  width = as_number (get content key_width);
  height = as_number (get content key_height);
  seed = as_number (get content key_seed);
}

-- `none` is `null`.
abbrev pub puzzle_of : Text → Value → Option Puzzle
puzzle_of [] content = none
puzzle_of (c ∷ cs) content = some (record {
  phrase = c ∷ cs;
  pieces = as_number (get content key_pieces);
  seed = as_number (get content key_seed);
})

unfoldable pub normalize_puzzle_content : Value → Option Puzzle
normalize_puzzle_content content = puzzle_of (or_else [] (as_text (get content key_phrase))) content

abbrev pub snakes_of :
    Option Number → Option Number → Option Number → Option Number → Value → Option Snakes
snakes_of (some w) (some h) (some start) (some end_) content = some (record {
  board_width = w;
  board_height = h;
  start_position = start;
  end_position = end_;
  seed = as_number (get content key_seed);
  snakes = or_else [] (as_list (get content key_snakes));
  ladders = or_else [] (as_list (get content key_ladders));
  ai_config = get content key_ai_config;
  questions = or_else [] (as_list (get content key_questions));
})
snakes_of w h start end_ content = none

unfoldable pub normalize_snakes_content : Value → Option Snakes
normalize_snakes_content content =
    snakes_of (as_number (get content key_board_width)) (as_number (get content key_board_height))
      (as_number (get content key_start_position)) (as_number (get content key_end_position))
      content
