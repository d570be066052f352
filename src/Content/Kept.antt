-- ===== src/Content/Kept.antt =====
-- content/types.ts: content in the form in which the editor stores it is read back as it was.
use usbi.Prelude.{◌≡◌, refl, ap, ◌∙◌, Bool, true, Option, none, some, List, [], ◌∷◌, map}
use usbi.Prelude.Sets.{keep}
use usbi.Prelude.Text.{Text, eq_text}
use usbi.Content.Json.{
  Value, Fields, Number, bool, number, text, array, object, end, field, to_list, from_list, lookup,
  only_texts, key_question, key_options, key_correct_index, key_media_url, key_news, key_title,
  key_content, key_is_fake, key_explanation, key_image_url, key_reference, key_words, key_word,
  key_clue, key_width, key_height, key_seed,
}
use usbi.Content.{
  MultipleChoice, FakeNewsItem, CrosswordWord, WordSearch, filtered, map_items, read_question,
  is_playable, normalize_trivia_content, read_news, is_complete_news, normalize_fake_news_content,
  read_crossword_word, is_clued, normalize_crossword_content, is_long,
  normalize_word_search_content,
}

-- `JSON.stringify` leaves an undefined field out.
abbrev optional : Text → Option Text → Fields → Fields
optional k none fs = fs
optional k (some t) fs = field k (text t) fs

abbrev optional_number : Text → Option Number → Fields → Fields
optional_number k none fs = fs
optional_number k (some n) fs = field k (number n) fs

abbrev pub texts : List Text → Value
texts ts = array (from_list (map text ts))

abbrev pub question_fields : MultipleChoice → Fields
question_fields q = field key_question (text q.question) (
    field key_options (texts q.options)
      (field key_correct_index (number q.correct_index) (optional key_media_url q.media_url end)))

abbrev pub news_fields : FakeNewsItem → Fields
news_fields n = field key_title (text n.title) (
    field key_content (text n.content) (
      field key_is_fake (bool n.is_fake) (
        field key_reference (text n.reference)
          (optional key_explanation n.explanation (optional key_image_url n.image_url end)))))

abbrev pub word_fields : CrosswordWord → Fields
word_fields w = field key_word (text w.word) (field key_clue (text w.clue) end)

to_list-from_list : (vs : List Value) → to_list (from_list vs) ≡ vs
unfolding to_list from_list
to_list-from_list [] = refl
to_list-from_list (v ∷ vs) = ap (◌∷◌ v) (to_list-from_list vs)

module _ {ℓ} {A : Type ℓ} where
  abbrev pub values : (A → Fields) → List A → Value
  values fields as' = array (from_list (map (λ a. object (fields a)) as'))

  abbrev pub AllTrue : (A → Bool) → List A → Type 0
  AllTrue p [] = Unit {0}
  AllTrue p (a ∷ as') = (p a ≡ true) × AllTrue p as'

  keep-AllTrue : (p : A → Bool) (as' : List A) → AllTrue p as' → keep p as' ≡ as'
  unfolding keep
  keep-AllTrue p [] h = refl
  keep-AllTrue p (a ∷ as') (h, hs) = rw (h, keep-AllTrue p as' hs) refl

module _ {ℓ} {A : Type ℓ} (read : Value → A) (fields : A → Fields)
    (back : (a : A) → read (object (fields a)) ≡ a) where
  map_items-map : (as' : List A) → map_items read (map (λ a. object (fields a)) as') ≡ some as'
  unfolding map_items
  map_items-map [] = refl
  map_items-map (a ∷ as') = rw (back a, map_items-map as') refl

  filtered-map :
      (p : A → Bool) (as' : List A)
      → AllTrue p as'
      → filtered p (map_items read (to_list (from_list (map (λ a. object (fields a)) as'))))
        ≡ some as'
  filtered-map p as' h =
      rw (to_list-from_list (map (λ a. object (fields a)) as'), map_items-map as')
        (ap some (keep-AllTrue p as' h))

only_texts-map : (ts : List Text) → only_texts (map text ts) ≡ ts
unfolding only_texts
only_texts-map [] = refl
only_texts-map (t ∷ ts) = ap (◌∷◌ t) (only_texts-map ts)

texts-back : (ts : List Text) → only_texts (to_list (from_list (map text ts))) ≡ ts
texts-back ts = ap only_texts (to_list-from_list (map text ts)) ∙ only_texts-map ts

question-back :
    (t : Text) (ts : List Text) (n : Number) (media : Option Text)
    → let q : MultipleChoice = record {
      question = t;
      options = ts;
      correct_index = n;
      media_url = media;
    } in
      read_question (object (question_fields q)) ≡ q
unfolding read_question lookup eq_text
question-back t ts n none =
    ap (λ os. record { question = t; options = os; correct_index = n; media_url = none })
      (texts-back ts)
question-back t ts n (some m) =
    ap (λ os. record { question = t; options = os; correct_index = n; media_url = some m })
      (texts-back ts)

news-back :
    (t c : Text) (b : Bool) (explanation image : Option Text) (r : Text)
    → let n : FakeNewsItem = record {
      title = t;
      content = c;
      is_fake = b;
      explanation = explanation;
      image_url = image;
      reference = r;
    } in
      read_news (object (news_fields n)) ≡ n
unfolding read_news lookup eq_text
news-back t c b none none r = refl
news-back t c b none (some i) r = refl
news-back t c b (some e) none r = refl
news-back t c b (some e) (some i) r = refl

read_crossword_word-fields : (w : CrosswordWord) → read_crossword_word (object (word_fields w)) ≡ w
unfolding read_crossword_word lookup eq_text
read_crossword_word-fields w = refl

-- The stored forms: a list of questions, and an object with the list under its key.
abbrev pub stored_trivia : List MultipleChoice → Value
stored_trivia qs = values question_fields qs

abbrev pub stored_news : List FakeNewsItem → Value
stored_news ns = object (field key_news (values news_fields ns) end)

abbrev pub stored_crossword : List CrosswordWord → Value
stored_crossword ws = object (field key_words (values word_fields ws) end)

abbrev pub stored_word_search : WordSearch → Value
stored_word_search w = object (
    field key_words (texts w.words) (
      optional_number key_width w.width
        (optional_number key_height w.height (optional_number key_seed w.seed end))))

words-back :
    (ts : List Text)
    → AllTrue is_long ts
    → keep is_long (only_texts (to_list (from_list (map text ts)))) ≡ ts
words-back ts h = ap (keep is_long) (texts-back ts) ∙ keep-AllTrue is_long ts h

abbrev sized : Option Number → Option Number → Option Number → List Text → WordSearch
sized width height seed ws = record { words = ws; width = width; height = height; seed = seed }

numbers-back :
    (ts : List Text) (width height seed : Option Number)
    → AllTrue is_long ts
    → normalize_word_search_content (stored_word_search (sized width height seed ts))
      ≡ sized width height seed ts
unfolding normalize_word_search_content lookup eq_text
numbers-back ts none none none l = ap (sized none none none) (words-back ts l)
numbers-back ts none none (some s) l = ap (sized none none (some s)) (words-back ts l)
numbers-back ts none (some h) none l = ap (sized none (some h) none) (words-back ts l)
numbers-back ts none (some h) (some s) l = ap (sized none (some h) (some s)) (words-back ts l)
numbers-back ts (some w) none none l = ap (sized (some w) none none) (words-back ts l)
numbers-back ts (some w) none (some s) l = ap (sized (some w) none (some s)) (words-back ts l)
numbers-back ts (some w) (some h) none l = ap (sized (some w) (some h) none) (words-back ts l)
numbers-back ts (some w) (some h) (some s) l =
    ap (sized (some w) (some h) (some s)) (words-back ts l)

-- Content that the normaliser does not filter out comes back as it was stored: the questions of a trivia,
-- the items of a fake-news level, the words of a crossword and those of a word search with its sizes.
pub stored_content_is_kept :
    (qs : List MultipleChoice) (ns : List FakeNewsItem) (ws : List CrosswordWord) (w : WordSearch)
    → AllTrue is_playable qs
    → AllTrue is_complete_news ns
    → AllTrue is_clued ws
    → AllTrue is_long w.words
    → (normalize_trivia_content (stored_trivia qs) ≡ some qs)
      × (normalize_fake_news_content (stored_news ns) ≡ some ns)
      × (normalize_crossword_content (stored_crossword ws) ≡ some ws)
      × (normalize_word_search_content (stored_word_search w) ≡ w)
unfolding normalize_trivia_content normalize_fake_news_content normalize_crossword_content lookup
    eq_text
stored_content_is_kept qs ns ws w hq hn hw hl = (
  filtered-map read_question question_fields
      (λ q. question-back q.question q.options q.correct_index q.media_url) is_playable qs hq,
  filtered-map read_news news_fields
      (λ n. news-back n.title n.content n.is_fake n.explanation n.image_url n.reference)
      is_complete_news ns hn,
  filtered-map read_crossword_word word_fields read_crossword_word-fields is_clued ws hw,
  numbers-back w.words w.width w.height w.seed hl,
)
