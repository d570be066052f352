-- ===== src/Content/Json.antt =====
-- Values as `JSON.parse` gives them, and how the normalisers of
-- frontend/src/features/content/types.ts read them. A number is a decimal, mantissa / 10 ^ places; the
-- keys of an object are taken to be different.
use usbi.Prelude.{
  ℕ, ◌*◌, ◌^◌, Bool, true, false, Option, none, some, List, [], ◌∷◌, ltb, if◌then◌else◌,
}
use usbi.Prelude.Int.{ℤ, pos, negsuc}
use usbi.Prelude.Text.{Text, eq_text}

pub record Number : Type 0 where
  pub mantissa : ℤ
  pub places : ℕ

mutual
  pub data Value : Type 0 where
    null : Value
    bool : Bool → Value
    number : Number → Value
    text : Text → Value
    array : Items → Value
    object : Fields → Value

  pub data Items : Type 0 where
    nil : Items
    cons : Value → Items → Items

  pub data Fields : Type 0 where
    end : Fields
    field : Text → Value → Fields → Fields

unfoldable pub to_list : Items → List Value
to_list nil = []
to_list (cons v vs) = v ∷ to_list vs

unfoldable pub from_list : List Value → Items
from_list [] = nil
from_list (v ∷ vs) = cons v (from_list vs)

unfoldable pub lookup : Fields → Text → Option Value
lookup end k = none
lookup (field l v fs) k = if eq_text l k then some v else lookup fs k

-- `value?.key`: `none` is `undefined`.
abbrev pub get : Value → Text → Option Value
get null k = none
get (bool b) k = none
get (number n) k = none
get (text t) k = none
get (array vs) k = none
get (object fs) k = lookup fs k

-- `typeof value === 'string' ? value : ...`, and so on for the other types.
abbrev pub as_text : Option Value → Option Text
as_text (some (text t)) = some t
as_text other = none

abbrev pub as_number : Option Value → Option Number
as_number (some (number n)) = some n
as_number other = none

abbrev pub as_bool : Option Value → Option Bool
as_bool (some (bool b)) = some b
as_bool other = none

abbrev pub as_list : Option Value → Option (List Value)
as_list (some (array vs)) = some (to_list vs)
as_list other = none

abbrev pub or_else {ℓ} : {A : Type ℓ} → A → Option A → A
or_else d none = d
or_else d (some a) = a

-- The texts of a list.
unfoldable pub only_texts : List Value → List Text
only_texts [] = []
only_texts (text t ∷ vs) = t ∷ only_texts vs
only_texts (v ∷ vs) = only_texts vs

-- `readArray`
abbrev pub read_array : Value → Text → List Value
read_array (array vs) k = to_list vs
read_array (object fs) k = or_else [] (as_list (lookup fs k))
read_array other k = []

-- `n >= 0` and `n < k`
unfoldable pub non_negative : Number → Bool
non_negative n = elim n.mantissa [ pos m ↦ true | negsuc m ↦ false ]

unfoldable pub below : Number → ℕ → Bool
below n k = elim n.mantissa [ pos m ↦ ltb m (k * 10 ^ n.places) | negsuc m ↦ true ]

abbrev pub key_questions : Text
key_questions = b'q' ∷ b'u' ∷ b'e' ∷ b's' ∷ b't' ∷ b'i' ∷ b'o' ∷ b'n' ∷ b's' ∷ []

abbrev pub key_question : Text
key_question = b'q' ∷ b'u' ∷ b'e' ∷ b's' ∷ b't' ∷ b'i' ∷ b'o' ∷ b'n' ∷ []

abbrev pub key_options : Text
key_options = b'o' ∷ b'p' ∷ b't' ∷ b'i' ∷ b'o' ∷ b'n' ∷ b's' ∷ []

abbrev pub key_correct_index : Text
key_correct_index =
    b'c' ∷ b'o' ∷ b'r' ∷ b'r' ∷ b'e' ∷ b'c' ∷ b't' ∷ b'_' ∷ b'i' ∷ b'n' ∷ b'd' ∷ b'e' ∷ b'x' ∷ []

abbrev pub key_media_url : Text
key_media_url = b'm' ∷ b'e' ∷ b'd' ∷ b'i' ∷ b'a' ∷ b'_' ∷ b'u' ∷ b'r' ∷ b'l' ∷ []

abbrev pub key_news : Text
key_news = b'n' ∷ b'e' ∷ b'w' ∷ b's' ∷ []

abbrev pub key_title : Text
key_title = b't' ∷ b'i' ∷ b't' ∷ b'l' ∷ b'e' ∷ []

abbrev pub key_content : Text
key_content = b'c' ∷ b'o' ∷ b'n' ∷ b't' ∷ b'e' ∷ b'n' ∷ b't' ∷ []

abbrev pub key_is_fake : Text
key_is_fake = b'i' ∷ b's' ∷ b'F' ∷ b'a' ∷ b'k' ∷ b'e' ∷ []

abbrev pub key_explanation : Text
key_explanation = b'e' ∷ b'x' ∷ b'p' ∷ b'l' ∷ b'a' ∷ b'n' ∷ b'a' ∷ b't' ∷ b'i' ∷ b'o' ∷ b'n' ∷ []

abbrev pub key_image_url : Text
key_image_url = b'i' ∷ b'm' ∷ b'a' ∷ b'g' ∷ b'e' ∷ b'U' ∷ b'r' ∷ b'l' ∷ []

abbrev pub key_reference : Text
key_reference = b'r' ∷ b'e' ∷ b'f' ∷ b'e' ∷ b'r' ∷ b'e' ∷ b'n' ∷ b'c' ∷ b'e' ∷ []

abbrev pub key_words : Text
key_words = b'w' ∷ b'o' ∷ b'r' ∷ b'd' ∷ b's' ∷ []

abbrev pub key_word : Text
key_word = b'w' ∷ b'o' ∷ b'r' ∷ b'd' ∷ []

abbrev pub key_clue : Text
key_clue = b'c' ∷ b'l' ∷ b'u' ∷ b'e' ∷ []

abbrev pub key_width : Text
key_width = b'w' ∷ b'i' ∷ b'd' ∷ b't' ∷ b'h' ∷ []

abbrev pub key_height : Text
key_height = b'h' ∷ b'e' ∷ b'i' ∷ b'g' ∷ b'h' ∷ b't' ∷ []

abbrev pub key_seed : Text
key_seed = b's' ∷ b'e' ∷ b'e' ∷ b'd' ∷ []

abbrev pub key_phrase : Text
key_phrase = b'p' ∷ b'h' ∷ b'r' ∷ b'a' ∷ b's' ∷ b'e' ∷ []

abbrev pub key_pieces : Text
key_pieces = b'p' ∷ b'i' ∷ b'e' ∷ b'c' ∷ b'e' ∷ b's' ∷ []

abbrev pub key_board_width : Text
key_board_width = b'b' ∷ b'o' ∷ b'a' ∷ b'r' ∷ b'd' ∷ b'_' ∷ b'w' ∷ b'i' ∷ b'd' ∷ b't' ∷ b'h' ∷ []

abbrev pub key_board_height : Text
key_board_height =
    b'b' ∷ b'o' ∷ b'a' ∷ b'r' ∷ b'd' ∷ b'_' ∷ b'h' ∷ b'e' ∷ b'i' ∷ b'g' ∷ b'h' ∷ b't' ∷ []

abbrev pub key_start_position : Text
key_start_position =
    b's' ∷ b't' ∷ b'a' ∷ b'r' ∷ b't' ∷ b'_' ∷ b'p' ∷ b'o' ∷ b's' ∷ b'i' ∷ b't' ∷ b'i' ∷ b'o' ∷ b'n'
    ∷ []

abbrev pub key_end_position : Text
key_end_position =
    b'e' ∷ b'n' ∷ b'd' ∷ b'_' ∷ b'p' ∷ b'o' ∷ b's' ∷ b'i' ∷ b't' ∷ b'i' ∷ b'o' ∷ b'n' ∷ []

abbrev pub key_snakes : Text
key_snakes = b's' ∷ b'n' ∷ b'a' ∷ b'k' ∷ b'e' ∷ b's' ∷ []

abbrev pub key_ladders : Text
key_ladders = b'l' ∷ b'a' ∷ b'd' ∷ b'd' ∷ b'e' ∷ b'r' ∷ b's' ∷ []

abbrev pub key_ai_config : Text
key_ai_config = b'a' ∷ b'i' ∷ b'_' ∷ b'c' ∷ b'o' ∷ b'n' ∷ b'f' ∷ b'i' ∷ b'g' ∷ []
