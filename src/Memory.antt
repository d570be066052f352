-- ===== src/Memory.antt =====
-- frontend/packages/engine/src/games/MemoryEngine.ts and games/memory/MemoryPalette.ts: a deck of
-- pairs that is turned over two cards at a time, and the pairs read from stored content.
-- `color_of` stands for `generateMemoryColor`, which computes in floating point, and `draw i` for
-- `Math.floor(Math.random() * (i + 1))`. A field of stored content is `none` when it is not a string.
-- Indices are natural numbers.
mod Examples
pub mod Deck
pub mod Rounds
pub mod Games
mod Left
pub mod Winning
use usbi.Prelude.{
  ℕ, zero, suc, ◌+◌, ◌-◌, ◌/◌, ◌%◌, Bool, true, false, ◌&&◌, ◌||◌, not, Option, none, some, List,
  [], ◌∷◌, ◌++◌, map, ltb, leb, ◌==◌, if◌then◌else◌, length, get_elem?, set,
}
use usbi.Prelude.Swap.{swap}
use usbi.Prelude.Text.{Text, eq_text, trim, digits}

pub record MemoryPairWithColor : Type 0 where
  pub id : Text
  pub content1 : Text
  pub content2 : Text
  pub color : Text

-- An entry of the stored pairs.
pub record RawPair : Type 0 where
  pub id : Option Text
  pub content1 : Option Text
  pub content2 : Option Text
  pub color : Option Text

-- The stored value: an array, an object whose `pairs` is an array or not, or anything else. The entries
-- of the array are taken to be objects, since the source throws at one that is null.
pub data RawPairs : Type 0 where
  array : List RawPair → RawPairs
  object : Option (List RawPair) → RawPairs
  other : RawPairs

unfoldable pub read_memory_pairs : RawPairs → List RawPair
read_memory_pairs (array ps) = ps
read_memory_pairs (object (some ps)) = ps
read_memory_pairs (object none) = []
read_memory_pairs other = []

unfoldable pub pair_id : ℕ → Text
unfolding digits
pair_id index = b'p' ∷ b'a' ∷ b'i' ∷ b'r' ∷ b'-' ∷ digits 17 (index + 1)

unfoldable pub is_hex_digit : ℕ → Bool
is_hex_digit c =
    (leb b'0' c && leb c b'9') || (leb b'a' c && leb c b'f') || (leb b'A' c && leb c b'F')

unfoldable pub all_hex : Text → Bool
unfolding is_hex_digit
all_hex [] = true
all_hex (c ∷ cs) = is_hex_digit c && all_hex cs

-- `/^#[0-9a-fA-F]{6}$/`
unfoldable pub is_hex_color : Text → Bool
unfolding all_hex
is_hex_color [] = false
is_hex_color (c ∷ cs) = c == b'#' && length cs == 6 && all_hex cs

-- `toLowerCase` on such a text.
unfoldable pub lower : ℕ → ℕ
lower c = if leb b'A' c && leb c b'Z' then c + 32 else c

unfoldable pub to_lower_case : Text → Text
unfolding lower
to_lower_case s = map lower s

-- `usedColors.has(color)`
unfoldable pub has : List Text → Text → Bool
has [] c = false
has (d ∷ ds) c = eq_text d c || has ds c

-- The loop over the offsets, from `at` on.
unfoldable pub first_free : (ℕ → Text) → List Text → ℕ → ℕ → Option Text
first_free color_of used zero at = none
first_free color_of used (suc k) at =
    let rest = first_free color_of used k (at + 1) in
    if not (has used (color_of at)) then some (color_of at) else rest

abbrev pub or_else : Option Text → Text → Text
or_else none c = c
or_else (some d) c = d

unfoldable pub pick_unique_color : (ℕ → Text) → Text → List Text → ℕ → Text
pick_unique_color color_of preferred used index =
    let normalized = to_lower_case preferred in
    if not (has used normalized)
    then normalized
    else or_else (first_free color_of used 720 (index + 1)) normalized

unfoldable pub read_id : Option Text → ℕ → Text
read_id none index = pair_id index
read_id (some id) index = if ltb 0 (length (trim id)) then id else pair_id index

unfoldable pub read_color : (ℕ → Text) → Option Text → ℕ → Text
read_color color_of none index = color_of index
read_color color_of (some c) index = if is_hex_color c then c else color_of index

unfoldable pub normalize_pair : (ℕ → Text) → RawPair → List Text → ℕ → MemoryPairWithColor
normalize_pair color_of pair used index = record {
  id = read_id pair.id index;
  content1 = or_else pair.content1 [];
  content2 = or_else pair.content2 [];
  color = pick_unique_color color_of (read_color color_of pair.color index) used index;
}

-- The `map`, with the colours used so far and the index.
unfoldable pub normalize_from : (ℕ → Text) → List RawPair → List Text → ℕ → List MemoryPairWithColor
normalize_from color_of [] used index = []
normalize_from color_of (p ∷ ps) used index =
    let pair = normalize_pair color_of p used index in
    pair ∷ normalize_from color_of ps (used ++ pair.color ∷ []) (index + 1)

unfoldable pub normalize_memory_pairs : (ℕ → Text) → RawPairs → List MemoryPairWithColor
normalize_memory_pairs color_of pairs = normalize_from color_of (read_memory_pairs pairs) [] 0

pub record MemoryCard : Type 0 where
  pub id : Text
  pub pair_id : Text
  pub pair_color : Text
  pub content : Text
  pub is_flipped : Bool
  pub is_matched : Bool

pub record Memory : Type 0 where
  pub cards : List MemoryCard
  pub flipped_indices : List ℕ
  pub matched_pairs : ℕ
  pub total_pairs : ℕ

-- `c1_${index}` and `c2_${index}`
unfoldable pub card : ℕ → ℕ → MemoryPairWithColor → Text → MemoryCard
unfolding digits
card side index pair content = record {
  id = b'c' ∷ (b'0' + side) ∷ b'_' ∷ digits 17 index;
  pair_id = pair.id;
  pair_color = pair.color;
  content = content;
  is_flipped = false;
  is_matched = false;
}

unfoldable pub deck : ℕ → List MemoryPairWithColor → List MemoryCard
deck index [] = []
deck index (p ∷ ps) = card 1 index p p.content1 ∷ card 2 index p p.content2 ∷ deck (index + 1) ps

-- The Fisher-Yates loop: `i` runs down to 1.
unfoldable pub shuffle : (ℕ → ℕ) → ℕ → List MemoryCard → List MemoryCard
shuffle draw zero cards = cards
shuffle draw (suc i) cards = shuffle draw i (swap cards (suc i) (draw (suc i)))

unfoldable pub construct : (ℕ → Text) → (ℕ → ℕ) → RawPairs → Memory
construct color_of draw pairs =
    let normalized = normalize_memory_pairs color_of pairs in
    let cards = deck 0 normalized in
    record {
      cards = shuffle draw (length cards - 1) cards;
      flipped_indices = [];
      matched_pairs = 0;
      total_pairs = length normalized;
    }

abbrev pub flip_card_of : Option MemoryCard → ℕ → Memory → Bool × Memory
flip_card_of none index m = (false, m)
flip_card_of (some c) index m =
    if c.is_flipped || c.is_matched
    then (false, m)
    else if leb 2 (length m.flipped_indices)
    then (false, m)
    else (
      true,
      record m {
        cards = set m.cards index (record c { is_flipped = true });
        flipped_indices = m.flipped_indices ++ index ∷ [];
      },
    )

-- The result, and the engine after the call.
unfoldable pub flip_card : ℕ → Memory → Bool × Memory
flip_card index m = flip_card_of (get_elem? m.cards index) index m

-- The same change of the card at an index, if it is there.
abbrev pub change_at :
    Option MemoryCard → (MemoryCard → MemoryCard) → ℕ → List MemoryCard → List MemoryCard
change_at none f i cards = cards
change_at (some c) f i cards = set cards i (f c)

unfoldable pub change : (MemoryCard → MemoryCard) → ℕ → List MemoryCard → List MemoryCard
change f i cards = change_at (get_elem? cards i) f i cards

abbrev pub set_matched : MemoryCard → MemoryCard
set_matched c = record c { is_matched = true }

abbrev pub turn_back : MemoryCard → MemoryCard
turn_back c = record c { is_flipped = false }

pub record Checked : Type 0 where
  pub is_match : Bool
  pub game_over : Bool

abbrev pub settle : Bool → ℕ → ℕ → Memory → Checked × Memory
settle same i₁ i₂ m =
    let matched = if same then m.matched_pairs + 1 else m.matched_pairs in
    let f = if same then set_matched else turn_back in
    (
      record { is_match = same; game_over = matched == m.total_pairs },
      record m {
        cards = change f i₂ (change f i₁ m.cards);
        matched_pairs = matched;
        flipped_indices = [];
      },
    )

-- The comparison of two cards; without one of them the source throws, which the indices that
-- `flipCard` keeps rule out.
abbrev pub compare_cards :
    Option MemoryCard → Option MemoryCard → ℕ → ℕ → Memory → Option Checked × Memory
compare_cards (some c₁) (some c₂) i₁ i₂ m =
    let (checked, m') = settle (eq_text c₁.pair_id c₂.pair_id) i₁ i₂ m in (some checked, m')
compare_cards (some c₁) none i₁ i₂ m = (none, m)
compare_cards none c i₁ i₂ m = (none, m)

abbrev pub check_indices : List ℕ → Memory → Option Checked × Memory
check_indices [] m = (none, m)
check_indices (i ∷ []) m = (none, m)
check_indices (i₁ ∷ i₂ ∷ []) m = compare_cards (get_elem? m.cards i₁) (get_elem? m.cards i₂) i₁ i₂ m
check_indices (i₁ ∷ i₂ ∷ i₃ ∷ is) m = (none, m)

-- `none` is `null`.
unfoldable pub check_match : Memory → Option Checked × Memory
check_match m = check_indices m.flipped_indices m

unfoldable pub get_flipped_count : Memory → ℕ
get_flipped_count m = length m.flipped_indices
