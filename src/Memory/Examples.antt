-- ===== src/Memory/Examples.antt =====
-- MemoryEngine.ts: a deck of two pairs, turned over.
use usbi.Prelude.{ℕ, ◌≡◌, ◌↔◌, refl, true, none, some, List, [], ◌∷◌}
use usbi.Prelude.Text.{Text, eq_text, digits, trim, trim_start, is_space}
use usbi.Prelude.Swap.{swap}
use usbi.Memory.{
  RawPair, RawPairs, array, Memory, construct, check_match, normalize_memory_pairs,
  read_memory_pairs, normalize_from, normalize_pair, read_id, read_color, pick_unique_color,
  first_free, has, to_lower_case, lower, deck, card, shuffle, flip_card, change,
}
use usbi.Memory.Games.{Call, flip, check, call, run, AllMatched, game_over_iff_AllMatched}
use usbi.Memory.Winning.{deck_can_be_cleared}

abbrev grey : ℕ → Text
grey i = b'#' ∷ b'8' ∷ b'8' ∷ b'8' ∷ b'8' ∷ b'8' ∷ b'8' ∷ []

abbrev last_card : ℕ → ℕ
last_card i = i

abbrev pair : ℕ → RawPair
pair c = record {
  id = some (c ∷ []);
  content1 = some (c ∷ []);
  content2 = some (c ∷ []);
  color = none;
}

abbrev pairs : RawPairs
pairs = array (pair b'x' ∷ pair b'y' ∷ [])

abbrev calls : List Call
calls = flip 0 ∷ flip 1 ∷ check ∷ flip 2 ∷ flip 3 ∷ []

abbrev last_turned : Memory
last_turned = run calls (construct grey last_card pairs)

reported : (check_match last_turned).0 ≡ some (record { is_match = true; game_over = true })
unfolding construct normalize_memory_pairs read_memory_pairs normalize_from normalize_pair read_id
    read_color pick_unique_color first_free has to_lower_case lower deck card shuffle swap flip_card
    check_match change run call eq_text digits trim trim_start is_space
reported = refl

game_over_iff_AllMatched_example : (true ≡ true) ↔ AllMatched (check_match last_turned).1
game_over_iff_AllMatched_example =
    game_over_iff_AllMatched grey last_card pairs calls
      (record { is_match = true; game_over = true }) reported

deck_can_be_cleared_example :
    (cs : List Call) × AllMatched (run cs (construct grey last_card pairs))
deck_can_be_cleared_example = deck_can_be_cleared grey last_card pairs
