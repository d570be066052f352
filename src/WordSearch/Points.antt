-- ===== src/WordSearch/Points.antt =====
-- WordSearchEngine.ts, checkWord and reset: the words found and the points agree throughout a game.
use usbi.Prelude.{
  ℕ, ◌+◌, ◌*◌, ◌≡◌, sym, true, false, none, some, List, [], ◌∷◌, ◌++◌, ==_iff, length, arith,
  Bool-cases, Option-cases, inl, inr, ◌⊎◌,
}
use mathlib.Core.List.{reverse}
use mathlib.Core.Path.{subst}
use usbi.Prelude.Text.{Text, eq_text, eq_text→eq}
use usbi.WordSearch.{WordSearch, includes, construct, spell, is_new, add_found, check_word, reset}
use usbi.WordSearch.Words.{Distinct, Distinct-snoc, includes-append}
use usbi.WordSearch.Play.{play, construct-Hides_words}

-- The words found are words of the game, each once; every one has given 100 points; the game is over
-- only when as many are found as there are.
pub record IsValid (e : WordSearch) : Type 0 where
  pub once : Distinct e.found_words
  pub listed : (x : Text) → includes e.found_words x ≡ true → includes e.words x ≡ true
  pub points : e.score ≡ 100 * length e.found_words
  pub over : e.is_finished ≡ true → length e.found_words ≡ length e.words

length-snoc : (vs : List Text) (w : Text) → length (vs ++ w ∷ []) ≡ length vs + 1
length-snoc [] w = omega arith
length-snoc (v ∷ vs) w = omega (arith, length-snoc vs w)

add_found-IsValid :
    (w : Text) (e : WordSearch)
    → e.is_finished ≡ false
    → is_new e.state w ≡ true
    → IsValid e
    → IsValid (add_found w e)
unfolding add_found includes
add_found-IsValid w e going new v =
    let fresh_word : includes e.found_words w ≡ false = ground arith in
    let known : includes e.words w ≡ true = ground arith in
    record {
      once = Distinct-snoc e.found_words w v.once fresh_word;
      listed = λ x h. elim (Bool-cases (includes e.found_words x)) [
        | inl old ↦ v.listed x old
        | inr other ↦
            let same : eq_text w x ≡ true =
              ground (arith, includes-append e.found_words (w ∷ []) x) in
            subst (λ t. includes e.words t ≡ true) (eq_text→eq w x same) known
      ];
      points = omega (arith, v.points, length-snoc e.found_words w);
      over = λ h. ground (arith, ==_iff (length (e.found_words ++ w ∷ [])) (length e.words));
    }

check_word_cases :
    (p : List (ℕ × ℕ)) (e : WordSearch)
    → IsValid e
    → (check_word p e ≡ none) ⊎ (e' : WordSearch) × (check_word p e ≡ some e') × IsValid e'
unfolding check_word
check_word_cases p e v = elim (Bool-cases e.is_finished) [
  | inl over ↦ inr (e, simp over, v)
  | inr going ↦ elim (Option-cases (spell e.grid p)) [
    | inl s ↦ inl (simp (going, s))
    | inr (w, s) ↦ elim (Bool-cases (is_new e.state w)) [
      | inl new ↦ inr (add_found w e, simp (going, s, new), add_found-IsValid w e going new v)
      | inr old ↦ elim (Bool-cases (is_new e.state (reverse w))) [
        | inl new ↦ inr (
          add_found (reverse w) e,
          simp (going, s, old, new),
          add_found-IsValid (reverse w) e going new v,
        )
        | inr old' ↦ inr (e, simp (going, s, old, old'), v)
      ]
    ]
  ]
]

check_word-IsValid :
    (p : List (ℕ × ℕ)) (e e' : WordSearch) → IsValid e → check_word p e ≡ some e' → IsValid e'
check_word-IsValid p e e' v h = elim (check_word_cases p e v) [
  | inl stop ↦ let gone : none ≡ some e' = (rw stop at h) in absurd cc
  | inr (e₁, same, v₁) ↦ let eq : e₁ ≡ e' = ground (arith, same, h) in subst IsValid eq v₁
]

play-IsValid :
    (moves : List (List (ℕ × ℕ))) (e e' : WordSearch)
    → IsValid e
    → play moves e ≡ some e'
    → IsValid e'
unfolding play
play-IsValid [] e e' v h = subst IsValid (ground (arith, h)) v
play-IsValid (p ∷ ps) e e' v h = elim (Option-cases (check_word p e)) [
  | inl stop ↦ let gone : none ≡ some e' = (rw stop at h) in absurd cc
  | inr (e₁, one) ↦ play-IsValid ps e₁ e' (check_word-IsValid p e e₁ v one) (rw one at h)
]

reset-IsValid : (e : WordSearch) → IsValid (reset e)
unfolding reset includes
reset-IsValid e = record { once = tt; listed = λ x h. cc; points = omega arith; over = λ h. cc }

-- Through a whole game from the constructor, and a second one after a reset, every selection keeps
-- this: the words found are words of the game, none stands twice, each has given 100 points, and the
-- game is over only when as many words are found as there are.
pub played_twice-IsValid :
    (nfd : Text → Text) (words : List Text) (w h seed : ℕ) (e : WordSearch)
    → construct nfd words w h seed ≡ some e
    → (first second : List (List (ℕ × ℕ))) (e₁ e₂ : WordSearch) → play first e ≡ some e₁
    → play second (reset e₁) ≡ some e₂
    → IsValid e₁ × IsValid e₂
unfolding includes
played_twice-IsValid nfd words w h seed e made first second e₁ e₂ one two =
    let (_, _, _, _, ef, going, es) = construct-Hides_words nfd words w h seed e made in
    let start : IsValid e = record {
      once = subst Distinct (sym ef) tt;
      listed = λ x k. absurd (let gone : false ≡ true = (rw ef at k) in cc);
      points = rw ef (omega (arith, es));
      over = λ k. cc;
    } in
    (play-IsValid first e e₁ start one, play-IsValid second (reset e₁) e₂ (reset-IsValid e₁) two)
