-- ===== src/Ports/Names.antt =====
-- The shape of a normalized name.
use ruk.Prelude.{
  ℕ, ◌==◌, ◌≡◌, refl, inl, inr, ◌⊎◌, Bool, true, false, not, ◌&&◌, List, [], ◌∷◌, ◌++◌,
  if◌then◌else◌, is_empty, arith, Bool-cases,
}
use ruk.Prelude.Results.{ok, err}
use ruk.Ports.{
  name_without_letter, underscore, environment_prefix, is_name_character, collapse, trim_start,
  trim_end, normalize_name,
}

-- Runs of letters and digits with one underscore between two of them: `gap` tells that the next
-- character has to be a letter or a digit.
unfoldable pub is_words : Bool → List ℕ → Bool
is_words gap [] = not gap
is_words gap (c ∷ rest) =
    let inside = is_words false rest in
    let next = is_words true rest in
    if is_name_character c then inside else (c == underscore) && not gap && next

-- Nothing is left, or words are.
abbrev Fits : Bool → List ℕ → Type 0
Fits gap xs = (xs ≡ []) ⊎ (is_words gap xs ≡ true)

-- A letter or digit is kept by the trimming, whatever follows it.
trim_end-character :
    (c : ℕ) (rest : List ℕ)
    → is_name_character c ≡ true
    → is_words false (trim_end rest) ≡ true
    → is_words true (trim_end (c ∷ rest)) ≡ true
unfolding trim_end is_words
trim_end-character c rest letter inside = ground (arith, letter, inside)

-- An underscore goes if nothing follows it.
trim_end-underscore :
    (rest : List ℕ)
    → Fits true (trim_end rest)
    → is_words false (trim_end (underscore ∷ rest)) ≡ true
unfolding trim_end is_words
trim_end-underscore rest (inl nothing) = rw nothing refl
trim_end-underscore rest (inr words) = ground (arith, words)

is_words_loose : (xs : List ℕ) → is_words true xs ≡ true → is_words false xs ≡ true
unfolding is_words
is_words_loose [] h = ground (arith, h)
is_words_loose (c ∷ xs) h = ground (arith, h)

collapse_written :
    (cs : List ℕ)
    → (is_words false (trim_end (collapse true false cs)) ≡ true)
      × Fits true (trim_end (collapse true true cs))
unfolding collapse trim_end is_words
collapse_written [] = (refl, inl refl)
collapse_written (c ∷ cs) =
    let (inside, next) = collapse_written cs in
    elim (Bool-cases (is_name_character c)) [
      | inl letter ↦
          let kept = trim_end-character c (collapse true false cs) letter inside in
          (
            rw letter (is_words_loose (trim_end (c ∷ collapse true false cs)) kept),
            rw letter (inr kept),
          )
      | inr other ↦ (rw other (trim_end-underscore (collapse true true cs) next), rw other next)
    ]

collapse-Fits : (cs : List ℕ) → Fits true (trim_end (collapse false false cs))
unfolding collapse trim_end
collapse-Fits [] = inl refl
collapse-Fits (c ∷ cs) = elim (Bool-cases (is_name_character c)) [
  | inl letter ↦
      rw letter (inr (trim_end-character c (collapse true false cs) letter (collapse_written cs).0))
  | inr other ↦ rw other (collapse-Fits cs)
]

trim_start-words : (xs : List ℕ) → is_words true xs ≡ true → trim_start xs ≡ xs
unfolding trim_start is_words
trim_start-words [] h = refl
trim_start-words (c ∷ xs) h = ground (arith, h)

words-is_empty : (xs : List ℕ) → is_words true xs ≡ true → is_empty xs ≡ false
unfolding is_words
words-is_empty [] h = ground (arith, h)
words-is_empty (c ∷ xs) h = refl

-- A name that is accepted is RUK_PORT_ and then runs of capital letters and digits, at least one,
-- with one underscore between two of them.
pub normalize_name-words :
    {E : Type 0} (to_upper trim_space : List ℕ → List ℕ) (name : List ℕ) {environment : List ℕ}
    → normalize_name {E = E} to_upper trim_space name ≡ ok environment
    → (value : List ℕ) × (environment ≡ environment_prefix ++ value) × (is_words true value ≡ true)
unfolding normalize_name trim_start is_words
normalize_name-words {E} to_upper trim_space name done =
    let raw = trim_end (collapse false false (to_upper (trim_space name))) in
    elim (collapse-Fits (to_upper (trim_space name))) [
      | inl nothing ↦
          let empty : trim_start raw ≡ [] = rw nothing refl in
          let refused : normalize_name {E = E} to_upper trim_space name ≡ err name_without_letter =
            rw empty refl in
          ground (arith, refused, done)
      | inr words ↦
          let same : trim_start raw ≡ raw = trim_start-words raw words in
          let some_left : is_empty raw ≡ false = words-is_empty raw words in
          let accepted : normalize_name {E = E} to_upper trim_space name
              ≡ ok (environment_prefix ++ raw) =
            rw same (rw some_left refl) in
          (raw, ground (arith, accepted, done), words)
    ]
