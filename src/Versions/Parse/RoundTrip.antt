-- ===== src/Versions/Parse/RoundTrip.antt =====
-- Printing what ParseVersion accepts.
use mathlib.Core.List.{append-nil}
use ruk.Prelude.{
  ℕ, ◌+◌, ◌*◌, ◌-◌, ◌≤◌, ◌<◌, ◌≡◌, ◌∙◌, refl, sym, ap, inl, inr, true, false, not, ◌&&◌, List, [],
  ◌∷◌, ◌++◌, Option, none, some, ◌==◌, is_empty, any_of, all_of, arith, Bool-cases, Option-cases,
}
use ruk.Versions.{Text, Version, is_digit}
use ruk.Versions.Print.{digits, decimal, join_dots, version_string, digits-last, digits_zero}
use ruk.Versions.Parse.{
  parse_digits, parse_number, valid_identifier, version_of, parse_core, parse_parts, cut_dash,
  split_dots, cons_first, parse_version, trim_prefix,
}

-- The digits of a number that was read behind a positive one.
digits-parse_digits :
    (n : ℕ) (s out : Text) {m : ℕ}
    → 0 < n
    → parse_digits n s ≡ some m
    → digits m out ≡ digits n (s ++ out)
unfolding parse_digits
digits-parse_digits n [] out {m} positive done = let is : m ≡ n = ground (arith, done) in rw is refl
digits-parse_digits n (c ∷ s) out {m} positive done = elim (Bool-cases (is_digit c)) [
  | inr other ↦ ground (arith, other, done)
  | inl digit ↦
      let next = n * 10 + (c - 48) in
      let read : parse_digits next s ≡ some m = ground (arith, digit, done) in
      let later = digits-parse_digits next s out {m = m} (omega (arith, positive)) read in
      let small : c - 48 ≤ 9 = ground (arith, digit) in
      let back : 48 + (c - 48) ≡ c = ground (arith, digit) in
      later ∙ digits-last n (c - 48) (s ++ out) small (omega (arith, positive)) ∙ rw back refl
]

parse_digits_positive : (n : ℕ) (s : Text) {m : ℕ} → 0 < n → parse_digits n s ≡ some m → 0 < m
unfolding parse_digits
parse_digits_positive n [] positive done = ground (arith, positive, done)
parse_digits_positive n (c ∷ s) {m} positive done =
    ground (arith, done, positive, parse_digits_positive (n * 10 + (c - 48)) s {m = m})

-- A number that does not begin with 0 is printed as it was read.
decimal-parse_digits :
    (c : ℕ) (s : Text) {m : ℕ}
    → (c == 48) ≡ false
    → parse_digits 0 (c ∷ s) ≡ some m
    → decimal m ≡ c ∷ s
unfolding parse_digits decimal
decimal-parse_digits c s {m} other done =
    let digit : is_digit c ≡ true = ground (arith, done) in
    let read : parse_digits (c - 48) s ≡ some m = ground (arith, digit, done) in
    let first : 0 < c - 48 = ground (arith, digit, other) in
    let positive = parse_digits_positive (c - 48) s {m = m} first read in
    let nonzero : (m == 0) ≡ false = ground (arith, positive) in
    let small : c - 48 ≤ 9 = ground (arith, digit) in
    let back : 48 + (c - 48) ≡ c = ground (arith, digit) in
    let only : 0 * 10 + (c - 48) ≡ c - 48 = omega arith in
    let printed : digits (c - 48) s ≡ digits 0 ((48 + (c - 48)) ∷ s) =
      ap (λ n. digits n s) (sym only) ∙ digits-last 0 (c - 48) s small (omega (arith, first)) in
    rw nonzero (
      digits-parse_digits (c - 48) s [] {m = m} first read
      ∙ rw (append-nil s) printed
      ∙ digits_zero ((48 + (c - 48)) ∷ s)
      ∙ ap (λ d. d ∷ s) back)

decimal-parse_number : (s : Text) {m : ℕ} → parse_number s ≡ some m → decimal m ≡ s
unfolding parse_number parse_digits decimal
decimal-parse_number [] done = ground (arith, done)
decimal-parse_number (c ∷ []) {m} done = elim (Bool-cases (c == 48)) [
  | inr other ↦ decimal-parse_digits c [] {m = m} other (ground (arith, other, done))
  | inl zero ↦
      let same : c ≡ 48 = ground (arith, zero) in
      let is : m ≡ 0 = ground (arith, same, done) in rw (is, same) refl
]
decimal-parse_number (c ∷ d ∷ s) {m} done = elim (Bool-cases (c == 48)) [
  | inl zero ↦ ground (arith, zero, done)
  | inr other ↦ decimal-parse_digits c (d ∷ s) {m = m} other (ground (arith, other, done))
]

first_part : (s : Text) → (part : Text) × (parts : List Text) × (split_dots s ≡ part ∷ parts)
unfolding split_dots
first_part [] = ([], [], refl)
first_part (c ∷ s) =
    let (part, parts, is) = first_part s in
    elim (Bool-cases (c == 46)) [
      | inl dot ↦ ([], split_dots s, rw dot refl)
      | inr other ↦ (c ∷ part, parts, rw (other, is) refl)
    ]

join_dots-cons_first :
    (c : ℕ) (part : Text) (parts : List Text)
    → join_dots (cons_first c (part ∷ parts)) ≡ c ∷ join_dots (part ∷ parts)
unfolding join_dots
join_dots-cons_first c part [] = refl
join_dots-cons_first c part (next ∷ parts) = refl

join-split_dots : (s : Text) → join_dots (split_dots s) ≡ s
unfolding join_dots split_dots
join-split_dots [] = refl
join-split_dots (c ∷ s) =
    let (part, parts, is) = first_part s in
    let rest : join_dots (part ∷ parts) ≡ s = ap join_dots (sym is) ∙ join-split_dots s in
    elim (Bool-cases (c == 46)) [
      | inl dot ↦
          let same : c ≡ 46 = ground (arith, dot) in rw (dot, is, same) (ap (λ t. 46 ∷ t) rest)
      | inr other ↦ rw (other, is) (join_dots-cons_first c part parts ∙ ap (λ t. c ∷ t) rest)
    ]

-- What stands before the first dash, and after it.
abbrev uncut : Text × Option Text → Text
uncut (before, none) = before
uncut (before, some rest) = before ++ (45 ∷ rest)

uncut_cons : (c : ℕ) (parts : Text × Option Text) → uncut (c ∷ parts.0, parts.1) ≡ c ∷ uncut parts
uncut_cons c (before, none) = refl
uncut_cons c (before, some rest) = refl

uncut-cut_dash : (s : Text) → uncut (cut_dash s) ≡ s
unfolding cut_dash
uncut-cut_dash [] = refl
uncut-cut_dash (c ∷ s) = elim (Bool-cases (c == 45)) [
  | inl dash ↦ let same : c ≡ 45 = ground (arith, dash) in rw (dash, same) refl
  | inr other ↦ rw other (uncut_cons c (cut_dash s) ∙ ap (λ t. c ∷ t) (uncut-cut_dash s))
]

version_of_string :
    (identifiers : List Text) (a b c : Text) {v : Version}
    → version_of identifiers (parse_number a) (parse_number b) (parse_number c) ≡ some v
    → (v.prerelease ≡ identifiers)
      × (decimal v.major ≡ a)
      × (decimal v.minor ≡ b)
      × (decimal v.patch ≡ c)
version_of_string identifiers a b c {v} done = elim (Option-cases (parse_number a)) [
  | inl refused ↦ ground (arith, refused, done)
  | inr (major, read_a) ↦ elim (Option-cases (parse_number b)) [
    | inl refused ↦ ground (arith, read_a, refused, done)
    | inr (minor, read_b) ↦ elim (Option-cases (parse_number c)) [
      | inl refused ↦ ground (arith, read_a, read_b, refused, done)
      | inr (patch, read_c) ↦
          let is : v
              ≡ record { major = major; minor = minor; patch = patch; prerelease = identifiers } =
            ground (arith, read_a, read_b, read_c, done) in
          rw is (
            refl,
            decimal-parse_number a read_a,
            decimal-parse_number b read_b,
            decimal-parse_number c read_c,
          )
    ]
  ]
]

abbrev core_string : Version → Text
core_string v = join_dots (decimal v.major ∷ decimal v.minor ∷ decimal v.patch ∷ [])

parse_core_string :
    (identifiers parts : List Text) {v : Version}
    → parse_core identifiers parts ≡ some v
    → (v.prerelease ≡ identifiers) × (core_string v ≡ join_dots parts)
parse_core_string identifiers (a ∷ b ∷ c ∷ []) {v} done =
    let (kept, major, minor, patch) = version_of_string identifiers a b c {v = v} done in
    (kept, rw (major, minor, patch) refl)
parse_core_string identifiers [] done = ground (arith, done)
parse_core_string identifiers (a ∷ []) done = ground (arith, done)
parse_core_string identifiers (a ∷ b ∷ []) done = ground (arith, done)
parse_core_string identifiers (a ∷ b ∷ c ∷ d ∷ rest) done = ground (arith, done)

split_dots_nonempty : (s : Text) → is_empty (split_dots s) ≡ false
split_dots_nonempty s = let (part, parts, is) = first_part s in rw is refl

parse_parts_string :
    (parts : Text × Option Text) {v : Version}
    → parse_parts parts ≡ some v
    → version_string v ≡ uncut parts
unfolding version_string
parse_parts_string (core, none) {v} done =
    let (kept, printed) = parse_core_string [] (split_dots core) {v = v} done in
    rw kept (printed ∙ join-split_dots core)
parse_parts_string (core, some text) {v} done =
    elim (Bool-cases (not (is_empty text) && all_of valid_identifier (split_dots text))) [
      | inr bad ↦ ground (arith, bad, done)
      | inl fine ↦
          let (kept, printed) =
            parse_core_string (split_dots text) (split_dots core) {v = v} (rw fine at done) in
          rw (kept, split_dots_nonempty text, printed)
            (rw (join-split_dots core, join-split_dots text) refl)
    ]

-- Whenever a text is accepted as a version, String prints that version as the text, less a leading
-- "v".
pub version_string-parse_version :
    (text : Text) {v : Version} → parse_version text ≡ some v → version_string v ≡ trim_prefix text
unfolding parse_version
version_string-parse_version text {v} done =
    elim (Bool-cases (any_of (λ c. c == 43) (trim_prefix text))) [
      | inl plus ↦ ground (arith, plus, done)
      | inr plain ↦
          parse_parts_string (cut_dash (trim_prefix text)) {v = v}
            (rw (plain, parse_version) at done)
          ∙ uncut-cut_dash (trim_prefix text)
    ]
