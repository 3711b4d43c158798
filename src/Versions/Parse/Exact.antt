-- ===== src/Versions/Parse/Exact.antt =====
-- When CompareVersions calls two texts equal.
use ruk.Prelude.{
  ℕ, ◌≡◌, ◌∙◌, refl, ap, inl, inr, true, false, not, ◌&&◌, List, [], ◌∷◌, Option, none, some, ◌==◌,
  is_empty, any_of, all_of, arith, Bool-cases, Option-cases,
}
use ruk.Prelude.Int.{ℤ, pos, negsuc}
use ruk.Versions.{
  Text, Version, equal, is_numeric, same_text, trim_zeros, or_zero, compare_numeric, or_next,
  by_number, compare_identifier, compare_identifiers, compare_prerelease, compare,
}
use ruk.Versions.Numbers.{same_text-eq}
use ruk.Versions.Order.{text_lt_total}
use ruk.Versions.Parse.{
  parse_number, valid_identifier, version_of, parse_core, parse_parts, cut_dash, split_dots,
  parse_version, starts_with_zero, trim_prefix, compare_versions,
}

version_of_valid :
    (identifiers : List Text) (a b c : Option ℕ) {v : Version}
    → all_of valid_identifier identifiers ≡ true
    → version_of identifiers a b c ≡ some v
    → all_of valid_identifier v.prerelease ≡ true
version_of_valid identifiers (some a) (some b) (some c) {v} valid done =
    let is : v.prerelease ≡ identifiers = ground (arith, done) in rw is valid
version_of_valid identifiers none b c valid done = ground (arith, done)
version_of_valid identifiers (some a) none c valid done = ground (arith, done)
version_of_valid identifiers (some a) (some b) none valid done = ground (arith, done)

parse_core_valid :
    (identifiers parts : List Text) {v : Version}
    → all_of valid_identifier identifiers ≡ true
    → parse_core identifiers parts ≡ some v
    → all_of valid_identifier v.prerelease ≡ true
parse_core_valid identifiers (a ∷ b ∷ c ∷ []) {v} valid done =
    version_of_valid identifiers (parse_number a) (parse_number b) (parse_number c) {v = v} valid
      done
parse_core_valid identifiers [] valid done = ground (arith, done)
parse_core_valid identifiers (a ∷ []) valid done = ground (arith, done)
parse_core_valid identifiers (a ∷ b ∷ []) valid done = ground (arith, done)
parse_core_valid identifiers (a ∷ b ∷ c ∷ d ∷ rest) valid done = ground (arith, done)

parse_parts_valid :
    (parts : Text × Option Text) {v : Version}
    → parse_parts parts ≡ some v
    → all_of valid_identifier v.prerelease ≡ true
parse_parts_valid (core, none) {v} done = parse_core_valid [] (split_dots core) {v = v} refl done
parse_parts_valid (core, some text) {v} done =
    elim (Bool-cases (not (is_empty text) && all_of valid_identifier (split_dots text))) [
      | inl fine ↦
          parse_core_valid (split_dots text) (split_dots core) {v = v} (ground (arith, fine))
            (rw fine at done)
      | inr bad ↦ ground (arith, bad, done)
    ]

-- The identifiers of a version that is accepted are valid.
parse_version_valid :
    (text : Text) {v : Version}
    → parse_version text ≡ some v
    → all_of valid_identifier v.prerelease ≡ true
unfolding parse_version
parse_version_valid text {v} done = elim (Bool-cases (any_of (λ c. c == 43) (trim_prefix text))) [
  | inl plus ↦ ground (arith, plus, done)
  | inr plain ↦
      parse_parts_valid (cut_dash (trim_prefix text)) {v = v} (rw (plain, parse_version) at done)
]

-- A valid numeric identifier has no zeros to trim.
trim_zeros-valid :
    (s : Text) → is_numeric s ≡ true → starts_with_zero s ≡ false → or_zero (trim_zeros s) ≡ s
unfolding trim_zeros is_numeric
trim_zeros-valid [] hs hz = ground (arith, hs)
trim_zeros-valid (c ∷ []) hs hz = elim (Bool-cases (c == 48)) [
  | inl zero_alone ↦ let is : c ≡ 48 = ground (arith, zero_alone) in rw is refl
  | inr other ↦ rw other refl
]
trim_zeros-valid (c ∷ d ∷ s) hs hz =
    let other : (c == 48) ≡ false = ground (arith, hz) in rw other refl

-- Valid identifiers that compare as equal are the same.
compare_identifier-equal :
    (s t : Text)
    → valid_identifier s ≡ true
    → valid_identifier t ≡ true
    → compare_identifier s t ≡ equal
    → s ≡ t
unfolding compare_identifier valid_identifier
compare_identifier-equal s t hs ht done = elim (Bool-cases (same_text s t)) [
  | inl same ↦ same_text-eq s t same
  | inr other ↦ elim (Bool-cases (is_numeric s && is_numeric t)) [
    | inr mixed ↦ ground (arith, other, mixed, done)
    | inl numeric ↦
        let kept_s = trim_zeros-valid s (ground (arith, numeric)) (ground (arith, numeric, hs)) in
        let kept_t = trim_zeros-valid t (ground (arith, numeric)) (ground (arith, numeric, ht)) in
        let raw : compare_numeric (or_zero (trim_zeros s)) (or_zero (trim_zeros t)) ≡ equal =
          ground (arith, other, numeric, done) in
        let plain : compare_numeric s t ≡ equal = rw (kept_s, kept_t) at raw in
        same_text-eq s t (ground (arith, plain, text_lt_total s t))
  ]
]

or_next-equal : (c n : ℤ) → or_next c n ≡ equal → (c ≡ equal) × (n ≡ equal)
or_next-equal (pos ℕ.zero) n h = (refl, h)
or_next-equal (pos (ℕ.suc m)) n h = ground (arith, h)
or_next-equal (negsuc m) n h = ground (arith, h)

compare_identifiers-equal :
    (xs ys : List Text)
    → all_of valid_identifier xs ≡ true
    → all_of valid_identifier ys ≡ true
    → compare_identifiers xs ys ≡ equal
    → xs ≡ ys
unfolding compare_identifiers
compare_identifiers-equal [] [] hx hy done = refl
compare_identifiers-equal [] (y ∷ ys) hx hy done = ground (arith, done)
compare_identifiers-equal (x ∷ xs) [] hx hy done = ground (arith, done)
compare_identifiers-equal (x ∷ xs) (y ∷ ys) hx hy done =
    let first =
      compare_identifier-equal x y (ground (arith, hx)) (ground (arith, hy))
        (or_next-equal _ _ done).0 in
    let rest =
      compare_identifiers-equal xs ys (ground (arith, hx)) (ground (arith, hy))
        (or_next-equal _ _ done).1 in
    rw first (ap (λ zs. y ∷ zs) rest)

compare_prerelease-equal :
    (xs ys : List Text)
    → all_of valid_identifier xs ≡ true
    → all_of valid_identifier ys ≡ true
    → compare_prerelease xs ys ≡ equal
    → xs ≡ ys
unfolding compare_prerelease
compare_prerelease-equal [] [] hx hy done = refl
compare_prerelease-equal [] (y ∷ ys) hx hy done = ground (arith, done)
compare_prerelease-equal (x ∷ xs) [] hx hy done = ground (arith, done)
compare_prerelease-equal (x ∷ xs) (y ∷ ys) hx hy done =
    compare_identifiers-equal (x ∷ xs) (y ∷ ys) hx hy done

by_number-equal : (a b : ℕ) (n : ℤ) → by_number a b n ≡ equal → (a ≡ b) × (n ≡ equal)
by_number-equal a b n h = (ground (arith, h), ground (arith, h))

compare-equal :
    (v u : Version)
    → all_of valid_identifier v.prerelease ≡ true
    → all_of valid_identifier u.prerelease ≡ true
    → compare v u ≡ equal
    → v ≡ u
unfolding compare
compare-equal v u hv hu done =
    let (major, after_major) = by_number-equal v.major u.major _ done in
    let (minor, after_minor) = by_number-equal v.minor u.minor _ after_major in
    let (patch, after_patch) = by_number-equal v.patch u.patch _ after_minor in
    let prerelease = compare_prerelease-equal v.prerelease u.prerelease hv hu after_patch in
    λ i. record { major = major i; minor = minor i; patch = patch i; prerelease = prerelease i }

-- Whenever CompareVersions calls two texts equal, both are accepted as one and the same version.
pub compare_versions-equal :
    (left right : Text)
    → compare_versions left right ≡ some equal
    → (v : Version) × (parse_version left ≡ some v) × (parse_version right ≡ some v)
unfolding compare_versions
compare_versions-equal left right done = elim (Option-cases (parse_version left)) [
  | inl refused ↦ ground (arith, refused, done)
  | inr (v, fine) ↦ elim (Option-cases (parse_version right)) [
    | inl refused ↦ ground (arith, fine, refused, done)
    | inr (u, good) ↦
        let valid_v = parse_version_valid left {v = v} fine in
        let valid_u = parse_version_valid right {v = u} good in
        let same : v ≡ u = compare-equal v u valid_v valid_u (ground (arith, fine, good, done)) in
        (u, fine ∙ ap (λ x. some x) same, good)
  ]
]
