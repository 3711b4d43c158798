-- ===== src/Versions/Parse.antt =====
-- ParseVersion and CompareVersions of internal/update/version.go: none is the error "Unsupported
-- version". The text is that of the ASCII bytes; strings.Split and ParseUint are written out.
pub mod Exact
pub mod RoundTrip
use ruk.Prelude.{
  ℕ, ◌+◌, ◌-◌, ◌*◌, ◌==◌, Bool, true, false, not, ◌&&◌, ◌||◌, List, [], ◌∷◌, Option, none, some,
  ltb, leb, if◌then◌else◌, is_empty, any_of, all_of, length,
}
use ruk.Prelude.Int.{ℤ}
use ruk.Versions.{Text, Version, is_digit, is_numeric, is_sem_ver_identifier, compare}

abbrev pub max_uint64 : ℕ
max_uint64 = 18446744073709551615

-- strconv.ParseUint(text, 10, 64) behind the digits that were read.
unfoldable pub parse_digits : ℕ → Text → Option ℕ
parse_digits n [] = some n
parse_digits n (c ∷ rest) =
    let next = n * 10 + (c - 48) in
    let later = parse_digits next rest in if is_digit c && leb next max_uint64 then later else none

-- strings.TrimPrefix(value, "v")
abbrev pub trim_prefix : Text → Text
trim_prefix [] = []
trim_prefix (c ∷ rest) = if c == 118 then rest else c ∷ rest

abbrev cons_first : ℕ → List Text → List Text
cons_first c [] = (c ∷ []) ∷ []
cons_first c (part ∷ parts) = (c ∷ part) ∷ parts

-- strings.Split(value, "."), which has one part more than there are separators.
unfoldable pub split_dots : Text → List Text
split_dots [] = [] ∷ []
split_dots (c ∷ rest) =
    let parts = split_dots rest in if c == 46 then [] ∷ parts else cons_first c parts

-- strings.SplitN(value, "-", 2): what stands before the first dash, and what after it.
unfoldable pub cut_dash : Text → Text × Option Text
cut_dash [] = ([], none)
cut_dash (c ∷ rest) =
    let (before, after) = cut_dash rest in if c == 45 then ([], some rest) else (c ∷ before, after)

abbrev pub starts_with_zero : Text → Bool
starts_with_zero [] = false
starts_with_zero (c ∷ rest) = (c == 48) && not (is_empty rest)

unfoldable pub parse_number : Text → Option ℕ
unfolding parse_digits
parse_number text = if is_empty text || starts_with_zero text then none else parse_digits 0 text

unfoldable pub valid_identifier : Text → Bool
unfolding is_numeric is_sem_ver_identifier
valid_identifier identifier =
    not (is_empty identifier)
    && is_sem_ver_identifier identifier
    && not (is_numeric identifier && starts_with_zero identifier)

abbrev pub version_of : List Text → Option ℕ → Option ℕ → Option ℕ → Option Version
version_of identifiers (some major) (some minor) (some patch) =
    some (record { major = major; minor = minor; patch = patch; prerelease = identifiers })
version_of identifiers _ _ _ = none

abbrev pub parse_core : List Text → List Text → Option Version
parse_core identifiers (major ∷ minor ∷ patch ∷ []) =
    version_of identifiers (parse_number major) (parse_number minor) (parse_number patch)
parse_core identifiers _ = none

-- The loop over the identifiers returns at the first that is not valid.
abbrev pub parse_parts : Text × Option Text → Option Version
parse_parts (core, none) = parse_core [] (split_dots core)
parse_parts (core, some text) =
    let identifiers = split_dots text in
    if not (is_empty text) && all_of valid_identifier identifiers
    then parse_core identifiers (split_dots core)
    else none

unfoldable pub parse_version : Text → Option Version
unfolding cut_dash split_dots parse_number valid_identifier
parse_version text =
    let value = trim_prefix text in
    if any_of (λ c. c == 43) value then none else parse_parts (cut_dash value)

abbrev pub compare_parsed : Option Version → Option Version → Option ℤ
compare_parsed (some v) (some u) = some (compare v u)
compare_parsed _ _ = none

unfoldable pub compare_versions : Text → Text → Option ℤ
unfolding parse_version
compare_versions left right = compare_parsed (parse_version left) (parse_version right)
