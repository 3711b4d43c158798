-- ===== src/Versions.antt =====
-- internal/update/version.go. A text is the list of its bytes, which are ASCII in every version that
-- is accepted; strings.Split, TrimLeft and strconv.ParseUint are written out.
pub mod Order
pub mod Numbers
pub mod Print
pub mod Parse
use ruk.Prelude.{
  ℕ, ◌+◌, ◌-◌, ◌*◌, ◌==◌, Bool, true, false, not, ◌&&◌, ◌||◌, List, [], ◌∷◌, ◌++◌, Option, none,
  some, ltb, leb, if◌then◌else◌, is_empty, all_of, length,
}
use ruk.Prelude.Int.{ℤ, pos, negsuc}

abbrev pub Text : Type 0
Text = List ℕ

pub record Version : Type 0 where
  pub major : ℕ
  pub minor : ℕ
  pub patch : ℕ
  pub prerelease : List Text

-- What Compare returns: -1, 0 or 1.
abbrev pub below : ℤ
below = negsuc 0

abbrev pub equal : ℤ
equal = pos 0

abbrev pub above : ℤ
above = pos 1

abbrev pub is_digit : ℕ → Bool
is_digit c = leb 48 c && leb c 57

unfoldable pub is_numeric : Text → Bool
is_numeric value = not (is_empty value) && all_of is_digit value

abbrev pub is_identifier_character : ℕ → Bool
is_identifier_character c =
    is_digit c || (leb 65 c && leb c 90) || (leb 97 c && leb c 122) || (c == 45)

unfoldable pub is_sem_ver_identifier : Text → Bool
is_sem_ver_identifier value = all_of is_identifier_character value && not (is_empty value)

-- left == right and left < right, by bytes.
unfoldable pub same_text : Text → Text → Bool
same_text [] [] = true
same_text (c ∷ cs) (d ∷ ds) = (c == d) && same_text cs ds
same_text _ _ = false

unfoldable pub text_lt : Text → Text → Bool
text_lt [] [] = false
text_lt [] (d ∷ ds) = true
text_lt (c ∷ cs) [] = false
text_lt (c ∷ cs) (d ∷ ds) = ltb c d || ((c == d) && text_lt cs ds)

-- strings.TrimLeft(value, "0")
unfoldable pub trim_zeros : Text → Text
trim_zeros [] = []
trim_zeros (c ∷ cs) = let shorter = trim_zeros cs in if c == 48 then shorter else c ∷ cs

abbrev pub or_zero : Text → Text
or_zero [] = 48 ∷ []
or_zero (c ∷ cs) = c ∷ cs

-- `if left < right { return -1 }; if left > right { return 1 }`, and what follows.
abbrev pub by_number : ℕ → ℕ → ℤ → ℤ
by_number left right next =
    if ltb left right then below else (if ltb right left then above else next)

abbrev pub by_text : Text → Text → ℤ → ℤ
by_text left right next =
    if text_lt left right then below else (if text_lt right left then above else next)

abbrev pub compare_numeric : Text → Text → ℤ
compare_numeric left right = by_number (length left) (length right) (by_text left right equal)

-- One turn of the loop over the identifiers; 0 means that the loop continues.
unfoldable pub compare_identifier : Text → Text → ℤ
unfolding is_numeric same_text text_lt trim_zeros
compare_identifier left right =
    if same_text left right
    then equal
    else (if is_numeric left && is_numeric right
        then compare_numeric (or_zero (trim_zeros left)) (or_zero (trim_zeros right))
        else (if is_numeric left || is_numeric right
            then (if is_numeric left then below else above)
            else (if text_lt left right then below else above)))

abbrev pub or_next : ℤ → ℤ → ℤ
or_next (pos ℕ.zero) next = next
or_next (pos (ℕ.suc n)) next = pos (ℕ.suc n)
or_next (negsuc n) next = negsuc n

-- The loop, and the lengths after it.
unfoldable pub compare_identifiers : List Text → List Text → ℤ
unfolding compare_identifier
compare_identifiers [] [] = equal
compare_identifiers [] (y ∷ ys) = below
compare_identifiers (x ∷ xs) [] = above
compare_identifiers (x ∷ xs) (y ∷ ys) = or_next (compare_identifier x y) (compare_identifiers xs ys)

-- A release comes after its prereleases.
unfoldable pub compare_prerelease : List Text → List Text → ℤ
unfolding compare_identifiers
compare_prerelease [] [] = equal
compare_prerelease [] (y ∷ ys) = above
compare_prerelease (x ∷ xs) [] = below
compare_prerelease (x ∷ xs) (y ∷ ys) = compare_identifiers (x ∷ xs) (y ∷ ys)

unfoldable pub compare : Version → Version → ℤ
unfolding compare_prerelease
compare v u = by_number v.major u.major (
    by_number v.minor u.minor
      (by_number v.patch u.patch (compare_prerelease v.prerelease u.prerelease)))
