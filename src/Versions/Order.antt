-- ===== src/Versions/Order.antt =====
-- Compare with its arguments swapped.
use ruk.Prelude.{ℕ, ◌≡◌, refl, true, false, List, [], ◌∷◌, arith}
use ruk.Prelude.Int.{ℤ, pos, negsuc}
use ruk.Versions.{
  Text, Version, below, equal, above, same_text, text_lt, trim_zeros, or_zero, by_number,
  compare_numeric, compare_identifier, or_next, compare_identifiers, compare_prerelease, compare,
}

-- The answer with the arguments swapped.
abbrev pub swapped : ℤ → ℤ
swapped (pos ℕ.zero) = equal
swapped (pos (ℕ.suc n)) = below
swapped (negsuc n) = above

text_lt_asym : (s t : Text) → text_lt s t ≡ true → text_lt t s ≡ false
unfolding text_lt
text_lt_asym [] [] h = refl
text_lt_asym [] (d ∷ t) h = refl
text_lt_asym (c ∷ s) [] h = ground (arith, h)
text_lt_asym (c ∷ s) (d ∷ t) h = ground (arith, h, text_lt_asym s t)

pub text_lt_total : (s t : Text) → text_lt s t ≡ false → text_lt t s ≡ false → same_text s t ≡ true
unfolding text_lt same_text
text_lt_total [] [] h k = refl
text_lt_total [] (d ∷ t) h k = ground (arith, h)
text_lt_total (c ∷ s) [] h k = ground (arith, k)
text_lt_total (c ∷ s) (d ∷ t) h k = ground (arith, h, k, text_lt_total s t)

same_text_sym : (s t : Text) → same_text s t ≡ same_text t s
unfolding same_text
same_text_sym [] [] = refl
same_text_sym [] (d ∷ t) = refl
same_text_sym (c ∷ s) [] = refl
same_text_sym (c ∷ s) (d ∷ t) = ground (arith, same_text_sym s t)

compare_numeric_swap : (s t : Text) → compare_numeric t s ≡ swapped (compare_numeric s t)
compare_numeric_swap s t = ground (arith, text_lt_asym s t, text_lt_asym t s)

compare_identifier_swap : (s t : Text) → compare_identifier t s ≡ swapped (compare_identifier s t)
unfolding compare_identifier
compare_identifier_swap s t = ground (
  arith,
  compare_numeric_swap (or_zero (trim_zeros s)) (or_zero (trim_zeros t)),
  same_text_sym s t,
  text_lt_asym s t,
  text_lt_asym t s,
  text_lt_total s t,
)

or_next_swap :
    (c c' n n' : ℤ) → c' ≡ swapped c → n' ≡ swapped n → or_next c' n' ≡ swapped (or_next c n)
or_next_swap c c' n n' h k = ground (arith, h, k)

compare_identifiers_swap :
    (xs ys : List Text) → compare_identifiers ys xs ≡ swapped (compare_identifiers xs ys)
unfolding compare_identifiers
compare_identifiers_swap [] [] = refl
compare_identifiers_swap [] (y ∷ ys) = refl
compare_identifiers_swap (x ∷ xs) [] = refl
compare_identifiers_swap (x ∷ xs) (y ∷ ys) =
    or_next_swap _ _ _ _ (compare_identifier_swap x y) (compare_identifiers_swap xs ys)

compare_prerelease_swap :
    (xs ys : List Text) → compare_prerelease ys xs ≡ swapped (compare_prerelease xs ys)
unfolding compare_prerelease
compare_prerelease_swap [] [] = refl
compare_prerelease_swap [] (y ∷ ys) = refl
compare_prerelease_swap (x ∷ xs) [] = refl
compare_prerelease_swap (x ∷ xs) (y ∷ ys) = compare_identifiers_swap (x ∷ xs) (y ∷ ys)

by_number_swap :
    (a b : ℕ) (n n' : ℤ) → n' ≡ swapped n → by_number b a n' ≡ swapped (by_number a b n)
by_number_swap a b n n' h = ground (arith, h)

-- Comparing two versions in the other order gives the opposite answer.
pub compare_swap : (v u : Version) → compare u v ≡ swapped (compare v u)
unfolding compare
compare_swap v u = by_number_swap v.major u.major _ _ (
    by_number_swap v.minor u.minor _ _
      (by_number_swap v.patch u.patch _ _ (compare_prerelease_swap v.prerelease u.prerelease)))
