-- ===== src/Versions/Numbers.antt =====
-- Numeric identifiers and the numbers that they spell.
use native.Mathlib.Nat.{mul-le-mul_right, suc-mul}
use ruk.Prelude.{
  ℕ, suc, ◌+◌, ◌*◌, ◌-◌, ◌<◌, ◌≤◌, ◌≡◌, refl, sym, ap, inl, inr, Bool, true, false, not, ◌&&◌, ◌||◌,
  [], ◌∷◌, ltb, ◌==◌, all_of, length, arith, Bool-cases,
}
use ruk.Versions.{
  Text, equal, is_digit, is_numeric, same_text, text_lt, trim_zeros, or_zero, by_number,
  compare_numeric, compare_identifier,
}

unfoldable pub tens : ℕ → ℕ
tens ℕ.zero = 1
tens (ℕ.suc n) = 10 * tens n

-- The number that digits spell.
unfoldable pub value : Text → ℕ
unfolding tens
value [] = 0
value (c ∷ cs) = (c - 48) * tens (length cs) + value cs

tens_mono : (m n : ℕ) → m ≤ n → tens m ≤ tens n
unfolding tens
tens_mono ℕ.zero ℕ.zero h = omega arith
tens_mono ℕ.zero (ℕ.suc n) h = omega (arith, tens_mono ℕ.zero n (omega arith))
tens_mono (ℕ.suc m) ℕ.zero h = omega (arith, h)
tens_mono (ℕ.suc m) (ℕ.suc n) h = omega (arith, tens_mono m n (omega (arith, h)))

value-lt-tens : (s : Text) → all_of is_digit s ≡ true → value s < tens (length s)
unfolding value tens
value-lt-tens [] h = omega arith
value-lt-tens (c ∷ s) h =
    let small : c - 48 ≤ 9 = ground (arith, h) in
    let rest = value-lt-tens s (ground (arith, h)) in
    let scaled = mul-le-mul_right (tens (length s)) small in omega (arith, rest, scaled)

-- A smaller digit decides, whatever follows it.
digit_lt : (a b w u v : ℕ) → a < b → u < w → a * w + u < b * w + v
digit_lt a b w u v h k =
    let next : suc a ≤ b = omega (arith, h) in
    let scaled = mul-le-mul_right w next in omega (arith, scaled, suc-mul a w, k)

leading :
    (a b w u v : ℕ)
    → u < w
    → v < w
    → (ltb (a * w + u) (b * w + v) ≡ ltb a b || ((a == b) && ltb u v))
      × (((a * w + u) == (b * w + v)) ≡ (a == b) && (u == v))
leading a b w u v hu hv = elim (Bool-cases (a == b)) [
  | inl same ↦ let is : a ≡ b = ground (arith, same) in rw is (ground arith, ground arith)
  | inr apart ↦
      let smaller = digit_lt a b w u v in
      let larger = digit_lt b a w v u in
      (
        ground (arith, apart, smaller, larger, hu, hv),
        ground (arith, apart, smaller, larger, hu, hv),
      )
]

-- Digits of one length are compared as numbers by their bytes.
text_lt-value :
    (s t : Text)
    → length s ≡ length t
    → all_of is_digit s ≡ true
    → all_of is_digit t ≡ true
    → (text_lt s t ≡ ltb (value s) (value t)) × (same_text s t ≡ (value s == value t))
unfolding text_lt same_text value
text_lt-value [] [] same hs ht = (refl, refl)
text_lt-value [] (d ∷ t) same hs ht = ground (arith, same)
text_lt-value (c ∷ s) [] same hs ht = ground (arith, same)
text_lt-value (c ∷ s) (d ∷ t) same hs ht =
    let alike : length s ≡ length t = omega (arith, same) in
    let (less, equals) = text_lt-value s t alike (ground (arith, hs)) (ground (arith, ht)) in
    let small_s = value-lt-tens s (ground (arith, hs)) in
    let small_t = value-lt-tens t (ground (arith, ht)) in
    let is : tens (length s) ≡ tens (length t) = ap tens alike in
    let (first_less, first_equals) =
      leading (c - 48) (d - 48) (tens (length t)) (value s) (value t) (rw (sym is) small_s)
        small_t in
    rw is (ground (arith, less, first_less, hs, ht), ground (arith, equals, first_equals, hs, ht))

-- A text with no leading zero, or a zero alone.
abbrev leads : Text → Bool
leads [] = false
leads (c ∷ []) = true
leads (c ∷ d ∷ cs) = not (c == 48)

shorter-value :
    (s t : Text)
    → length s < length t
    → leads t ≡ true
    → leads s ≡ true
    → all_of is_digit s ≡ true
    → all_of is_digit t ≡ true
    → value s < value t
unfolding value
shorter-value [] t h lead some_s hs ht = ground (arith, some_s)
shorter-value (b ∷ s) [] h lead some_s hs ht = ground (arith, h)
shorter-value (b ∷ s) (c ∷ []) h lead some_s hs ht = ground (arith, h)
shorter-value (b ∷ s) (c ∷ d ∷ t) h lead some_s hs ht =
    let digit : 1 ≤ c - 48 = ground (arith, lead, ht) in
    let scaled = mul-le-mul_right (tens (length (d ∷ t))) digit in
    let bound = value-lt-tens (b ∷ s) hs in
    let wide = tens_mono (length (b ∷ s)) (length (d ∷ t)) (omega (arith, h)) in
    omega (arith, scaled, bound, wide)

trim_zeros-value :
    (s : Text)
    → all_of is_digit s ≡ true
    → (value (or_zero (trim_zeros s)) ≡ value s)
      × (all_of is_digit (or_zero (trim_zeros s)) ≡ true)
      × (leads (or_zero (trim_zeros s)) ≡ true)
unfolding trim_zeros value
trim_zeros-value [] h = (refl, refl, refl)
trim_zeros-value (c ∷ s) h = elim (Bool-cases (c == 48)) [
  | inl zero_first ↦
      let is : c ≡ 48 = ground (arith, zero_first) in
      let (same, digits, lead) = trim_zeros-value s (ground (arith, h)) in
      rw is (omega (arith, same), digits, lead)
  | inr other ↦ rw other (refl, h, lead_kept c s other)
]
  where
    lead_kept : (c : ℕ) (s : Text) → (c == 48) ≡ false → leads (c ∷ s) ≡ true
    lead_kept c [] other = refl
    lead_kept c (d ∷ s) other = rw other refl

compare_numeric-value :
    (s t : Text)
    → leads s ≡ true
    → leads t ≡ true
    → all_of is_digit s ≡ true
    → all_of is_digit t ≡ true
    → compare_numeric s t ≡ by_number (value s) (value t) equal
compare_numeric-value s t ls lt hs ht = elim (Bool-cases (ltb (length s) (length t))) [
  | inl shorter ↦
      let less = shorter-value s t (ground (arith, shorter)) lt ls hs ht in
      ground (arith, shorter, less)
  | inr no_shorter ↦ elim (Bool-cases (ltb (length t) (length s))) [
    | inl longer ↦
        let less = shorter-value t s (ground (arith, longer)) ls lt ht hs in
        ground (arith, no_shorter, longer, less)
    | inr no_longer ↦
        let alike : length s ≡ length t = ground (arith, no_shorter, no_longer) in
        let (less, _) = text_lt-value s t alike hs ht in
        let (more, _) = text_lt-value t s (sym alike) ht hs in
        rw no_shorter (rw no_longer (rw less (rw more refl)))
  ]
]

pub same_text-eq : (s t : Text) → same_text s t ≡ true → s ≡ t
unfolding same_text
same_text-eq [] [] h = refl
same_text-eq [] (d ∷ t) h = ground (arith, h)
same_text-eq (c ∷ s) [] h = ground (arith, h)
same_text-eq (c ∷ s) (d ∷ t) h =
    let first : c ≡ d = ground (arith, h) in
    let rest : s ≡ t = same_text-eq s t (ground (arith, h)) in rw first (ap (λ u. d ∷ u) rest)

-- Whenever two identifiers consist of digits, they are compared as the numbers that the digits
-- spell, however many leading zeros they have.
pub compare_identifier-value :
    (s t : Text)
    → is_numeric s ≡ true
    → is_numeric t ≡ true
    → compare_identifier s t ≡ by_number (value s) (value t) equal
unfolding compare_identifier is_numeric
compare_identifier-value s t hs ht =
    let digits_s : all_of is_digit s ≡ true = ground (arith, hs) in
    let digits_t : all_of is_digit t ≡ true = ground (arith, ht) in
    let (same_s, kept_s, lead_s) = trim_zeros-value s digits_s in
    let (same_t, kept_t, lead_t) = trim_zeros-value t digits_t in
    elim (Bool-cases (same_text s t)) [
      | inl same ↦
          let is : value s ≡ value t = ap value (same_text-eq s t same) in ground (arith, same, is)
      | inr other ↦
          let answer =
            compare_numeric-value (or_zero (trim_zeros s)) (or_zero (trim_zeros t)) lead_s lead_t
              kept_s kept_t in
          ground (arith, other, hs, ht, answer, same_s, same_t)
    ]
