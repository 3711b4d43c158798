-- ===== src/Prelude/Text.antt =====
-- Go strings that the program only compares are native texts: equality, the empty text, and the
-- byte order of `<`, with its laws.
use Prim.Native.Nat.{ℕ}
use Prim.Native.Char.{code}
use Prim.Native.String.{String, compare}
use Prim.Native.String.compare
use mathlib.Core.Path.{◌≡◌}
use mathlib.Core.Logic.{◌↔◌}
use mathlib.Core.Bool.{Bool, true, false}
use mathlib.Core.Option.{Option, none, some}
use mathlib.Core.List.{List, [], ◌∷◌}
use native.Mathlib.Omega.{arith}
use text.Mathlib.Text.{is_lt, is_eq}
use text.Mathlib.TextEquality.{eq_iff}
use text.Mathlib.TextPositions.{eq_refl}

abbrev pub str_eq : String → String → Bool
str_eq s t = is_eq (compare s t)

abbrev pub str_lt : String → String → Bool
str_lt s t = is_lt (compare s t)

abbrev pub is_blank : String → Bool
is_blank s = str_eq s ""

-- *s == t, for a pointer that may be nil.
abbrev pub is_text : Option String → String → Bool
is_text none t = false
is_text (some s) t = str_eq s t

pub str_eq_iff : (s t : String) → (str_eq s t ≡ true) ↔ (s ≡ t)
str_eq_iff s t = eq_iff s t

pub str_eq_refl : (s : String) → str_eq s s ≡ true
str_eq_refl s = eq_refl s

-- The code points of a text: its bytes, if it is ASCII.
abbrev pub codes : String → List ℕ
codes String.[] = []
codes (String.◌∷◌ c s) = code c ∷ codes s

pub str_lt_asym : (s t : String) → str_lt s t ≡ true → str_lt t s ≡ false
str_lt_asym String.[] String.[] h = ground (arith, compare.nil-nil)
str_lt_asym String.[] (String.◌∷◌ d t) h = ground (arith, compare.cons-nil d t)
str_lt_asym (String.◌∷◌ c s) String.[] h = ground (arith, compare.cons-nil c s)
str_lt_asym (String.◌∷◌ c s) (String.◌∷◌ d t) h =
    ground (arith, str_lt_asym s t, compare.cons-cons c d s t, compare.cons-cons d c t s)

-- s ≤ t and t ≤ u give s ≤ u.
pub str_lt_trans : (s t u : String) → str_lt t s ≡ false → str_lt u t ≡ false → str_lt u s ≡ false
str_lt_trans String.[] t String.[] h k = ground (arith, compare.nil-nil)
str_lt_trans String.[] t (String.◌∷◌ f u) h k = ground (arith, compare.cons-nil f u)
str_lt_trans (String.◌∷◌ c s) String.[] u h k = ground (arith, compare.nil-cons c s)
str_lt_trans (String.◌∷◌ c s) (String.◌∷◌ d t) String.[] h k = ground (arith, compare.nil-cons d t)
str_lt_trans (String.◌∷◌ c s) (String.◌∷◌ d t) (String.◌∷◌ f u) h k = ground (
  arith,
  str_lt_trans s t u,
  compare.cons-cons d c t s,
  compare.cons-cons f d u t,
  compare.cons-cons f c u s,
)

-- Neither text is less than the other only if they are one text.
pub str_lt_total : (s t : String) → str_lt s t ≡ false → str_lt t s ≡ false → str_eq s t ≡ true
str_lt_total String.[] String.[] h k = ground (arith, compare.nil-nil)
str_lt_total String.[] (String.◌∷◌ d t) h k = ground (arith, compare.nil-cons d t)
str_lt_total (String.◌∷◌ c s) String.[] h k = ground (arith, compare.nil-cons c s)
str_lt_total (String.◌∷◌ c s) (String.◌∷◌ d t) h k =
    ground (arith, str_lt_total s t, compare.cons-cons c d s t, compare.cons-cons d c t s)
