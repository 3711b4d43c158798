-- ===== src/Examples/Host.antt =====
-- A platform that keeps the promises of Platform.IsLawful: an instant is written as one star for
-- each millisecond, a float64 is a number, and every path is absolute.
use Prim.Native.String.{String}
use ruk.Prelude.{
  ℕ, ◌+◌, ◌*◌, ◌/◌, ◌≡◌, refl, true, false, Option, none, some, arith, ltb, if◌then◌else◌,
}
use ruk.Prelude.Int.{pos, pos_part}
use ruk.Platform.{Platform, IsLawful, truncate, millisecond, time_limit}

unfoldable pub stars : ℕ → String
stars ℕ.zero = ""
stars (ℕ.suc n) = String.◌∷◌ "*" (stars n)

unfoldable pub count : String → ℕ
count String.[] = 0
count (String.◌∷◌ c s) = ℕ.suc (count s)

count-stars : (n : ℕ) → count (stars n) ≡ n
unfolding count stars
count-stars ℕ.zero = refl
count-stars (ℕ.suc n) = ground (arith, count-stars n)

unfoldable pub parse_stars : String → Option ℕ
unfolding count
parse_stars v =
    if ltb (count v * millisecond) time_limit then some (count v * millisecond) else none

abbrev pub host : Platform
host = record {
  abs_path = λ p. some p;
  is_abs = λ p. true;
  sha256_hex = λ s. s;
  parse_time = parse_stars;
  format_time = λ t. stars (t / millisecond);
  duration_minutes = λ d. d;
  is_nan = λ x. false;
  is_inf = λ x. false;
  float_lt = ltb;
  float_add = λ x y. x + y;
  float_mul = λ x y. x * y;
  float_div = λ x y. x / y;
  float_of_int = pos_part;
  int_of_float = pos;
  modf_whole = λ x. x;
  modf_fraction = λ x. 0;
  float_round = λ x. x;
}

pub host-IsLawful : IsLawful host
unfolding parse_stars truncate
host-IsLawful = record {
  parse-format = λ t h. ground (arith, count-stars (t / millisecond));
  format-truncate = λ t. ground arith;
  canonical-lt = λ v t p q. ground arith;
  minutes-not_nan = λ d. refl;
  minutes-not_inf = λ d. refl;
  minutes_pos = λ d h. ground arith;
  abs-IsAbs = λ p q h. refl;
  abs_idem = λ p q h. refl;
}
