-- ===== src/Platform.antt =====
-- What the program takes from Go's library: path resolution, SHA-256, time.Parse and Format, and
-- the arithmetic of float64. An instant is the number of nanoseconds since the first of January
-- of year 1, the zero of time.Time; a float64 is its bit pattern.
use ruk.Prelude.{ℕ, ◌-◌, ◌*◌, ◌/◌, ◌<◌, ◌≡◌, min, Bool, true, Option, some, String}
use ruk.Prelude.Int.{ℤ}

pub record Platform : Type 0 where
  pub abs_path : String → Option String  -- filepath.Abs(filepath.Clean(path))
  pub is_abs : String → Bool  -- filepath.IsAbs
  pub sha256_hex : String → String
  pub parse_time : String → Option ℕ  -- time.Parse(time.RFC3339Nano, value)
  pub format_time : ℕ → String  -- Format("2006-01-02T15:04:05.000Z") in UTC
  pub duration_minutes : ℕ → ℕ  -- Duration.Minutes
  pub is_nan : ℕ → Bool
  pub is_inf : ℕ → Bool
  pub float_lt : ℕ → ℕ → Bool
  pub float_add : ℕ → ℕ → ℕ
  pub float_mul : ℕ → ℕ → ℕ
  pub float_div : ℕ → ℕ → ℕ
  pub float_of_int : ℤ → ℕ
  pub int_of_float : ℕ → ℤ  -- int64(x), which truncates
  pub modf_whole : ℕ → ℕ
  pub modf_fraction : ℕ → ℕ
  pub float_round : ℕ → ℕ

abbrev pub millisecond : ℕ
millisecond = 1000000

abbrev pub second : ℕ
second = 1000000000

abbrev pub minute : ℕ
minute = 60000000000

-- The last value of a time.Duration.
abbrev pub max_duration : ℕ
max_duration = 9223372036854775807

-- The first instant of year 10000, which the four digits of the layout cannot show.
abbrev pub time_limit : ℕ
time_limit = 315537897600000000000

-- Truncate(time.Millisecond)
unfoldable pub truncate : ℕ → ℕ
truncate t = t / millisecond * millisecond

-- left.Sub(right), where left is not before right; the library caps a Duration.
unfoldable pub time_sub : ℕ → ℕ → ℕ
time_sub left right = min (left - right) max_duration

-- What the documentation of Go's library promises of these functions.
pub record IsLawful (e : Platform) : Type 0 where
  pub parse-format : (t : ℕ) → t < time_limit → e.parse_time (e.format_time t) ≡ some (truncate t)
  pub format-truncate : (t : ℕ) → e.format_time (truncate t) ≡ e.format_time t
  pub canonical-lt :
      (v : String) (t : ℕ) → e.parse_time v ≡ some t → e.format_time t ≡ v → t < time_limit
  pub minutes-not_nan : (d : ℕ) → e.is_nan (e.duration_minutes d) ≡ Bool.false
  pub minutes-not_inf : (d : ℕ) → e.is_inf (e.duration_minutes d) ≡ Bool.false
  pub minutes_pos :
      (d : ℕ) → 0 < d → e.float_lt (e.float_of_int (ℤ.pos 0)) (e.duration_minutes d) ≡ true
  pub abs-IsAbs : (p q : String) → e.abs_path p ≡ some q → e.is_abs q ≡ true
  pub abs_idem : (p q : String) → e.abs_path p ≡ some q → e.abs_path q ≡ some q
