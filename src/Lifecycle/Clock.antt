-- ===== src/Lifecycle/Clock.antt =====
-- The instants of internal/lifecycle: parseTimestamp, laterTime and recordActivity of activity.go,
-- timestamp of preparation.go, nextWorkspaceTimestamp of retained_process.go, and lifecycleExpiry of
-- assignment.go.
use ruk.Prelude.{ℕ, ◌+◌, ◌/◌, ◌%◌, Bool, not, ◌||◌, none, some, String, ltb, if◌then◌else◌}
use ruk.Prelude.Int.{pos, pos_part, sub_ℕ, add_ℤ, mul_ℤ}
use ruk.Prelude.Results.{Result, ok, ◌>>◌, guard, or_err}
use ruk.Errors.{
  Error, lease_not_positive, lease_out_of_range, lease_too_short, lease_invalid, bad_timestamp,
}
use ruk.Platform.{Platform, truncate, millisecond, second, minute, max_duration}
use ruk.State.{AssignmentRecord, WorkspaceRecord}
use ruk.State.Valid.{is_finite_positive}

abbrev pub later_time : ℕ → ℕ → ℕ
later_time left right = if ltb left right then right else left

-- time.Date(9999, 12, 31, 23, 59, 59, 999_000_000, time.UTC)
abbrev pub maximum : ℕ
maximum = 315537897599999000000

module _ (e : Platform) where
  open e use {
    parse_time, format_time, float_lt, float_add, float_mul, float_div, float_of_int, int_of_float,
    modf_whole, modf_fraction, float_round, is_inf,
  }

  unfoldable pub parse_timestamp : String → Result Error ℕ
  parse_timestamp value = or_err (parse_time value) bad_timestamp

  -- The clock reading, or one millisecond past the previous renewal if that is later.
  unfoldable pub renewal_time : String → ℕ → ℕ
  renewal_time renewed_at now = elim (parse_time renewed_at) [
    | none ↦ truncate now
    | some previous ↦ later_time (truncate now) (previous + millisecond)
  ]

  unfoldable pub next_workspace_timestamp : String → ℕ → String
  next_workspace_timestamp previous observed =
      let next = truncate observed in
      elim (parse_time previous) [
        | none ↦ format_time next
        | some parsed ↦
            format_time (if ltb parsed next then next else truncate parsed + millisecond)
      ]

  -- float64(maximum.Unix()-now.Unix()) + float64(maximum.Nanosecond()-now.Nanosecond())/1e9
  unfoldable pub available_seconds : ℕ → ℕ
  available_seconds now = float_add (float_of_int (sub_ℕ (maximum / second) (now / second))) (
      float_div (float_of_int (sub_ℕ (maximum % second) (now % second)))
        (float_of_int (pos second)))

  -- time.Unix(now.Unix()+int64(whole), int64(now.Nanosecond())+int64(math.Round(fraction*1e9)))
  unfoldable pub lease_end : ℕ → ℕ → ℕ
  lease_end now seconds =
      let whole = int_of_float (modf_whole seconds) in
      let nanoseconds =
        int_of_float
          (float_round (float_mul (modf_fraction seconds) (float_of_int (pos second)))) in
      pos_part (add_ℤ (add_ℤ (pos now) (mul_ℤ whole (pos second))) nanoseconds)

  unfoldable pub lifecycle_expiry : ℕ → ℕ → Result Error ℕ
  lifecycle_expiry now minutes = do
    guard (is_finite_positive e minutes) lease_not_positive
    let seconds = float_mul minutes (float_of_int (pos 60))
    guard (not (is_inf seconds || float_lt (available_seconds now) seconds)) lease_out_of_range
    let expires_at = truncate (lease_end now seconds)
    guard (ltb now expires_at) lease_too_short
    ok expires_at

  -- minutes > float64(maxDuration)/float64(time.Minute)
  unfoldable pub exceeds_duration : ℕ → Bool
  exceeds_duration minutes =
      float_lt (float_div (float_of_int (pos max_duration)) (float_of_int (pos minute))) minutes

  -- time.Duration(minutes * float64(time.Minute)); the caller has checked that minutes is positive.
  unfoldable pub lease_duration : ℕ → ℕ
  lease_duration minutes = pos_part (int_of_float (float_mul minutes (float_of_int (pos minute))))

  unfoldable pub record_activity :
      AssignmentRecord → WorkspaceRecord → ℕ → Result Error WorkspaceRecord
  record_activity a w observed_at = do
    guard (is_finite_positive e a.lease_duration_minutes) lease_invalid
    guard (not (exceeds_duration a.lease_duration_minutes)) lease_invalid
    let now = format_time observed_at
    ok (record w {
      assignment = some (record a {
        renewed_at = now;
        expires_at = format_time (observed_at + lease_duration a.lease_duration_minutes);
        last_activity_at = now;
      });
      updated_at = now;
    })
