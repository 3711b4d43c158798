-- ===== src/Lifecycle/Keeps/Stamps.antt =====
-- The texts that Format writes, as canonical timestamps.
use ruk.Prelude.{
  ℕ, ◌+◌, ◌≤◌, ◌<◌, ◌≡◌, inl, inr, true, some, String, arith, ltb, Option-cases, Bool-cases,
}
use ruk.Prelude.Text.{str_eq_refl}
use ruk.Platform.{Platform, IsLawful, truncate, millisecond, time_limit}
use ruk.State.Valid.{canonical_timestamp, valid_timestamp}
use ruk.Lifecycle.Clock.{next_workspace_timestamp}

pub truncate-le : (t : ℕ) → truncate t ≤ t
unfolding truncate
truncate-le t = omega arith

module _ (e : Platform) (lawful : IsLawful e) where
  pub canonical-format :
      (t : ℕ) → t < time_limit → canonical_timestamp e (e.format_time t) ≡ some (truncate t)
  unfolding canonical_timestamp
  canonical-format t h =
      ground
        (arith, lawful.parse-format t h, lawful.format-truncate t, str_eq_refl (e.format_time t))

  pub valid-format : (t : ℕ) → t < time_limit → valid_timestamp e (e.format_time t) ≡ true
  unfolding valid_timestamp
  valid-format t h = rw (canonical-format t h)

  pub parse-canonical :
      (value : String) {t : ℕ} → canonical_timestamp e value ≡ some t → e.parse_time value ≡ some t
  unfolding canonical_timestamp
  parse-canonical value h = ground arith

  -- The stamp of a finished preparation lies in range if the clock and the previous stamp do.
  pub valid-next_workspace_timestamp :
      (previous : String) (observed : ℕ)
      → observed < time_limit
      → ((u : ℕ) → e.parse_time previous ≡ some u → u + millisecond < time_limit)
      → valid_timestamp e (next_workspace_timestamp e previous observed) ≡ true
  unfolding next_workspace_timestamp
  valid-next_workspace_timestamp previous observed h early =
      elim (Option-cases (e.parse_time previous)) [
        | inl bad ↦
            rw (bad, next_workspace_timestamp)
              (valid-format _ (omega (arith, truncate-le observed)))
        | inr (u, good) ↦ elim (Bool-cases (ltb u (truncate observed))) [
          | inl later ↦
              rw (good, next_workspace_timestamp)
                (rw later (valid-format _ (omega (arith, truncate-le observed))))
          | inr earlier ↦
              rw (good, next_workspace_timestamp)
                (rw earlier (valid-format _ (omega (arith, early u good, truncate-le u))))
        ]
      ]
