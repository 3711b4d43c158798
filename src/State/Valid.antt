-- ===== src/State/Valid.antt =====
-- The validation of internal/state/decode.go: the tests that every document passes when it is read
-- and before it is written. A nil slice or map is not represented.
use text.Mathlib.Text.{when}
use Prim.Native.String.{slice}
use ruk.Prelude.{
  ℕ, Bool, true, false, not, ◌&&◌, ◌||◌, List, [], ◌∷◌, Option, none, some, String, ltb, leb,
  is_empty, any_of,
}
use ruk.Prelude.Int.{ℤ, pos, eq_ℤ, is_positive, at_most}
use ruk.Prelude.Text.{str_eq, is_blank}
use ruk.Platform.{Platform}
use ruk.State.{
  WorkspaceLifecycle, available, preparing, assigned, returning, failed, LeaseKeeperRecord,
  AssignmentRecord, TrackedProcessRecord,
}
use ruk.State.Uuid.{valid_uuid}

abbrev pub max_safe_integer : ℕ
max_safe_integer = 9007199254740991

unfoldable pub valid_safe_positive : ℤ → Bool
valid_safe_positive value = is_positive value && at_most value max_safe_integer

-- The lifecycle in which an operation may hold an assignment.
abbrev pub is_owned : WorkspaceLifecycle → Bool
is_owned assigned = true
is_owned returning = true
is_owned _ = false

abbrev pub is_assigned : WorkspaceLifecycle → Bool
is_assigned assigned = true
is_assigned _ = false

abbrev pub is_returning : WorkspaceLifecycle → Bool
is_returning returning = true
is_returning _ = false

abbrev pub is_available : WorkspaceLifecycle → Bool
is_available available = true
is_available _ = false

abbrev pub is_preparing : WorkspaceLifecycle → Bool
is_preparing preparing = true
is_preparing _ = false

abbrev pub is_failed : WorkspaceLifecycle → Bool
is_failed failed = true
is_failed _ = false

abbrev pub is_nil {ℓ} : {A : Type ℓ} → Option A → Bool
is_nil none = true
is_nil (some a) = false

-- A test on a value that may be absent, which then fails (`check`) or passes (`unless_nil`).
abbrev pub check {ℓ} : {A : Type ℓ} → Option A → (A → Bool) → Bool
check none p = false
check (some a) p = p a

abbrev pub unless_nil {ℓ} : {A : Type ℓ} → Option A → (A → Bool) → Bool
unless_nil none p = true
unless_nil (some a) p = p a

module _ (e : Platform) where
  open e use {abs_path, is_abs, sha256_hex, parse_time, format_time, is_nan, is_inf, float_lt}

  unfoldable pub tree_key : String → Option String
  tree_key tree_path = elim (abs_path tree_path) [
    | none ↦ none
    | some absolute ↦ some (slice (sha256_hex absolute) 0 20)
  ]

  -- The instant of a text that time.Parse reads and Format writes back; none where Go returns false.
  unfoldable pub canonical_timestamp : String → Option ℕ
  canonical_timestamp value = elim (parse_time value) [
    | none ↦ none
    | some parsed ↦ when (str_eq (format_time parsed) value) parsed
  ]

  unfoldable pub valid_timestamp : String → Bool
  unfolding canonical_timestamp
  valid_timestamp value = not (is_nil (canonical_timestamp value))

  -- !math.IsNaN(x) && !math.IsInf(x, 0) && x > 0
  unfoldable pub is_finite_positive : ℕ → Bool
  is_finite_positive x = not (is_nan x) && not (is_inf x) && float_lt (e.float_of_int (pos 0)) x

  unfoldable pub valid_keepers : List String → List LeaseKeeperRecord → Bool
  unfolding canonical_timestamp
  valid_keepers seen [] = true
  valid_keepers seen (keeper ∷ rest) =
      valid_uuid keeper.id
      && check (canonical_timestamp keeper.heartbeat_at) (λ heartbeat_at.
        check (canonical_timestamp keeper.valid_until)
          (λ valid_until. ltb heartbeat_at valid_until))
      && not (any_of (str_eq keeper.id) seen)
      && valid_keepers (keeper.id ∷ seen) rest

  abbrev pub valid_ports : List (String × ℤ) → Bool
  valid_ports [] = true
  valid_ports ((name, port) ∷ rest) =
      not (is_blank name) && is_positive port && at_most port 65535 && valid_ports rest

  -- The order of an assignment's four instants.
  unfoldable pub valid_times : AssignmentRecord → Bool
  unfolding canonical_timestamp
  valid_times a = check (canonical_timestamp a.assigned_at) λ assigned_at.
      check (canonical_timestamp a.renewed_at) λ renewed_at.
        check (canonical_timestamp a.expires_at) λ expires_at.
          check (canonical_timestamp a.last_activity_at) λ last_activity_at.
            leb assigned_at renewed_at
            && ltb renewed_at expires_at
            && leb assigned_at last_activity_at
            && ltb last_activity_at expires_at

  unfoldable pub valid_assignment : AssignmentRecord → Bool
  valid_assignment a =
      valid_uuid a.id
      && not (is_blank a.owner)
      && not (is_blank a.hostname)
      && valid_times a
      && is_finite_positive a.lease_duration_minutes
      && valid_keepers [] a.lease_keepers
      && valid_ports a.ports

unfoldable pub valid_process : TrackedProcessRecord → Bool
unfolding valid_safe_positive
valid_process p =
    valid_safe_positive p.pid
    && not (is_blank p.started_at)
    && unless_nil p.group_id valid_safe_positive
    && unless_nil p.session_id (λ session.
      valid_safe_positive session && check p.session_started_at (λ started. not (is_blank started)))
    && unless_nil p.session_started_at (λ started. not (is_blank started))
    && unless_nil p.terminal_id (λ terminal. not (is_blank terminal || str_eq terminal "??"))
    && unless_nil p.command (λ command. not (is_empty command))

unfoldable pub valid_processes : List ℤ → List TrackedProcessRecord → Bool
valid_processes seen [] = true
valid_processes seen (p ∷ rest) =
    valid_process p && not (any_of (eq_ℤ p.pid) seen) && valid_processes (p.pid ∷ seen) rest
