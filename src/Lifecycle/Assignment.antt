-- ===== src/Lifecycle/Assignment.antt =====
-- internal/lifecycle/assignment.go.
use ruk.Prelude.{
  ℕ, Bool, not, ◌&&◌, ◌||◌, List, [], ◌∷◌, Option, none, some, true, String, ltb, if◌then◌else◌,
}
use ruk.Prelude.Int.{ℤ, pos, negsuc}
use ruk.Prelude.Text.{str_eq, str_lt, is_blank}
use ruk.Prelude.Results.{Result, ok, ◌>>=◌, ◌>>◌, guard}
use ruk.Prelude.Sorting.{sort_by}
use ruk.Errors.{
  Error, empty_owner, empty_hostname, empty_failure, wrong_lifecycle, operation_mismatch,
  expiry_not_future, lease_not_positive,
}
use ruk.Platform.{Platform, truncate, time_sub}
use ruk.State.{
  AssignmentRecord, TrackedProcessRecord, WorkspaceRecord, UsageMetrics, State, assigned,
}
use ruk.State.Valid.{is_assigned, is_available, is_preparing, is_nil, is_finite_positive}
use ruk.Lifecycle.Records.{store_at, collection_key, at_path, at_assignment, same_operation}
use ruk.Lifecycle.Clock.{lifecycle_expiry, renewal_time, next_workspace_timestamp}
use ruk.Lifecycle.Process.{append_retained_process}

pub record AssignmentInput : Type 0 where
  pub owner : String
  pub hostname : String
  pub branch : String
  pub expires_at : ℕ
  pub lease_duration_minutes : ℕ  -- float64

unfoldable pub validate_assignment_input : AssignmentInput → Result Error (Unit {0})
validate_assignment_input input = do
  guard (not (is_blank input.owner)) empty_owner
  guard (not (is_blank input.hostname)) empty_hostname
  ok tt

-- The end of the lease that `assign` grants.
unfoldable pub expiry_of : Platform → ℕ → AssignmentInput → Result Error ℕ
expiry_of e now input =
    if e.float_lt (e.float_of_int (pos 0)) input.lease_duration_minutes
    then lifecycle_expiry e now input.lease_duration_minutes
    else (guard (ltb now (truncate input.expires_at)) expiry_not_future
        >> ok (truncate input.expires_at))

abbrev pub new_assignment : Platform → ℕ → ℕ → String → AssignmentInput → AssignmentRecord
new_assignment e now expires_at id input = record {
  id = id;
  owner = input.owner;
  hostname = input.hostname;
  assigned_at = e.format_time now;
  renewed_at = e.format_time now;
  expires_at = e.format_time expires_at;
  lease_duration_minutes = e.duration_minutes (time_sub expires_at now);
  last_activity_at = e.format_time now;
  lease_keepers = [];
  ports = [];
}

-- The two identifiers are those that newID returns, in the order of its calls.
unfoldable pub assign :
    Platform
    → ℕ
    → String
    → String
    → AssignmentInput
    → WorkspaceRecord
    → Result Error WorkspaceRecord
assign e clock assignment_id acquisition_operation_id input w = do
  let now = truncate clock
  expires_at ← expiry_of e now input
  ok (record w {
    lifecycle = assigned;
    operation_id = some acquisition_operation_id;
    assignment = some (new_assignment e now expires_at assignment_id input);
    branch = if is_blank input.branch then w.branch else input.branch;
    updated_at = e.format_time now;
    available_at = none;
    failure = none;
  })

abbrev pub text_or_empty : Option String → String
text_or_empty none = ""
text_or_empty (some t) = t

-- The comparison of sort.Slice: by the instant of availability, then by the path.
abbrev pub older : String × WorkspaceRecord → String × WorkspaceRecord → Bool
older (k, v) (j, w) =
    let left = text_or_empty v.available_at in
    let right = text_or_empty w.available_at in
    str_lt left right || (str_eq left right && str_lt v.path w.path)

abbrev pub is_candidate : Option String → String × WorkspaceRecord → Bool
is_candidate requested (key, w) =
    is_available w.lifecycle
    && is_nil w.operation_id
    && (elim requested [ none ↦ true | some wanted ↦ str_eq key wanted ])

unfoldable pub candidates :
    Option String → List (String × WorkspaceRecord) → List (String × WorkspaceRecord)
candidates requested [] = []
candidates requested (entry ∷ rest) =
    let kept = candidates requested rest in
    if is_candidate requested entry then entry ∷ kept else kept

-- requestedKey: none where no path is requested.
unfoldable pub requested_key : Platform → Option String → Result Error (Option String)
requested_key e none = ok none
requested_key e (some path) = do key ← collection_key e path; ok (some key)

-- The first entry of the sorted candidates is assigned; without one the result is nil.
abbrev pub reserve_first :
    Platform
    → ℕ
    → String
    → String
    → AssignmentInput
    → List (String × WorkspaceRecord)
    → State
    → Result Error (State × Option WorkspaceRecord)
reserve_first e now new_id new_operation_id input [] s = ok (s, none)
reserve_first e now new_id new_operation_id input ((key, w) ∷ rest) s = do
  result ← assign e now new_id new_operation_id input w
  ok (store_at key result s, some result)

unfoldable pub reserve_available_workspace :
    Platform
    → ℕ
    → String
    → String
    → AssignmentInput
    → Option String
    → State
    → Result Error (State × Option WorkspaceRecord)
unfolding validate_assignment_input requested_key
reserve_available_workspace e now new_id new_operation_id input requested_path s = do
  validate_assignment_input input
  requested ← requested_key e requested_path
  reserve_first e now new_id new_operation_id input
      (sort_by older (candidates requested s.workspaces)) s

unfoldable pub hand_over :
    Platform
    → ℕ
    → String
    → String
    → String
    → AssignmentInput
    → WorkspaceRecord
    → Result Error WorkspaceRecord
hand_over e now new_id new_operation_id preparation_operation_id input w = do
  guard (is_preparing w.lifecycle) wrong_lifecycle
  guard (same_operation w.operation_id preparation_operation_id) operation_mismatch
  assign e now new_id new_operation_id input w

unfoldable pub mark_assigned :
    Platform
    → ℕ
    → String
    → String
    → String
    → String
    → AssignmentInput
    → State
    → Result Error (State × WorkspaceRecord)
unfolding validate_assignment_input hand_over
mark_assigned e now new_id new_operation_id workspace_path preparation_operation_id input s = do
  validate_assignment_input input
  at_path e workspace_path (hand_over e now new_id new_operation_id preparation_operation_id input)
      s

-- The two fences that the operations on a handoff share.
abbrev pub fenced : String → WorkspaceRecord → Result Error (Unit {0})
fenced acquisition_operation_id w =
    guard (is_assigned w.lifecycle) wrong_lifecycle
    >> guard (same_operation w.operation_id acquisition_operation_id) operation_mismatch

unfoldable pub retain :
    Platform
    → ℕ
    → String
    → String
    → Option TrackedProcessRecord
    → AssignmentRecord
    → WorkspaceRecord
    → Result Error WorkspaceRecord
retain e now acquisition_operation_id failure retained a w = do
  fenced acquisition_operation_id w
  kept ← append_retained_process retained w
  ok (record kept {
    operation_id = none;
    updated_at = next_workspace_timestamp e w.updated_at now;
    failure = some failure;
  })

-- RetainAssignmentAfterAcquisitionFailureWithProcess; without a process it retains none.
unfoldable pub retain_assignment_after_acquisition_failure :
    Platform
    → ℕ
    → String
    → String
    → String
    → Option TrackedProcessRecord
    → State
    → Result Error (State × WorkspaceRecord)
unfolding retain
retain_assignment_after_acquisition_failure e now id acquisition_operation_id failure retained s =
    do
      guard (not (is_blank failure)) empty_failure
      at_assignment id (retain e now acquisition_operation_id failure retained) s

-- x++ on an int64.
abbrev pub increment : ℤ → ℤ
increment (pos n) = if ltb n 9223372036854775807 then pos (ℕ.suc n) else negsuc 9223372036854775807
increment (negsuc ℕ.zero) = pos 0
increment (negsuc (ℕ.suc n)) = negsuc n

unfoldable pub count_acquisition : Bool → UsageMetrics → UsageMetrics
count_acquisition reused m = record m {
  acquisitions = increment m.acquisitions;
  workspace_reuses = if reused then increment m.workspace_reuses else m.workspace_reuses;
}

unfoldable pub succeed :
    Platform → ℕ → String → AssignmentRecord → WorkspaceRecord → Result Error WorkspaceRecord
succeed e now acquisition_operation_id a w = do
  fenced acquisition_operation_id w
  ok (record w { operation_id = none; updated_at = e.format_time now })

unfoldable pub record_acquisition_success :
    Platform → ℕ → String → String → Bool → State → Result Error (State × WorkspaceRecord)
unfolding succeed
record_acquisition_success e now id acquisition_operation_id reused s = do
  (t, result) ← at_assignment id (succeed e now acquisition_operation_id) s
  ok (record t { metrics = count_acquisition reused t.metrics }, result)

-- An expected value that is given and differs: a renewal has won, and nothing is changed.
abbrev pub is_stale : String → String → AssignmentRecord → Bool
is_stale expected_renewed_at expected_expires_at a =
    (not (is_blank expected_renewed_at) && not (str_eq a.renewed_at expected_renewed_at))
    || (not (is_blank expected_expires_at) && not (str_eq a.expires_at expected_expires_at))

unfoldable pub restart_lease :
    Platform → ℕ → ℕ → AssignmentRecord → WorkspaceRecord → Result Error WorkspaceRecord
restart_lease e clock minutes a w = do
  let now = renewal_time e a.renewed_at clock
  expires_at ← lifecycle_expiry e now minutes
  let renewed_at = e.format_time now
  ok (record w {
    assignment = some (record a {
      renewed_at = renewed_at;
      expires_at = e.format_time expires_at;
      lease_duration_minutes = minutes;
      last_activity_at = renewed_at;
    });
    updated_at = renewed_at;
  })

unfoldable pub refresh :
    Platform
    → ℕ
    → String
    → String
    → String
    → ℕ
    → AssignmentRecord
    → WorkspaceRecord
    → Result Error WorkspaceRecord
refresh e now acquisition_operation_id expected_renewed_at expected_expires_at minutes a w = do
  fenced acquisition_operation_id w
  (if is_stale expected_renewed_at expected_expires_at a
      then ok w
      else restart_lease e now minutes a w)

unfoldable pub refresh_acquisition_lease :
    Platform
    → ℕ
    → String
    → String
    → String
    → String
    → ℕ
    → State
    → Result Error (State × WorkspaceRecord)
unfolding refresh
refresh_acquisition_lease e now id acquisition_operation_id expected_renewed_at expected_expires_at
      minutes s =
    do
      guard (is_finite_positive e minutes) lease_not_positive
      at_assignment id
          (refresh e now acquisition_operation_id expected_renewed_at expected_expires_at minutes) s
