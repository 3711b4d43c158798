-- ===== src/Lifecycle/Step.antt =====
-- The operations of internal/lifecycle as one step relation on states: each constructor is a
-- successful operation, with what the clock, the source of identifiers and the caller provide.
use ruk.Prelude.{ℕ, ◌+◌, ◌≤◌, ◌<◌, ◌≡◌, Bool, true, false, not, ◌||◌, Option, some, String, any_of}
use ruk.Prelude.Int.{ℤ, pos_part}
use ruk.Prelude.Text.{str_eq, is_blank}
use ruk.Prelude.Results.{ok}
use ruk.Prelude.Assoc.{lookup}
use ruk.Platform.{Platform, truncate, time_sub, time_limit, millisecond}
use ruk.State.{WorkspaceLifecycle, TrackedProcessRecord, WorkspaceRecord, State, empty_state}
use ruk.State.Uuid.{valid_uuid}
use ruk.State.Valid.{is_preparing, is_nil, unless_nil, valid_process}
use ruk.State.Document.{held, operation_of, assignment_of, valid_metrics}
use ruk.Lifecycle.Records.{Found, find_assignment, collection_key}
use ruk.Lifecycle.Clock.{
  later_time, parse_timestamp, renewal_time, lifecycle_expiry, lease_duration,
}
use ruk.Lifecycle.Preparation.{begin_preparation, finish_preparation}
use ruk.Lifecycle.Assignment.{
  AssignmentInput, expiry_of, count_acquisition, reserve_available_workspace, mark_assigned,
  retain_assignment_after_acquisition_failure, record_acquisition_success,
  refresh_acquisition_lease,
}
use ruk.Lifecycle.Renewal.{renew_assignment}
use ruk.Lifecycle.Activity.{
  begin_assignment_activity, refresh_assignment_activity, finish_assignment_activity,
}
use ruk.Lifecycle.Return.{
  ReturnOptions, begin_workspace_return, finish_workspace_return, cancel_workspace_return,
}
use ruk.Lifecycle.Collection.{
  begin_workspace_collection, remove_unassigned_process, cancel_workspace_collection,
  delete_workspace_record,
}
use ruk.Lifecycle.Process.{add_assignment_process, remove_assignment_process}

-- What newID returns: a version 4 UUID that no workspace holds yet.
abbrev pub NewOperation : State → String → Type 0
NewOperation s id =
    (valid_uuid id ≡ true) × (any_of (str_eq id) (held operation_of s.workspaces) ≡ false)

abbrev pub NewAssignment : State → String → Type 0
NewAssignment s id =
    (valid_uuid id ≡ true) × (any_of (str_eq id) (held assignment_of s.workspaces) ≡ false)

-- No stored stamp lies within a millisecond of year 10000.
abbrev pub EarlyStamps : Platform → State → Type 0
EarlyStamps e s =
    (key : String) (w : WorkspaceRecord)
    → lookup key s.workspaces ≡ some w
    → (u : ℕ) → e.parse_time w.updated_at ≡ some u
    → u + millisecond < time_limit

-- The lease that a caller asks for ends before year 10000.
abbrev pub EarlyLease : Platform → ℕ → AssignmentInput → Type 0
EarlyLease e now input = (x : ℕ) → expiry_of e (truncate now) input ≡ ok x → x < time_limit

-- Each activity grants a lease of a millisecond or longer, which ends before year 10000.
abbrev pub ActiveLease : Platform → ℕ → ℕ → String → State → Type 0
ActiveLease e now duration id s =
    (f : Found)
    → find_assignment id s.workspaces ≡ some f
    → (millisecond ≤ lease_duration e f.assignment.lease_duration_minutes)
      × ((p : ℕ)
          → parse_timestamp e f.assignment.renewed_at ≡ ok p
          → (later_time (truncate now) p + duration < time_limit)
            × (later_time (truncate now) p + lease_duration e f.assignment.lease_duration_minutes
                < time_limit))

pub data Step (e : Platform) (s t : State) : Type 0 where
  begins :
      (now : ℕ) (new_id path branch : String) {w : WorkspaceRecord}
      → begin_preparation e now new_id path branch s ≡ ok (t, w)
      → now < time_limit
      → NewOperation s new_id
      → Step e s t
  finishes :
      (now : ℕ) (path operation_id failure : String) (retained : Option TrackedProcessRecord)
      {w : WorkspaceRecord}
      → finish_preparation e now path operation_id failure retained s ≡ ok (t, w)
      → now < time_limit
      → EarlyStamps e s
      → unless_nil retained valid_process ≡ true
      → is_nil retained || not (is_blank failure) ≡ true
      → Step e s t
  reserves :
      (now : ℕ) (new_id new_operation_id : String) (input : AssignmentInput)
      (requested : Option String) {w : Option WorkspaceRecord}
      → reserve_available_workspace e now new_id new_operation_id input requested s ≡ ok (t, w)
      → NewAssignment s new_id
      → NewOperation s new_operation_id
      → EarlyLease e now input
      → Step e s t
  assigns :
      (now : ℕ) (new_id new_operation_id path operation_id : String) (input : AssignmentInput)
      {w : WorkspaceRecord}
      → mark_assigned e now new_id new_operation_id path operation_id input s ≡ ok (t, w)
      → NewAssignment s new_id
      → NewOperation s new_operation_id
      → EarlyLease e now input
      → Step e s t
  retains :
      (now : ℕ) (id operation_id failure : String) (retained : Option TrackedProcessRecord)
      {w : WorkspaceRecord}
      → retain_assignment_after_acquisition_failure e now id operation_id failure retained s
        ≡ ok (t, w)
      → now < time_limit
      → EarlyStamps e s
      → unless_nil retained valid_process ≡ true
      → Step e s t
  succeeds :
      (now : ℕ) (id operation_id : String) (reused : Bool) {w : WorkspaceRecord}
      → record_acquisition_success e now id operation_id reused s ≡ ok (t, w)
      → now < time_limit
      → valid_metrics (count_acquisition reused s.metrics) ≡ true
      → Step e s t
  refreshes :
      (now : ℕ) (id operation_id renewed_at expires_at : String) (minutes : ℕ) {w : WorkspaceRecord}
      → refresh_acquisition_lease e now id operation_id renewed_at expires_at minutes s ≡ ok (t, w)
      → ((f : Found)
          → find_assignment id s.workspaces ≡ some f
          → (x : ℕ) → lifecycle_expiry e (renewal_time e f.assignment.renewed_at now) minutes ≡ ok x
          → x < time_limit)
      → Step e s t
  renews :
      (now : ℕ) (id : String) (expires_at : ℕ) (expected : Option String) {w : WorkspaceRecord}
      → renew_assignment e now id expires_at expected s ≡ ok (t, w)
      → expires_at < time_limit
      → Step e s t
  starts_activity :
      (now : ℕ) (id keeper_id : String) (duration : ℤ) {w : WorkspaceRecord}
      → begin_assignment_activity e now id keeper_id duration s ≡ ok (t, w)
      → millisecond ≤ pos_part duration
      → ActiveLease e now (pos_part duration) id s
      → Step e s t
  beats :
      (now : ℕ) (id keeper_id : String) (valid_until : ℕ) {w : WorkspaceRecord}
      → refresh_assignment_activity e now id keeper_id valid_until s ≡ ok (t, w)
      → ActiveLease e now (time_sub (truncate valid_until) (truncate now)) id s
      → Step e s t
  ends_activity :
      (now : ℕ) (id keeper_id : String) {w : WorkspaceRecord}
      → finish_assignment_activity e now id keeper_id s ≡ ok (t, w)
      → ActiveLease e now 0 id s
      → Step e s t
  returns :
      (now : ℕ) (id : String) (options : ReturnOptions) {w : WorkspaceRecord}
      → begin_workspace_return e now id options s ≡ ok (t, w)
      → now < time_limit
      → Step e s t
  releases :
      (now : ℕ) (id : String) {w : WorkspaceRecord}
      → finish_workspace_return e now id s ≡ ok (t, w)
      → now < time_limit
      → Step e s t
  cancels_return :
      (now : ℕ) (id failure : String) {w : WorkspaceRecord}
      → cancel_workspace_return e now id failure s ≡ ok (t, w)
      → now < time_limit
      → Step e s t
  collects :
      (now : ℕ) (new_id path updated_at : String) {w : WorkspaceRecord}
      → begin_workspace_collection e now new_id path updated_at s ≡ ok (t, w)
      → now < time_limit
      → NewOperation s new_id
      → Step e s t
  drops_unassigned :
      (now : ℕ) (path : String) (lifecycle : WorkspaceLifecycle) (operation_id : Option String)
      (updated_at : String) (pid : ℤ) (started_at : String) {w : WorkspaceRecord}
      → remove_unassigned_process e now path lifecycle operation_id updated_at pid started_at s
        ≡ ok (t, w)
      → now < time_limit
      → Step e s t
  cancels_collection :
      (now : ℕ) (path operation_id : String) {w : WorkspaceRecord}
      → cancel_workspace_collection e now path operation_id s ≡ ok (t, w)
      → now < time_limit
      → ((key : String) (v : WorkspaceRecord)
          → collection_key e path ≡ ok key
          → lookup key s.workspaces ≡ some v
          → is_preparing v.lifecycle ≡ false)
      → Step e s t
  deletes :
      (path operation_id : String) {w : WorkspaceRecord}
      → delete_workspace_record e path operation_id s ≡ ok (t, w)
      → Step e s t
  tracks :
      (now : ℕ) (id : String) (r : TrackedProcessRecord) {w : WorkspaceRecord}
      → add_assignment_process e now id r s ≡ ok (t, w)
      → now < time_limit
      → Step e s t
  drops :
      (now : ℕ) (id : String) (pid : ℤ) (started_at : String) {w : WorkspaceRecord}
      → remove_assignment_process e now id pid started_at s ≡ ok (t, w)
      → now < time_limit
      → Step e s t

-- The states that a history of operations reaches from the empty state.
pub data Reach (e : Platform) : State → Type 0 where
  here : Reach e empty_state
  next : {s t : State} → Reach e s → Step e s t → Reach e t
