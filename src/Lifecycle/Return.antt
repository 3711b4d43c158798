-- ===== src/Lifecycle/Return.antt =====
-- internal/lifecycle/return.go.
use ruk.Prelude.{ℕ, not, ◌&&◌, ◌||◌, Option, none, some, String, ltb, if◌then◌else◌, is_empty}
use ruk.Prelude.Text.{str_eq, is_blank}
use ruk.Prelude.Results.{Result, ok, ◌>>=◌, ◌>>◌, guard}
use ruk.Errors.{
  Error, wrong_lifecycle, acquisition_in_progress, acquisition_mismatch, changed_before_collection,
  renewed_before_collection, still_tracked, empty_failure,
}
use ruk.Platform.{Platform}
use ruk.State.{AssignmentRecord, WorkspaceRecord, State, available, assigned, returning}
use ruk.State.Valid.{is_assigned, is_returning}
use ruk.Lifecycle.Records.{at_assignment}
use ruk.Lifecycle.Clock.{parse_timestamp}

pub record ReturnOptions : Type 0 where
  pub require_expired_by : String
  pub acquisition_operation_id : String
  pub expected_updated_at : String

-- A handoff in progress is crossed only with its own identifier.
abbrev pub crosses : Option String → String → Result Error (Unit {0})
crosses none expected = guard (is_blank expected) acquisition_mismatch
crosses (some operation_id) expected =
    guard (not (is_blank expected) && str_eq operation_id expected) acquisition_in_progress

abbrev pub expired_by : Platform → String → String → Result Error (Unit {0})
expired_by e required expires_at =
    if is_blank required
    then ok tt
    else (parse_timestamp e expires_at >>= λ expiry. parse_timestamp e required >>= λ cutoff.
        guard (not (ltb cutoff expiry)) renewed_before_collection)

unfoldable pub start_return :
    Platform → ℕ → ReturnOptions → AssignmentRecord → WorkspaceRecord → Result Error WorkspaceRecord
start_return e now options a w = do
  guard (is_assigned w.lifecycle) wrong_lifecycle
  crosses w.operation_id options.acquisition_operation_id
  guard (is_blank options.expected_updated_at || str_eq w.updated_at options.expected_updated_at)
      changed_before_collection
  expired_by e options.require_expired_by a.expires_at
  ok (record w { lifecycle = returning; failure = none; updated_at = e.format_time now })

-- A retry finds the workspace returning already, and changes nothing.
unfoldable pub begin_return :
    Platform → ℕ → ReturnOptions → AssignmentRecord → WorkspaceRecord → Result Error WorkspaceRecord
unfolding start_return
begin_return e now options a w =
    if is_returning w.lifecycle then ok w else start_return e now options a w

-- BeginWorkspaceReturnWithOptions; BeginWorkspaceReturn gives the acquisition operation alone.
unfoldable pub begin_workspace_return :
    Platform → ℕ → String → ReturnOptions → State → Result Error (State × WorkspaceRecord)
unfolding begin_return
begin_workspace_return e now assignment_id options =
    at_assignment assignment_id (begin_return e now options)

unfoldable pub finish_return :
    Platform → ℕ → AssignmentRecord → WorkspaceRecord → Result Error WorkspaceRecord
finish_return e clock a w = do
  guard (is_returning w.lifecycle) wrong_lifecycle
  guard (is_empty w.processes) still_tracked
  let now = e.format_time clock
  ok (record w {
    lifecycle = available;
    operation_id = none;
    assignment = none;
    updated_at = now;
    available_at = some now;
    failure = none;
  })

unfoldable pub finish_workspace_return :
    Platform → ℕ → String → State → Result Error (State × WorkspaceRecord)
unfolding finish_return
finish_workspace_return e now assignment_id = at_assignment assignment_id (finish_return e now)

unfoldable pub cancel_return :
    Platform → ℕ → String → AssignmentRecord → WorkspaceRecord → Result Error WorkspaceRecord
cancel_return e now failure a w = do
  guard (is_returning w.lifecycle) wrong_lifecycle
  ok (record w {
    lifecycle = assigned;
    updated_at = e.format_time now;
    available_at = none;
    failure = some failure;
  })

unfoldable pub cancel_workspace_return :
    Platform → ℕ → String → String → State → Result Error (State × WorkspaceRecord)
unfolding cancel_return
cancel_workspace_return e now assignment_id failure s = do
  guard (not (is_blank failure)) empty_failure
  at_assignment assignment_id (cancel_return e now failure) s
