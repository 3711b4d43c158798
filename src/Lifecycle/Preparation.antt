-- ===== src/Lifecycle/Preparation.antt =====
-- internal/lifecycle/preparation.go.
use ruk.Prelude.{ℕ, not, ◌||◌, [], Option, none, some, true, String, if◌then◌else◌, is_empty}
use ruk.Prelude.Text.{is_blank}
use ruk.Prelude.Results.{Result, ok, ◌>>=◌, ◌>>◌, guard, or_err}
use ruk.Prelude.Assoc.{lookup}
use ruk.Errors.{
  Error, empty_branch, unresolved_path, already_managed, empty_failure, wrong_lifecycle,
  operation_mismatch, still_tracked,
}
use ruk.Platform.{Platform}
use ruk.State.{TrackedProcessRecord, WorkspaceRecord, State, available, preparing, failed}
use ruk.State.Valid.{is_preparing, is_nil, tree_key}
use ruk.Lifecycle.Records.{store_at, at_path, same_operation}
use ruk.Lifecycle.Clock.{next_workspace_timestamp}
use ruk.Lifecycle.Process.{append_retained_process}

-- The record that BeginPreparation publishes.
abbrev pub new_workspace : String → String → String → String → WorkspaceRecord
new_workspace resolved branch operation_id now = record {
  path = resolved;
  managed = true;
  branch = branch;
  lifecycle = preparing;
  operation_id = some operation_id;
  assignment = none;
  processes = [];
  created_at = now;
  updated_at = now;
  available_at = none;
  failure = none;
}

unfoldable pub begin_preparation :
    Platform → ℕ → String → String → String → State → Result Error (State × WorkspaceRecord)
begin_preparation e now new_id workspace_path branch s = do
  guard (not (is_blank branch)) empty_branch
  resolved ← or_err (e.abs_path workspace_path) unresolved_path
  key ← or_err (tree_key e resolved) unresolved_path
  let workspace = new_workspace resolved branch new_id (e.format_time now)
  guard (is_nil (lookup key s.workspaces)) already_managed
  ok (store_at key workspace s, workspace)

-- The record after the last assignments of finishPreparation; an empty failure is success.
abbrev pub finished : String → String → WorkspaceRecord → WorkspaceRecord
finished failure now w =
    if is_blank failure
    then record w {
      operation_id = none;
      updated_at = now;
      lifecycle = available;
      available_at = some now;
    }
    else record w {
      operation_id = none;
      updated_at = now;
      lifecycle = failed;
      failure = some failure;
    }

unfoldable pub finish :
    Platform
    → ℕ
    → String
    → String
    → Option TrackedProcessRecord
    → WorkspaceRecord
    → Result Error WorkspaceRecord
finish e now operation_id failure retained w = do
  guard (is_preparing w.lifecycle) wrong_lifecycle
  guard (same_operation w.operation_id operation_id) operation_mismatch
  let stamp = next_workspace_timestamp e w.updated_at now
  guard (not (is_blank failure) || is_empty w.processes) still_tracked
  kept ← append_retained_process retained w
  ok (finished failure stamp kept)

unfoldable pub finish_preparation :
    Platform
    → ℕ
    → String
    → String
    → String
    → Option TrackedProcessRecord
    → State
    → Result Error (State × WorkspaceRecord)
unfolding finish
finish_preparation e now workspace_path operation_id failure retained =
    at_path e workspace_path (finish e now operation_id failure retained)

unfoldable pub mark_available :
    Platform → ℕ → String → String → State → Result Error (State × WorkspaceRecord)
unfolding finish_preparation
mark_available e now workspace_path operation_id =
    finish_preparation e now workspace_path operation_id "" none

-- MarkFailedRetainingProcess; MarkFailed retains none.
unfoldable pub mark_failed :
    Platform
    → ℕ
    → String
    → String
    → String
    → Option TrackedProcessRecord
    → State
    → Result Error (State × WorkspaceRecord)
unfolding finish_preparation
mark_failed e now workspace_path operation_id failure retained s = do
  guard (not (is_blank failure)) empty_failure
  finish_preparation e now workspace_path operation_id failure retained s
