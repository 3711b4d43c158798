-- ===== src/Lifecycle/Collection.antt =====
-- internal/lifecycle/collection.go.
use ruk.Prelude.{
  ℕ, Bool, not, ◌&&◌, ◌||◌, Option, none, some, true, false, String, if◌then◌else◌, is_empty,
}
use ruk.Prelude.Int.{ℤ}
use ruk.Prelude.Text.{str_eq}
use ruk.Prelude.Results.{Result, ok, ◌>>=◌, ◌>>◌, guard, or_err}
use ruk.Prelude.Assoc.{lookup, delete}
use ruk.Errors.{
  Error, not_managed, not_safe_to_collect, changed_before_collection, still_tracked,
  not_unassigned_lifecycle, changed_before_cleanup, workspace_assigned, operation_changed,
  process_not_tracked, operation_mismatch, still_owned,
}
use ruk.Platform.{Platform}
use ruk.State.{
  WorkspaceLifecycle, available, preparing, assigned, returning, failed, WorkspaceRecord, State,
}
use ruk.State.Valid.{is_available, is_preparing, is_failed, is_nil}
use ruk.Lifecycle.Records.{at_path, collection_key, same_operation}
use ruk.Lifecycle.Process.{remove_process}

abbrev pub same_lifecycle : WorkspaceLifecycle → WorkspaceLifecycle → Bool
same_lifecycle available available = true
same_lifecycle preparing preparing = true
same_lifecycle assigned assigned = true
same_lifecycle returning returning = true
same_lifecycle failed failed = true
same_lifecycle _ _ = false

-- sameCollectionOperation
abbrev pub same_collection_operation : Option String → Option String → Bool
same_collection_operation (some left) (some right) = str_eq left right
same_collection_operation none none = true
same_collection_operation _ _ = false

-- An abandoned preparation becomes a failure.
abbrev pub abandoned : WorkspaceRecord → WorkspaceRecord
abandoned w =
    if is_preparing w.lifecycle
    then record w { lifecycle = failed; failure = some "Workspace preparation was abandoned" }
    else w

-- An interrupted collection is returned unchanged.
abbrev pub is_interrupted : WorkspaceRecord → Bool
is_interrupted w = not (is_preparing w.lifecycle) && not (is_nil w.operation_id)

-- The record that BeginWorkspaceCollection returns.
unfoldable pub collecting : Platform → ℕ → String → WorkspaceRecord → WorkspaceRecord
collecting e now new_id w =
    if is_interrupted w
    then w
    else record (abandoned w) { operation_id = some new_id; updated_at = e.format_time now }

unfoldable pub begin_collection :
    Platform → ℕ → String → String → WorkspaceRecord → Result Error WorkspaceRecord
begin_collection e now new_id expected_updated_at w = do
  guard (is_preparing w.lifecycle || is_available w.lifecycle || is_failed w.lifecycle)
      not_safe_to_collect
  guard (str_eq w.updated_at expected_updated_at) changed_before_collection
  guard (is_empty w.processes) still_tracked
  ok (collecting e now new_id w)

unfoldable pub begin_workspace_collection :
    Platform → ℕ → String → String → String → State → Result Error (State × WorkspaceRecord)
unfolding begin_collection collecting
begin_workspace_collection e now new_id workspace_path expected_updated_at =
    at_path e workspace_path (begin_collection e now new_id expected_updated_at)

unfoldable pub remove_unassigned :
    Platform
    → ℕ
    → WorkspaceLifecycle
    → Option String
    → String
    → ℤ
    → String
    → WorkspaceRecord
    → Result Error WorkspaceRecord
remove_unassigned e now expected_lifecycle expected_operation_id expected_updated_at pid started_at
      w =
    do
      guard (same_lifecycle w.lifecycle expected_lifecycle) changed_before_cleanup
      guard (is_nil w.assignment) workspace_assigned
      guard (str_eq w.updated_at expected_updated_at) changed_before_cleanup
      guard (same_collection_operation w.operation_id expected_operation_id) operation_changed
      remaining ← or_err (remove_process pid started_at w.processes) process_not_tracked
      ok (record w { processes = remaining; updated_at = e.format_time now })

unfoldable pub remove_unassigned_process :
    Platform
    → ℕ
    → String
    → WorkspaceLifecycle
    → Option String
    → String
    → ℤ
    → String
    → State
    → Result Error (State × WorkspaceRecord)
unfolding remove_unassigned
remove_unassigned_process e now path lifecycle operation_id updated_at pid started_at s = do
  key ← collection_key e path
  guard (is_preparing lifecycle || is_failed lifecycle) not_unassigned_lifecycle
  at_path e path (remove_unassigned e now lifecycle operation_id updated_at pid started_at) s

unfoldable pub cancel_collection :
    Platform → ℕ → String → WorkspaceRecord → Result Error WorkspaceRecord
cancel_collection e now operation_id w = do
  guard (same_operation w.operation_id operation_id) operation_mismatch
  let cancelled_at = e.format_time now
  ok (record w {
    operation_id = none;
    updated_at = cancelled_at;
    available_at = if is_available w.lifecycle then some cancelled_at else w.available_at;
  })

unfoldable pub cancel_workspace_collection :
    Platform → ℕ → String → String → State → Result Error (State × WorkspaceRecord)
unfolding cancel_collection
cancel_workspace_collection e now workspace_path operation_id =
    at_path e workspace_path (cancel_collection e now operation_id)

-- The guards of DeleteWorkspaceRecord.
unfoldable pub collectable : String → WorkspaceRecord → Result Error (Unit {0})
collectable operation_id w = do
  guard (is_available w.lifecycle || is_failed w.lifecycle) not_safe_to_collect
  guard (is_nil w.assignment && is_empty w.processes) still_owned
  guard (same_operation w.operation_id operation_id) operation_mismatch

unfoldable pub delete_workspace_record :
    Platform → String → String → State → Result Error (State × WorkspaceRecord)
unfolding collectable
delete_workspace_record e workspace_path operation_id s = do
  key ← collection_key e workspace_path
  workspace ← or_err (lookup key s.workspaces) not_managed
  collectable operation_id workspace
  ok (record s { workspaces = delete key s.workspaces }, workspace)
