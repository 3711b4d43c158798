-- ===== src/Lifecycle/Records.antt =====
-- How an operation finds its workspace, by path (collectionKey) or by assignment (findAssignment of
-- assignment.go), and stores it again. A transition maps the record that it finds.
use ruk.Prelude.{Bool, List, [], ◌∷◌, Option, none, some, String, if◌then◌else◌}
use ruk.Prelude.Text.{str_eq, is_text}
use ruk.Prelude.Results.{Result, ok, ◌>>=◌, or_err}
use ruk.Prelude.Assoc.{lookup, put}
use ruk.Errors.{Error, unresolved_path, not_managed, no_assignment}
use ruk.Platform.{Platform}
use ruk.State.{AssignmentRecord, WorkspaceRecord, State}
use ruk.State.Valid.{tree_key}

pub record Found : Type 0 where
  pub key : String
  pub workspace : WorkspaceRecord
  pub assignment : AssignmentRecord

-- findAssignment, with the assignment that its callers dereference. Go ranges over the map in no
-- fixed order; here the first entry that fits is taken.
unfoldable pub find_assignment : String → List (String × WorkspaceRecord) → Option Found
find_assignment id [] = none
find_assignment id ((key, w) ∷ rest) = elim w.assignment [
  | none ↦ find_assignment id rest
  | some a ↦
      if str_eq a.id id
      then some (record { key = key; workspace = w; assignment = a })
      else find_assignment id rest
]

-- current.Workspaces[key] = workspace
abbrev pub store_at : String → WorkspaceRecord → State → State
store_at key w s = record s { workspaces = put key w s.workspaces }

unfoldable pub collection_key : Platform → String → Result Error String
unfolding tree_key
collection_key e workspace_path = do
  resolved ← or_err (e.abs_path workspace_path) unresolved_path
  or_err (tree_key e resolved) unresolved_path

unfoldable pub at_path :
    Platform
    → String
    → (WorkspaceRecord → Result Error WorkspaceRecord)
    → State
    → Result Error (State × WorkspaceRecord)
at_path e workspace_path transition s = do
  key ← collection_key e workspace_path
  workspace ← or_err (lookup key s.workspaces) not_managed
  result ← transition workspace
  ok (store_at key result s, result)

unfoldable pub at_assignment :
    String
    → (AssignmentRecord → WorkspaceRecord → Result Error WorkspaceRecord)
    → State
    → Result Error (State × WorkspaceRecord)
at_assignment assignment_id transition s = do
  found ← or_err (find_assignment assignment_id s.workspaces) no_assignment
  result ← transition found.assignment found.workspace
  ok (store_at found.key result s, result)

-- workspace.OperationID == nil || *workspace.OperationID != operationID, negated.
abbrev pub same_operation : Option String → String → Bool
same_operation operation_id id = is_text operation_id id
