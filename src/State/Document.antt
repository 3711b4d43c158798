-- ===== src/State/Document.antt =====
-- A whole document of internal/state: validWorkspace, validGlobalFences and the tests of Decode, and
-- the transaction of Store.Update over them. The file, its JSON text and its lock are the
-- environment's: the document is the state that the text decodes to.
pub mod Laws
pub mod Parts
use ruk.Prelude.{
  ℕ, ◌≡◌, Bool, true, false, not, ◌&&◌, ◌||◌, List, [], ◌∷◌, ◌++◌, map, Option, none, some, String,
  ◌==◌, if◌then◌else◌, is_empty, all_of, any_of,
}
use ruk.Prelude.Int.{ℤ, pos, negsuc, eq_ℤ, at_most}
use ruk.Prelude.Text.{str_eq, is_blank}
use ruk.Prelude.Results.{Result, ok, err, ◌>>=◌, ◌>>◌, guard}
use ruk.Errors.{Error, invalid_state}
use ruk.Platform.{Platform}
use ruk.State.{
  TreeRecord, WorkspaceLifecycle, AssignmentRecord, UsageMetrics, TrackedProcessRecord,
  WorkspaceRecord, State, current_version,
}
use ruk.State.Uuid.{valid_uuid, valid_fingerprint}
use ruk.State.Valid.{
  is_owned, is_assigned, is_available, is_preparing, is_failed, is_nil, check, unless_nil, tree_key,
  valid_timestamp, valid_assignment, valid_processes, max_safe_integer,
}

-- !(*failure == "") and the like, by the lifecycle.
unfoldable pub valid_failure : WorkspaceLifecycle → Option String → Bool
valid_failure lifecycle failure =
    if is_failed lifecycle
    then check failure (λ text. not (is_blank text))
    else (if is_assigned lifecycle
        then unless_nil failure (λ text. not (is_blank text))
        else is_nil failure)

unfoldable pub valid_operation : WorkspaceLifecycle → Option String → Bool
valid_operation lifecycle operation_id =
    unless_nil operation_id valid_uuid && not (is_preparing lifecycle && is_nil operation_id)

-- Only a workspace in use, in preparation or failed may have tracked processes.
unfoldable pub valid_idle : WorkspaceLifecycle → List TrackedProcessRecord → Bool
valid_idle lifecycle processes =
    is_owned lifecycle || is_preparing lifecycle || is_failed lifecycle || is_empty processes

module _ (e : Platform) where
  open e use {is_abs}

  unfoldable pub valid_ownership : WorkspaceLifecycle → Option AssignmentRecord → Bool
  valid_ownership lifecycle assignment =
      if is_owned lifecycle then check assignment (valid_assignment e) else is_nil assignment

  unfoldable pub valid_availability : WorkspaceLifecycle → Option String → Bool
  valid_availability lifecycle available_at =
      if is_available lifecycle then check available_at (valid_timestamp e) else is_nil available_at

  unfoldable pub valid_identity : WorkspaceRecord → Bool
  valid_identity w =
      is_abs w.path && w.managed && not (is_blank w.branch) && valid_timestamp e w.created_at

  unfoldable pub valid_workspace : WorkspaceRecord → Bool
  valid_workspace w =
      valid_identity w
      && valid_timestamp e w.updated_at
      && valid_operation w.lifecycle w.operation_id
      && valid_ownership w.lifecycle w.assignment
      && valid_availability w.lifecycle w.available_at
      && valid_failure w.lifecycle w.failure
      && valid_idle w.lifecycle w.processes
      && valid_processes [] w.processes

  -- One entry of the loop of Decode.
  unfoldable pub valid_entry : String × WorkspaceRecord → Bool
  valid_entry (key, w) = check (tree_key e w.path) (str_eq key) && valid_workspace w

valid_tree : String × TreeRecord → Bool
valid_tree (key, tree) =
    is_blank tree.projection_fingerprint || valid_fingerprint tree.projection_fingerprint

abbrev valid_counter : ℤ → Bool
valid_counter (pos n) = at_most (pos n) max_safe_integer
valid_counter (negsuc n) = false

unfoldable pub valid_metrics : UsageMetrics → Bool
valid_metrics m =
    valid_counter m.acquisitions
    && valid_counter m.workspace_reuses
    && valid_counter m.preparations
    && valid_counter m.preparation_skips
    && valid_counter m.preparation_failures
    && valid_counter m.total_preparation_ms
    && unless_nil m.last_preparation_ms valid_counter

-- What the entries of a document hold, in the order of its entries.
abbrev pub held {ℓ} :
    {A : Type ℓ} → (WorkspaceRecord → List A) → List (String × WorkspaceRecord) → List A
held f [] = []
held f ((key, w) ∷ rest) = f w ++ held f rest

abbrev pub operation_of : WorkspaceRecord → List String
operation_of w = elim w.operation_id [ none ↦ [] | some id ↦ id ∷ [] ]

abbrev pub assignment_of : WorkspaceRecord → List String
assignment_of w = elim w.assignment [ none ↦ [] | some a ↦ a.id ∷ [] ]

abbrev pub port_numbers : List (String × ℤ) → List ℤ
port_numbers [] = []
port_numbers ((name, port) ∷ rest) = port ∷ port_numbers rest

abbrev pub ports_of : WorkspaceRecord → List ℤ
ports_of w = elim w.assignment [ none ↦ [] | some a ↦ port_numbers a.ports ]

-- No value is in the set of those seen before it.
abbrev pub distinct {ℓ} : {A : Type ℓ} → (A → A → Bool) → List A → Bool
distinct eq [] = true
distinct eq (x ∷ xs) = not (any_of (eq x) xs) && distinct eq xs

unfoldable pub valid_global_fences : List (String × WorkspaceRecord) → Bool
valid_global_fences workspaces =
    distinct str_eq (held operation_of workspaces)
    && distinct str_eq (held assignment_of workspaces)
    && distinct eq_ℤ (held ports_of workspaces)

unfoldable pub valid_state : Platform → State → Bool
unfolding valid_tree
valid_state e s =
    s.version == current_version
    && all_of valid_tree s.trees
    && valid_metrics s.metrics
    && all_of (valid_entry e) s.workspaces
    && valid_global_fences s.workspaces

-- Store.Update: the mutation runs on a state that was read, and its result is written only if it
-- passes validation. An error leaves the document as it was.
unfoldable pub update :
    {A : Type 0} → Platform → (State → Result Error (State × A)) → State → Result Error (State × A)
update e mutate s = do (t, result) ← mutate s; guard (valid_state e t) invalid_state; ok (t, result)
