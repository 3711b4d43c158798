-- ===== src/Lifecycle/Gc.antt =====
-- internal/lifecycle/gc.go: which workspaces a collection may take, and why.
use ruk.Prelude.{
  ℕ, Bool, not, ◌&&◌, List, [], ◌∷◌, Option, none, some, true, false, String, ltb, ◌==◌,
  if◌then◌else◌, map,
}
use ruk.Prelude.Text.{str_lt}
use ruk.Prelude.Results.{Result, ok, ◌>>=◌, ◌>>◌, guard, or_err}
use ruk.Prelude.Sorting.{sort_by}
use ruk.Errors.{Error, not_available_at, bad_instant, unsupported_version}
use ruk.Platform.{Platform, truncate}
use ruk.State.{
  WorkspaceLifecycle, available, preparing, assigned, returning, failed, LeaseKeeperRecord,
  AssignmentRecord, WorkspaceRecord, State, current_version,
}
use ruk.State.Valid.{is_available, is_failed, is_nil}
use ruk.Lifecycle.Process.{clone_process_record}
use ruk.Lifecycle.Clock.{parse_timestamp}

pub data GcCandidateReason : Type 0 where
  gc_available gc_failed gc_abandoned_preparation gc_abandoned_acquisition : GcCandidateReason
  gc_interrupted_collection gc_expired_assignment : GcCandidateReason

pub record GcCandidate : Type 0 where
  pub workspace : WorkspaceRecord
  pub reason : GcCandidateReason
  pub requires_force : Bool
  pub expected_updated_at : String
  pub expected_operation_id : Option String
  pub expected_assignment_id : Option String
  pub expected_renewed_at : Option String
  pub expected_expires_at : Option String

abbrev field_of : Option AssignmentRecord → (AssignmentRecord → String) → Option String
field_of none f = none
field_of (some a) f = some (f a)

unfoldable pub make_gc_candidate : WorkspaceRecord → GcCandidateReason → Bool → GcCandidate
make_gc_candidate w reason requires_force = record {
  workspace = w;
  reason = reason;
  requires_force = requires_force;
  expected_updated_at = w.updated_at;
  expected_operation_id = w.operation_id;
  expected_assignment_id = field_of w.assignment (λ a. a.id);
  expected_renewed_at = field_of w.assignment (λ a. a.renewed_at);
  expected_expires_at = field_of w.assignment (λ a. a.expires_at);
}

-- cloneWorkspace: a copy shares nothing with the record, and only an empty command changes.
abbrev pub clone_workspace : WorkspaceRecord → WorkspaceRecord
clone_workspace w = record w { processes = map clone_process_record w.processes }

-- The switch on a workspace whose operation never finished.
abbrev pub abandoned_reason : WorkspaceLifecycle → Bool → Option GcCandidateReason
abandoned_reason preparing stale = if stale then some gc_abandoned_preparation else none
abandoned_reason assigned stale = if stale then some gc_abandoned_acquisition else none
abandoned_reason available stale = some gc_interrupted_collection
abandoned_reason failed stale = some gc_interrupted_collection
abandoned_reason returning stale = none

-- A branch that returns a candidate ends the function.
abbrev pub or_else :
    Option GcCandidate → Result Error (Option GcCandidate) → Result Error (Option GcCandidate)
or_else none rest = rest
or_else (some c) rest = ok (some c)

abbrev pub candidate_for : WorkspaceRecord → Bool → Option GcCandidateReason → Option GcCandidate
candidate_for w force none = none
candidate_for w force (some reason) = some (make_gc_candidate w reason force)

module _ (e : Platform) where
  unfoldable pub has_active_keeper : ℕ → List LeaseKeeperRecord → Result Error Bool
  has_active_keeper now [] = ok false
  has_active_keeper now (keeper ∷ rest) = do
    valid_until ← parse_timestamp e keeper.valid_until
    (let others = has_active_keeper now rest in if ltb now valid_until then ok true else others)

  -- The block on an available workspace without an operation.
  unfoldable pub available_reason : ℕ → WorkspaceRecord → Result Error (Option GcCandidateReason)
  available_reason cutoff w =
      if is_nil w.operation_id && is_available w.lifecycle
      then (or_err w.available_at not_available_at >>= λ text.
          parse_timestamp e text >>= λ available_at.
          ok (if ltb cutoff available_at then none else some gc_available))
      else ok none

  -- The last block: an assignment whose lease is over and which no keeper holds.
  unfoldable pub expired_reason :
      ℕ → Option AssignmentRecord → Result Error (Option GcCandidateReason)
  unfolding has_active_keeper
  expired_reason now none = ok none
  expired_reason now (some a) = do
    expires_at ← parse_timestamp e a.expires_at
    active_keeper ← has_active_keeper now a.lease_keepers
    ok (if not (ltb now expires_at) && not active_keeper then some gc_expired_assignment else none)

  abbrev pub abandoned_candidate : Bool → ℕ → ℕ → WorkspaceRecord → Option GcCandidate
  abandoned_candidate include_abandoned cutoff updated_at w =
      if not (is_nil w.operation_id) && include_abandoned
      then candidate_for w false (abandoned_reason w.lifecycle (not (ltb cutoff updated_at)))
      else none

  abbrev failed_candidate : ℕ → ℕ → WorkspaceRecord → Option GcCandidate
  failed_candidate cutoff updated_at w =
      if is_nil w.operation_id && is_failed w.lifecycle && not (ltb cutoff updated_at)
      then some (make_gc_candidate w gc_failed false)
      else none

  -- What gcCandidate does after the switch on abandoned work.
  unfoldable pub settled_candidate : ℕ → ℕ → ℕ → WorkspaceRecord → Result Error (Option GcCandidate)
  unfolding available_reason expired_reason
  settled_candidate cutoff now updated_at w = available_reason cutoff w >>= λ idle.
      or_else (candidate_for w false idle) (
        or_else (failed_candidate cutoff updated_at w)
          (expired_reason now w.assignment >>= λ expired. ok (candidate_for w true expired)))

  unfoldable pub gc_candidate : ℕ → ℕ → Bool → WorkspaceRecord → Result Error (Option GcCandidate)
  unfolding settled_candidate
  gc_candidate cutoff now include_abandoned original = do
    let w = clone_workspace original
    updated_at ← parse_timestamp e w.updated_at
    or_else (abandoned_candidate include_abandoned cutoff updated_at w)
        (settled_candidate cutoff now updated_at w)

  -- The loop over the workspaces.
  unfoldable pub gc_candidates :
      ℕ → ℕ → Bool → List (String × WorkspaceRecord) → Result Error (List GcCandidate)
  gc_candidates cutoff now include_abandoned [] = ok []
  gc_candidates cutoff now include_abandoned ((key, w) ∷ rest) = do
    candidate ← gc_candidate cutoff now include_abandoned w
    others ← gc_candidates cutoff now include_abandoned rest
    ok (elim candidate [ none ↦ others | some c ↦ c ∷ others ])

  abbrev pub path_less : GcCandidate → GcCandidate → Bool
  path_less left right = str_lt left.workspace.path right.workspace.path

  unfoldable pub identify_gc_candidates : State → ℕ → ℕ → Bool → Result Error (List GcCandidate)
  unfolding gc_candidates
  identify_gc_candidates current older_than now include_abandoned = do
    guard (current.version == current_version) unsupported_version
    let cutoff = truncate older_than
    guard (not (cutoff == 0)) bad_instant
    guard (not (truncate now == 0)) bad_instant
    found ← gc_candidates cutoff (truncate now) include_abandoned current.workspaces
    ok (sort_by path_less found)
