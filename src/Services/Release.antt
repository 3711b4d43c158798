-- ===== src/Services/Release.antt =====
-- internal/lifecycle/release_service.go. The checks of nil dependencies are left out: the seams are
-- always there.
pub mod Drain
pub mod Cleaning
pub mod Keeps
pub mod Fence
pub mod Restores
pub mod Returned
use ruk.Prelude.{
  ℕ, suc, ◌+◌, ◌*◌, ◌/◌, ◌==◌, Bool, true, false, not, ◌&&◌, ◌||◌, List, [], ◌∷◌, Option, none,
  some, String, if◌then◌else◌,
}
use ruk.Prelude.Int.{ℤ, is_positive, pos_part}
use ruk.Prelude.Text.{str_eq, is_blank}
use ruk.Prelude.Results.{Result, ok, err}
use ruk.Errors.{Error, unresolved_path}
use Prim.Native.String.{◌++◌ as ◌<>◌}
use ruk.Platform.{Platform, second, millisecond}
use ruk.State.{TrackedProcessRecord, WorkspaceRecord, State}
use ruk.State.Valid.{is_assigned, is_nil, tree_key}
use ruk.Lifecycle.Return.{
  ReturnOptions, begin_workspace_return, finish_workspace_return, cancel_workspace_return,
}
use ruk.Lifecycle.Process.{remove_assignment_process}
use ruk.Services.Failure.{
  Failure, of_lifecycle, unfinished, empty_assignment_id, lock_path_empty, locks_root_missing,
  not_assigned_here, not_unique, changed_workspace, handoff_in_progress, handoff_mismatch, reading,
  inspecting, terminating, force_terminating, drain, still_present, survived, verifying,
  verifying_force, relocking, restoring, joined, observed_alive,
}
use ruk.Services.Effects.{
  World, Effect, Seams, return, fail, attempt, ◌>>=◌, ◌>>◌, wrap, lift, with_lock, transact,
}

pub record ReleaseServiceOptions : Type 0 where
  pub locks_root : String
  pub lock_path : Option (String → String)
  pub process_drain_timeout : ℤ
  pub process_poll_interval : ℤ

pub record ReleaseOptions (W : Type 0) : Type 0 where
  pub force : Bool
  pub acquisition_operation_id : String
  pub require_expired_by : String
  pub expected_updated_at : String
  pub preserved_projections : List String
  pub preserved_projection_reader : Option (WorkspaceRecord → Effect W (List String))
  pub handoff_lock_held : Bool

pub record ReleaseResult : Type 0 where
  pub workspace : WorkspaceRecord
  pub cleaned_processes : ℕ

abbrev pub default_process_drain_timeout : ℕ
default_process_drain_timeout = 2 * second

abbrev pub default_process_poll_interval : ℕ
default_process_poll_interval = 25 * millisecond

abbrev pub or_default : ℤ → ℕ → ℕ
or_default given default = if is_positive given then pos_part given else default

-- The workspaces of an assignment, in the order of the document.
unfoldable pub assignment_workspaces :
    String → List (String × WorkspaceRecord) → List WorkspaceRecord
assignment_workspaces id [] = []
assignment_workspaces id ((key, w) ∷ rest) = elim w.assignment [
  | none ↦ assignment_workspaces id rest
  | some a ↦
      if str_eq a.id id then w ∷ assignment_workspaces id rest else assignment_workspaces id rest
]

abbrev pub only_workspace : List WorkspaceRecord → Result Failure WorkspaceRecord
only_workspace [] = err not_assigned_here
only_workspace (w ∷ []) = ok w
only_workspace (w ∷ v ∷ rest) = err not_unique

-- Whether the handoff of an assigned workspace allows the release.
abbrev pub handoff_allows : String → WorkspaceRecord → Result Failure (Unit {0})
handoff_allows given w =
    if is_assigned w.lifecycle
    then (elim w.operation_id [
      | none ↦ ok tt
      | some operation_id ↦
          if is_blank given
          then err handoff_in_progress
          else (if str_eq operation_id given then ok tt else err handoff_mismatch)
    ])
    else ok tt

abbrev pub return_options : {W : Type 0} → ReleaseOptions W → ReturnOptions
return_options o = record {
  require_expired_by = o.require_expired_by;
  acquisition_operation_id = o.acquisition_operation_id;
  expected_updated_at = o.expected_updated_at;
}

abbrev pub read_projections :
    {W : Type 0} → ReleaseOptions W → WorkspaceRecord → Effect W (List String)
read_projections o w = elim o.preserved_projection_reader [
  | none ↦ return o.preserved_projections
  | some reader ↦ reader w
]

-- The cause that a poll leaves for ProcessDrainError, and whether it saw the process.
abbrev pub unless_gone : {A : Type 0} → Result Failure Bool → A → (Bool → Failure → A) → A
unless_gone (ok false) gone there = gone
unless_gone (ok true) gone there = there true still_present
unless_gone (err f) gone there = there false f

module _ {W : Type 0} (seams : Seams W) where
  open seams use {
    text, trim, join_path, clock, read_store, process_exists, terminate, pause, git_return,
    git_lock, release_ports,
  }

  -- Reader.Read, and the search of its state.
  unfoldable pub release_assignment_workspace : String → Effect W WorkspaceRecord
  unfolding assignment_workspaces
  release_assignment_workspace id = wrap reading read_store >> λ w.
      (only_workspace (assignment_workspaces id w.document.workspaces), w)

  -- The loop of waitForProcessDrain; none means that the fuel ran out.
  unfoldable pub drain_loop :
      ℕ → ℕ → ℕ → TrackedProcessRecord → World W → Option (Result Failure (Unit {0})) × World W
  drain_loop ℕ.zero interval deadline r w = (none, w)
  drain_loop (ℕ.suc fuel) interval deadline r w =
      let (seen, w1) = process_exists r w in
      let (done, w2) = pause interval deadline w1 in
      let rest = drain_loop fuel interval deadline r w2 in
      unless_gone seen (some (ok tt), w1)
        λ alive cause. if done then (some (err (drain r.pid alive cause)), w2) else rest

  abbrev pub settle :
      Option (Result Failure (Unit {0})) × World W → Result Failure (Unit {0}) × World W
  settle (none, w) = (err unfinished, w)
  settle (some r, w) = (r, w)

  module _ (options : ReleaseServiceOptions) where
    open options use {locks_root, lock_path, process_drain_timeout, process_poll_interval}

    -- One round for each interval of the timeout, one that the deadline cuts short, and one after it.
    unfoldable pub wait_for_process_drain : TrackedProcessRecord → Effect W (Unit {0})
    unfolding drain_loop
    wait_for_process_drain r w =
        let timeout = or_default process_drain_timeout default_process_drain_timeout in
        let interval = or_default process_poll_interval default_process_poll_interval in
        settle (drain_loop (suc (suc (timeout / interval))) interval (clock w + timeout) r w)

    -- What follows the failure of a graceful termination to drain.
    abbrev pub insist : Bool → TrackedProcessRecord → Failure → Effect W (Unit {0})
    insist force r f =
        if force && observed_alive f
        then (wrap (force_terminating r.pid) (terminate r true) >>= λ _.
            wrap (verifying_force r.pid) (wait_for_process_drain r))
        else (if not force && observed_alive f
            then fail (survived r.pid f)
            else fail (verifying r.pid f))

    unfoldable pub stop_process : Bool → TrackedProcessRecord → Effect W (Unit {0})
    unfolding wait_for_process_drain
    stop_process force r = wrap (terminating r.pid) (terminate r false) >>= λ _.
        attempt (wait_for_process_drain r) (insist force r) return

    unfoldable pub release_lock_path : Platform → String → Result Failure String
    unfolding tree_key
    release_lock_path e workspace_path = elim lock_path [
      | some path_of ↦
          if is_blank (trim (path_of workspace_path))
          then err lock_path_empty
          else ok (path_of workspace_path)
      | none ↦
          if is_blank (trim locks_root)
          then err locks_root_missing
          else (elim (tree_key e workspace_path) [
            | none ↦ err (of_lifecycle unresolved_path)
            | some key ↦ ok (join_path locks_root ("workspace-" <> (key <> ".lock")))
          ])
    ]

    module _ (e : Platform) where
      unfoldable pub clean_process : String → Bool → TrackedProcessRecord → Effect W ℕ
      unfolding stop_process transact
      clean_process id force r = do
        alive ← wrap (inspecting r.pid) (process_exists r)
        if alive then stop_process force r else return tt
        removed ← transact seams e (λ now. remove_assignment_process e now id r.pid r.started_at)
        return (if alive then 1 else 0)

      -- The number of processes that were alive.
      unfoldable pub clean_processes : String → Bool → List TrackedProcessRecord → Effect W ℕ
      unfolding clean_process
      clean_processes id force [] = return 0
      clean_processes id force (r ∷ rest) = do
        first ← clean_process id force r
        cleaned ← clean_processes id force rest
        return (first + cleaned)

      -- The error of git, with that of the lock if there is one.
      unfoldable pub relock_after_git_failure : String → Failure → Effect W Failure
      relock_after_git_failure path f = elim git_lock [
        | none ↦ return f
        | some relock ↦ attempt (relock path) (λ g. return (joined f (relocking g))) (λ _. return f)
      ]

      unfoldable pub cancel_release : String → Failure → Effect W ReleaseResult
      unfolding transact
      cancel_release id cause =
          attempt (transact seams e (λ now. cancel_workspace_return e now id (text cause)))
            (λ f. fail (joined cause (restoring f))) (λ _. fail cause)

      abbrev pub return_failed : String → String → Failure → Effect W ReleaseResult
      return_failed id path f = relock_after_git_failure path f >>= cancel_release id

      -- What follows the fence: an error gives the assignment its workspace back.
      unfoldable pub release_returning :
          String → ReleaseOptions W → List String → WorkspaceRecord → Effect W ReleaseResult
      unfolding clean_processes cancel_release relock_after_git_failure transact
      release_returning id o preserved returning =
          attempt (clean_processes id o.force returning.processes) (cancel_release id) λ cleaned.
            attempt (git_return returning.path o.force preserved) (return_failed id returning.path)
              λ _.
                attempt (transact seams e (λ now. finish_workspace_return e now id))
                  (cancel_release id)
                  λ available.
                    attempt (release_ports id) (λ _. return tt) return
                    >> return (record { workspace = available; cleaned_processes = cleaned })

      -- releaseLocked, for the workspace that was read before the lock.
      unfoldable pub release_locked :
          String → ReleaseOptions W → WorkspaceRecord → Effect W ReleaseResult
      unfolding release_assignment_workspace release_returning transact
      release_locked id o workspace = do
        locked ← release_assignment_workspace id
        if str_eq locked.path workspace.path then return tt else fail changed_workspace
        lift (handoff_allows o.acquisition_operation_id locked)
        preserved ← read_projections o locked
        returning ← transact seams e (λ now. begin_workspace_return e now id (return_options o))
        release_returning id o preserved returning

      unfoldable pub release_assignment : String → ReleaseOptions W → Effect W ReleaseResult
      unfolding release_assignment_workspace release_lock_path release_locked with_lock
      release_assignment id o = do
        if is_blank (trim id) then fail empty_assignment_id else return tt
        workspace ← release_assignment_workspace id
        path ← lift (release_lock_path e workspace.path)
        (if o.handoff_lock_held
            then release_locked id o workspace
            else with_lock seams path (release_locked id o workspace))
