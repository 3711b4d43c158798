-- ===== src/Services/Release/Keeps.antt =====
-- What a release keeps of the document, by the steps that it takes on it.
use ruk.Prelude.{◌≡◌, inl, inr, List, some, String, Option-cases, if◌then◌else◌}
use ruk.Prelude.Text.{str_eq, is_blank}
use ruk.Platform.{Platform}
use ruk.State.{State, WorkspaceRecord}
use ruk.Lifecycle.Step.{Step}
use ruk.Lifecycle.Return.{begin_workspace_return, finish_workspace_return, cancel_workspace_return}
use ruk.Services.Failure.{
  Failure, reading, restoring, joined, relocking, changed_workspace, empty_assignment_id,
}
use ruk.Services.Effects.{
  World, Effect, Seams, return, fail, attempt, wrap, lift, with_lock, transact,
}
use ruk.Services.Keeps.{
  Keeps, Seamless, Keeps-attempt, Keeps-bind, Keeps-wrap, Keeps-if, Keeps-with_lock, Keeps-transact,
}
use ruk.Services.Release.Cleaning.{clean_processes-Keeps}
use ruk.Services.Release.{
  ReleaseServiceOptions, ReleaseOptions, assignment_workspaces, only_workspace,
  release_assignment_workspace, release_lock_path, clean_processes, relock_after_git_failure,
  cancel_release, release_returning, return_options, read_projections, release_locked,
  release_assignment, handoff_allows,
}

-- Parts of a release that are no transactions.
module _ {W : Type 0} (P : State → Type 0) (seams : Seams W) (kept : Seamless P seams) where
  pub release_assignment_workspace-Keeps :
      (id : String) → Keeps P (release_assignment_workspace seams id)
  unfolding release_assignment_workspace
  release_assignment_workspace-Keeps id =
      Keeps-bind P (wrap reading seams.read_store)
        (λ _ w. (only_workspace (assignment_workspaces id w.document.workspaces), w))
        (Keeps-wrap P reading seams.read_store kept.read-Keeps) (λ a w h. h)

  pub relock-Keeps :
      (service : ReleaseServiceOptions) (e : Platform) (path : String) (f : Failure)
      → Keeps P (relock_after_git_failure seams service e path f)
  unfolding relock_after_git_failure
  relock-Keeps service e path f = elim (Option-cases seams.git_lock) [
    | inl without ↦ rw without (λ w h. h)
    | inr (relock, there) ↦ rw there (
        Keeps-attempt P (relock path) (λ g. return (joined f (relocking g))) (λ _. return f)
          (kept.relock-Keeps relock path there) (λ g w h. h) (λ a w h. h))
  ]

  pub read_projections-Keeps :
      (o : ReleaseOptions W)
      → ((reader : WorkspaceRecord → Effect W (List String)) (v : WorkspaceRecord)
          → o.preserved_projection_reader ≡ some reader
          → Keeps P (reader v))
      → (v : WorkspaceRecord) → Keeps P (read_projections o v)
  read_projections-Keeps o reads v = elim (Option-cases o.preserved_projection_reader) [
    | inl without ↦ rw without (λ w h. h)
    | inr (reader, there) ↦ rw there (reads reader v there)
  ]

module _ {W : Type 0} (e : Platform) (P : State → Type 0)
    (closed : (s t : State) → P s → Step e s t → P t) (seams : Seams W) (kept : Seamless P seams)
    (service : ReleaseServiceOptions) where
  open seams use {process_exists, terminate, pause}

  cancel_release-Keeps :
      (id : String) (cause : Failure) → Keeps P (cancel_release seams service e id cause)
  unfolding cancel_release
  cancel_release-Keeps id cause =
      Keeps-attempt P
        (transact seams e (λ now. cancel_workspace_return e now id (seams.text cause)))
        (λ f. fail (joined cause (restoring f))) (λ _. fail cause)
        (Keeps-transact P seams kept e _ λ now s t w clock h done.
          closed s t h (Step.cancels_return now id (seams.text cause) done clock))
        (λ f w h. h) (λ a w h. h)

  release_returning-Keeps :
      (id : String) (o : ReleaseOptions W) (preserved : List String) (returning : WorkspaceRecord)
      → Keeps P (release_returning seams service e id o preserved returning)
  unfolding release_returning
  release_returning-Keeps id o preserved returning =
      Keeps-attempt P (clean_processes seams service e id o.force returning.processes) _ _
        (clean_processes-Keeps e P id
          (λ now r s t w clock h done.
            closed s t h (Step.drops now id r.pid r.started_at done clock))
          seams kept service o.force returning.processes)
        (cancel_release-Keeps id)
        λ cleaned.
          Keeps-attempt P (seams.git_return returning.path o.force preserved) _ _
            (kept.return-Keeps returning.path o.force preserved)
            (λ f.
              Keeps-bind P (relock_after_git_failure seams service e returning.path f) _
                (relock-Keeps P seams kept service e returning.path f) (cancel_release-Keeps id))
            λ _.
              Keeps-attempt P (transact seams e (λ now. finish_workspace_return e now id)) _ _
                (Keeps-transact P seams kept e _
                  λ now s t w clock h done. closed s t h (Step.releases now id done clock))
                (cancel_release-Keeps id)
                λ available.
                  Keeps-bind P (attempt (seams.release_ports id) (λ _. return tt) return) _
                    (Keeps-attempt P (seams.release_ports id) (λ _. return tt) return
                      (kept.ports-Keeps id) (λ f w h. h) (λ a w h. h))
                    (λ a w h. h)

  module _ (o : ReleaseOptions W)
      (reads : (reader : WorkspaceRecord → Effect W (List String)) (v : WorkspaceRecord)
        → o.preserved_projection_reader ≡ some reader
        → Keeps P (reader v)) where
    release_locked-Keeps :
        (id : String) (workspace : WorkspaceRecord)
        → Keeps P (release_locked seams service e id o workspace)
    unfolding release_locked
    release_locked-Keeps id workspace =
        Keeps-bind P (release_assignment_workspace seams id) _
          (release_assignment_workspace-Keeps P seams kept id)
          λ locked.
            Keeps-bind P
              (if str_eq locked.path workspace.path then return tt else fail changed_workspace) _
              (Keeps-if P (str_eq locked.path workspace.path) _ _ (λ w h. h) (λ w h. h))
              λ _.
                Keeps-bind P (lift (handoff_allows o.acquisition_operation_id locked)) _ (λ w h. h)
                  λ _.
                    Keeps-bind P (read_projections o locked) _
                      (read_projections-Keeps P seams kept o reads locked)
                      λ preserved.
                        Keeps-bind P
                          (transact seams e
                            (λ now. begin_workspace_return e now id (return_options o)))
                          _
                          (Keeps-transact P seams kept e
                            (λ now. begin_workspace_return e now id (return_options o))
                            λ now s t w clock h done.
                              closed s t h (Step.returns now id (return_options o) done clock))
                          λ returning. release_returning-Keeps id o preserved returning

    -- Whenever each step of the lifecycle and each call outside of the state keep a property of
    -- documents, and so does the reader of projections if there is one, a release keeps it, whether
    -- it succeeds or fails and with or without the handoff lock.
    pub release_assignment-Keeps :
        (id : String) (w : World W)
        → P w.document
        → P (release_assignment seams service e id o w).1.document
    unfolding release_assignment
    release_assignment-Keeps id =
        Keeps-bind P (if is_blank (seams.trim id) then fail empty_assignment_id else return tt) _
          (Keeps-if P (is_blank (seams.trim id)) _ _ (λ w h. h) (λ w h. h))
          λ _.
            Keeps-bind P (release_assignment_workspace seams id) _
              (release_assignment_workspace-Keeps P seams kept id)
              λ workspace.
                Keeps-bind P (lift (release_lock_path seams service e workspace.path)) _ (λ w h. h)
                  λ path.
                    Keeps-if P o.handoff_lock_held (release_locked seams service e id o workspace)
                      (with_lock seams path (release_locked seams service e id o workspace))
                      (release_locked-Keeps id workspace)
                      (Keeps-with_lock P seams kept path
                        (release_locked seams service e id o workspace)
                        (release_locked-Keeps id workspace))
