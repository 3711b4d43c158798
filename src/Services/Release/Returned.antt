-- ===== src/Services/Release/Returned.antt =====
-- What a release that succeeds returns.
use ruk.Prelude.{◌≡◌, refl, List, [], none, String, ℕ, if◌then◌else◌}
use ruk.Prelude.Text.{str_eq, is_blank}
use ruk.Prelude.Results.{ok}
use ruk.Platform.{Platform}
use ruk.State.{WorkspaceRecord, State, available}
use ruk.Lifecycle.Keeps.Sound.{at_assignment-eq}
use ruk.Lifecycle.Keeps.Return.{finish_return-eq}
use ruk.Lifecycle.Return.{
  begin_workspace_return, finish_return, finish_workspace_return, cancel_workspace_return,
}
use ruk.Services.Failure.{Failure, joined, restoring, changed_workspace, empty_assignment_id}
use ruk.Services.Effects.{World, Seams, return, fail, attempt, lift, with_lock, transact}
use ruk.Services.Gives.{
  Gives, Good-eq, Gives-attempt, Gives-next, Gives-if, Gives-with_lock, Gives-transact,
}
use ruk.Services.Release.{
  ReleaseServiceOptions, ReleaseOptions, ReleaseResult, clean_processes, cancel_release,
  release_returning, release_locked, release_assignment, release_assignment_workspace,
  return_options, read_projections, handoff_allows, release_lock_path, relock_after_git_failure,
}

-- The workspace is free: nobody has it, and it has no processes and no operation.
abbrev pub IsReturned : ReleaseResult → Type 0
IsReturned result =
    (result.workspace.lifecycle ≡ available)
    × (result.workspace.assignment ≡ none)
    × (result.workspace.processes ≡ [])
    × (result.workspace.operation_id ≡ none)

finish_workspace_return-free :
    (e : Platform) (now : ℕ) (id : String) (s t : State) (w : WorkspaceRecord) (n : ℕ)
    → finish_workspace_return e now id s ≡ ok (t, w)
    → IsReturned (record { workspace = w; cleaned_processes = n })
unfolding finish_workspace_return
finish_workspace_return-free e now id s t w n done =
    let (f, located, fine, stored) =
      at_assignment-eq id (finish_return e now) s {t = t} {w' = w} done in
    let (was, empty, is) = finish_return-eq e now f.assignment f.workspace fine in
    (rw is refl, rw is refl, rw is empty, rw is refl)

module _ {W : Type 0} (e : Platform) (seams : Seams W) (service : ReleaseServiceOptions)
    (id : String) (o : ReleaseOptions W) where
  cancelled : (f : Failure) → Gives IsReturned (cancel_release seams service e id f)
  unfolding cancel_release
  cancelled f =
      Gives-next IsReturned
        (transact seams e (λ now. cancel_workspace_return e now id (seams.text f)))
        (λ g. fail (joined f (restoring g))) (λ _. fail f) (λ g w. tt) (λ _ w. tt)

  release_returning-Returned :
      (preserved : List String) (returning : WorkspaceRecord)
      → Gives IsReturned (release_returning seams service e id o preserved returning)
  unfolding release_returning
  release_returning-Returned preserved returning =
      Gives-next IsReturned (clean_processes seams service e id o.force returning.processes)
        (cancel_release seams service e id) _ cancelled
        λ cleaned.
          Gives-next IsReturned (seams.git_return returning.path o.force preserved) _ _
            (λ f.
              Gives-next IsReturned (relock_after_git_failure seams service e returning.path f) fail
                (cancel_release seams service e id) (λ g w. tt) cancelled)
            λ _.
              Gives-attempt IsReturned
                (λ w. IsReturned (record { workspace = w; cleaned_processes = cleaned }))
                (transact seams e (λ now. finish_workspace_return e now id))
                (cancel_release seams service e id) _
                (Gives-transact seams _ e (λ now. finish_workspace_return e now id)
                  λ now s t w done. finish_workspace_return-free e now id s t w cleaned done)
                cancelled
                λ available free.
                  Gives-next IsReturned (attempt (seams.release_ports id) (λ _. return tt) return)
                    fail
                    (λ _. return (record { workspace = available; cleaned_processes = cleaned }))
                    (λ f w. tt) (λ _ w. free)

  release_locked-Returned :
      (workspace : WorkspaceRecord)
      → Gives IsReturned (release_locked seams service e id o workspace)
  unfolding release_locked
  release_locked-Returned workspace =
      Gives-next IsReturned (release_assignment_workspace seams id) fail _ (λ f w. tt)
        λ locked.
          Gives-next IsReturned
            (if str_eq locked.path workspace.path then return tt else fail changed_workspace) fail _
            (λ f w. tt)
            λ _.
              Gives-next IsReturned (lift (handoff_allows o.acquisition_operation_id locked)) fail _
                (λ f w. tt)
                λ _.
                  Gives-next IsReturned (read_projections o locked) fail _ (λ f w. tt)
                    λ preserved.
                      Gives-next IsReturned
                        (transact seams e
                          (λ now. begin_workspace_return e now id (return_options o)))
                        fail _ (λ f w. tt) (release_returning-Returned preserved)

  release_assignment-Gives : Gives IsReturned (release_assignment seams service e id o)
  unfolding release_assignment
  release_assignment-Gives =
      Gives-next IsReturned
        (if is_blank (seams.trim id) then fail empty_assignment_id else return tt) fail _
        (λ f w. tt)
        λ _.
          Gives-next IsReturned (release_assignment_workspace seams id) fail _ (λ f w. tt)
            λ workspace.
              Gives-next IsReturned (lift (release_lock_path seams service e workspace.path)) fail _
                (λ f w. tt)
                λ path.
                  Gives-if IsReturned o.handoff_lock_held
                    (release_locked seams service e id o workspace)
                    (with_lock seams path (release_locked seams service e id o workspace))
                    (release_locked-Returned workspace)
                    (Gives-with_lock seams IsReturned path
                      (release_locked seams service e id o workspace)
                      (release_locked-Returned workspace))

  -- Whenever a release succeeds, whatever other programs do meanwhile, the workspace that it returns
  -- is available and has no assignment, no processes and no operation.
  pub release_assignment-IsReturned :
      (w : World W) {result : ReleaseResult}
      → (release_assignment seams service e id o w).0 ≡ ok result
      → IsReturned result
  release_assignment-IsReturned w done =
      Good-eq IsReturned (release_assignment seams service e id o w).0 (release_assignment-Gives w)
        done
