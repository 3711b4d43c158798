-- ===== src/Services/Release/Restores.antt =====
-- What a release that fails leaves of the assignment.
use ruk.Prelude.{
  ◌≡◌, refl, inl, inr, ◌⊎◌, true, false, List, some, String, arith, Option-cases, if◌then◌else◌,
}
use ruk.Prelude.Text.{str_eq, is_blank}
use ruk.Prelude.Results.{Result, ok, err}
use ruk.Platform.{Platform, IsLawful}
use ruk.State.{WorkspaceRecord, State}
use ruk.State.Valid.{is_assigned}
use ruk.Lifecycle.Keeps.Sound.{IsSound}
use ruk.Lifecycle.Keeps.Reachable.{update-Step}
use ruk.Lifecycle.Step.{Step}
use ruk.Lifecycle.Return.{begin_workspace_return, finish_workspace_return, cancel_workspace_return}
use ruk.Services.Failure.{
  Failure, joined, restoring, relocking, changed_workspace, empty_assignment_id,
}
use ruk.Services.Effects.{World, Effect, Seams, return, fail, attempt, lift, with_lock, transact}
use ruk.Services.Keeps.{Keeps, Seamless, Keeps-if, update-eq}
use ruk.Services.Triples.{
  Triple, Triple-attempt, Triple-if, Triple-with_lock, Triple-transact, Reliable,
}
use ruk.Services.Release.{
  ReleaseServiceOptions, ReleaseOptions, ReleaseResult, cancel_release, relock_after_git_failure,
  release_returning, release_locked, release_assignment, release_assignment_workspace,
  return_options, read_projections, clean_processes, handoff_allows, release_lock_path,
}
use ruk.Services.Release.Cleaning.{clean_processes-Keeps}
use ruk.Services.Release.Keeps.{release_assignment_workspace-Keeps, read_projections-Keeps}
use ruk.Services.Release.Fence.{
  Owned, IsReturning, begin_workspace_return-Owned, remove_assignment_process-Owned,
  cancel_workspace_return-Owned, cancel_workspace_return-fine,
}

abbrev OnFailure : {A : Type 0} → (State → Type 0) → Result Failure A → State → Type 0
OnFailure P (ok a) s = Unit
OnFailure P (err f) s = P s

abbrev OnSuccess : {A : Type 0} → (State → Type 0) → Result Failure A → State → Type 0
OnSuccess P (ok a) s = P s
OnSuccess P (err f) s = ⊥

-- The assignment has its workspace, which records the text of an error.
abbrev pub HasWorkspaceBack : {W : Type 0} → Platform → Seams W → String → State → Type 0
HasWorkspaceBack e seams id =
    Owned e id
      λ v. (is_assigned v.lifecycle ≡ true) × ((f : Failure) × (v.failure ≡ some (seams.text f)))

module _ {W : Type 0} (e : Platform) (lawful : IsLawful e) (seams : Seams W)
    (formats : (f : Failure) → is_blank (seams.text f) ≡ false)
    (alone : (P : State → Type 0) → Seamless P seams) (reliable : Reliable seams)
    (service : ReleaseServiceOptions) (id : String) where
  abbrev Restored : State → Type 0
  Restored = HasWorkspaceBack e seams id

  abbrev Fenced : State → Type 0
  Fenced = Owned e id IsReturning

  cancel_release-Restored :
      (cause : Failure)
      → Triple Fenced
          (cancel_release seams service e id cause)
          (OnFailure {A = ReleaseResult} Restored)
  unfolding cancel_release
  cancel_release-Restored cause =
      Triple-attempt (OnSuccess {A = WorkspaceRecord} Restored)
        (OnFailure {A = ReleaseResult} Restored) Fenced
        (transact seams e (λ now. cancel_workspace_return e now id (seams.text cause)))
        (λ f. fail (joined cause (restoring f))) (λ _. fail cause)
        (Triple-transact seams alone reliable Fenced (OnSuccess {A = WorkspaceRecord} Restored) e
          (λ now. cancel_workspace_return e now id (seams.text cause))
          (λ now s t w clock h done.
            let fine =
              update-eq e (cancel_workspace_return e now id (seams.text cause)) s t w done in
            let (sound, (f, located, (assigned, failed))) =
              cancel_workspace_return-Owned e lawful now clock id s t w h.0 (seams.text cause)
                fine in
            (sound, (f, located, (assigned, (cause, failed)))))
          (λ now s x clock h bad.
            let (t, w, fine) =
              cancel_workspace_return-fine e lawful now clock id (seams.text cause) s
                (formats cause) h in
            let accepted =
              update-Step e lawful (cancel_workspace_return e now id (seams.text cause)) s t w h.0
                fine (Step.cancels_return now id (seams.text cause) {w = w} fine clock) in
            ground (arith, accepted, bad)))
        (λ f w h. elim h [ ]) (λ a w h. h)

  relock-Fenced :
      (path : String) (f : Failure)
      → Triple Fenced
          (relock_after_git_failure seams service e path f)
          (OnSuccess {A = Failure} Fenced)
  unfolding relock_after_git_failure
  relock-Fenced path f = elim (Option-cases seams.git_lock) [
    | inl without ↦ rw without (λ w h. h)
    | inr (relock, there) ↦ rw there (
        Triple-attempt (λ r s. Fenced s) (OnSuccess {A = Failure} Fenced) Fenced (relock path)
          (λ g. return (joined f (relocking g))) (λ _. return f)
          ((alone Fenced).relock-Keeps relock path there) (λ g w h. h) (λ a w h. h))
  ]

  -- Nothing that follows the end of the return fails.
  finished-Restored :
      (result : ReleaseResult)
      → Triple
          (λ s. Unit)
          (attempt
            (attempt (seams.release_ports id) (λ _. return tt) return)
            fail
            (λ _. return result))
          (OnFailure {A = ReleaseResult} Restored)
  finished-Restored result =
      let Calm : Result Failure (Unit {0}) → State → Type 0 = OnSuccess (λ s. Unit) in
      Triple-attempt Calm (OnFailure {A = ReleaseResult} Restored) (λ s. Unit)
        (attempt (seams.release_ports id) (λ _. return tt) return) fail (λ _. return result)
        (Triple-attempt (λ r s. Unit) Calm (λ s. Unit) (seams.release_ports id) (λ _. return tt)
          return (λ w h. tt) (λ f w h. tt) (λ a w h. tt))
        (λ f w h. elim h [ ]) (λ a w h. tt)

  release_returning-Restored :
      (o : ReleaseOptions W) (preserved : List String) (returning : WorkspaceRecord)
      → Triple Fenced
          (release_returning seams service e id o preserved returning)
          (OnFailure {A = ReleaseResult} Restored)
  unfolding release_returning
  release_returning-Restored o preserved returning =
      let Q = OnFailure {A = ReleaseResult} Restored in
      Triple-attempt (λ r s. Fenced s) Q Fenced
        (clean_processes seams service e id o.force returning.processes) _ _
        (clean_processes-Keeps e Fenced id
          (λ now r s t w clock h done.
            remove_assignment_process-Owned e lawful now clock id s t w h.0 r.pid r.started_at h
              done)
          seams (alone Fenced) service o.force returning.processes)
        cancel_release-Restored
        λ cleaned.
          Triple-attempt (λ r s. Fenced s) Q Fenced
            (seams.git_return returning.path o.force preserved) _ _
            ((alone Fenced).return-Keeps returning.path o.force preserved)
            (λ f.
              Triple-attempt (OnSuccess {A = Failure} Fenced) Q Fenced
                (relock_after_git_failure seams service e returning.path f) fail
                (cancel_release seams service e id) (relock-Fenced returning.path f)
                (λ g w h. elim h [ ]) cancel_release-Restored)
            λ _.
              Triple-attempt (OnFailure {A = WorkspaceRecord} Fenced) Q Fenced
                (transact seams e (λ now. finish_workspace_return e now id)) _ _
                (Triple-transact seams alone reliable Fenced
                  (OnFailure {A = WorkspaceRecord} Fenced) e
                  (λ now. finish_workspace_return e now id) (λ now s t w clock h done. tt)
                  (λ now s x clock h bad. h))
                cancel_release-Restored λ available. finished-Restored _

  -- The document was left as it was, or the assignment has its workspace back.
  abbrev Ends : State → Result Failure ReleaseResult → State → Type 0
  Ends before = OnFailure λ s. (s ≡ before) ⊎ Restored s

  abbrev Same : State → State → Type 0
  Same before s = IsSound e s × (s ≡ before)

  module _ (o : ReleaseOptions W)
      (reads : (P : State → Type 0) (reader : WorkspaceRecord → Effect W (List String))
          (v : WorkspaceRecord)
        → o.preserved_projection_reader ≡ some reader
        → Keeps P (reader v))
      (before : State) where
    -- A call before the fence.
    before_fence :
        {A : Type 0} (m : Effect W A) (next : A → Effect W ReleaseResult)
        → Keeps (Same before) m
        → ((a : A) → Triple (Same before) (next a) (Ends before))
        → Triple (Same before) (attempt m fail next) (Ends before)
    before_fence m next km tn =
        Triple-attempt (λ r s. Same before s) (Ends before) (Same before) m fail next km
          (λ f w h. inl h.1) tn

    abbrev FenceEnds : Result Failure WorkspaceRecord → State → Type 0
    FenceEnds (ok a) s = Fenced s
    FenceEnds (err f) s = Same before s

    weaken :
        (r : Result Failure ReleaseResult) (s : State)
        → OnFailure {A = ReleaseResult} Restored r s
        → Ends before r s
    weaken (ok a) s h = tt
    weaken (err f) s h = inr h

    release_locked-Ends :
        (workspace : WorkspaceRecord)
        → Triple (Same before) (release_locked seams service e id o workspace) (Ends before)
    unfolding release_locked
    release_locked-Ends workspace =
        before_fence (release_assignment_workspace seams id) _
          (release_assignment_workspace-Keeps (Same before) seams (alone (Same before)) id)
          λ locked.
            before_fence
              (if str_eq locked.path workspace.path then return tt else fail changed_workspace) _
              (Keeps-if (Same before) (str_eq locked.path workspace.path) _ _ (λ w h. h) (λ w h. h))
              λ _.
                before_fence (lift (handoff_allows o.acquisition_operation_id locked)) _ (λ w h. h)
                  λ _.
                    before_fence (read_projections o locked) _
                      (read_projections-Keeps (Same before) seams (alone (Same before)) o
                        (reads (Same before)) locked)
                      λ preserved.
                        Triple-attempt FenceEnds (Ends before) (Same before)
                          (transact seams e
                            (λ now. begin_workspace_return e now id (return_options o)))
                          fail _
                          (Triple-transact seams alone reliable (Same before) FenceEnds e
                            (λ now. begin_workspace_return e now id (return_options o))
                            (λ now s t w clock h done.
                              begin_workspace_return-Owned e lawful now clock id s t w h.0
                                (return_options o)
                                (update-eq e (begin_workspace_return e now id (return_options o)) s
                                  t w done))
                            (λ now s x clock h bad. h))
                          (λ f w h. inl h.1)
                          λ returning w h.
                            weaken _ _ (release_returning-Restored o preserved returning w h)

    release_assignment-Ends :
        Triple (Same before) (release_assignment seams service e id o) (Ends before)
    unfolding release_assignment
    release_assignment-Ends =
        before_fence (if is_blank (seams.trim id) then fail empty_assignment_id else return tt) _
          (Keeps-if (Same before) (is_blank (seams.trim id)) _ _ (λ w h. h) (λ w h. h))
          λ _.
            before_fence (release_assignment_workspace seams id) _
              (release_assignment_workspace-Keeps (Same before) seams (alone (Same before)) id)
              λ workspace.
                before_fence (lift (release_lock_path seams service e workspace.path)) _ (λ w h. h)
                  λ path.
                    Triple-if (Same before) (Ends before) o.handoff_lock_held
                      (release_locked seams service e id o workspace)
                      (with_lock seams path (release_locked seams service e id o workspace))
                      (release_locked-Ends workspace)
                      (Triple-with_lock seams alone reliable (Same before) (Ends before) path
                        (release_locked seams service e id o workspace)
                        (release_locked-Ends workspace))

  OnFailure-eq :
      {A : Type 0} (P : State → Type 0) {f : Failure} (r : Result Failure A) (s : State)
      → OnFailure P r s
      → r ≡ err f
      → P s
  OnFailure-eq P (ok a) s h same = ground (arith, same)
  OnFailure-eq P (err f) s h same = h

  -- Whenever the formats of errors are not empty, no other program changes the document during the
  -- release, locks can be taken and the file of the state can be read and replaced, a release that
  -- starts from a sound document and fails either left the document as it was, or left a sound
  -- document in which the assignment has its workspace, assigned, with the text of an error as its
  -- failure.
  pub release_assignment-Restored :
      (o : ReleaseOptions W)
      → ((P : State → Type 0) (reader : WorkspaceRecord → Effect W (List String))
            (v : WorkspaceRecord)
          → o.preserved_projection_reader ≡ some reader
          → Keeps P (reader v))
      → (w : World W) (f : Failure) → IsSound e w.document
      → (release_assignment seams service e id o w).0 ≡ err f
      → ((release_assignment seams service e id o w).1.document ≡ w.document)
        ⊎ HasWorkspaceBack e seams id (release_assignment seams service e id o w).1.document
  release_assignment-Restored o reads w f sound failed =
      OnFailure-eq (λ s. (s ≡ w.document) ⊎ Restored s)
        (release_assignment seams service e id o w).0
        (release_assignment seams service e id o w).1.document
        (release_assignment-Ends o reads w.document w (sound, refl)) failed
