-- ===== src/Services/Release/Fence.antt =====
-- What the operations of a release leave of the assignment that they are given.
use ruk.Prelude.{
  ℕ, ◌<◌, ◌≡◌, ◌∙◌, refl, inl, inr, true, false, List, [], ◌∷◌, some, String, arith, Bool-cases,
  Option-cases,
}
use ruk.Prelude.Int.{ℤ}
use ruk.Prelude.Text.{str_eq, str_eq_iff, str_eq_refl, is_blank}
use ruk.Prelude.Results.{Result, ok}
use ruk.Prelude.Assoc.{put}
use ruk.Errors.{Error}
use ruk.Platform.{Platform, IsLawful, time_limit}
use ruk.State.{AssignmentRecord, WorkspaceRecord, State}
use ruk.State.Valid.{is_returning, is_assigned}
use ruk.Lifecycle.Records.{Found, find_assignment, at_assignment}
use ruk.Lifecycle.Keeps.Sound.{IsSound, at_assignment-eq}
use ruk.Lifecycle.Keeps.Return.{start_return-eq, cancel_return-eq}
use ruk.Lifecycle.Keeps.Maps.{find_assignment-Found}
use ruk.Lifecycle.Keeps.Reachable.{Step-IsSound}
use ruk.Lifecycle.Step.{Step}
use ruk.Lifecycle.Return.{
  ReturnOptions, begin_return, begin_workspace_return, start_return, cancel_return,
  cancel_workspace_return,
}
use ruk.Lifecycle.Process.{drop_process, remove_process, remove_assignment_process}

-- What is stored where an assignment was found is found again, if it still holds it.
pub find_assignment-put :
    (id : String) (ws : List (String × WorkspaceRecord)) {f : Found} (w : WorkspaceRecord)
    → find_assignment id ws ≡ some f
    → w.assignment ≡ some f.assignment
    → str_eq f.assignment.id id ≡ true
    → find_assignment id (put f.key w ws)
      ≡ some (record { key = f.key; workspace = w; assignment = f.assignment })
unfolding find_assignment put
find_assignment-put id [] w found held same = cc
find_assignment-put id ((key, v) ∷ ws) {f} w found held same =
    elim (Bool-cases (str_eq key f.key)) [
      | inl here ↦ rw here (rw held (rw same (ground (arith, str_eq_iff key f.key, here))))
      | inr later ↦
          let rest = find_assignment-put id ws {f = f} w in
          elim (Option-cases v.assignment) [
            | inl free ↦ rw later (rw free (rest (rw (find_assignment, free) at found) held same))
            | inr (a, taken) ↦ elim (Bool-cases (str_eq a.id id)) [
              | inl hit ↦ ground (arith, found, taken, hit, later, str_eq_refl key)
              | inr miss ↦
                  rw later (
                    rw taken
                      (rw miss (rest (rw (find_assignment, taken, miss) at found) held same)))
            ]
          ]
    ]

-- The assignment was found, and the lifecycle of its workspace passes the test.
abbrev pub Owned : Platform → String → (WorkspaceRecord → Type 0) → State → Type 0
Owned e id Q s =
    IsSound e s × ((f : Found) × (find_assignment id s.workspaces ≡ some f) × Q f.workspace)

module _ (e : Platform) (lawful : IsLawful e) (s : State) (h : IsSound e s) where
  -- A transition that keeps the assignment leaves it found in the record that it computes.
  at_assignment-Owned :
      (id : String) (transition : AssignmentRecord → WorkspaceRecord → Result Error WorkspaceRecord)
      (Q : WorkspaceRecord → Type 0) {t : State} {w : WorkspaceRecord}
      → at_assignment id transition s ≡ ok (t, w)
      → Step e s t
      → ((f : Found)
          → find_assignment id s.workspaces ≡ some f
          → transition f.assignment f.workspace ≡ ok w
          → (w.assignment ≡ f.workspace.assignment) × Q w)
      → Owned e id Q t
  at_assignment-Owned id transition Q {t} {w} done step keep =
      let (f, located, fine, is) = at_assignment-eq id transition s {t = t} {w' = w} done in
      let (held, holds) = keep f located fine in
      let (own, same) = find_assignment-Found id s.workspaces {f = f} located in
      let there =
        find_assignment-put id s.workspaces {f = f} w located (held ∙ own)
          (ground (arith, str_eq_iff f.assignment.id id, same)) in
      (
        Step-IsSound e lawful s t h step,
        (record { key = f.key; workspace = w; assignment = f.assignment }, rw is there, holds),
      )

abbrev pub IsReturning : WorkspaceRecord → Type 0
IsReturning w = is_returning w.lifecycle ≡ true

begin_return-IsReturning :
    (e : Platform) (now : ℕ) (options : ReturnOptions) (a : AssignmentRecord) (v : WorkspaceRecord)
    {w : WorkspaceRecord}
    → begin_return e now options a v ≡ ok w
    → (w.assignment ≡ v.assignment) × IsReturning w
unfolding begin_return start_return
begin_return-IsReturning e now options a v done = elim (Bool-cases (is_returning v.lifecycle)) [
  | inl retry ↦ ground (arith, retry, done)
  | inr fresh ↦
      let (was, is) = start_return-eq e now a v options (rw (fresh, begin_return) at done) in
      (rw is refl, rw is refl)
]

drop_process-IsReturning :
    (e : Platform) (now : ℕ) (pid : ℤ) (started_at : String) (a : AssignmentRecord)
    (v : WorkspaceRecord) {w : WorkspaceRecord}
    → drop_process e now pid started_at a v ≡ ok w
    → IsReturning v
    → (w.assignment ≡ v.assignment) × IsReturning w
unfolding drop_process
drop_process-IsReturning e now pid started_at a v done returning =
    elim (Option-cases (remove_process pid started_at v.processes)) [
      | inl missing ↦ ground (arith, missing, done)
      | inr (rest, removed) ↦ ground (arith, removed, done, returning)
    ]

module _ (e : Platform) (lawful : IsLawful e) (now : ℕ) (clock : now < time_limit) (id : String)
    (s t : State) (w : WorkspaceRecord) (h : IsSound e s) where
  pub begin_workspace_return-Owned :
      (options : ReturnOptions)
      → begin_workspace_return e now id options s ≡ ok (t, w)
      → Owned e id IsReturning t
  unfolding begin_workspace_return
  begin_workspace_return-Owned options done =
      at_assignment-Owned e lawful s h id (begin_return e now options) IsReturning {t = t} {w = w}
        done (Step.returns now id options {w = w} done clock)
        λ f located fine. begin_return-IsReturning e now options f.assignment f.workspace fine

  pub remove_assignment_process-Owned :
      (pid : ℤ) (started_at : String)
      → Owned e id IsReturning s
      → remove_assignment_process e now id pid started_at s ≡ ok (t, w)
      → Owned e id IsReturning t
  unfolding remove_assignment_process
  remove_assignment_process-Owned pid started_at (sound, (f, located, returning)) done =
      at_assignment-Owned e lawful s h id (drop_process e now pid started_at) IsReturning {t = t}
        {w = w} done (Step.drops now id pid started_at {w = w} done clock)
        λ g found fine.
          let same : g ≡ f = ground (arith, found, located) in
          let still : IsReturning g.workspace = rw same returning in
          drop_process-IsReturning e now pid started_at g.assignment g.workspace fine still

  pub cancel_workspace_return-Owned :
      (failure : String)
      → cancel_workspace_return e now id failure s ≡ ok (t, w)
      → Owned e id (λ v. (is_assigned v.lifecycle ≡ true) × (v.failure ≡ some failure)) t
  unfolding cancel_workspace_return
  cancel_workspace_return-Owned failure done = elim (Bool-cases (is_blank failure)) [
    | inl blank ↦ ground (arith, blank, done)
    | inr given ↦
        at_assignment-Owned e lawful s h id (cancel_return e now failure)
          (λ v. (is_assigned v.lifecycle ≡ true) × (v.failure ≡ some failure)) {t = t} {w = w}
          (rw (given, cancel_workspace_return) at done)
          (Step.cancels_return now id failure {w = w} done clock)
          λ f located fine.
            let (was, is) = cancel_return-eq e now f.assignment f.workspace failure fine in
            (rw is refl, (rw is refl, rw is refl))
  ]

-- A return that was begun can be cancelled.
pub cancel_workspace_return-fine :
    (e : Platform) (lawful : IsLawful e) (now : ℕ) (clock : now < time_limit) (id failure : String)
    (s : State)
    → is_blank failure ≡ false
    → Owned e id IsReturning s
    → (t : State) × (w : WorkspaceRecord) × (cancel_workspace_return e now id failure s ≡ ok (t, w))
unfolding cancel_workspace_return at_assignment cancel_return
cancel_workspace_return-fine e lawful now clock id failure s given (h, (f, located, returning)) =
    rw given (rw located (rw returning (_, _, refl)))
