-- ===== src/Lifecycle/Keeps/Operations.antt =====
-- The end of a preparation, the renewal and the return on a sound state, under the conditions of
-- Lifecycle/Step.
use ruk.Prelude.{ℕ, ◌<◌, ◌≡◌, inl, inr, true, not, ◌||◌, Option, String, arith, Bool-cases}
use ruk.Prelude.Text.{is_blank}
use ruk.Prelude.Results.{ok}
use ruk.Platform.{Platform, IsLawful, time_limit}
use ruk.State.{TrackedProcessRecord, WorkspaceRecord, State}
use ruk.State.Valid.{is_nil, unless_nil, valid_process}
use ruk.Lifecycle.Preparation.{finish, finish_preparation}
use ruk.Lifecycle.Renewal.{renew, renew_assignment}
use ruk.Lifecycle.Return.{
  ReturnOptions, begin_return, finish_return, cancel_return, begin_workspace_return,
  finish_workspace_return, cancel_workspace_return,
}
use ruk.Lifecycle.Step.{EarlyStamps}
use ruk.Lifecycle.Keeps.Sound.{IsSound, at_path-IsSound, at_assignment-IsSound}
use ruk.Lifecycle.Keeps.Preparation.{finish-Keeps}
use ruk.Lifecycle.Keeps.Renewal.{renew-Keeps}
use ruk.Lifecycle.Keeps.Return.{begin_return-Keeps, finish_return-Keeps, cancel_return-Keeps}

module _ (e : Platform) (lawful : IsLawful e) (s : State) (h : IsSound e s) {t : State}
    {w' : WorkspaceRecord} where
  pub finish_preparation-IsSound :
      (now : ℕ) (path operation_id failure : String) (retained : Option TrackedProcessRecord)
      → finish_preparation e now path operation_id failure retained s ≡ ok (t, w')
      → now < time_limit
      → EarlyStamps e s
      → unless_nil retained valid_process ≡ true
      → is_nil retained || not (is_blank failure) ≡ true
      → IsSound e t
  unfolding finish_preparation
  finish_preparation-IsSound now path operation_id failure retained done clock early process given =
      at_path-IsSound e s h path (finish e now operation_id failure retained) done
        λ key w found old fine.
          finish-Keeps e lawful now operation_id failure retained w s.workspaces fine old clock
            (early key w found) process given

  pub renew_assignment-IsSound :
      (now : ℕ) (id : String) (expires_at : ℕ) (expected : Option String)
      → renew_assignment e now id expires_at expected s ≡ ok (t, w')
      → expires_at < time_limit
      → IsSound e t
  unfolding renew_assignment
  renew_assignment-IsSound now id expires_at expected done bound =
      at_assignment-IsSound e s h id (renew e now expires_at expected) done
        λ f located held old fine.
          renew-Keeps e lawful now f.assignment f.workspace s.workspaces expires_at expected held
            old bound fine

  pub begin_workspace_return-IsSound :
      (now : ℕ) (id : String) (options : ReturnOptions)
      → begin_workspace_return e now id options s ≡ ok (t, w')
      → now < time_limit
      → IsSound e t
  unfolding begin_workspace_return
  begin_workspace_return-IsSound now id options done clock =
      at_assignment-IsSound e s h id (begin_return e now options) done λ f located held old fine.
        begin_return-Keeps e lawful now clock f.assignment f.workspace s.workspaces old options fine

  pub finish_workspace_return-IsSound :
      (now : ℕ) (id : String)
      → finish_workspace_return e now id s ≡ ok (t, w')
      → now < time_limit
      → IsSound e t
  unfolding finish_workspace_return
  finish_workspace_return-IsSound now id done clock =
      at_assignment-IsSound e s h id (finish_return e now) done λ f located held old fine.
        finish_return-Keeps e lawful now clock f.assignment f.workspace s.workspaces old fine

  pub cancel_workspace_return-IsSound :
      (now : ℕ) (id failure : String)
      → cancel_workspace_return e now id failure s ≡ ok (t, w')
      → now < time_limit
      → IsSound e t
  unfolding cancel_workspace_return
  cancel_workspace_return-IsSound now id failure done clock = elim (Bool-cases (is_blank failure)) [
    | inl blank ↦ ground (arith, blank)
    | inr given ↦
        at_assignment-IsSound e s h id (cancel_return e now failure)
          (rw (given, cancel_workspace_return) at done)
          λ f located held old fine.
            cancel_return-Keeps e lawful now clock f.assignment f.workspace s.workspaces old failure
              given fine
  ]
