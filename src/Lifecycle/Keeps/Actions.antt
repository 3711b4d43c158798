-- ===== src/Lifecycle/Keeps/Actions.antt =====
-- The operations on activity, collection and processes on a sound state, under the conditions of
-- Lifecycle/Step.
use ruk.Prelude.{
  ℕ, ◌≤◌, ◌<◌, ◌≡◌, inl, inr, true, false, Option, some, String, arith, Bool-cases, Option-cases,
}
use ruk.Prelude.Int.{ℤ, pos_part}
use ruk.Prelude.Results.{Result, ok, Result-cases}
use ruk.Prelude.Assoc.{lookup, delete}
use ruk.State.Document.Parts.{parts}
use ruk.Errors.{Error}
use ruk.Platform.{Platform, IsLawful, truncate, time_sub, time_limit, millisecond}
use ruk.State.{
  WorkspaceLifecycle, AssignmentRecord, TrackedProcessRecord, WorkspaceRecord, State, assigned,
}
use ruk.State.Uuid.{valid_uuid}
use ruk.State.Valid.{is_assigned, is_preparing}
use ruk.Lifecycle.Records.{collection_key}
use ruk.Lifecycle.Process.{
  validate_process_record, add_process, add_assignment_process, drop_process,
  remove_assignment_process,
}
use ruk.Lifecycle.Activity.{
  in_assigned, begin, begin_assignment_activity, heartbeat, refresh_assignment_activity, complete,
  finish_assignment_activity,
}
use ruk.Lifecycle.Collection.{
  begin_collection, begin_workspace_collection, remove_unassigned, remove_unassigned_process,
  cancel_collection, cancel_workspace_collection, delete_workspace_record,
}
use ruk.Lifecycle.Step.{ActiveLease, NewOperation}
use ruk.Lifecycle.Keeps.Stored.{valid_state-delete, valid_workspace-lookup}
use ruk.Lifecycle.Keeps.Maps.{delete-IsMap}
use ruk.Lifecycle.Keeps.Sound.{
  at_path-eq, store_at-IsSound, IsSound, at_path-IsSound, at_assignment-IsSound,
}
use ruk.Lifecycle.Keeps.Heartbeat.{heartbeat-Keeps}
use ruk.Lifecycle.Keeps.Activity.{begin-Keeps, complete-Keeps}
use ruk.Lifecycle.Keeps.Collection.{
  begin_collection-Keeps, remove_unassigned-Keeps, cancel_collection-Keeps,
}
use ruk.Lifecycle.Keeps.Process.{add_process-Keeps, drop_process-Keeps}

-- What the test in front of an activity has checked.
in_assigned-eq :
    (transition : AssignmentRecord → WorkspaceRecord → Result Error WorkspaceRecord)
    (a : AssignmentRecord) (w : WorkspaceRecord) {w' : WorkspaceRecord}
    → in_assigned transition a w ≡ ok w'
    → (w.lifecycle ≡ assigned) × (transition a w ≡ ok w')
in_assigned-eq transition a w done = elim (Bool-cases (is_assigned w.lifecycle)) [
  | inl was ↦ (ground arith, ground (arith, was))
  | inr other ↦ ground (arith, other)
]

-- What a deletion has checked, and the state that it leaves.
delete_workspace_record-eq :
    (e : Platform) (path operation_id : String) (s : State) {t : State} {w : WorkspaceRecord}
    → delete_workspace_record e path operation_id s ≡ ok (t, w)
    → (key : String) × (t ≡ record s { workspaces = delete key s.workspaces })
unfolding delete_workspace_record
delete_workspace_record-eq e path operation_id s done =
    elim (Result-cases (collection_key e path)) [
      | inr (x, bad) ↦ ground (arith, bad)
      | inl (key, named) ↦ elim (Option-cases (lookup key s.workspaces)) [
        | inl missing ↦ ground (arith, named, missing)
        | inr (v, found) ↦ (key, ground (arith, named, found))
      ]
    ]

module _ (e : Platform) (lawful : IsLawful e) (s : State) (h : IsSound e s) {t : State}
    {w' : WorkspaceRecord} where
  pub begin_assignment_activity-IsSound :
      (now : ℕ) (id keeper_id : String) (duration : ℤ)
      → begin_assignment_activity e now id keeper_id duration s ≡ ok (t, w')
      → millisecond ≤ pos_part duration
      → ActiveLease e now (pos_part duration) id s
      → IsSound e t
  unfolding begin_assignment_activity
  begin_assignment_activity-IsSound now id keeper_id duration done lasting early =
      let lease = in_assigned (begin e now keeper_id (pos_part duration)) in
      let uuid : valid_uuid keeper_id ≡ true = ground arith in
      at_assignment-IsSound e s h id lease {t = t} {w' = w'} (ground arith)
        λ f located held old fine.
          let (was, stored) =
            in_assigned-eq (begin e now keeper_id (pos_part duration)) f.assignment f.workspace
              fine in
          begin-Keeps e lawful f.assignment f.workspace s.workspaces old held was now keeper_id
            (pos_part duration) stored uuid lasting (early f located).0 (early f located).1

  pub refresh_assignment_activity-IsSound :
      (now : ℕ) (id keeper_id : String) (valid_until : ℕ)
      → refresh_assignment_activity e now id keeper_id valid_until s ≡ ok (t, w')
      → ActiveLease e now (time_sub (truncate valid_until) (truncate now)) id s
      → IsSound e t
  unfolding refresh_assignment_activity
  refresh_assignment_activity-IsSound now id keeper_id valid_until done early =
      at_assignment-IsSound e s h id (in_assigned (heartbeat e now keeper_id valid_until)) {t = t}
        {w' = w'} (ground arith)
        λ f located held old fine.
          let (was, stored) =
            in_assigned-eq (heartbeat e now keeper_id valid_until) f.assignment f.workspace fine in
          heartbeat-Keeps e lawful f.assignment f.workspace s.workspaces old held was now keeper_id
            valid_until stored (early f located).0 (early f located).1

  pub finish_assignment_activity-IsSound :
      (now : ℕ) (id keeper_id : String)
      → finish_assignment_activity e now id keeper_id s ≡ ok (t, w')
      → ActiveLease e now 0 id s
      → IsSound e t
  unfolding finish_assignment_activity
  finish_assignment_activity-IsSound now id keeper_id done early =
      at_assignment-IsSound e s h id (in_assigned (complete e now keeper_id)) {t = t} {w' = w'}
        (ground arith)
        λ f located held old fine.
          let (was, stored) =
            in_assigned-eq (complete e now keeper_id) f.assignment f.workspace fine in
          complete-Keeps e lawful f.assignment f.workspace s.workspaces old held was now keeper_id
            stored (early f located).0 (λ p parsed. ((early f located).1 p parsed).1)

  pub begin_workspace_collection-IsSound :
      (now : ℕ) (new_id path updated_at : String)
      → begin_workspace_collection e now new_id path updated_at s ≡ ok (t, w')
      → now < time_limit
      → NewOperation s new_id
      → IsSound e t
  unfolding begin_workspace_collection
  begin_workspace_collection-IsSound now new_id path updated_at done clock new =
      at_path-IsSound e s h path (begin_collection e now new_id updated_at) done
        λ key w found old fine.
          begin_collection-Keeps e lawful now clock w s.workspaces old new_id updated_at fine new.0
            new.1

  pub remove_unassigned_process-IsSound :
      (now : ℕ) (path : String) (lifecycle : WorkspaceLifecycle) (operation_id : Option String)
      (updated_at : String) (pid : ℤ) (started_at : String)
      → remove_unassigned_process e now path lifecycle operation_id updated_at pid started_at s
        ≡ ok (t, w')
      → now < time_limit
      → IsSound e t
  unfolding remove_unassigned_process
  remove_unassigned_process-IsSound now path lifecycle operation_id updated_at pid started_at done
        clock =
      elim (Result-cases (collection_key e path)) [
        | inr (x, bad) ↦ ground (arith, bad)
        | inl (key, named) ↦
            at_path-IsSound e s h path
              (remove_unassigned e now lifecycle operation_id updated_at pid started_at) {t = t}
              {w' = w'} (ground (arith, named))
              λ key w found old fine.
                remove_unassigned-Keeps e lawful now clock w s.workspaces old lifecycle operation_id
                  updated_at pid started_at fine
      ]

  pub cancel_workspace_collection-IsSound :
      (now : ℕ) (path operation_id : String)
      → cancel_workspace_collection e now path operation_id s ≡ ok (t, w')
      → now < time_limit
      → ((key : String) (v : WorkspaceRecord)
          → collection_key e path ≡ ok key
          → lookup key s.workspaces ≡ some v
          → is_preparing v.lifecycle ≡ false)
      → IsSound e t
  unfolding cancel_workspace_collection
  cancel_workspace_collection-IsSound now path operation_id done clock settled =
      let (key, named, w, found, fine, is) =
        at_path-eq e path (cancel_collection e now operation_id) s done in
      let old = parts e w (valid_workspace-lookup e key w s found h.valid) in
      rw is (
        store_at-IsSound e s h key w _ found (
          cancel_collection-Keeps e lawful now clock w s.workspaces old operation_id fine
            (settled key w named found)))

  pub delete_workspace_record-IsSound :
      (path operation_id : String)
      → delete_workspace_record e path operation_id s ≡ ok (t, w')
      → IsSound e t
  delete_workspace_record-IsSound path operation_id done =
      let (key, is) = delete_workspace_record-eq e path operation_id s done in
      rw is (record {
        valid = valid_state-delete e key s h.valid;
        map = delete-IsMap key s.workspaces h.map;
      })

  pub add_assignment_process-IsSound :
      (now : ℕ) (id : String) (r : TrackedProcessRecord)
      → add_assignment_process e now id r s ≡ ok (t, w')
      → now < time_limit
      → IsSound e t
  unfolding add_assignment_process
  add_assignment_process-IsSound now id r done clock =
      let accepted : validate_process_record r ≡ true = ground arith in
      at_assignment-IsSound e s h id (add_process e now r) {t = t} {w' = w'} (ground arith)
        λ f located held old fine.
          add_process-Keeps e lawful now clock f.assignment f.workspace s.workspaces old r accepted
            fine

  pub remove_assignment_process-IsSound :
      (now : ℕ) (id : String) (pid : ℤ) (started_at : String)
      → remove_assignment_process e now id pid started_at s ≡ ok (t, w')
      → now < time_limit
      → IsSound e t
  unfolding remove_assignment_process
  remove_assignment_process-IsSound now id pid started_at done clock =
      at_assignment-IsSound e s h id (drop_process e now pid started_at) done
        λ f located held old fine.
          drop_process-Keeps e lawful now clock f.assignment f.workspace s.workspaces old pid
            started_at fine
