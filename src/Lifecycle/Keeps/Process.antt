-- ===== src/Lifecycle/Keeps/Process.antt =====
-- What the transitions of process.go keep of a valid document, under the conditions of
-- Lifecycle/Step.
use ruk.Prelude.{
  ℕ, ◌<◌, ◌≡◌, refl, inl, inr, true, false, List, [], ◌∷◌, ◌++◌, some, String, arith, Option-cases,
}
use ruk.Prelude.Int.{ℤ}
use ruk.Prelude.Results.{ok}
use ruk.Platform.{Platform, IsLawful, time_limit}
use ruk.State.{AssignmentRecord, TrackedProcessRecord, WorkspaceRecord}
use ruk.State.Valid.{valid_timestamp, is_assigned, is_owned}
use ruk.State.Document.{valid_identity, valid_idle}
use ruk.State.Document.Parts.{Parts}
use ruk.Lifecycle.Process.{
  validate_process_record, clone_process_record, is_tracked, remove_process, add_process,
  drop_process,
}
use ruk.Lifecycle.Keeps.Stored.{Keeps, keeps}
use ruk.Lifecycle.Keeps.Processes.{valid_processes-remove_process, valid_processes-add}
use ruk.Lifecycle.Keeps.Stamps.{valid-format}

module _ (e : Platform) (now : ℕ) (a : AssignmentRecord) (w : WorkspaceRecord) where
  add_process-eq :
      (r : TrackedProcessRecord) {w' : WorkspaceRecord}
      → add_process e now r a w ≡ ok w'
      → (is_assigned w.lifecycle ≡ true)
        × (is_tracked r.pid w.processes ≡ false)
        × (w' ≡ record w {
          processes = w.processes ++ (clone_process_record r ∷ []);
          updated_at = e.format_time now;
        })
  unfolding add_process
  add_process-eq r done = ground arith

  drop_process-eq :
      (pid : ℤ) (started_at : String) {w' : WorkspaceRecord}
      → drop_process e now pid started_at a w ≡ ok w'
      → (is_owned w.lifecycle ≡ true)
        × (ps : List TrackedProcessRecord) × (remove_process pid started_at w.processes ≡ some ps)
        × (w' ≡ record w { processes = ps; updated_at = e.format_time now })
  unfolding drop_process
  drop_process-eq pid started_at done =
      elim (Option-cases (remove_process pid started_at w.processes)) [
        | inl missing ↦ ground (arith, missing)
        | inr (ps, found) ↦ (ground (arith, found), ps, found, ground (arith, found))
      ]

module _ (e : Platform) (lawful : IsLawful e) (now : ℕ) (clock : now < time_limit)
    (a : AssignmentRecord) (w : WorkspaceRecord) (ws : List (String × WorkspaceRecord))
    (h : Parts e w) where
  stamp : valid_timestamp e (e.format_time now) ≡ true
  stamp = valid-format e lawful now clock

  pub add_process-Keeps :
      (r : TrackedProcessRecord) {w' : WorkspaceRecord}
      → validate_process_record r ≡ true
      → add_process e now r a w ≡ ok w'
      → Keeps e w w' ws
  unfolding valid_identity valid_idle
  add_process-Keeps r accepted done =
      let (was, free, is) = add_process-eq e now a w r done in
      rw is (
        keeps e w _ ws refl
          (record {
            identity = h.identity;
            updated = stamp;
            operation = h.operation;
            ownership = h.ownership;
            availability = h.availability;
            failure = h.failure;
            idle = ground (arith, was);
            processes = valid_processes-add w.processes r accepted free h.processes;
          })
          (inl refl) (inl refl) (inl refl))

  pub drop_process-Keeps :
      (pid : ℤ) (started_at : String) {w' : WorkspaceRecord}
      → drop_process e now pid started_at a w ≡ ok w'
      → Keeps e w w' ws
  unfolding valid_identity valid_idle
  drop_process-Keeps pid started_at done =
      let (was, ps, removed, is) = drop_process-eq e now a w pid started_at done in
      rw is (
        keeps e w _ ws refl
          (record {
            identity = h.identity;
            updated = stamp;
            operation = h.operation;
            ownership = h.ownership;
            availability = h.availability;
            failure = h.failure;
            idle = ground (arith, was);
            processes =
                valid_processes-remove_process [] pid started_at w.processes removed h.processes;
          })
          (inl refl) (inl refl) (inl refl))
