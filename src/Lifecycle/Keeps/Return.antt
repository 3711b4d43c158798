-- ===== src/Lifecycle/Keeps/Return.antt =====
-- What the transitions of return.go keep of a valid document, under the conditions of
-- Lifecycle/Step.
use ruk.Prelude.{
  ℕ, ◌<◌, ◌≡◌, refl, inl, inr, true, false, List, [], none, some, String, arith, Bool-cases,
}
use ruk.Prelude.Text.{is_blank}
use ruk.Prelude.Results.{ok}
use ruk.Platform.{Platform, IsLawful, time_limit}
use ruk.State.{AssignmentRecord, WorkspaceRecord, available, assigned, returning}
use ruk.State.Valid.{valid_timestamp, is_returning}
use ruk.State.Document.{
  valid_identity, valid_operation, valid_ownership, valid_availability, valid_failure, valid_idle,
}
use ruk.State.Document.Parts.{Parts}
use ruk.Lifecycle.Return.{ReturnOptions, begin_return, start_return, finish_return, cancel_return}
use ruk.Lifecycle.Keeps.Stored.{Keeps, keeps}
use ruk.Lifecycle.Keeps.Stamps.{valid-format}

-- The records that the three operations store, and what their guards have checked.
module _ (e : Platform) (now : ℕ) (a : AssignmentRecord) (w : WorkspaceRecord) where
  pub start_return-eq :
      (options : ReturnOptions) {w' : WorkspaceRecord}
      → start_return e now options a w ≡ ok w'
      → (w.lifecycle ≡ assigned)
        × (w' ≡ record w { lifecycle = returning; failure = none; updated_at = e.format_time now })
  unfolding start_return
  start_return-eq options done = ground arith

  pub finish_return-eq :
      {w' : WorkspaceRecord}
      → finish_return e now a w ≡ ok w'
      → (w.lifecycle ≡ returning)
        × (w.processes ≡ [])
        × (w' ≡ record w {
          lifecycle = available;
          operation_id = none;
          assignment = none;
          updated_at = e.format_time now;
          available_at = some (e.format_time now);
          failure = none;
        })
  unfolding finish_return
  finish_return-eq done = ground arith

  pub cancel_return-eq :
      (failure : String) {w' : WorkspaceRecord}
      → cancel_return e now failure a w ≡ ok w'
      → (w.lifecycle ≡ returning)
        × (w' ≡ record w {
          lifecycle = assigned;
          updated_at = e.format_time now;
          available_at = none;
          failure = some failure;
        })
  unfolding cancel_return
  cancel_return-eq failure done = ground arith

module _ (e : Platform) (lawful : IsLawful e) (now : ℕ) (clock : now < time_limit)
    (a : AssignmentRecord) (w : WorkspaceRecord) (ws : List (String × WorkspaceRecord))
    (h : Parts e w) where
  stamp : valid_timestamp e (e.format_time now) ≡ true
  stamp = valid-format e lawful now clock

  start_return-Keeps :
      (options : ReturnOptions) {w' : WorkspaceRecord}
      → start_return e now options a w ≡ ok w'
      → Keeps e w w' ws
  unfolding valid_identity valid_operation valid_ownership valid_availability valid_failure
      valid_idle
  start_return-Keeps options done =
      let (was, is) = start_return-eq e now a w options done in
      rw is (
        keeps e w _ ws refl
          (record {
            identity = h.identity;
            updated = stamp;
            operation = ground (arith, h.operation);
            ownership = ground (arith, h.ownership);
            availability = ground (arith, h.availability);
            failure = refl;
            idle = refl;
            processes = h.processes;
          })
          (inl refl) (inl refl) (inl refl))

  pub begin_return-Keeps :
      (options : ReturnOptions) {w' : WorkspaceRecord}
      → begin_return e now options a w ≡ ok w'
      → Keeps e w w' ws
  unfolding begin_return
  begin_return-Keeps options {w'} done = elim (Bool-cases (is_returning w.lifecycle)) [
    | inl retry ↦
        let unchanged : w' ≡ w = ground (arith, retry) in
        rw unchanged (keeps e w w ws refl h (inl refl) (inl refl) (inl refl))
    | inr fresh ↦ start_return-Keeps options (rw (fresh, begin_return) at done)
  ]

  pub finish_return-Keeps :
      {w' : WorkspaceRecord} → finish_return e now a w ≡ ok w' → Keeps e w w' ws
  unfolding valid_identity valid_operation valid_ownership valid_availability valid_failure
      valid_idle
  finish_return-Keeps done =
      let (was, empty, is) = finish_return-eq e now a w done in
      rw is (
        keeps e w _ ws refl
          (record {
            identity = h.identity;
            updated = stamp;
            operation = refl;
            ownership = refl;
            availability = stamp;
            failure = refl;
            idle = rw empty;
            processes = h.processes;
          })
          (inr (refl, tt)) (inr (refl, tt)) (inr (refl, tt)))

  pub cancel_return-Keeps :
      (failure : String) {w' : WorkspaceRecord}
      → is_blank failure ≡ false
      → cancel_return e now failure a w ≡ ok w'
      → Keeps e w w' ws
  unfolding valid_identity valid_operation valid_ownership valid_availability valid_failure
      valid_idle
  cancel_return-Keeps failure given done =
      let (was, is) = cancel_return-eq e now a w failure done in
      rw is (
        keeps e w _ ws refl
          (record {
            identity = h.identity;
            updated = stamp;
            operation = ground (arith, h.operation);
            ownership = ground (arith, h.ownership);
            availability = refl;
            failure = rw given;
            idle = refl;
            processes = h.processes;
          })
          (inl refl) (inl refl) (inl refl))
