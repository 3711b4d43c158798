-- ===== src/Lifecycle/Keeps/Collection.antt =====
-- What the transitions of collection.go keep of a valid document, under the conditions of
-- Lifecycle/Step.
use ruk.Prelude.{
  ℕ, ◌<◌, ◌≡◌, refl, inl, inr, true, false, ◌||◌, List, [], Option, none, some, String, arith,
  Bool-cases, Option-cases, if◌then◌else◌, any_of,
}
use ruk.Prelude.Int.{ℤ}
use ruk.Prelude.Text.{str_eq}
use ruk.Prelude.Results.{ok}
use ruk.Platform.{Platform, IsLawful, time_limit}
use ruk.State.{WorkspaceLifecycle, TrackedProcessRecord, WorkspaceRecord}
use ruk.State.Uuid.{valid_uuid}
use ruk.State.Valid.{valid_timestamp, is_available, is_preparing, is_failed}
use ruk.State.Document.{
  held, operation_of, valid_identity, valid_operation, valid_ownership, valid_availability,
  valid_failure, valid_idle,
}
use ruk.State.Document.Parts.{Parts}
use ruk.Lifecycle.Process.{remove_process}
use ruk.Lifecycle.Collection.{
  begin_collection, collecting, abandoned, is_interrupted, remove_unassigned, cancel_collection,
}
use ruk.Lifecycle.Keeps.Stored.{Keeps, keeps}
use ruk.Lifecycle.Keeps.Processes.{valid_processes-remove_process, is_empty-remove_process}
use ruk.Lifecycle.Keeps.Stamps.{valid-format}

-- What the guards have checked, and the records that the operations store.
module _ (e : Platform) (now : ℕ) where
  pub begin_collection-eq :
      (new_id expected : String) (w : WorkspaceRecord) {w' : WorkspaceRecord}
      → begin_collection e now new_id expected w ≡ ok w'
      → (is_preparing w.lifecycle || is_available w.lifecycle || is_failed w.lifecycle ≡ true)
        × (w' ≡ collecting e now new_id w)
  unfolding begin_collection
  begin_collection-eq new_id expected w done = ground arith

  pub remove_unassigned-eq :
      (lifecycle : WorkspaceLifecycle) (operation_id : Option String) (updated_at : String)
      (pid : ℤ) (started_at : String) (w : WorkspaceRecord) {w' : WorkspaceRecord}
      → remove_unassigned e now lifecycle operation_id updated_at pid started_at w ≡ ok w'
      → (ps : List TrackedProcessRecord) × (remove_process pid started_at w.processes ≡ some ps)
        × (w' ≡ record w { processes = ps; updated_at = e.format_time now })
  unfolding remove_unassigned
  remove_unassigned-eq lifecycle operation_id updated_at pid started_at w done =
      elim (Option-cases (remove_process pid started_at w.processes)) [
        | inl missing ↦ ground (arith, missing)
        | inr (ps, found) ↦ (ps, found, ground (arith, found))
      ]

  pub cancel_collection-eq :
      (operation_id : String) (w : WorkspaceRecord) {w' : WorkspaceRecord}
      → cancel_collection e now operation_id w ≡ ok w'
      → w' ≡ record w {
        operation_id = none;
        updated_at = e.format_time now;
        available_at =
            if is_available w.lifecycle then some (e.format_time now) else w.available_at;
      }
  unfolding cancel_collection
  cancel_collection-eq operation_id w done = ground arith

module _ (e : Platform) (lawful : IsLawful e) (now : ℕ) (clock : now < time_limit)
    (w : WorkspaceRecord) (ws : List (String × WorkspaceRecord)) (h : Parts e w) where
  stamp : valid_timestamp e (e.format_time now) ≡ true
  stamp = valid-format e lawful now clock

  collecting-Keeps :
      (new_id : String)
      → is_preparing w.lifecycle || is_available w.lifecycle || is_failed w.lifecycle ≡ true
      → valid_uuid new_id ≡ true
      → any_of (str_eq new_id) (held operation_of ws) ≡ false
      → Keeps e w
          (record (abandoned w) { operation_id = some new_id; updated_at = e.format_time now })
          ws
  unfolding valid_identity valid_operation valid_ownership valid_availability valid_failure
      valid_idle
  collecting-Keeps new_id safe uuid fresh = elim (Bool-cases (is_preparing w.lifecycle)) [
    | inl unfinished ↦ rw unfinished (
        keeps e w _ ws refl
          (record {
            identity = h.identity;
            updated = stamp;
            operation = rw uuid;
            ownership = ground (arith, h.ownership, unfinished);
            availability = ground (arith, h.availability, unfinished);
            failure = refl;
            idle = refl;
            processes = h.processes;
          })
          (inr (refl, (fresh, tt))) (inl refl) (inl refl))
    | inr settled ↦ rw settled (
        keeps e w _ ws refl
          (record {
            identity = h.identity;
            updated = stamp;
            operation = ground (arith, uuid, settled);
            ownership = h.ownership;
            availability = h.availability;
            failure = h.failure;
            idle = h.idle;
            processes = h.processes;
          })
          (inr (refl, (fresh, tt))) (inl refl) (inl refl))
  ]

  pub begin_collection-Keeps :
      (new_id expected : String) {w' : WorkspaceRecord}
      → begin_collection e now new_id expected w ≡ ok w'
      → valid_uuid new_id ≡ true
      → any_of (str_eq new_id) (held operation_of ws) ≡ false
      → Keeps e w w' ws
  unfolding collecting
  begin_collection-Keeps new_id expected done uuid fresh =
      let (safe, is) = begin_collection-eq e now new_id expected w done in
      elim (Bool-cases (is_interrupted w)) [
        | inl again ↦ rw is (rw again (keeps e w w ws refl h (inl refl) (inl refl) (inl refl)))
        | inr new ↦ rw is (rw new (collecting-Keeps new_id safe uuid fresh))
      ]

  pub remove_unassigned-Keeps :
      (lifecycle : WorkspaceLifecycle) (operation_id : Option String) (updated_at : String)
      (pid : ℤ) (started_at : String) {w' : WorkspaceRecord}
      → remove_unassigned e now lifecycle operation_id updated_at pid started_at w ≡ ok w'
      → Keeps e w w' ws
  unfolding valid_identity valid_idle
  remove_unassigned-Keeps lifecycle operation_id updated_at pid started_at done =
      let (ps, removed, is) =
        remove_unassigned-eq e now lifecycle operation_id updated_at pid started_at w done in
      let busy = is_empty-remove_process pid started_at w.processes ps removed in
      rw is (
        keeps e w _ ws refl
          (record {
            identity = h.identity;
            updated = stamp;
            operation = h.operation;
            ownership = h.ownership;
            availability = h.availability;
            failure = h.failure;
            idle = ground (arith, h.idle, busy);
            processes =
                valid_processes-remove_process [] pid started_at w.processes removed h.processes;
          })
          (inl refl) (inl refl) (inl refl))

  -- Cancelling the collection of a workspace that is not in preparation.
  pub cancel_collection-Keeps :
      (operation_id : String) {w' : WorkspaceRecord}
      → cancel_collection e now operation_id w ≡ ok w'
      → is_preparing w.lifecycle ≡ false
      → Keeps e w w' ws
  unfolding valid_identity valid_operation valid_availability valid_idle
  cancel_collection-Keeps operation_id done settled =
      rw (cancel_collection-eq e now operation_id w done) (
        keeps e w _ ws refl
          (record {
            identity = h.identity;
            updated = stamp;
            operation = rw settled;
            ownership = h.ownership;
            availability = ground (arith, h.availability, stamp);
            failure = h.failure;
            idle = h.idle;
            processes = h.processes;
          })
          (inr (refl, tt)) (inl refl) (inl refl))
