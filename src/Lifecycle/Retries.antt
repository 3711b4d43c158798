-- ===== src/Lifecycle/Retries.antt =====
-- What holds of two operations in a row: retries, and round trips.
use ruk.Prelude.{
  ap, sym, ℕ, ◌≡◌, refl, inl, inr, true, false, List, [], ◌∷◌, ◌++◌, none, some, String, arith,
  Bool-cases, Option-cases, ◌⊎◌,
}
use ruk.Prelude.Int.{eq_ℤ, eq_ℤ_iff}
use ruk.Prelude.Text.{str_eq_refl}
use ruk.Prelude.Results.{ok, err}
use ruk.Errors.{operation_mismatch, acquisition_in_progress}
use ruk.Platform.{Platform}
use ruk.State.{AssignmentRecord, TrackedProcessRecord, WorkspaceRecord}
use ruk.State.Valid.{is_preparing, is_returning}
use ruk.Lifecycle.Return.{ReturnOptions, start_return, begin_return, finish_return, cancel_return}
use ruk.Lifecycle.Keeps.Return.{start_return-eq}
use ruk.Lifecycle.Collection.{begin_collection, collecting, is_interrupted, collectable}
use ruk.Lifecycle.Assignment.{is_candidate}
use ruk.Lifecycle.Process.{
  clone_process_record, is_tracked, remove_process, add_process, drop_process,
}

-- Whenever the beginning of a return of a workspace succeeds, repeating it on the record that it
-- gave, at any time and with any options, changes nothing.
pub begin_return_idem :
    (e : Platform) (now later : ℕ) (options retry : ReturnOptions) (a b : AssignmentRecord)
    (w w' : WorkspaceRecord)
    → begin_return e now options a w ≡ ok w'
    → begin_return e later retry b w' ≡ ok w'
unfolding begin_return start_return
begin_return_idem e now later options retry a b w w' done =
    elim (Bool-cases (is_returning w.lifecycle)) [
      | inl again ↦ ground (arith, again)
      | inr new ↦ ground (arith, new)
    ]

-- Whenever the beginning of a collection of a workspace succeeds, repeating it on the record that it
-- gave, fenced by the stamp of that record, changes nothing, whatever the time and the new
-- identifier of the retry.
pub begin_collection_idem :
    (e : Platform) (now later : ℕ) (new_id retry_id expected : String) (w w' : WorkspaceRecord)
    → begin_collection e now new_id expected w ≡ ok w'
    → begin_collection e later retry_id w'.updated_at w' ≡ ok w'
unfolding begin_collection collecting
begin_collection_idem e now later new_id retry_id expected w w' done =
    elim (Bool-cases (is_interrupted w)) [
      | inl again ↦ ground (arith, again, str_eq_refl w'.updated_at)
      | inr new ↦ elim (Bool-cases (is_preparing w.lifecycle)) [
        | inl unfinished ↦ ground (arith, new, unfinished, str_eq_refl w'.updated_at)
        | inr settled ↦ ground (arith, new, settled, str_eq_refl w'.updated_at)
      ]
    ]

-- The process that stands last is the one that its PID and start find.
remove_process-append :
    (r : TrackedProcessRecord) (ps : List TrackedProcessRecord)
    → is_tracked r.pid ps ≡ false
    → remove_process r.pid r.started_at (ps ++ (clone_process_record r ∷ [])) ≡ some ps
unfolding remove_process clone_process_record
remove_process-append r [] free =
    let same : eq_ℤ r.pid r.pid ≡ true = (eq_ℤ_iff r.pid r.pid).1 refl in
    ground (arith, str_eq_refl r.started_at, same)
remove_process-append r (p ∷ ps) free = ground (arith, remove_process-append r ps)

-- Whenever a process joins a workspace, removing it at once by its PID and start leaves the
-- processes as they were, and everything else but the stamp of the record.
pub drop_process-add_process :
    (e : Platform) (now later : ℕ) (r : TrackedProcessRecord) (a : AssignmentRecord)
    (w w' : WorkspaceRecord)
    → add_process e now r a w ≡ ok w'
    → drop_process e later r.pid r.started_at a w'
      ≡ ok (record w { updated_at = e.format_time later })
unfolding add_process drop_process
drop_process-add_process e now later r a w w' done =
    let free : is_tracked r.pid w.processes ≡ false = ground arith in
    ground (arith, remove_process-append r w.processes free)

-- Whenever a return is finished, the record that it stores is eligible for the next reservation that
-- names no path, and a deletion is refused until a collection has begun.
pub finish_return-is_candidate :
    (e : Platform) (now : ℕ) (a : AssignmentRecord) (key id : String) (w w' : WorkspaceRecord)
    → finish_return e now a w ≡ ok w'
    → (is_candidate none (key, w') ≡ true) × (collectable id w' ≡ err operation_mismatch)
unfolding finish_return collectable
finish_return-is_candidate e now a key id w w' done = ground arith

-- Whenever a return of a workspace is begun, by an ordinary release or by a recovery that crosses the
-- handoff of an acquisition, it keeps the assignment, and cancelling it gives the workspace back as
-- it was, with its operation identifier, but for the stamp, the time of availability and the failure
-- given. Then the workspace had no operation, or every later return that names no acquisition
-- operation is refused because the acquisition is in progress.
pub cancel_return-start_return :
    (e : Platform) (now later last : ℕ) (options retry : ReturnOptions) (a : AssignmentRecord)
    (failure : String) (w w' : WorkspaceRecord)
    → start_return e now options a w ≡ ok w'
    → (w'.assignment ≡ w.assignment)
      × (cancel_return e later failure a w'
          ≡ ok (record w {
            available_at = none;
            failure = some failure;
            updated_at = e.format_time later;
          }))
      × ((w.operation_id ≡ none)
          ⊎ (begin_return e last
                (record retry { acquisition_operation_id = "" })
                a
                (record w {
                  available_at = none;
                  failure = some failure;
                  updated_at = e.format_time later;
                })
              ≡ err acquisition_in_progress))
unfolding start_return begin_return cancel_return
cancel_return-start_return e now later last options retry a failure w w' done =
    let (was, is) = start_return-eq e now a w options done in
    (
      ap (λ v. v.assignment) is,
      rw is (
          ap
            (λ l. ok (record w {
              lifecycle = l;
              available_at = none;
              failure = some failure;
              updated_at = e.format_time later;
            }))
            (sym was)),
      elim (Option-cases w.operation_id) [
        | inl free ↦ inl free
        | inr (id, held) ↦ inr (rw was (rw held refl))
      ],
    )
