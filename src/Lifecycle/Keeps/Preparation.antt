-- ===== src/Lifecycle/Keeps/Preparation.antt =====
-- What the transitions of preparation.go keep of a valid document, under the conditions of
-- Lifecycle/Step.
use ruk.Prelude.{
  ℕ, ◌+◌, ◌<◌, ◌≡◌, refl, inl, inr, true, not, ◌||◌, List, [], Option, some, String, arith,
  Bool-cases, is_empty,
}
use ruk.Prelude.Text.{is_blank}
use ruk.Prelude.Results.{ok, Result-cases}
use ruk.Platform.{Platform, IsLawful, millisecond, time_limit}
use ruk.State.{TrackedProcessRecord, WorkspaceRecord, preparing}
use ruk.State.Valid.{is_nil, unless_nil, valid_process, valid_processes, valid_timestamp}
use ruk.State.Document.{
  valid_identity, valid_operation, valid_ownership, valid_availability, valid_failure, valid_idle,
}
use ruk.State.Document.Parts.{Parts}
use ruk.Lifecycle.Clock.{next_workspace_timestamp}
use ruk.Lifecycle.Process.{append_retained_process}
use ruk.Lifecycle.Preparation.{finished, finish}
use ruk.Lifecycle.Keeps.Stored.{Keeps, keeps}
use ruk.Lifecycle.Keeps.Processes.{append_retained_process-eq}
use ruk.Lifecycle.Keeps.Stamps.{valid-next_workspace_timestamp}

-- What the guards of finishPreparation have checked, and the record that it stores.
pub finish-eq :
    (e : Platform) (now : ℕ) (operation_id failure : String)
    (retained : Option TrackedProcessRecord) (w : WorkspaceRecord) {w' : WorkspaceRecord}
    → finish e now operation_id failure retained w ≡ ok w'
    → (w.lifecycle ≡ preparing)
      × (not (is_blank failure) || is_empty w.processes ≡ true)
      × (kept : WorkspaceRecord) × (append_retained_process retained w ≡ ok kept)
      × (w' ≡ finished failure (next_workspace_timestamp e w.updated_at now) kept)
unfolding finish
finish-eq e now operation_id failure retained w done =
    elim (Result-cases (append_retained_process retained w)) [
      | inl (kept, fine) ↦
          (ground (arith, fine), ground (arith, fine), kept, fine, ground (arith, fine))
      | inr (x, refused) ↦ ground (arith, refused)
    ]

module _ (e : Platform) (lawful : IsLawful e) where
  finished-Keeps :
      (failure stamp : String) (w : WorkspaceRecord) (ps : List TrackedProcessRecord)
      (ws : List (String × WorkspaceRecord))
      → w.lifecycle ≡ preparing
      → not (is_blank failure) || is_empty ps ≡ true
      → valid_timestamp e stamp ≡ true
      → valid_processes [] ps ≡ true
      → Parts e w
      → Keeps e w (finished failure stamp (record w { processes = ps })) ws
  unfolding valid_identity valid_operation valid_ownership valid_availability valid_failure
      valid_idle
  finished-Keeps failure stamp w ps ws was empty fine valid h =
      elim (Bool-cases (is_blank failure)) [
        | inl blank ↦ rw blank (
            keeps e w _ ws refl
              (record {
                identity = h.identity;
                updated = fine;
                operation = refl;
                ownership = ground (arith, h.ownership);
                availability = fine;
                failure = ground (arith, h.failure);
                idle = ground (arith, blank);
                processes = valid;
              })
              (inr (refl, tt)) (inl refl) (inl refl))
        | inr given ↦ rw given (
            keeps e w _ ws refl
              (record {
                identity = h.identity;
                updated = fine;
                operation = refl;
                ownership = ground (arith, h.ownership);
                availability = ground (arith, h.availability);
                failure = rw given;
                idle = refl;
                processes = valid;
              })
              (inr (refl, tt)) (inl refl) (inl refl))
      ]

  -- A process is retained only with a failure.
  pub finish-Keeps :
      (now : ℕ) (operation_id failure : String) (retained : Option TrackedProcessRecord)
      (w : WorkspaceRecord) {w' : WorkspaceRecord} (ws : List (String × WorkspaceRecord))
      → finish e now operation_id failure retained w ≡ ok w'
      → Parts e w
      → now < time_limit
      → ((u : ℕ) → e.parse_time w.updated_at ≡ some u → u + millisecond < time_limit)
      → unless_nil retained valid_process ≡ true
      → is_nil retained || not (is_blank failure) ≡ true
      → Keeps e w w' ws
  finish-Keeps now operation_id failure retained w ws done h clock early r given =
      let (was, empty, kept, appended, is) = finish-eq e now operation_id failure retained w done in
      let (ps, shape, valid, same) = append_retained_process-eq retained w appended in
      let stamp = valid-next_workspace_timestamp e lawful w.updated_at now clock early in
      rw (is, shape)
        (finished-Keeps failure _ w ps ws was (fits empty given same) stamp (valid r h.processes) h)
    where
      fits :
          {ps : List TrackedProcessRecord}
          → not (is_blank failure) || is_empty w.processes ≡ true
          → is_nil retained || not (is_blank failure) ≡ true
          → (is_nil retained ≡ true → ps ≡ w.processes)
          → not (is_blank failure) || is_empty ps ≡ true
      fits {ps} a b c = ground arith
