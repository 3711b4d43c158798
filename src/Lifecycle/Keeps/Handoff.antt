-- ===== src/Lifecycle/Keeps/Handoff.antt =====
-- What the end of an acquisition, in assignment.go, keeps of a valid document, under the conditions
-- of Lifecycle/Step.
use ruk.Prelude.{
  ℕ, ◌+◌, ◌<◌, ◌≡◌, refl, ◌⊎◌, inl, inr, true, false, List, Option, none, some, String, arith,
}
use ruk.Prelude.Text.{is_blank}
use ruk.Prelude.Results.{ok, Result-cases}
use ruk.Platform.{Platform, IsLawful, time_limit, millisecond}
use ruk.State.{AssignmentRecord, TrackedProcessRecord, WorkspaceRecord, assigned}
use ruk.State.Valid.{is_finite_positive, unless_nil, valid_process}
use ruk.State.Document.{valid_identity, valid_operation, valid_failure, valid_idle}
use ruk.State.Document.Parts.{Parts}
use ruk.Lifecycle.Clock.{lifecycle_expiry, renewal_time, next_workspace_timestamp}
use ruk.Lifecycle.Process.{append_retained_process}
use ruk.Lifecycle.Assignment.{retain, succeed, restart_lease, refresh}
use ruk.Lifecycle.Keeps.Stored.{Keeps, keeps}
use ruk.Lifecycle.Keeps.Processes.{append_retained_process-eq}
use ruk.Lifecycle.Keeps.Stamps.{valid-format, valid-next_workspace_timestamp, truncate-le}
use ruk.Lifecycle.Keeps.Leases.{assignment_parts}
use ruk.Lifecycle.Keeps.Renewal.{relet, relet-Keeps, renewal_time-ge, owned}
use ruk.Lifecycle.Keeps.Assignment.{lifecycle_expiry-after}

module _ (e : Platform) (now : ℕ) (operation_id : String) (a : AssignmentRecord)
    (w : WorkspaceRecord) where
  retain-eq :
      (failure : String) (retained : Option TrackedProcessRecord) {w' : WorkspaceRecord}
      → retain e now operation_id failure retained a w ≡ ok w'
      → (w.lifecycle ≡ assigned)
        × (kept : WorkspaceRecord) × (append_retained_process retained w ≡ ok kept)
        × (w' ≡ record kept {
          operation_id = none;
          updated_at = next_workspace_timestamp e w.updated_at now;
          failure = some failure;
        })
  unfolding retain
  retain-eq failure retained done = elim (Result-cases (append_retained_process retained w)) [
    | inl (kept, fine) ↦ (ground (arith, fine), kept, fine, ground (arith, fine))
    | inr (x, refused) ↦ ground (arith, refused)
  ]

  succeed-eq :
      {w' : WorkspaceRecord}
      → succeed e now operation_id a w ≡ ok w'
      → (w.lifecycle ≡ assigned)
        × (w' ≡ record w { operation_id = none; updated_at = e.format_time now })
  unfolding succeed
  succeed-eq done = ground arith

  restart_lease-eq :
      (minutes : ℕ) {w' : WorkspaceRecord}
      → restart_lease e now minutes a w ≡ ok w'
      → let r = renewal_time e a.renewed_at now in
        (x : ℕ) × (lifecycle_expiry e r minutes ≡ ok x)
        × (w' ≡ record w {
          assignment = some (relet a (e.format_time r) (e.format_time x) minutes a.lease_keepers);
          updated_at = e.format_time r;
        })
  unfolding restart_lease relet
  restart_lease-eq minutes done =
      elim (Result-cases (lifecycle_expiry e (renewal_time e a.renewed_at now) minutes)) [
        | inl (x, fine) ↦ (x, fine, ground (arith, fine))
        | inr (x, refused) ↦ ground (arith, refused)
      ]

  refresh-cases :
      (renewed_at expires_at : String) (minutes : ℕ) {w' : WorkspaceRecord}
      → refresh e now operation_id renewed_at expires_at minutes a w ≡ ok w'
      → (w.lifecycle ≡ assigned) × ((w' ≡ w) ⊎ (restart_lease e now minutes a w ≡ ok w'))
  unfolding refresh
  refresh-cases renewed_at expires_at minutes done = ground arith

module _ (e : Platform) (lawful : IsLawful e) (now : ℕ) (operation_id : String)
    (a : AssignmentRecord) (w : WorkspaceRecord) (ws : List (String × WorkspaceRecord))
    (h : Parts e w) where
  pub retain-Keeps :
      (failure : String) (retained : Option TrackedProcessRecord) {w' : WorkspaceRecord}
      → retain e now operation_id failure retained a w ≡ ok w'
      → is_blank failure ≡ false
      → now < time_limit
      → ((u : ℕ) → e.parse_time w.updated_at ≡ some u → u + millisecond < time_limit)
      → unless_nil retained valid_process ≡ true
      → Keeps e w w' ws
  unfolding valid_identity valid_operation valid_failure valid_idle
  retain-Keeps failure retained done given clock early process =
      let (was, kept, appended, is) = retain-eq e now operation_id a w failure retained done in
      let (ps, shape, valid, same) = append_retained_process-eq retained w appended in
      rw (is, shape)
        (keeps e w _ ws refl
          (record {
            identity = h.identity;
            updated = valid-next_workspace_timestamp e lawful w.updated_at now clock early;
            operation = ground (arith, was);
            ownership = h.ownership;
            availability = h.availability;
            failure = rw (was, given);
            idle = ground (arith, was);
            processes = valid process h.processes;
          })
          (inr (refl, tt)) (inl refl) (inl refl))

  pub succeed-Keeps :
      {w' : WorkspaceRecord}
      → succeed e now operation_id a w ≡ ok w'
      → now < time_limit
      → Keeps e w w' ws
  unfolding valid_identity valid_operation
  succeed-Keeps done clock =
      let (was, is) = succeed-eq e now operation_id a w done in
      rw is (
        keeps e w _ ws refl
          (record {
            identity = h.identity;
            updated = valid-format e lawful now clock;
            operation = ground (arith, was);
            ownership = h.ownership;
            availability = h.availability;
            failure = h.failure;
            idle = h.idle;
            processes = h.processes;
          })
          (inr (refl, tt)) (inl refl) (inl refl))

  restart_lease-Keeps :
      (minutes : ℕ) {w' : WorkspaceRecord}
      → restart_lease e now minutes a w ≡ ok w'
      → w.lifecycle ≡ assigned
      → w.assignment ≡ some a
      → is_finite_positive e minutes ≡ true
      → ((x : ℕ)
          → lifecycle_expiry e (renewal_time e a.renewed_at now) minutes ≡ ok x
          → x < time_limit)
      → Keeps e w w' ws
  restart_lease-Keeps minutes done was held positive early =
      let r = renewal_time e a.renewed_at now in
      let (x, granted, is) = restart_lease-eq e now operation_id a w minutes done in
      let (later, whole) = lifecycle_expiry-after e r minutes granted in
      let old = assignment_parts e a (owned e w a was held h) in
      rw is (
        relet-Keeps e lawful a w ws r x minutes a.lease_keepers held was h
          (λ t. renewal_time-ge e lawful a t now) (omega (arith, truncate-le r, later, whole))
          (early x granted) positive old.keepers)

  pub refresh-Keeps :
      (renewed_at expires_at : String) (minutes : ℕ) {w' : WorkspaceRecord}
      → refresh e now operation_id renewed_at expires_at minutes a w ≡ ok w'
      → w.assignment ≡ some a
      → is_finite_positive e minutes ≡ true
      → ((x : ℕ)
          → lifecycle_expiry e (renewal_time e a.renewed_at now) minutes ≡ ok x
          → x < time_limit)
      → Keeps e w w' ws
  refresh-Keeps renewed_at expires_at minutes done held positive early =
      let (was, outcome) =
        refresh-cases e now operation_id a w renewed_at expires_at minutes done in
      elim outcome [
        | inl same ↦ rw same (keeps e w w ws refl h (inl refl) (inl refl) (inl refl))
        | inr restarted ↦ restart_lease-Keeps minutes restarted was held positive early
      ]
