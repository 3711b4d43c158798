-- ===== src/Lifecycle/Keeps/Assignment.antt =====
-- What the assignment of a workspace, in assignment.go, keeps of a valid document, under the
-- conditions of Lifecycle/Step.
use ruk.Prelude.{
  ℕ, ◌<◌, ◌≡◌, refl, inl, inr, true, false, List, none, some, String, arith, if◌then◌else◌, any_of,
}
use ruk.Prelude.Int.{pos}
use ruk.Prelude.Text.{str_eq, is_blank}
use ruk.Prelude.Results.{ok, Result-cases}
use ruk.Platform.{Platform, IsLawful, truncate, time_sub, time_limit}
use ruk.State.{WorkspaceRecord, assigned}
use ruk.State.Uuid.{valid_uuid}
use ruk.State.Valid.{valid_keepers, valid_assignment}
use ruk.State.Document.{
  held, operation_of, assignment_of, valid_identity, valid_operation, valid_ownership,
  valid_availability, valid_failure, valid_idle,
}
use ruk.State.Document.Parts.{Parts}
use ruk.Lifecycle.Clock.{lifecycle_expiry, lease_end}
use ruk.Lifecycle.Assignment.{
  AssignmentInput, validate_assignment_input, expiry_of, new_assignment, assign,
}
use ruk.Lifecycle.Keeps.Stored.{Keeps, keeps}
use ruk.Lifecycle.Keeps.Stamps.{canonical-format, valid-format}
use ruk.Lifecycle.Keeps.Leases.{
  valid_times_of_Times, valid_of_AssignmentParts, time_sub-pos, truncate_idem,
}
use ruk.Lifecycle.Keeps.Renewal.{minutes-IsFinitePositive}

-- A lease ends at a whole millisecond after its start.
pub lifecycle_expiry-after :
    (e : Platform) (now minutes : ℕ) {x : ℕ}
    → lifecycle_expiry e now minutes ≡ ok x
    → (now < x) × (truncate x ≡ x)
unfolding lifecycle_expiry
lifecycle_expiry-after e now minutes done =
    let seconds = e.float_mul minutes (e.float_of_int (pos 60)) in
    ground (arith, truncate_idem (lease_end e now seconds))

pub expiry_of-after :
    (e : Platform) (now : ℕ) (input : AssignmentInput) {x : ℕ}
    → expiry_of e now input ≡ ok x
    → (now < x) × (truncate x ≡ x)
unfolding expiry_of
expiry_of-after e now input {x} done = ground (
  arith,
  lifecycle_expiry-after e now input.lease_duration_minutes {x = x},
  truncate_idem input.expires_at,
)

pub assign-eq :
    (e : Platform) (clock : ℕ) (id operation_id : String) (input : AssignmentInput)
    (w : WorkspaceRecord) {w' : WorkspaceRecord}
    → assign e clock id operation_id input w ≡ ok w'
    → (x : ℕ) × (expiry_of e (truncate clock) input ≡ ok x)
      × (w' ≡ record w {
        lifecycle = assigned;
        operation_id = some operation_id;
        assignment = some (new_assignment e (truncate clock) x id input);
        branch = if is_blank input.branch then w.branch else input.branch;
        updated_at = e.format_time (truncate clock);
        available_at = none;
        failure = none;
      })
unfolding assign
assign-eq e clock id operation_id input w done =
    elim (Result-cases (expiry_of e (truncate clock) input)) [
      | inl (x, fine) ↦ (x, fine, ground (arith, fine))
      | inr (x, refused) ↦ ground (arith, refused)
    ]

module _ (e : Platform) (lawful : IsLawful e) where
  new_assignment-valid :
      (now x : ℕ) (id : String) (input : AssignmentInput)
      → truncate now ≡ now
      → now < x
      → truncate x ≡ x
      → x < time_limit
      → valid_uuid id ≡ true
      → validate_assignment_input input ≡ ok tt
      → valid_assignment e (new_assignment e now x id input) ≡ true
  unfolding validate_assignment_input valid_keepers
  new_assignment-valid now x id input whole later whole_x bound uuid input_ok =
      let early : now < time_limit = omega (arith, later, bound) in
      valid_of_AssignmentParts e _ (record {
        id = uuid;
        owner = ground arith;
        hostname = ground arith;
        times = valid_times_of_Times e _ (record {
          assigned = truncate now;
          renewed = truncate now;
          expires = truncate x;
          activity = truncate now;
          assigned_at = canonical-format e lawful now early;
          renewed_at = canonical-format e lawful now early;
          expires_at = canonical-format e lawful x bound;
          last_activity_at = canonical-format e lawful now early;
          assigned-le-renewed = omega arith;
          renewed-lt-expires = omega (arith, whole, whole_x);
          assigned-le-activity = omega arith;
          activity-lt-expires = omega (arith, whole, whole_x);
        });
        minutes = minutes-IsFinitePositive e lawful (time_sub x now) (time_sub-pos x now later);
        keepers = refl;
        ports = refl;
      })

  -- The two identifiers are new UUIDs, and the granted lease ends before year 10000.
  pub assign-Keeps :
      (clock : ℕ) (id operation_id : String) (input : AssignmentInput) (w : WorkspaceRecord)
      {w' : WorkspaceRecord} (ws : List (String × WorkspaceRecord))
      → assign e clock id operation_id input w ≡ ok w'
      → Parts e w
      → validate_assignment_input input ≡ ok tt
      → valid_uuid id ≡ true
      → valid_uuid operation_id ≡ true
      → any_of (str_eq id) (held assignment_of ws) ≡ false
      → any_of (str_eq operation_id) (held operation_of ws) ≡ false
      → ((x : ℕ) → expiry_of e (truncate clock) input ≡ ok x → x < time_limit)
      → Keeps e w w' ws
  unfolding valid_identity valid_operation valid_ownership valid_availability valid_failure
      valid_idle
  assign-Keeps clock id operation_id input w ws done h input_ok id_uuid operation_uuid id_new
        operation_new early =
      let now = truncate clock in
      let (x, granted, is) = assign-eq e clock id operation_id input w done in
      let (later, whole) = expiry_of-after e now input granted in
      let bound = early x granted in
      rw is (
        keeps e w _ ws refl
          (record {
            identity = ground (arith, h.identity);
            updated = valid-format e lawful now (omega (arith, later, bound));
            operation = rw operation_uuid;
            ownership =
                new_assignment-valid now x id input (truncate_idem clock) later whole bound id_uuid
                  input_ok;
            availability = refl;
            failure = refl;
            idle = refl;
            processes = h.processes;
          })
          (inr (refl, (operation_new, tt))) (inr (refl, (id_new, tt))) (inr (refl, tt)))
