-- ===== src/Lifecycle/Keeps/Acquisitions.antt =====
-- The operations of an acquisition on a sound state, under the conditions of Lifecycle/Step.
use ruk.Prelude.{
  ap, ℕ, ◌<◌, ◌≡◌, refl, inl, inr, Bool, true, false, List, [], ◌∷◌, Option, none, some, String,
  arith, Bool-cases, Option-cases, All,
}
use ruk.Prelude.Text.{is_blank}
use ruk.Prelude.Results.{ok, Result-cases}
use ruk.Prelude.Assoc.{lookup}
use ruk.Prelude.Sorting.{sort_by, All-sort_by}
use ruk.Platform.{Platform, IsLawful, time_limit}
use ruk.State.{TrackedProcessRecord, UsageMetrics, WorkspaceRecord, State}
use ruk.State.Valid.{unless_nil, valid_process, valid_processes, is_finite_positive, tree_key}
use ruk.State.Document.{
  valid_state, valid_metrics, valid_identity, valid_operation, valid_ownership, valid_availability,
  valid_failure, valid_idle,
}
use ruk.State.Document.Parts.{Parts, parts, valid_of_Parts}
use ruk.Lifecycle.Records.{Found, find_assignment, store_at, at_assignment}
use ruk.Lifecycle.Clock.{lifecycle_expiry, renewal_time}
use ruk.Lifecycle.Preparation.{new_workspace, begin_preparation}
use ruk.Lifecycle.Assignment.{
  AssignmentInput, validate_assignment_input, assign, older, candidates, requested_key,
  reserve_first, reserve_available_workspace, hand_over, mark_assigned, retain,
  retain_assignment_after_acquisition_failure, count_acquisition, succeed,
  record_acquisition_success, refresh, refresh_acquisition_lease,
}
use ruk.Lifecycle.Step.{EarlyStamps, NewOperation, NewAssignment, EarlyLease}
use ruk.Lifecycle.Keeps.Stored.{valid_state-store_new, valid_workspace-lookup}
use ruk.Lifecycle.Keeps.Maps.{put-IsMap, IsCandidateOf, candidates-IsCandidateOf}
use ruk.Lifecycle.Keeps.Sound.{
  at_assignment-eq, IsSound, store_at-IsSound, at_path-IsSound, at_assignment-IsSound,
}
use ruk.Lifecycle.Keeps.Stamps.{valid-format}
use ruk.Lifecycle.Keeps.Assignment.{assign-Keeps}
use ruk.Lifecycle.Keeps.Handoff.{retain-Keeps, succeed-Keeps, refresh-Keeps}

-- What the guards of BeginPreparation have checked.
begin_preparation-eq :
    (e : Platform) (now : ℕ) (new_id path branch : String) (s : State) {t : State}
    {w' : WorkspaceRecord}
    → begin_preparation e now new_id path branch s ≡ ok (t, w')
    → (is_blank branch ≡ false)
      × (resolved : String) × (e.abs_path path ≡ some resolved)
      × (key : String) × (tree_key e resolved ≡ some key)
      × (lookup key s.workspaces ≡ none)
      × (t ≡ store_at key (new_workspace resolved branch new_id (e.format_time now)) s)
unfolding begin_preparation
begin_preparation-eq e now new_id path branch s done = elim (Option-cases (e.abs_path path)) [
  | inl bad ↦ ground (arith, bad)
  | inr (resolved, absolute) ↦ elim (Option-cases (tree_key e resolved)) [
    | inl bad ↦ ground (arith, absolute, bad)
    | inr (key, derived) ↦ elim (Option-cases (lookup key s.workspaces)) [
      | inr (v, taken) ↦ ground (arith, absolute, derived, taken)
      | inl free ↦ (
        ground (arith, absolute, derived, free),
        resolved,
        absolute,
        key,
        derived,
        free,
        ground (arith, absolute, derived, free),
      )
    ]
  ]
]

module _ (e : Platform) (lawful : IsLawful e) where
  new_workspace-Parts :
      (now : ℕ) (path resolved branch new_id : String)
      → e.abs_path path ≡ some resolved
      → is_blank branch ≡ false
      → now < time_limit
      → ruk.State.Uuid.valid_uuid new_id ≡ true
      → Parts e (new_workspace resolved branch new_id (e.format_time now))
  unfolding valid_identity valid_operation valid_ownership valid_availability valid_failure
      valid_idle valid_processes
  new_workspace-Parts now path resolved branch new_id absolute named clock uuid =
      let stamp = valid-format e lawful now clock in
      record {
        identity = ground (arith, lawful.abs-IsAbs path resolved absolute, named, stamp);
        updated = stamp;
        operation = rw uuid;
        ownership = refl;
        availability = refl;
        failure = refl;
        idle = refl;
        processes = refl;
      }

pub record_metrics-IsSound :
    (e : Platform) (s : State) (m : UsageMetrics)
    → IsSound e s
    → valid_metrics m ≡ true
    → IsSound e (record s { metrics = m })
unfolding valid_state
record_metrics-IsSound e s m h valid =
    let old = h.valid in record { valid = ground arith; map = h.map }

module _ (e : Platform) (lawful : IsLawful e) (s : State) (h : IsSound e s) {t : State} where
  pub begin_preparation-IsSound :
      (now : ℕ) (new_id path branch : String) {w' : WorkspaceRecord}
      → begin_preparation e now new_id path branch s ≡ ok (t, w')
      → now < time_limit
      → NewOperation s new_id
      → IsSound e t
  begin_preparation-IsSound now new_id path branch done clock new =
      let (named, resolved, absolute, key, derived, free, is) =
        begin_preparation-eq e now new_id path branch s done in
      let w = new_workspace resolved branch new_id (e.format_time now) in
      let fresh =
        new_workspace-Parts e lawful now path resolved branch new_id absolute named clock new.0 in
      rw is (record {
        valid =
            valid_state-store_new e key w s free derived (valid_of_Parts e w fresh) refl refl refl
              (new.1, tt) h.valid;
        map = put-IsMap key w s.workspaces h.map;
      })

  pub mark_assigned-IsSound :
      (now : ℕ) (new_id new_operation_id path operation_id : String) (input : AssignmentInput)
      {w' : WorkspaceRecord}
      → mark_assigned e now new_id new_operation_id path operation_id input s ≡ ok (t, w')
      → NewAssignment s new_id
      → NewOperation s new_operation_id
      → EarlyLease e now input
      → IsSound e t
  unfolding mark_assigned
  mark_assigned-IsSound now new_id new_operation_id path operation_id input {w'} done id operation
        early =
      elim (Result-cases (validate_assignment_input input)) [
        | inr (x, bad) ↦ ground (arith, bad)
        | inl (u, fine) ↦
            at_path-IsSound e s h path (hand_over e now new_id new_operation_id operation_id input)
              {t = t} {w' = w'} (ground (arith, fine))
              λ key w found old stored.
                assign-Keeps e lawful now new_id new_operation_id input w s.workspaces
                  (unfold hand_over in ground (arith, stored)) old fine id.0 operation.0 id.1
                  operation.1 early
      ]

  pub retain-IsSound :
      (now : ℕ) (id operation_id failure : String) (retained : Option TrackedProcessRecord)
      {w' : WorkspaceRecord}
      → retain_assignment_after_acquisition_failure e now id operation_id failure retained s
        ≡ ok (t, w')
      → now < time_limit
      → EarlyStamps e s
      → unless_nil retained valid_process ≡ true
      → IsSound e t
  unfolding retain_assignment_after_acquisition_failure
  retain-IsSound now id operation_id failure retained done clock early process =
      elim (Bool-cases (is_blank failure)) [
        | inl blank ↦ ground (arith, blank)
        | inr given ↦
            at_assignment-IsSound e s h id (retain e now operation_id failure retained)
              (rw (given, retain_assignment_after_acquisition_failure) at done)
              λ f located held old fine.
                retain-Keeps e lawful now operation_id f.assignment f.workspace s.workspaces old
                  failure retained fine given clock
                  (early f.key f.workspace
                    (ruk.Lifecycle.Keeps.Maps.lookup-find_assignment id s.workspaces h.map located))
                  process
      ]

  pub refresh_acquisition_lease-IsSound :
      (now : ℕ) (id operation_id renewed_at expires_at : String) (minutes : ℕ)
      {w' : WorkspaceRecord}
      → refresh_acquisition_lease e now id operation_id renewed_at expires_at minutes s ≡ ok (t, w')
      → ((f : Found)
          → find_assignment id s.workspaces ≡ some f
          → (x : ℕ) → lifecycle_expiry e (renewal_time e f.assignment.renewed_at now) minutes ≡ ok x
          → x < time_limit)
      → IsSound e t
  unfolding refresh_acquisition_lease
  refresh_acquisition_lease-IsSound now id operation_id renewed_at expires_at minutes done early =
      elim (Bool-cases (is_finite_positive e minutes)) [
        | inr bad ↦ ground (arith, bad)
        | inl positive ↦
            at_assignment-IsSound e s h id
              (refresh e now operation_id renewed_at expires_at minutes)
              (rw (positive, refresh_acquisition_lease) at done)
              λ f located held old fine.
                refresh-Keeps e lawful now operation_id f.assignment f.workspace s.workspaces old
                  renewed_at expires_at minutes fine held positive (early f located)
      ]

  pub record_acquisition_success-IsSound :
      (now : ℕ) (id operation_id : String) (reused : Bool) {w' : WorkspaceRecord}
      → record_acquisition_success e now id operation_id reused s ≡ ok (t, w')
      → now < time_limit
      → valid_metrics (count_acquisition reused s.metrics) ≡ true
      → IsSound e t
  unfolding record_acquisition_success
  record_acquisition_success-IsSound now id operation_id reused {w'} done clock counted =
      elim (Result-cases (at_assignment id (succeed e now operation_id) s)) [
        | inr (x, bad) ↦ ground (arith, bad)
        | inl ((u, w), fine) ↦
            let (f, located, stored, is) =
              at_assignment-eq id (succeed e now operation_id) s {t = u} {w' = w} fine in
            let sound =
              at_assignment-IsSound e s h id (succeed e now operation_id) {t = u} {w' = w} fine
                λ f located held old fine.
                  succeed-Keeps e lawful now operation_id f.assignment f.workspace s.workspaces old
                    fine clock in
            rw (counted_state u w fine) (
              record_metrics-IsSound e u (count_acquisition reused u.metrics) sound
                (rw (ap (λ v. count_acquisition reused v.metrics) is) counted))
      ]
    where
      counted_state :
          (u : State) (w : WorkspaceRecord)
          → at_assignment id (succeed e now operation_id) s ≡ ok (u, w)
          → t ≡ record u { metrics = count_acquisition reused u.metrics }
      counted_state u w fine = ground (arith, fine)

  -- The first of the chosen entries is assigned, where there is one.
  reserve_first-IsSound :
      (now : ℕ) (new_id new_operation_id : String) (input : AssignmentInput)
      (requested : Option String) (chosen : List (String × WorkspaceRecord))
      {result : Option WorkspaceRecord}
      → reserve_first e now new_id new_operation_id input chosen s ≡ ok (t, result)
      → All (IsCandidateOf requested s.workspaces) chosen
      → validate_assignment_input input ≡ ok tt
      → NewAssignment s new_id
      → NewOperation s new_operation_id
      → EarlyLease e now input
      → IsSound e t
  reserve_first-IsSound now new_id new_operation_id input requested [] done all fine id operation
        early =
      rw (unchanged done) h
    where
      unchanged :
          {result : Option WorkspaceRecord}
          → reserve_first e now new_id new_operation_id input [] s ≡ ok (t, result)
          → t ≡ s
      unchanged done = ground arith
  reserve_first-IsSound now new_id new_operation_id input requested ((key, w) ∷ rest) done all fine
        id operation early =
      elim (Result-cases (assign e now new_id new_operation_id input w)) [
        | inr (x, bad) ↦ ground (arith, bad)
        | inl (w', stored) ↦
            let old = parts e w (valid_workspace-lookup e key w s all.0.0 h.valid) in
            let is : t ≡ store_at key w' s = ground (arith, stored) in
            rw is (
              store_at-IsSound e s h key w w' all.0.0 (
                assign-Keeps e lawful now new_id new_operation_id input w s.workspaces stored old
                  fine id.0 operation.0 id.1 operation.1 early))
      ]

  pub reserve_available_workspace-IsSound :
      (now : ℕ) (new_id new_operation_id : String) (input : AssignmentInput)
      (requested : Option String) {result : Option WorkspaceRecord}
      → reserve_available_workspace e now new_id new_operation_id input requested s ≡ ok (t, result)
      → NewAssignment s new_id
      → NewOperation s new_operation_id
      → EarlyLease e now input
      → IsSound e t
  unfolding reserve_available_workspace
  reserve_available_workspace-IsSound now new_id new_operation_id input requested {result} done id
        operation early =
      elim (Result-cases (validate_assignment_input input)) [
        | inr (x, bad) ↦ ground (arith, bad)
        | inl (u, fine) ↦ elim (Result-cases (requested_key e requested)) [
          | inr (x, bad) ↦ ground (arith, fine, bad)
          | inl (wanted, named) ↦
              reserve_first-IsSound now new_id new_operation_id input wanted
                (sort_by older (candidates wanted s.workspaces)) {result = result}
                (ground (arith, fine, named))
                (All-sort_by older (IsCandidateOf wanted s.workspaces)
                  (candidates wanted s.workspaces)
                  (candidates-IsCandidateOf wanted s.workspaces h.map))
                fine id operation early
        ]
      ]
