-- ===== src/Lifecycle/Keeps/Activity.antt =====
-- What the transitions of activity.go keep of a valid document, under the conditions of
-- Lifecycle/Step.
pub mod Keepers
use ruk.Prelude.{
  ℕ, ◌+◌, ◌≤◌, ◌<◌, ◌≡◌, refl, inl, inr, Bool, true, false, ◌&&◌, List, [], ◌∷◌, ◌++◌, none, some,
  String, arith, ltb, if◌then◌else◌,
}
use ruk.Prelude.Results.{Result, ok, err, Result-cases}
use ruk.Errors.{Error}
use ruk.Platform.{Platform, IsLawful, truncate, time_limit, millisecond}
use ruk.State.{LeaseKeeperRecord, AssignmentRecord, WorkspaceRecord, assigned}
use ruk.State.Uuid.{valid_uuid}
use ruk.State.Valid.{is_finite_positive, valid_keepers, is_assigned}
use ruk.State.Document.Parts.{Parts}
use ruk.Lifecycle.Clock.{later_time, parse_timestamp, lease_duration, record_activity}
use ruk.Lifecycle.Activity.{
  in_assigned, has_keeper, new_keeper, active_keepers, remaining_keepers, begin, complete,
}
use ruk.Lifecycle.Keeps.Stored.{Keeps}
use ruk.Lifecycle.Keeps.Stamps.{canonical-format, parse-canonical, truncate-le}
use ruk.Lifecycle.Keeps.Leases.{Times, truncate_step, assignment_parts}
use ruk.Lifecycle.Keeps.Renewal.{relet, relet-Keeps, owned}
use Keepers.{
  valid_keeper, valid_keepers-append, valid_keepers-active_keepers, valid_keepers-remaining_keepers,
  has_keeper-active_keepers, new_keeper-valid,
}

module _ (e : Platform) (a : AssignmentRecord) (w : WorkspaceRecord) where
  record_activity-eq :
      (keepers : List LeaseKeeperRecord) (r : ℕ) {w' : WorkspaceRecord}
      → record_activity e (record a { lease_keepers = keepers }) w r ≡ ok w'
      → (is_finite_positive e a.lease_duration_minutes ≡ true)
        × (w' ≡ record w {
          assignment = some (
              relet a
                (e.format_time r)
                (e.format_time (r + lease_duration e a.lease_duration_minutes))
                a.lease_duration_minutes
                keepers);
          updated_at = e.format_time r;
        })
  unfolding record_activity relet
  record_activity-eq keepers r done = ground arith

  -- The instant of the activity, the keepers that it leaves, and the record that it stores.
  begin-eq :
      (now : ℕ) (id : String) (duration : ℕ) {w' : WorkspaceRecord}
      → begin e now id duration a w ≡ ok w'
      → (has_keeper id a.lease_keepers ≡ false)
        × (p : ℕ) × (parse_timestamp e a.renewed_at ≡ ok p)
        × (active : List LeaseKeeperRecord) × (active_keepers e
              (later_time (truncate now) p)
              ""
              a.lease_keepers
            ≡ ok active)
        × (record_activity e
              (record a {
                lease_keepers =
                    active
                    ++ (new_keeper e id
                          (later_time (truncate now) p)
                          (later_time (truncate now) p + duration)
                        ∷ []);
              })
              w
              (later_time (truncate now) p)
            ≡ ok w')
  unfolding begin
  begin-eq now id duration done = elim (Result-cases (parse_timestamp e a.renewed_at)) [
    | inr (x, bad) ↦ ground (arith, bad)
    | inl (p, fine) ↦
        elim (Result-cases (active_keepers e (later_time (truncate now) p) "" a.lease_keepers)) [
          | inr (x, bad) ↦ ground (arith, fine, bad)
          | inl (active, kept) ↦
              (ground (arith, fine, kept), p, fine, active, kept, ground (arith, fine, kept))
        ]
  ]

  complete-eq :
      (now : ℕ) (id : String) {w' : WorkspaceRecord}
      → complete e now id a w ≡ ok w'
      → (p : ℕ) × (parse_timestamp e a.renewed_at ≡ ok p)
        × (remaining : List LeaseKeeperRecord) × (remaining_keepers e
              (later_time (truncate now) p)
              id
              a.lease_keepers
            ≡ ok remaining)
        × (record_activity e
              (record a { lease_keepers = remaining })
              w
              (later_time (truncate now) p)
            ≡ ok w')
  unfolding complete
  complete-eq now id done = elim (Result-cases (parse_timestamp e a.renewed_at)) [
    | inr (x, bad) ↦ ground (arith, bad)
    | inl (p, fine) ↦
        elim (Result-cases (remaining_keepers e (later_time (truncate now) p) id a.lease_keepers)) [
          | inr (x, bad) ↦ ground (arith, fine, bad)
          | inl (remaining, kept) ↦ (p, fine, remaining, kept, ground (arith, fine, kept))
        ]
  ]

module _ (e : Platform) (lawful : IsLawful e) (a : AssignmentRecord) (w : WorkspaceRecord)
    (ws : List (String × WorkspaceRecord)) (h : Parts e w) (held : w.assignment ≡ some a)
    (was : w.lifecycle ≡ assigned) where
  -- A lease of at least one millisecond, which from the activity on ends before year 10000.
  pub record_activity-Keeps :
      (keepers : List LeaseKeeperRecord) (now p : ℕ) {w' : WorkspaceRecord}
      → parse_timestamp e a.renewed_at ≡ ok p
      → record_activity e (record a { lease_keepers = keepers }) w (later_time (truncate now) p)
        ≡ ok w'
      → valid_keepers e [] keepers ≡ true
      → millisecond ≤ lease_duration e a.lease_duration_minutes
      → later_time (truncate now) p + lease_duration e a.lease_duration_minutes < time_limit
      → Keeps e w w' ws
  unfolding parse_timestamp
  record_activity-Keeps keepers now p parsed done beating long bound =
      let r = later_time (truncate now) p in
      let (positive, is) = record_activity-eq e a w keepers r done in
      rw is (
        relet-Keeps e lawful a w ws r _ a.lease_duration_minutes keepers held was h
          (after now p parsed) (truncate_step r _ long) bound positive beating)
    where
      after :
          (now p : ℕ)
          → parse_timestamp e a.renewed_at ≡ ok p
          → (t : Times e a) → t.assigned ≤ later_time (truncate now) p
      after now p parsed t =
          let known = parse-canonical e lawful a.renewed_at t.renewed_at in
          let order = t.assigned-le-renewed in ground (arith, known, order)

  pub complete-Keeps :
      (now : ℕ) (id : String) {w' : WorkspaceRecord}
      → complete e now id a w ≡ ok w'
      → millisecond ≤ lease_duration e a.lease_duration_minutes
      → ((p : ℕ)
          → parse_timestamp e a.renewed_at ≡ ok p
          → later_time (truncate now) p + lease_duration e a.lease_duration_minutes < time_limit)
      → Keeps e w w' ws
  complete-Keeps now id done long early =
      let (p, parsed, remaining, kept, stored) = complete-eq e a w now id done in
      let old = assignment_parts e a (owned e w a was held h) in
      record_activity-Keeps remaining now p parsed stored
        (valid_keepers-remaining_keepers e [] _ id a.lease_keepers kept old.keepers) long
        (early p parsed)

  pub begin-Keeps :
      (now : ℕ) (id : String) (duration : ℕ) {w' : WorkspaceRecord}
      → begin e now id duration a w ≡ ok w'
      → valid_uuid id ≡ true
      → millisecond ≤ duration
      → millisecond ≤ lease_duration e a.lease_duration_minutes
      → ((p : ℕ)
          → parse_timestamp e a.renewed_at ≡ ok p
          → (later_time (truncate now) p + duration < time_limit)
            × (later_time (truncate now) p + lease_duration e a.lease_duration_minutes
                < time_limit))
      → Keeps e w w' ws
  begin-Keeps now id duration done uuid lasting long early =
      let (new, p, parsed, active, kept, stored) = begin-eq e a w now id duration done in
      let old = assignment_parts e a (owned e w a was held h) in
      let r = later_time (truncate now) p in
      record_activity-Keeps _ now p parsed stored
        (valid_keepers-append e [] active (new_keeper e id r (r + duration))
          (valid_keepers-active_keepers e [] r "" a.lease_keepers kept old.keepers)
          (new_keeper-valid e lawful id r duration uuid lasting (early p parsed).0) refl
          (has_keeper-active_keepers e r "" id a.lease_keepers kept new))
        long (early p parsed).1
