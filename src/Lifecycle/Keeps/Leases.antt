-- ===== src/Lifecycle/Keeps/Leases.antt =====
-- Renewed leases and the tests of validAssignment.
use ruk.Prelude.{
  ℕ, ◌+◌, ◌≤◌, ◌<◌, ◌≡◌, refl, sym, ap, ◌∙◌, Bool, true, false, [], Option, none, some, String,
  arith,
}
use mathlib.Core.Option.{some-injective}
use ruk.Prelude.Text.{str_eq, str_eq_iff}
use ruk.Platform.{Platform, IsLawful, truncate, time_sub, millisecond, time_limit}
use ruk.State.{AssignmentRecord}
use ruk.State.Uuid.{valid_uuid}
use ruk.State.Valid.{
  check, canonical_timestamp, is_finite_positive, valid_times, valid_keepers, valid_ports,
  valid_assignment,
}
use ruk.Lifecycle.Keeps.Stamps.{canonical-format}

truncate_mono : (s t : ℕ) → s ≤ t → truncate s ≤ truncate t
unfolding truncate
truncate_mono s t h = omega arith

pub truncate_step : (s d : ℕ) → millisecond ≤ d → truncate s < truncate (s + d)
unfolding truncate
truncate_step s d h = omega arith

pub truncate_idem : (t : ℕ) → truncate (truncate t) ≡ truncate t
unfolding truncate
truncate_idem t = omega arith

pub time_sub-pos : (x r : ℕ) → r < x → 0 < time_sub x r
unfolding time_sub
time_sub-pos x r h = omega arith

check-some :
    {A : Type 0} (o : Option A) (p : A → Bool)
    → check o p ≡ true
    → (x : A) × (o ≡ some x) × (p x ≡ true)
check-some none p h = cc
check-some (some x) p h = (x, refl, h)

pub truncate-lt-bound : (r x : ℕ) → truncate r < truncate x → r < x
unfolding truncate
truncate-lt-bound r x h = omega arith

module _ (e : Platform) where
  -- The four instants of an assignment whose times are valid.
  pub record Times (a : AssignmentRecord) : Type 0 where
    pub assigned : ℕ
    pub renewed : ℕ
    pub expires : ℕ
    pub activity : ℕ
    pub assigned_at : canonical_timestamp e a.assigned_at ≡ some assigned
    pub renewed_at : canonical_timestamp e a.renewed_at ≡ some renewed
    pub expires_at : canonical_timestamp e a.expires_at ≡ some expires
    pub last_activity_at : canonical_timestamp e a.last_activity_at ≡ some activity
    pub assigned-le-renewed : assigned ≤ renewed
    pub renewed-lt-expires : renewed < expires
    pub assigned-le-activity : assigned ≤ activity
    pub activity-lt-expires : activity < expires

  pub valid_times_of_Times : (a : AssignmentRecord) → Times a → valid_times e a ≡ true
  unfolding valid_times
  valid_times_of_Times a t = ground arith

  pub times : (a : AssignmentRecord) → valid_times e a ≡ true → Times a
  unfolding valid_times
  times a h =
      let (t0, e0, h0) = check-some (canonical_timestamp e a.assigned_at) _ h in
      let (t1, e1, h1) = check-some (canonical_timestamp e a.renewed_at) _ h0 in
      let (t2, e2, h2) = check-some (canonical_timestamp e a.expires_at) _ h1 in
      let (t3, e3, h3) = check-some (canonical_timestamp e a.last_activity_at) _ h2 in
      record {
        assigned = t0;
        renewed = t1;
        expires = t2;
        activity = t3;
        assigned_at = e0;
        renewed_at = e1;
        expires_at = e2;
        last_activity_at = e3;
        assigned-le-renewed = ground (arith, h3);
        renewed-lt-expires = ground (arith, h3);
        assigned-le-activity = ground (arith, h3);
        activity-lt-expires = ground (arith, h3);
      }

  pub record AssignmentParts (a : AssignmentRecord) : Type 0 where
    pub id : valid_uuid a.id ≡ true
    pub owner : str_eq a.owner "" ≡ false
    pub hostname : str_eq a.hostname "" ≡ false
    pub times : valid_times e a ≡ true
    pub minutes : is_finite_positive e a.lease_duration_minutes ≡ true
    pub keepers : valid_keepers e [] a.lease_keepers ≡ true
    pub ports : valid_ports e a.ports ≡ true

  pub assignment_parts : (a : AssignmentRecord) → valid_assignment e a ≡ true → AssignmentParts a
  unfolding valid_assignment
  assignment_parts a h = ground arith

  pub valid_of_AssignmentParts :
      (a : AssignmentRecord) → AssignmentParts a → valid_assignment e a ≡ true
  unfolding valid_assignment
  valid_of_AssignmentParts a p = ground arith

module _ (e : Platform) (lawful : IsLawful e) where
  -- A canonical timestamp shows whole milliseconds.
  canonical-truncate :
      (value : String) (t : ℕ) → canonical_timestamp e value ≡ some t → truncate t ≡ t
  unfolding canonical_timestamp
  canonical-truncate value t h =
      let parsed : e.parse_time value ≡ some t = ground (arith, h) in
      let shown : e.format_time t ≡ value = ground (arith, h, str_eq_iff (e.format_time t) value) in
      let bound = lawful.canonical-lt value t parsed shown in
      some-injective (truncate t) t
        (sym (lawful.parse-format t bound) ∙ ap e.parse_time shown ∙ parsed)

  -- An assignment that was assigned by r, is renewed at r and expires at x.
  pub valid_times-renewed :
      (a a' : AssignmentRecord) (t : Times e a) (r x : ℕ)
      → a'.assigned_at ≡ a.assigned_at
      → a'.renewed_at ≡ e.format_time r
      → a'.expires_at ≡ e.format_time x
      → a'.last_activity_at ≡ e.format_time r
      → t.assigned ≤ r
      → truncate r < truncate x
      → x < time_limit
      → valid_times e a' ≡ true
  valid_times-renewed a a' t r x p q u v after order bound =
      let whole = canonical-truncate a.assigned_at t.assigned t.assigned_at in
      let earlier = truncate_mono t.assigned r after in
      let early : r < time_limit = omega (arith, truncate-lt-bound r x order, bound) in
      valid_times_of_Times e a' (record {
        assigned = t.assigned;
        renewed = truncate r;
        expires = truncate x;
        activity = truncate r;
        assigned_at = rw p t.assigned_at;
        renewed_at = rw q (canonical-format e lawful r early);
        expires_at = rw u (canonical-format e lawful x bound);
        last_activity_at = rw v (canonical-format e lawful r early);
        assigned-le-renewed = omega (arith, whole, earlier);
        renewed-lt-expires = order;
        assigned-le-activity = omega (arith, whole, earlier);
        activity-lt-expires = order;
      })
