-- ===== src/Lifecycle/Keeps/Renewal.antt =====
-- What the transitions of renewal.go keep of a valid document, under the conditions of
-- Lifecycle/Step.
use ruk.Prelude.{
  ℕ, ◌≤◌, ◌<◌, ◌≡◌, refl, ◌⊎◌, inl, inr, true, false, List, [], Option, some, String, arith,
}
use ruk.Prelude.Results.{ok}
use ruk.Platform.{Platform, IsLawful, truncate, time_sub, time_limit}
use ruk.State.{LeaseKeeperRecord, AssignmentRecord, WorkspaceRecord, assigned}
use ruk.State.Valid.{is_finite_positive, valid_keepers, valid_assignment}
use ruk.State.Document.{valid_identity, valid_ownership}
use ruk.State.Document.Parts.{Parts}
use ruk.Lifecycle.Clock.{renewal_time}
use ruk.Lifecycle.Renewal.{is_outdated, extend, renew}
use ruk.Lifecycle.Keeps.Stored.{Keeps, keeps}
use ruk.Lifecycle.Keeps.Stamps.{valid-format, parse-canonical, truncate-le}
use ruk.Lifecycle.Keeps.Leases.{
  Times, times, AssignmentParts, assignment_parts, valid_of_AssignmentParts, valid_times-renewed,
  time_sub-pos, truncate_idem, truncate-lt-bound,
}

-- A renewed lease in place of the old one, in a workspace that stays assigned.
unfoldable pub relet :
    AssignmentRecord → String → String → ℕ → List LeaseKeeperRecord → AssignmentRecord
relet a renewed_at expires_at minutes keepers = record a {
  lease_keepers = keepers;
  renewed_at = renewed_at;
  expires_at = expires_at;
  lease_duration_minutes = minutes;
  last_activity_at = renewed_at;
}

-- The assignment of a valid workspace that is assigned is valid.
pub owned :
    (e : Platform) (w : WorkspaceRecord) (a : AssignmentRecord)
    → w.lifecycle ≡ assigned
    → w.assignment ≡ some a
    → Parts e w
    → valid_assignment e a ≡ true
unfolding valid_ownership
owned e w a was held h = ground (arith, h.ownership)

module _ (e : Platform) (lawful : IsLawful e) where
  -- The renewal comes after the assignment.
  pub renewal_time-ge :
      (a : AssignmentRecord) (t : Times e a) (now : ℕ)
      → t.assigned ≤ renewal_time e a.renewed_at now
  unfolding renewal_time
  renewal_time-ge a t now =
      let parsed = parse-canonical e lawful a.renewed_at t.renewed_at in
      let order = t.assigned-le-renewed in ground (arith, parsed, order)

  pub relet-Keeps :
      (a : AssignmentRecord) (w : WorkspaceRecord) (ws : List (String × WorkspaceRecord))
      (r x minutes : ℕ) (keepers : List LeaseKeeperRecord)
      → w.assignment ≡ some a
      → w.lifecycle ≡ assigned
      → Parts e w
      → ((t : Times e a) → t.assigned ≤ r)
      → truncate r < truncate x
      → x < time_limit
      → is_finite_positive e minutes ≡ true
      → valid_keepers e [] keepers ≡ true
      → Keeps e w
          (record w {
            assignment = some (relet a (e.format_time r) (e.format_time x) minutes keepers);
            updated_at = e.format_time r;
          })
          ws
  unfolding relet valid_identity valid_ownership
  relet-Keeps a w ws r x minutes keepers held was h after order bound positive beating =
      keeps e w _ ws refl
        (record {
          identity = h.identity;
          updated = valid-format e lawful r (omega (arith, truncate-lt-bound r x order, bound));
          operation = h.operation;
          ownership = rw was (valid_of_AssignmentParts e _ renewed);
          availability = h.availability;
          failure = h.failure;
          idle = h.idle;
          processes = h.processes;
        })
        (inl refl) (inl (rw held)) (inl (rw held))
    where
      old : AssignmentParts e a
      old = assignment_parts e a (owned e w a was held h)

      renewed : AssignmentParts e (relet a (e.format_time r) (e.format_time x) minutes keepers)
      renewed =
          let t = times e a old.times in
          record {
            id = old.id;
            owner = old.owner;
            hostname = old.hostname;
            times =
                valid_times-renewed e lawful a _ t r x refl refl refl refl (after t) order bound;
            minutes = positive;
            keepers = beating;
            ports = old.ports;
          }

module _ (e : Platform) (now : ℕ) (a : AssignmentRecord) (w : WorkspaceRecord) where
  -- A successful renewal stores a lease from the renewal time to the requested expiry.
  pub extend-eq :
      (expires_at : ℕ) {w' : WorkspaceRecord}
      → extend e now expires_at a w ≡ ok w'
      → let r = renewal_time e a.renewed_at now in
        let x = truncate expires_at in
        (r < x)
        × (w' ≡ record w {
          assignment = some (
              relet a
                (e.format_time r)
                (e.format_time x)
                (e.duration_minutes (time_sub x r))
                a.lease_keepers);
          updated_at = e.format_time r;
        })
  unfolding extend relet
  extend-eq expires_at done = ground arith

  pub renew-cases :
      (expires_at : ℕ) (expected : Option String) {w' : WorkspaceRecord}
      → renew e now expires_at expected a w ≡ ok w'
      → (w.lifecycle ≡ assigned)
        × ((is_outdated expected a.renewed_at ≡ true) × (w' ≡ w)
            ⊎ (is_outdated expected a.renewed_at ≡ false) × (extend e now expires_at a w ≡ ok w'))
  unfolding renew
  renew-cases expires_at expected done = ground arith

module _ (e : Platform) (lawful : IsLawful e) where
  pub minutes-IsFinitePositive :
      (d : ℕ) → 0 < d → is_finite_positive e (e.duration_minutes d) ≡ true
  unfolding is_finite_positive
  minutes-IsFinitePositive d h =
      ground (arith, lawful.minutes-not_nan d, lawful.minutes-not_inf d, lawful.minutes_pos d h)

  extend-Keeps :
      (now : ℕ) (a : AssignmentRecord) (w : WorkspaceRecord) (ws : List (String × WorkspaceRecord))
      (expires_at : ℕ) {w' : WorkspaceRecord}
      → w.assignment ≡ some a
      → w.lifecycle ≡ assigned
      → Parts e w
      → expires_at < time_limit
      → extend e now expires_at a w ≡ ok w'
      → Keeps e w w' ws
  extend-Keeps now a w ws expires_at held was h bound done =
      let r = renewal_time e a.renewed_at now in
      let x = truncate expires_at in
      let (later, is) = extend-eq e now a w expires_at done in
      let old = assignment_parts e a (owned e w a was held h) in
      rw is (
        relet-Keeps e lawful a w ws r x (e.duration_minutes (time_sub x r)) a.lease_keepers held was
          h (λ t. renewal_time-ge e lawful a t now)
          (omega (arith, truncate-le r, truncate_idem expires_at))
          (omega (arith, truncate-le expires_at))
          (minutes-IsFinitePositive (time_sub x r) (time_sub-pos x r later)) old.keepers)

  pub renew-Keeps :
      (now : ℕ) (a : AssignmentRecord) (w : WorkspaceRecord) (ws : List (String × WorkspaceRecord))
      (expires_at : ℕ) (expected : Option String) {w' : WorkspaceRecord}
      → w.assignment ≡ some a
      → Parts e w
      → expires_at < time_limit
      → renew e now expires_at expected a w ≡ ok w'
      → Keeps e w w' ws
  renew-Keeps now a w ws expires_at expected held h bound done =
      let (was, outcome) = renew-cases e now a w expires_at expected done in
      elim outcome [
        | inl stale ↦ rw stale.1 (keeps e w w ws refl h (inl refl) (inl refl) (inl refl))
        | inr fresh ↦ extend-Keeps now a w ws expires_at held was h bound fresh.1
      ]
