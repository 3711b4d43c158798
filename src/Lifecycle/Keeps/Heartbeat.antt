-- ===== src/Lifecycle/Keeps/Heartbeat.antt =====
-- The keepers of an assignment after RefreshAssignmentActivity.
use ruk.Prelude.{
  ℕ, ◌+◌, ◌≤◌, ◌<◌, ◌≡◌, refl, inl, inr, true, false, List, [], ◌∷◌, String, arith, Bool-cases,
  Option-cases, some, any_of,
}
use ruk.Prelude.Text.{str_eq}
use ruk.Prelude.Results.{ok, Result-cases}
use ruk.Platform.{Platform, IsLawful, truncate, time_sub, time_limit, millisecond}
use ruk.State.{LeaseKeeperRecord, AssignmentRecord, WorkspaceRecord, assigned}
use ruk.State.Valid.{canonical_timestamp, valid_keepers}
use ruk.Lifecycle.Clock.{later_time, lease_duration, record_activity, parse_timestamp}
use ruk.Lifecycle.Activity.{active_keepers, heartbeat, beat, beat_keepers}
use ruk.Lifecycle.Keeps.Stamps.{canonical-format, parse-canonical, truncate-le}
use ruk.Lifecycle.Keeps.Leases.{truncate_step, assignment_parts}
use ruk.State.Document.Parts.{Parts}
use ruk.Lifecycle.Keeps.Stored.{Keeps}
use ruk.Lifecycle.Keeps.Renewal.{owned}
use ruk.Lifecycle.Keeps.Activity.{record_activity-Keeps}
use ruk.Lifecycle.Keeps.Activity.Keepers.{
  valid_keepers-active_keepers, valid_keeper, valid_keepers-cons,
}

module _ (e : Platform) (lawful : IsLawful e) (now d : ℕ) (long : millisecond ≤ d)
    (bound : now + d < time_limit) where
  beat-id :
      (k : LeaseKeeperRecord) {k' : LeaseKeeperRecord}
      → beat e now (now + d) k ≡ ok k'
      → k'.id ≡ k.id
  unfolding beat
  beat-id k done = elim (Result-cases (parse_timestamp e k.valid_until)) [
    | inr (x, bad) ↦ ground (arith, bad)
    | inl (u, fine) ↦ ground (arith, fine)
  ]

  beat-valid :
      (k : LeaseKeeperRecord) {k' : LeaseKeeperRecord}
      → beat e now (now + d) k ≡ ok k'
      → valid_keeper e k ≡ true
      → valid_keeper e k' ≡ true
  unfolding beat valid_keeper parse_timestamp
  beat-valid k done h = elim (Result-cases (parse_timestamp e k.valid_until)) [
    | inr (x, bad) ↦ ground (arith, bad)
    | inl (u, fine) ↦
        let start = canonical-format e lawful now (omega (arith, bound)) in
        let finish = canonical-format e lawful (now + d) bound in
        let order = truncate_step now d long in
        let early = truncate-le now in
        elim (Option-cases (canonical_timestamp e k.valid_until)) [
          | inl bad ↦ ground (arith, h, bad)
          | inr (c, is) ↦
              let known = parse-canonical e lawful k.valid_until is in
              let same : u ≡ c = ground (arith, known, fine) in
              ground (arith, h, fine, is, same, start, finish, order, early)
        ]
  ]

  cons-valid :
      (seen : List String) (k : LeaseKeeperRecord) (ks : List LeaseKeeperRecord)
      → valid_keepers e seen (k ∷ ks) ≡ true
      → (valid_keeper e k ≡ true)
        × (any_of (str_eq k.id) seen ≡ false)
        × (valid_keepers e (k.id ∷ seen) ks ≡ true)
  cons-valid seen k ks h =
      let parts = valid_keepers-cons e seen k ks in
      (ground (arith, h, parts), ground (arith, h, parts), ground (arith, h, parts))

  pub valid_keepers-beat_keepers :
      (seen : List String) (id : String) (ks : List LeaseKeeperRecord)
      {beaten : List LeaseKeeperRecord}
      → beat_keepers e now (now + d) id ks ≡ ok beaten
      → valid_keepers e seen ks ≡ true
      → valid_keepers e seen beaten ≡ true
  unfolding beat_keepers valid_keepers
  valid_keepers-beat_keepers seen id [] done h = ground arith
  valid_keepers-beat_keepers seen id (k ∷ ks) {beaten} done h =
      let (own, new, later) = cons-valid seen k ks h in
      elim (Result-cases (beat_keepers e now (now + d) id ks)) [
        | inr (x, bad) ↦ elim (Bool-cases (str_eq k.id id)) [
          | inr other ↦ ground (arith, bad, other)
          | inl chosen ↦ elim (Result-cases (beat e now (now + d) k)) [
            | inr (y, worse) ↦ ground (arith, chosen, worse)
            | inl (k', fine) ↦ ground (arith, bad, chosen, fine)
          ]
        ]
        | inl (rest, others) ↦
            let tail = valid_keepers-beat_keepers (k.id ∷ seen) id ks others later in
            elim (Bool-cases (str_eq k.id id)) [
              | inr other ↦
                  let is : beaten ≡ (k ∷ rest) = ground (arith, others, other) in
                  rw is (rw (valid_keepers-cons e seen k rest) (rw (own, new, tail) refl))
              | inl chosen ↦ elim (Result-cases (beat e now (now + d) k)) [
                | inr (y, bad) ↦ ground (arith, chosen, bad)
                | inl (k', fine) ↦
                    let is : beaten ≡ (k' ∷ rest) = ground (arith, others, chosen, fine) in
                    rw is (
                      rw (valid_keepers-cons e seen k' rest)
                        (rw (beat-valid k fine own) (rw (beat-id k fine) (rw (new, tail) refl))))
              ]
            ]
      ]

-- Two instants of whole milliseconds that differ do so by one or more.
span_long : (s t : ℕ) → truncate s < truncate t → millisecond ≤ time_sub (truncate t) (truncate s)
unfolding truncate time_sub
span_long s t h = omega (arith, h)

heartbeat-eq :
    (e : Platform) (now : ℕ) (id : String) (valid_until : ℕ) (a : AssignmentRecord)
    (w : WorkspaceRecord) {w' : WorkspaceRecord}
    → heartbeat e now id valid_until a w ≡ ok w'
    → (truncate now < truncate valid_until)
      × (p : ℕ) × (parse_timestamp e a.renewed_at ≡ ok p)
      × (beaten : List LeaseKeeperRecord) × (beat_keepers e
            (later_time (truncate now) p)
            (later_time (truncate now) p + time_sub (truncate valid_until) (truncate now))
            id
            a.lease_keepers
          ≡ ok beaten)
      × (active : List LeaseKeeperRecord) × (active_keepers e
            (later_time (truncate now) p)
            id
            beaten
          ≡ ok active)
      × (record_activity e (record a { lease_keepers = active }) w (later_time (truncate now) p)
          ≡ ok w')
unfolding heartbeat
heartbeat-eq e now id valid_until a w done = elim (Result-cases (parse_timestamp e a.renewed_at)) [
  | inr (x, bad) ↦ ground (arith, bad)
  | inl (p, fine) ↦
      let r = later_time (truncate now) p in
      elim (Result-cases (
        beat_keepers e r (r + time_sub (truncate valid_until) (truncate now)) id a.lease_keepers)) [
          | inr (x, bad) ↦ ground (arith, fine, bad)
          | inl (beaten, stored) ↦ elim (Result-cases (active_keepers e r id beaten)) [
            | inr (x, bad) ↦ ground (arith, fine, stored, bad)
            | inl (active, kept) ↦ (
              ground (arith, fine, stored, kept),
              p,
              fine,
              beaten,
              stored,
              active,
              kept,
              ground (arith, fine, stored, kept),
            )
          ]
        ]
]

pub heartbeat-Keeps :
    (e : Platform) (lawful : IsLawful e) (a : AssignmentRecord) (w : WorkspaceRecord)
    (ws : List (String × WorkspaceRecord)) (h : Parts e w) (held : w.assignment ≡ some a)
    (was : w.lifecycle ≡ assigned) (now : ℕ) (id : String) (valid_until : ℕ) {w' : WorkspaceRecord}
    → heartbeat e now id valid_until a w ≡ ok w'
    → millisecond ≤ lease_duration e a.lease_duration_minutes
    → ((p : ℕ)
        → parse_timestamp e a.renewed_at ≡ ok p
        → (later_time (truncate now) p + time_sub (truncate valid_until) (truncate now)
            < time_limit)
          × (later_time (truncate now) p + lease_duration e a.lease_duration_minutes < time_limit))
    → Keeps e w w' ws
heartbeat-Keeps e lawful a w ws h held was now id valid_until done long early =
    let (ahead, p, parsed, beaten, stored, active, kept, recorded) =
      heartbeat-eq e now id valid_until a w done in
    let old = assignment_parts e a (owned e w a was held h) in
    let r = later_time (truncate now) p in
    record_activity-Keeps e lawful a w ws h held was active now p parsed recorded
      (valid_keepers-active_keepers e [] r id beaten kept (
        valid_keepers-beat_keepers e lawful r (time_sub (truncate valid_until) (truncate now))
          (span_long now valid_until ahead) (early p parsed).0 [] id a.lease_keepers stored
          old.keepers))
      long (early p parsed).1
