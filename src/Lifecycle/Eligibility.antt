-- ===== src/Lifecycle/Eligibility.antt =====
-- Which workspaces the plan of a garbage collection names.
use ruk.Prelude.{
  ℕ, ◌≤◌, ◌≡◌, refl, inl, inr, Bool, true, false, not, ◌&&◌, List, [], ◌∷◌, ◌∈◌, none, some, String,
  arith, Bool-cases, Option-cases, ltb, All,
}
use ruk.Prelude.Text.{str_lt_asym, str_lt_trans}
use ruk.Prelude.Results.{ok, Result-cases}
use ruk.Prelude.Sorting.{sort_by, IsSorted, sort_by-IsSorted, ∈-sort_by}
use ruk.Platform.{Platform, truncate}
use ruk.State.{
  WorkspaceLifecycle, available, preparing, assigned, returning, failed, LeaseKeeperRecord,
  AssignmentRecord, WorkspaceRecord, State,
}
use ruk.State.Valid.{is_nil, is_available, is_owned, is_returning}
use ruk.Lifecycle.Clock.{parse_timestamp}
use ruk.Lifecycle.Gc.{
  GcCandidate, GcCandidateReason, abandoned_reason, abandoned_candidate, available_reason,
  expired_reason, settled_candidate, clone_workspace, make_gc_candidate, has_active_keeper,
  gc_candidate, gc_candidates, path_less, identify_gc_candidates,
}

module _ (e : Platform) where
  -- Every keeper of the list has ended by the instant.
  abbrev pub Ended : ℕ → List LeaseKeeperRecord → Type 0
  Ended now keepers =
      All (λ k. (u : ℕ) × (parse_timestamp e k.valid_until ≡ ok u) × (u ≤ now)) keepers

  has_active_keeper-Ended :
      (now : ℕ) (keepers : List LeaseKeeperRecord)
      → has_active_keeper e now keepers ≡ ok false
      → Ended now keepers
  unfolding has_active_keeper
  has_active_keeper-Ended now [] h = tt
  has_active_keeper-Ended now (k ∷ ks) h = elim (Result-cases (parse_timestamp e k.valid_until)) [
    | inr (x, bad) ↦ ground (arith, bad)
    | inl (u, fine) ↦ elim (Bool-cases (ltb now u)) [
      | inl active ↦ ground (arith, fine, active)
      | inr over ↦ (
        (u, fine, ground (arith, over)),
        has_active_keeper-Ended now ks (ground (arith, fine, over)),
      )
    ]
  ]

  -- An assignment whose lease is over, and which no keeper holds.
  abbrev pub Expired : ℕ → WorkspaceRecord → Type 0
  Expired now w =
      (a : AssignmentRecord) × (w.assignment ≡ some a)
      × (expiry : ℕ) × (parse_timestamp e a.expires_at ≡ ok expiry)
      × (expiry ≤ now)
      × Ended now a.lease_keepers

  expired_reason-Expired :
      (now : ℕ) (w : WorkspaceRecord) {r : GcCandidateReason}
      → expired_reason e now w.assignment ≡ ok (some r)
      → Expired now w
  unfolding expired_reason
  expired_reason-Expired now w done = elim (Option-cases w.assignment) [
    | inl free ↦ ground (arith, free)
    | inr (a, held) ↦ elim (Result-cases (parse_timestamp e a.expires_at)) [
      | inr (x, bad) ↦ ground (arith, held, bad)
      | inl (expiry, fine) ↦ elim (Result-cases (has_active_keeper e now a.lease_keepers)) [
        | inr (x, bad) ↦ ground (arith, held, fine, bad)
        | inl (active, kept) ↦ (
          a,
          held,
          expiry,
          fine,
          ground (arith, held, fine, kept),
          has_active_keeper-Ended now a.lease_keepers (ground (arith, held, fine, kept)),
        )
      ]
    ]
  ]

  -- The blocks after the switch give a safe candidate, or an expired assignment.
  settled_candidate-Expired :
      (cutoff now u : ℕ) (w : WorkspaceRecord) (c : GcCandidate)
      → settled_candidate e cutoff now u w ≡ ok (some c)
      → c.requires_force ≡ true
      → Expired now w
  unfolding settled_candidate make_gc_candidate
  settled_candidate-Expired cutoff now u w c done force =
      elim (Result-cases (available_reason e cutoff w)) [
        | inr (x, bad) ↦ ground (arith, bad)
        | inl (idle, fine) ↦ elim (Result-cases (expired_reason e now w.assignment)) [
          | inr (x, bad) ↦ ground (arith, fine, bad)
          | inl (none, over) ↦ ground (arith, fine, over)
          | inl (some r, over) ↦ expired_reason-Expired now w over
        ]
      ]

  available_reason-owned :
      (cutoff : ℕ) (w : WorkspaceRecord)
      → is_owned w.lifecycle ≡ true
      → available_reason e cutoff w ≡ ok none
  unfolding available_reason
  available_reason-owned cutoff w owned =
      let busy : is_nil w.operation_id && is_available w.lifecycle ≡ false = ground arith in
      rw busy refl

  -- No block after the switch takes an owned workspace without force.
  settled_candidate-owned :
      (cutoff now u : ℕ) (w : WorkspaceRecord) (c : GcCandidate)
      → settled_candidate e cutoff now u w ≡ ok (some c)
      → is_owned w.lifecycle ≡ true
      → c.requires_force ≡ true
  unfolding settled_candidate make_gc_candidate
  settled_candidate-owned cutoff now u w c done owned =
      elim (Result-cases (expired_reason e now w.assignment)) [
        | inr (x, bad) ↦ ground (arith, bad)
        | inl (expired, over) ↦ ground (arith, over, available_reason-owned cutoff w owned)
      ]

  abandoned_reason-owned :
      (lifecycle : WorkspaceLifecycle) (stale : Bool) {r : GcCandidateReason}
      → abandoned_reason lifecycle stale ≡ some r
      → is_owned lifecycle ≡ true
      → (is_returning lifecycle ≡ false) × (stale ≡ true)
  abandoned_reason-owned available stale done owned = ground arith
  abandoned_reason-owned preparing stale done owned = ground arith
  abandoned_reason-owned assigned stale done owned = ground arith
  abandoned_reason-owned returning stale done owned = ground arith
  abandoned_reason-owned failed stale done owned = ground arith

  -- Whenever the plan names a workspace as safe, without the need for force, and the workspace is
  -- assigned or returning, then the recovery of abandoned work was asked for, the workspace is
  -- not returning, its acquisition has not finished, and its record is no newer than the cutoff.
  pub gc_candidate-safe :
      (cutoff now : ℕ) (include_abandoned : Bool) (w : WorkspaceRecord) (c : GcCandidate)
      → gc_candidate e cutoff now include_abandoned w ≡ ok (some c)
      → c.requires_force ≡ false
      → is_owned w.lifecycle ≡ true
      → (include_abandoned ≡ true)
        × (is_returning w.lifecycle ≡ false)
        × (is_nil w.operation_id ≡ false)
        × (u : ℕ) × (parse_timestamp e w.updated_at ≡ ok u)
        × (u ≤ cutoff)
  unfolding gc_candidate make_gc_candidate
  gc_candidate-safe cutoff now include_abandoned w c done safe owned =
      elim (Result-cases (parse_timestamp e w.updated_at)) [
        | inr (x, bad) ↦ ground (arith, bad)
        | inl (u, fine) ↦ elim (Bool-cases (not (is_nil w.operation_id) && include_abandoned)) [
          | inr skipped ↦
              ground
                (arith, fine, skipped, settled_candidate-owned cutoff now u (clone_workspace w) c)
          | inl both ↦ elim (Option-cases (abandoned_reason w.lifecycle (not (ltb cutoff u)))) [
            | inl fresh ↦ ground (
              arith,
              fine,
              both,
              fresh,
              settled_candidate-owned cutoff now u (clone_workspace w) c,
            )
            | inr (r, stale) ↦
                let known = abandoned_reason-owned w.lifecycle (not (ltb cutoff u)) stale owned in
                let old : u ≤ cutoff = ground (arith, known) in
                (ground (arith, both), known.0, ground (arith, both), u, fine, old)
          ]
        ]
      ]

  -- Whenever the plan names a workspace that only force may take, the workspace has an assignment
  -- whose lease ended no later than now, and so did every heartbeat keeper of it.
  pub gc_candidate-Expired :
      (cutoff now : ℕ) (include_abandoned : Bool) (w : WorkspaceRecord) (c : GcCandidate)
      → gc_candidate e cutoff now include_abandoned w ≡ ok (some c)
      → c.requires_force ≡ true
      → Expired now w
  unfolding gc_candidate make_gc_candidate
  gc_candidate-Expired cutoff now include_abandoned w c done force =
      elim (Result-cases (parse_timestamp e w.updated_at)) [
        | inr (x, bad) ↦ ground (arith, bad)
        | inl (u, fine) ↦
            elim (Option-cases
              (abandoned_candidate e include_abandoned cutoff u (clone_workspace w))) [
                | inl fresh ↦
                    settled_candidate-Expired cutoff now u (clone_workspace w) c
                      (ground (arith, fine, fresh)) force
                | inr (d, stale) ↦ ground (arith, fine, stale)
              ]
      ]

  path_less_asym : (x y : GcCandidate) → path_less e x y ≡ true → path_less e y x ≡ false
  path_less_asym x y h = str_lt_asym x.workspace.path y.workspace.path h

  -- Whenever the plan succeeds, its candidates stand in the order of their paths.
  pub identify_gc_candidates-IsSorted :
      (s : State) (older_than now : ℕ) (include_abandoned : Bool) (plan : List GcCandidate)
      → identify_gc_candidates e s older_than now include_abandoned ≡ ok plan
      → IsSorted (path_less e) plan
  unfolding identify_gc_candidates
  identify_gc_candidates-IsSorted s older_than now include_abandoned plan done =
      elim (Result-cases
        (gc_candidates e (truncate older_than) (truncate now) include_abandoned s.workspaces)) [
          | inr (x, bad) ↦ ground (arith, bad)
          | inl (found, fine) ↦
              let is : plan ≡ sort_by (path_less e) found = ground (arith, fine) in
              rw is (
                sort_by-IsSorted (path_less e) path_less_asym
                  (λ x y z. str_lt_trans x.workspace.path y.workspace.path z.workspace.path) found)
        ]

  -- Whenever the plan succeeds, it names every workspace that is a candidate at the truncated instants.
  pub identify_gc_candidates-complete :
      (s : State) (older_than now : ℕ) (include_abandoned : Bool) (plan : List GcCandidate)
      (key : String) (w : WorkspaceRecord) (c : GcCandidate)
      → identify_gc_candidates e s older_than now include_abandoned ≡ ok plan
      → (key, w) ∈ s.workspaces
      → gc_candidate e (truncate older_than) (truncate now) include_abandoned w ≡ ok (some c)
      → c ∈ plan
  unfolding identify_gc_candidates gc_candidates
  identify_gc_candidates-complete s older_than now include_abandoned plan key w c done member
        chosen =
      elim (Result-cases
        (gc_candidates e (truncate older_than) (truncate now) include_abandoned s.workspaces)) [
          | inr (x, bad) ↦ ground (arith, bad)
          | inl (found, fine) ↦
              let is : plan ≡ sort_by (path_less e) found = ground (arith, fine) in
              rw is (∈-sort_by (path_less e) c found (named s.workspaces found member fine))
        ]
    where
      named :
          (ws : List (String × WorkspaceRecord)) (found : List GcCandidate)
          → (key, w) ∈ ws
          → gc_candidates e (truncate older_than) (truncate now) include_abandoned ws ≡ ok found
          → c ∈ found
      named [] found member fine = elim member [ ]
      named ((key', v) ∷ ws) found member fine =
          elim (Result-cases
            (gc_candidate e (truncate older_than) (truncate now) include_abandoned v)) [
              | inr (x, bad) ↦ ground (arith, bad)
              | inl (candidate, considered) ↦
                  elim (Result-cases
                    (gc_candidates e (truncate older_than) (truncate now) include_abandoned ws)) [
                      | inr (x, bad) ↦ ground (arith, considered, bad)
                      | inl (others, rest) ↦ elim member [
                        | inl same ↦
                            let is : v ≡ w = ground (arith, same) in
                            let head : found ≡ (c ∷ others) =
                              ground (arith, is, chosen, considered, rest) in
                            rw head (inl refl)
                        | inr later ↦ elim (Option-cases candidate) [
                          | inl skipped ↦
                              let tail : found ≡ others =
                                ground (arith, skipped, considered, rest) in
                              rw tail (named ws others later rest)
                          | inr (d, taken) ↦
                              let tail : found ≡ (d ∷ others) =
                                ground (arith, taken, considered, rest) in
                              rw tail (inr (named ws others later rest))
                        ]
                      ]
                    ]
            ]
