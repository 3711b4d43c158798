-- ===== src/Lifecycle/Keeps/Activity/Keepers.antt =====
-- Valid keepers of an assignment: distinct identifiers, each with a heartbeat before its end.
use ruk.Prelude.{
  ℕ, ◌+◌, ◌≤◌, ◌<◌, ◌≡◌, refl, inl, inr, Bool, true, false, not, ◌&&◌, List, [], ◌∷◌, ◌++◌, String,
  arith, ltb, any_of,
}
use ruk.Prelude.Text.{str_eq, str_eq_iff}
use ruk.Prelude.Results.{ok, Result-cases}
use ruk.Platform.{Platform, IsLawful, time_limit, millisecond}
use ruk.State.{LeaseKeeperRecord}
use ruk.State.Uuid.{valid_uuid}
use ruk.State.Valid.{check, canonical_timestamp, valid_keepers}
use ruk.Lifecycle.Clock.{parse_timestamp}
use ruk.Lifecycle.Activity.{has_keeper, new_keeper, active_keepers, remaining_keepers}
use ruk.Lifecycle.Keeps.Leases.{truncate_step}
use ruk.Lifecycle.Keeps.Stamps.{canonical-format}

module _ (e : Platform) where
  -- The test of one keeper, but for its identifier among those seen.
  unfoldable pub valid_keeper : LeaseKeeperRecord → Bool
  valid_keeper keeper =
      valid_uuid keeper.id
      && check (canonical_timestamp e keeper.heartbeat_at) (λ heartbeat_at.
        check (canonical_timestamp e keeper.valid_until)
          (λ valid_until. ltb heartbeat_at valid_until))

  pub valid_keepers-cons :
      (seen : List String) (k : LeaseKeeperRecord) (ks : List LeaseKeeperRecord)
      → valid_keepers e seen (k ∷ ks)
        ≡ (valid_keeper k && not (any_of (str_eq k.id) seen) && valid_keepers e (k.id ∷ seen) ks)
  unfolding valid_keepers valid_keeper
  valid_keepers-cons seen k ks = ground arith

  valid_keepers-weaken :
      (seen seen' : List String) (ks : List LeaseKeeperRecord)
      → ((x : String) → any_of (str_eq x) seen ≡ false → any_of (str_eq x) seen' ≡ false)
      → valid_keepers e seen ks ≡ true
      → valid_keepers e seen' ks ≡ true
  unfolding valid_keepers
  valid_keepers-weaken seen seen' [] fewer h = refl
  valid_keepers-weaken seen seen' (k ∷ ks) fewer h = ground (
    arith,
    fewer k.id,
    valid_keepers-weaken (k.id ∷ seen) (k.id ∷ seen') ks (λ x none. ground (arith, fewer x)),
  )

  -- A list with an entry left out.
  valid_keepers-tail :
      (seen : List String) (k : LeaseKeeperRecord) (ks : List LeaseKeeperRecord)
      → valid_keepers e (k.id ∷ seen) ks ≡ true
      → valid_keepers e seen ks ≡ true
  valid_keepers-tail seen k ks h =
      valid_keepers-weaken (k.id ∷ seen) seen ks (λ x other. ground arith) h

  pub valid_keepers-append :
      (seen : List String) (ks : List LeaseKeeperRecord) (k : LeaseKeeperRecord)
      → valid_keepers e seen ks ≡ true
      → valid_keeper k ≡ true
      → any_of (str_eq k.id) seen ≡ false
      → has_keeper k.id ks ≡ false
      → valid_keepers e seen (ks ++ (k ∷ [])) ≡ true
  unfolding valid_keepers
  valid_keepers-append seen [] k h v new free =
      rw (valid_keepers-cons seen k []) (ground (arith, v, new))
  valid_keepers-append seen (j ∷ ks) k h v new free =
      ground
        (arith, str_eq_iff j.id k.id, str_eq_iff k.id j.id, valid_keepers-append (j.id ∷ seen) ks k)

  pub valid_keepers-active_keepers :
      (seen : List String) (now : ℕ) (retained : String) (ks : List LeaseKeeperRecord)
      {active : List LeaseKeeperRecord}
      → active_keepers e now retained ks ≡ ok active
      → valid_keepers e seen ks ≡ true
      → valid_keepers e seen active ≡ true
  unfolding active_keepers
  valid_keepers-active_keepers seen now retained [] done h = ground arith
  valid_keepers-active_keepers seen now retained (k ∷ ks) {active} done h =
      elim (Result-cases (parse_timestamp e k.valid_until)) [
        | inr (x, bad) ↦ ground (arith, bad)
        | inl (t, fine) ↦ elim (Result-cases (active_keepers e now retained ks)) [
          | inr (x, bad) ↦ ground (arith, fine, bad)
          | inl (rest, others) ↦
              let parts = valid_keepers-cons seen k ks in
              let again = valid_keepers-cons seen k rest in
              let tail = valid_keepers-tail seen k ks in
              ground (
                arith,
                fine,
                others,
                parts,
                again,
                valid_keepers-active_keepers (k.id ∷ seen) now retained ks others,
                valid_keepers-active_keepers seen now retained ks others,
                tail,
              )
        ]
      ]

  pub valid_keepers-remaining_keepers :
      (seen : List String) (now : ℕ) (id : String) (ks : List LeaseKeeperRecord)
      {remaining : List LeaseKeeperRecord}
      → remaining_keepers e now id ks ≡ ok remaining
      → valid_keepers e seen ks ≡ true
      → valid_keepers e seen remaining ≡ true
  unfolding remaining_keepers
  valid_keepers-remaining_keepers seen now id [] done h = ground arith
  valid_keepers-remaining_keepers seen now id (k ∷ ks) {remaining} done h =
      let parts = valid_keepers-cons seen k ks in
      let tail = valid_keepers-tail seen k ks in
      elim (Result-cases (remaining_keepers e now id ks)) [
        | inr (x, bad) ↦ ground (arith, bad)
        | inl (rest, others) ↦ elim (Result-cases (parse_timestamp e k.valid_until)) [
          | inr (x, bad) ↦ ground (
            arith,
            bad,
            others,
            parts,
            tail,
            valid_keepers-remaining_keepers seen now id ks others,
          )
          | inl (t, fine) ↦ ground (
            arith,
            fine,
            others,
            parts,
            valid_keepers-cons seen k rest,
            valid_keepers-remaining_keepers (k.id ∷ seen) now id ks others,
            valid_keepers-remaining_keepers seen now id ks others,
            tail,
          )
        ]
      ]

  -- Removing keepers brings no identifier in.
  pub has_keeper-active_keepers :
      (now : ℕ) (retained id : String) (ks : List LeaseKeeperRecord)
      {active : List LeaseKeeperRecord}
      → active_keepers e now retained ks ≡ ok active
      → has_keeper id ks ≡ false
      → has_keeper id active ≡ false
  unfolding active_keepers
  has_keeper-active_keepers now retained id [] done h = ground arith
  has_keeper-active_keepers now retained id (k ∷ ks) {active} done h =
      elim (Result-cases (parse_timestamp e k.valid_until)) [
        | inr (x, bad) ↦ ground (arith, bad)
        | inl (t, fine) ↦ elim (Result-cases (active_keepers e now retained ks)) [
          | inr (x, bad) ↦ ground (arith, fine, bad)
          | inl (rest, others) ↦
              ground (arith, fine, others, has_keeper-active_keepers now retained id ks others)
        ]
      ]

-- A keeper that starts at r and lasts a millisecond or longer is valid.
pub new_keeper-valid :
    (e : Platform) (lawful : IsLawful e) (id : String) (r d : ℕ)
    → valid_uuid id ≡ true
    → millisecond ≤ d
    → r + d < time_limit
    → valid_keeper e (new_keeper e id r (r + d)) ≡ true
unfolding valid_keeper
new_keeper-valid e lawful id r d uuid long bound = ground (
  arith,
  uuid,
  canonical-format e lawful r (omega (arith, bound)),
  canonical-format e lawful (r + d) bound,
  truncate_step r d long,
)
