-- ===== src/Ports/Found.antt =====
-- The port that Find returns, and the sockets that it leaves open.
use ruk.Prelude.{
  ℕ, ◌+◌, ◌-◌, ◌≤◌, ◌≡◌, ◌∙◌, refl, inl, inr, true, false, List, Option, none, some, if◌then◌else◌,
  arith, Bool-cases,
}
use ruk.Prelude.Int.{ℤ, pos, is_positive, pos_part}
use ruk.Prelude.Results.{Result, ok, err}
use ruk.Ports.{PortError, max_port, default_attempts, valid_port}
use ruk.Ports.Probe.{
  BindRequest, BoundListener, AvailabilityProbe, dual_stack, ipv4, excludes, found_ipv4, found_ipv6,
  listen_once, judge, examine, attempt_once, or_again, find_within, find,
}

valid_port-bounds :
    (port : ℤ) → valid_port port ≡ true → (n : ℕ) × (port ≡ pos n) × (1 ≤ n) × (n ≤ max_port)
valid_port-bounds (pos n) h = (n, refl, ground (arith, h), ground (arith, h))
valid_port-bounds (ℤ.negsuc n) h = ground (arith, h)

module _ {E W : Type 0} (probe : AvailabilityProbe E W) (excluded : List ℤ) where
  -- What an attempt that ends the search may answer.
  abbrev Fits : Option (Result (PortError E) ℤ) → Type 0
  Fits none = Unit
  Fits (some (err e)) = Unit
  Fits (some (ok port)) = (valid_port port ≡ true) × (excludes excluded port ≡ false)

  Fits-judge : (port : ℤ) (r : Result E (Unit {0})) → Fits (judge probe excluded port r)
  Fits-judge port (err e) = tt
  Fits-judge port (ok done) = elim (Bool-cases (valid_port port)) [
    | inr bad ↦ rw bad tt
    | inl good ↦ elim (Bool-cases (excludes excluded port)) [
      | inl taken ↦ rw good (rw taken tt)
      | inr free ↦ rw good (rw free (good, free))
    ]
  ]

  Fits-examine :
      (r : Result (PortError E) (Option (BoundListener E W)) × W)
      → Fits (examine probe excluded r).0
  Fits-examine (err e, w) = tt
  Fits-examine (ok none, w) = tt
  Fits-examine (ok (some bound), w) = Fits-judge bound.port (bound.close w).0

  Fits-or_again :
      (r : Option (Result (PortError E) ℤ) × W) (again : W → Result (PortError E) ℤ × W)
      → Fits r.0
      → ((w : W) → Fits (some (again w).0))
      → Fits (some (or_again probe r again).0)
  Fits-or_again (none, w) again h k = k w
  Fits-or_again (some r, w) again h k = h

  Fits-find_within : (all left : ℕ) (w : W) → Fits (some (find_within probe all left excluded w).0)
  unfolding find_within attempt_once
  Fits-find_within all ℕ.zero w = tt
  Fits-find_within all (ℕ.suc left) w =
      Fits-or_again (attempt_once probe excluded w) (find_within probe all left excluded)
        (Fits-examine (listen_once probe w)) (Fits-find_within all left)

  Fits-eq :
      (r : Result (PortError E) ℤ) {port : ℤ}
      → Fits (some r)
      → r ≡ ok port
      → (valid_port port ≡ true) × (excludes excluded port ≡ false)
  Fits-eq (ok p) h same = ground (arith, h, same)
  Fits-eq (err e) h same = ground (arith, same)

  -- A port that Find returns lies between 1 and 65535, and is not one of those excluded.
  pub find-bounds :
      (w : W) {port : ℤ}
      → (find probe excluded w).0 ≡ ok port
      → (n : ℕ) × (port ≡ pos n) × (1 ≤ n) × (n ≤ max_port) × (excludes excluded port ≡ false)
  unfolding find
  find-bounds w {port} done =
      let attempts =
        if is_positive probe.max_attempts then pos_part probe.max_attempts else default_attempts in
      let (good, free) =
        Fits-eq (find_within probe attempts attempts excluded w).0
          (Fits-find_within attempts attempts w) done in
      let (n, is, low, high) = valid_port-bounds port good in (n, is, low, high, free)

-- How many sockets a call of Listen opens.
abbrev pub opened : {X E W : Type 0} → Result X (Option (BoundListener E W)) → ℕ
opened (ok (some bound)) = 1
opened (ok none) = 0
opened (err e) = 0

-- `count` counts the open sockets of a world: a listener is one, until it is closed, also if
-- closing it reports an error.
pub record Counts {E W : Type 0} (probe : AvailabilityProbe E W) (count : W → ℕ) : Type 0 where
  pub listen-count :
      (request : BindRequest) (w : W)
      → count (probe.listen request w).1 ≡ count w + opened (probe.listen request w).0
  pub close-count :
      (request : BindRequest) (v w : W) (bound : BoundListener E W)
      → (probe.listen request v).0 ≡ ok (some bound)
      → count (bound.close w).1 ≡ count w - 1

module _ {E W : Type 0} (probe : AvailabilityProbe E W) (excluded : List ℤ) (count : W → ℕ)
    (counts : Counts probe count) where
  -- A listener closes one socket, if there is a listener.
  abbrev Closes : {X : Type 0} → Result X (Option (BoundListener E W)) → Type 0
  Closes (ok (some bound)) = (w : W) → count (bound.close w).1 ≡ count w - 1
  Closes (ok none) = Unit
  Closes (err e) = Unit

  listened :
      (request : BindRequest) (v : W) (r : Result E (Option (BoundListener E W)))
      → (probe.listen request v).0 ≡ r
      → Closes r
  listened request v (ok (some bound)) same = λ w. counts.close-count request v w bound same
  listened request v (ok none) same = tt
  listened request v (err e) same = tt

  -- An answer of the listener that leaves its sockets counted.
  abbrev Counted : {X : Type 0} → W → Result X (Option (BoundListener E W)) × W → Type 0
  Counted v r = (count r.1 ≡ count v + opened r.0) × Closes r.0

  Counted-listen : (request : BindRequest) (v : W) → Counted v (probe.listen request v)
  Counted-listen request v =
      (counts.listen-count request v, listened request v (probe.listen request v).0 refl)

  Counted-found_ipv4 :
      (v : W) (r : Result E (Option (BoundListener E W)) × W)
      → Counted v r
      → Counted v (found_ipv4 probe r)
  Counted-found_ipv4 v (ok (some bound), w) h = h
  Counted-found_ipv4 v (ok none, w) h = h
  Counted-found_ipv4 v (err e, w) h = h

  Counted-found_ipv6 :
      (v : W) (r : Result E (Option (BoundListener E W)) × W)
      → Counted v r
      → Counted v (found_ipv6 probe r)
  Counted-found_ipv6 v (ok (some bound), w) h = h
  Counted-found_ipv6 v (ok none, w) h = h
  Counted-found_ipv6 v (err e, w) h = elim (Bool-cases (probe.ipv6_unavailable e)) [
    | inl fallback ↦
        let (here, closes) = Counted-found_ipv4 w (probe.listen ipv4 w) (Counted-listen ipv4 w) in
        rw fallback (omega (arith, here, h.0), closes)
    | inr other ↦ rw other h
  ]

  count-examine :
      (v : W) (r : Result (PortError E) (Option (BoundListener E W)) × W)
      → Counted v r
      → count (examine probe excluded r).1 ≡ count v
  count-examine v (err e, w) h = omega (arith, h.0)
  count-examine v (ok none, w) h = omega (arith, h.0)
  count-examine v (ok (some bound), w) h = omega (arith, h.0, h.1 w)

  count-or_again :
      (v : W) (r : Option (Result (PortError E) ℤ) × W) (again : W → Result (PortError E) ℤ × W)
      → count r.1 ≡ count v
      → ((w : W) → count (again w).1 ≡ count w)
      → count (or_again probe r again).1 ≡ count v
  count-or_again v (none, w) again h k = k w ∙ h
  count-or_again v (some r, w) again h k = h

  count-find_within :
      (all left : ℕ) (w : W) → count (find_within probe all left excluded w).1 ≡ count w
  unfolding find_within attempt_once listen_once
  count-find_within all ℕ.zero w = refl
  count-find_within all (ℕ.suc left) w =
      count-or_again w (attempt_once probe excluded w) (find_within probe all left excluded)
        (count-examine w (listen_once probe w)
          (Counted-found_ipv6 w (probe.listen dual_stack w) (Counted-listen dual_stack w)))
        (count-find_within all left)

  -- Whenever the listener opens one socket for each bound listener and closing it, even with an
  -- error, closes that socket, Find leaves as many sockets open as it found, whatever its result is.
  pub count-find : (w : W) → count (find probe excluded w).1 ≡ count w
  unfolding find
  count-find w = count-find_within _ _ w
