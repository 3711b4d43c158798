-- ===== src/Services/Release/Drain.antt =====
-- The wait for a process to drain.
use ruk.Prelude.{
  sym, subst, ℕ, suc, ◌+◌, ◌*◌, ◌/◌, ◌≤◌, ◌<◌, ◌≡◌, refl, inl, inr, ◌⊎◌, Bool, true, false, Option,
  none, some, arith, Bool-cases,
}
use native.Mathlib.Omega.{div_fact, mod_fact}
use ruk.Prelude.Int.{ℤ}
use ruk.Prelude.Results.{Result, ok, err}
use ruk.State.{TrackedProcessRecord}
use ruk.Services.Failure.{Failure, drain, still_present}
use ruk.Services.Effects.{World, Seams}
use ruk.Services.Release.{
  ReleaseServiceOptions, drain_loop, wait_for_process_drain, unless_gone, settle, or_default,
  default_process_drain_timeout, default_process_poll_interval,
}

-- What context.WithTimeout and time.NewTimer promise: a wait that the timer ended took the
-- interval, and once the deadline has passed it is what ends the wait. No call turns the clock back.
pub record Timely {W : Type 0} (seams : Seams W) : Type 0 where
  pub exists-clock :
      (r : TrackedProcessRecord) (w : World W)
      → seams.clock w ≤ seams.clock (seams.process_exists r w).1
  pub pause-clock :
      (interval deadline : ℕ) (w : World W)
      → (seams.pause interval deadline w).0 ≡ false
      → seams.clock w + interval ≤ seams.clock (seams.pause interval deadline w).1
  pub pause-done :
      (interval deadline : ℕ) (w : World W)
      → deadline ≤ seams.clock w
      → (seams.pause interval deadline w).0 ≡ true

-- A wait ends with the process gone, or with a ProcessDrainError that names it.
abbrev pub Ended : TrackedProcessRecord → Result Failure (Unit {0}) → Type 0
Ended r outcome =
    (outcome ≡ ok tt)
    ⊎ ((alive : Bool) × (cause : Failure) × (outcome ≡ err (drain r.pid alive cause)))

-- A poll finds the process gone, or leaves a cause.
poll-cases :
    {A : Type 0} (seen : Result Failure Bool)
    → (seen ≡ ok false)
      ⊎ ((alive : Bool) × (cause : Failure) × ((gone : A) (there : Bool → Failure → A)
            → unless_gone seen gone there ≡ there alive cause))
poll-cases (ok false) = inl refl
poll-cases (ok true) = inr (true, still_present, λ gone there. refl)
poll-cases (err f) = inr (false, f, λ gone there. refl)

abbrev Polled : Type 0 → Type 0
Polled W = Option (Result Failure (Unit {0})) × World W

settle-some :
    {W : Type 0} (seams : Seams W) (polled : Polled W) (outcome : Result Failure (Unit {0}))
    → polled.0 ≡ some outcome
    → (settle seams polled).0 ≡ outcome
settle-some seams (some given, w) outcome h = ground (arith, h)
settle-some seams (none, w) outcome h = ground (arith, h)

-- One interval more than the timeout holds is longer than it.
timeout-le : (timeout interval : ℕ) → 0 < interval → timeout ≤ (suc (timeout / interval)) * interval
timeout-le timeout (ℕ.suc n) positive = omega (arith, div_fact timeout n, mod_fact timeout n)
timeout-le timeout ℕ.zero positive = ground (arith, positive)

or_default_pos : (given : ℤ) (default : ℕ) → 0 < default → 0 < or_default given default
or_default_pos given default positive = ground (arith, positive)

module _ {W : Type 0} (seams : Seams W) (timely : Timely seams) where
  open seams use {clock, process_exists, pause}

  drain_loop-ends :
      (fuel interval deadline : ℕ) (r : TrackedProcessRecord) (w : World W)
      → deadline ≤ clock w + fuel * interval
      → (outcome : Result Failure (Unit {0})) × ((drain_loop seams
            (suc fuel)
            interval
            deadline
            r
            w).0
          ≡ some outcome)
        × Ended r outcome
  unfolding drain_loop
  drain_loop-ends ℕ.zero interval deadline r w enough =
      let (seen, w1) = process_exists r w in
      let later = timely.exists-clock r w in
      elim (poll-cases {A = Polled W} seen) [
        | inl gone ↦ (ok tt, rw gone refl, inl refl)
        | inr (alive, cause, there) ↦
            let done = timely.pause-done interval deadline w1 (omega (arith, enough, later)) in
            (err (drain r.pid alive cause), rw (there _ _) (rw done refl), inr (alive, cause, refl))
      ]
  drain_loop-ends (ℕ.suc fuel) interval deadline r w enough =
      let (seen, w1) = process_exists r w in
      let later = timely.exists-clock r w in
      elim (poll-cases {A = Polled W} seen) [
        | inl gone ↦ (ok tt, rw gone refl, inl refl)
        | inr (alive, cause, there) ↦ elim (Bool-cases (pause interval deadline w1).0) [
          | inl done ↦ (
            err (drain r.pid alive cause),
            rw (there _ _) (rw done refl),
            inr (alive, cause, refl),
          )
          | inr early ↦
              let waited = timely.pause-clock interval deadline w1 early in
              let (outcome, ends, kind) =
                drain_loop-ends fuel interval deadline r (pause interval deadline w1).1
                  (ground (arith, enough, later, waited)) in
              (outcome, rw (there _ _) (rw early ends), kind)
        ]
      ]

  -- Whenever the outside calls are Timely (looking for a process does not turn the clock back, a wait
  -- that the timer ended took the interval, and a wait begun after the deadline is ended by it),
  -- then whatever the processes, the timeout and the interval are, a wait ends within the rounds
  -- given: its result says that the process is gone, or is a ProcessDrainError that names it.
  pub wait_for_process_drain-ends :
      (options : ReleaseServiceOptions) (r : TrackedProcessRecord) (w : World W)
      → Ended r (wait_for_process_drain seams options r w).0
  unfolding wait_for_process_drain
  wait_for_process_drain-ends options r w =
      let timeout = or_default options.process_drain_timeout default_process_drain_timeout in
      let interval = or_default options.process_poll_interval default_process_poll_interval in
      let positive : 0 < interval =
        or_default_pos options.process_poll_interval default_process_poll_interval (omega arith) in
      let (outcome, ends, kind) =
        drain_loop-ends (suc (timeout / interval)) interval (clock w + timeout) r w
          (omega (arith, timeout-le timeout interval positive)) in
      subst (Ended r)
        (sym (
          settle-some seams
            (drain_loop seams (suc (suc (timeout / interval))) interval (clock w + timeout) r w)
            outcome ends))
        kind
