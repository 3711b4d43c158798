-- ===== src/Services/Release/Cleaning.antt =====
-- What the wait for processes and their removal keep.
use ruk.Prelude.{
  ℕ, suc, ◌/◌, ◌+◌, ◌<◌, ◌≡◌, Bool, true, false, not, ◌&&◌, List, [], ◌∷◌, Option, none, some,
  String, if◌then◌else◌,
}
use ruk.Prelude.Results.{Result, ok, err}
use ruk.Platform.{Platform, time_limit}
use ruk.State.{State, TrackedProcessRecord, WorkspaceRecord}
use ruk.Lifecycle.Process.{remove_assignment_process}
use ruk.Services.Failure.{
  Failure, inspecting, terminating, force_terminating, verifying_force, observed_alive,
}
use ruk.Services.Effects.{World, Seams, return, attempt, wrap, transact, ◌>>=◌}
use ruk.Services.Keeps.{
  Keeps, Seamless, Keeps-attempt, Keeps-bind, Keeps-wrap, Keeps-if, Keeps-transact,
}
use ruk.Services.Release.{
  ReleaseServiceOptions, unless_gone, drain_loop, settle, wait_for_process_drain, insist,
  stop_process, clean_process, clean_processes, or_default, default_process_drain_timeout,
  default_process_poll_interval,
}

module _ {W : Type 0} (e : Platform) (P : State → Type 0) (id : String)
    (closed : (now : ℕ) (r : TrackedProcessRecord) (s t : State) (w : WorkspaceRecord)
      → now < time_limit
      → P s
      → remove_assignment_process e now id r.pid r.started_at s ≡ ok (t, w)
      → P t)
    (seams : Seams W) (kept : Seamless P seams) (service : ReleaseServiceOptions) where
  open seams use {process_exists, terminate, pause}

  unless_gone-Keeps :
      (seen : Result Failure Bool) (gone : Option (Result Failure (Unit {0})) × World W)
      (there : Bool → Failure → Option (Result Failure (Unit {0})) × World W)
      → P gone.1.document
      → ((alive : Bool) (cause : Failure) → P (there alive cause).1.document)
      → P (unless_gone seen gone there).1.document
  unless_gone-Keeps (ok false) gone there hg ht = hg
  unless_gone-Keeps (ok true) gone there hg ht = ht true _
  unless_gone-Keeps (err f) gone there hg ht = ht false f

  if-P :
      (b : Bool) (x y : Option (Result Failure (Unit {0})) × World W)
      → P x.1.document
      → P y.1.document
      → P (if b then x else y).1.document
  if-P true x y hx hy = hx
  if-P false x y hx hy = hy

  drain_loop-Keeps :
      (fuel interval deadline : ℕ) (r : TrackedProcessRecord) (w : World W)
      → P w.document
      → P (drain_loop seams fuel interval deadline r w).1.document
  unfolding drain_loop
  drain_loop-Keeps ℕ.zero interval deadline r w h = h
  drain_loop-Keeps (ℕ.suc fuel) interval deadline r w h =
      let seen = kept.exists-Keeps r w h in
      let paused = kept.pause-Keeps interval deadline (process_exists r w).1 seen in
      unless_gone-Keeps (process_exists r w).0 _ _ seen λ alive cause.
        if-P (pause interval deadline (process_exists r w).1).0 _ _ paused
          (drain_loop-Keeps fuel interval deadline r _ paused)

  settle-Keeps :
      (polled : Option (Result Failure (Unit {0})) × World W)
      → P polled.1.document
      → P (settle seams polled).1.document
  settle-Keeps (none, w) h = h
  settle-Keeps (some r, w) h = h

  wait-Keeps : (r : TrackedProcessRecord) → Keeps P (wait_for_process_drain seams service r)
  unfolding wait_for_process_drain
  wait-Keeps r w h =
      let timeout = or_default service.process_drain_timeout default_process_drain_timeout in
      let interval = or_default service.process_poll_interval default_process_poll_interval in
      let rounds = suc (suc (timeout / interval)) in
      let deadline = seams.clock w + timeout in
      settle-Keeps (drain_loop seams rounds interval deadline r w)
        (drain_loop-Keeps rounds interval deadline r w h)

  insist-Keeps :
      (force : Bool) (r : TrackedProcessRecord) (f : Failure)
      → Keeps P (insist seams service force r f)
  insist-Keeps force r f =
      Keeps-if P (force && observed_alive f) _ _
        (Keeps-bind P (wrap (force_terminating r.pid) (terminate r true))
          (λ _. wrap (verifying_force r.pid) (wait_for_process_drain seams service r))
          (Keeps-wrap P (force_terminating r.pid) (terminate r true) (kept.terminate-Keeps r true))
          λ _.
            Keeps-wrap P (verifying_force r.pid) (wait_for_process_drain seams service r)
              (wait-Keeps r))
        (Keeps-if P (not force && observed_alive f) _ _ (λ w h. h) (λ w h. h))

  stop_process-Keeps :
      (force : Bool) (r : TrackedProcessRecord) → Keeps P (stop_process seams service force r)
  unfolding stop_process
  stop_process-Keeps force r =
      Keeps-bind P (wrap (terminating r.pid) (terminate r false))
        (λ _.
          attempt (wait_for_process_drain seams service r) (insist seams service force r) return)
        (Keeps-wrap P (terminating r.pid) (terminate r false) (kept.terminate-Keeps r false))
        λ _.
          Keeps-attempt P (wait_for_process_drain seams service r) (insist seams service force r)
            return (wait-Keeps r) (insist-Keeps force r) (λ a w h. h)

  clean_process-Keeps :
      (force : Bool) (r : TrackedProcessRecord) → Keeps P (clean_process seams service e id force r)
  unfolding clean_process
  clean_process-Keeps force r =
      Keeps-bind P (wrap (inspecting r.pid) (process_exists r)) _
        (Keeps-wrap P (inspecting r.pid) (process_exists r) (kept.exists-Keeps r))
        λ alive.
          Keeps-bind P (if alive then stop_process seams service force r else return tt) _
            (Keeps-if P alive _ _ (stop_process-Keeps force r) (λ w h. h))
            λ _.
              Keeps-bind P
                (transact seams e (λ now. remove_assignment_process e now id r.pid r.started_at))
                (λ removed. return (if alive then 1 else 0))
                (Keeps-transact P seams kept e _
                  λ now s t w clock h done. closed now r s t w clock h done)
                (λ a w h. h)

  pub clean_processes-Keeps :
      (force : Bool) (rs : List TrackedProcessRecord)
      → Keeps P (clean_processes seams service e id force rs)
  unfolding clean_processes
  clean_processes-Keeps force [] = λ w h. h
  clean_processes-Keeps force (r ∷ rest) =
      Keeps-bind P (clean_process seams service e id force r)
        (λ first.
          clean_processes seams service e id force rest >>= λ cleaned. return (first + cleaned))
        (clean_process-Keeps force r)
        λ first.
          Keeps-bind P (clean_processes seams service e id force rest)
            (λ cleaned. return (first + cleaned)) (clean_processes-Keeps force rest) (λ a w h. h)
