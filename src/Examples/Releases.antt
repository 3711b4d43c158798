-- ===== src/Examples/Releases.antt =====
-- Releases of an assignment over small worlds, in which what is outside of the document is a clock.
use ruk.Prelude.{ℕ, ◌+◌, ◌≡◌, refl, ◌⊎◌, true, false, [], Option, none, some, String, leb, arith}
use ruk.Prelude.Int.{pos}
use ruk.Prelude.Results.{ok, err}
use ruk.Services.Failure.{external}
use ruk.Services.Effects.{World, Effect, Seams, with_lock, mutate_document, transact, return, fail}
use ruk.Services.Keeps.{Seamless}
use ruk.Services.Triples.{Reliable}
use ruk.Services.Release.{
  ReleaseServiceOptions, ReleaseOptions, assignment_workspaces, release_assignment_workspace,
  wait_for_process_drain, release_lock_path, clean_processes, relock_after_git_failure,
  cancel_release, release_returning, release_locked, release_assignment,
}
use ruk.Services.Release.Drain.{Timely, Ended, wait_for_process_drain-ends}
use ruk.Services.Release.Keeps.{release_assignment-Keeps}
use ruk.Services.Release.Restores.{HasWorkspaceBack, release_assignment-Restored}
use ruk.Services.Release.Returned.{IsReturned, release_assignment-IsReturned}
use ruk.State.{WorkspaceRecord, State, empty_state, empty_metrics}
use ruk.State.Uuid.{valid_uuid}
use ruk.State.Valid.{
  valid_safe_positive, tree_key, canonical_timestamp, valid_timestamp, is_finite_positive,
  valid_keepers, valid_times, valid_assignment, valid_processes,
}
use ruk.State.Document.{
  update, valid_failure, valid_operation, valid_idle, valid_ownership, valid_availability,
  valid_identity, valid_workspace, valid_entry, valid_metrics, valid_global_fences, valid_state,
}
use ruk.Prelude.Assoc.{put}
use ruk.Lifecycle.Records.{find_assignment, at_assignment}
use ruk.Lifecycle.Return.{
  begin_return, start_return, begin_workspace_return, finish_return, finish_workspace_return,
  cancel_return, cancel_workspace_return,
}
use ruk.Prelude.{ap, subst}
use ruk.Lifecycle.Keeps.Sound.{IsSound}
use ruk.Lifecycle.Keeps.Reachable.{Step-IsSound}
use ruk.Examples.Host.{host, host-IsLawful, parse_stars, count, stars}
use ruk.Examples.Runs.{assignment_id, idle, busy, holding, worker}
use ruk.Examples.Sound.{holding-busy-IsSound}

-- Every call succeeds, and every process is gone.
abbrev calm : Seams ℕ
calm = record {
  text = λ f. "release failed";
  trim = λ s. s;
  join_path = λ a b. a;
  state_lock = "/state.lock";
  clock = λ w. 0;
  lock = λ path. return tt;
  unlock = λ path. return tt;
  read_store = return tt;
  replace_store = λ w. (ok tt, w.outside);
  process_exists = λ r. return false;
  terminate = λ r force. return true;
  pause = λ interval deadline w. (true, w);
  git_return = λ path force names. return tt;
  git_lock = some (λ path. return tt);
  release_ports = λ id. return tt;
}

abbrev broken_git : Seams ℕ
broken_git = record calm { git_return = λ path force names. fail (external "git clean") }

-- Every process stays, and a wait takes its interval.
abbrev stubborn : Seams ℕ
stubborn = record calm {
  clock = λ w. w.outside;
  process_exists = λ r. return true;
  pause =
      λ interval deadline w. (leb deadline w.outside, record w { outside = w.outside + interval });
}

stubborn-Timely : Timely stubborn
stubborn-Timely = record {
  exists-clock = λ r w. omega arith;
  pause-clock = λ interval deadline w h. omega arith;
  pause-done = λ interval deadline w h. ground (arith, h);
}

relocking_of : Option (String → Effect ℕ (Unit {0})) → String → Effect ℕ (Unit {0})
relocking_of none = λ path. return tt
relocking_of (some relock) = relock

broken_git-Seamless : (P : State → Type 0) → Seamless P broken_git
unfolding relocking_of
broken_git-Seamless P = record {
  lock-Keeps = λ path w h. h;
  unlock-Keeps = λ path w h. h;
  read-Keeps = λ w h. h;
  exists-Keeps = λ r w h. h;
  terminate-Keeps = λ r force w h. h;
  pause-Keeps = λ interval deadline w h. h;
  return-Keeps = λ path force names w h. h;
  relock-Keeps =
      λ relock path same w h. subst (λ r. P (r path w).1.document) (ap relocking_of same) h;
  ports-Keeps = λ id w h. h;
  clock-limit = λ w. omega arith;
}

abbrev service : ReleaseServiceOptions
service = record {
  locks_root = "/locks";
  lock_path = none;
  process_drain_timeout = pos 100;
  process_poll_interval = pos 30;
}

abbrev options : ReleaseOptions ℕ
options = record {
  force = false;
  acquisition_operation_id = "";
  require_expired_by = "";
  expected_updated_at = "";
  preserved_projections = [];
  preserved_projection_reader = none;
  handoff_lock_held = false;
}

abbrev start : World ℕ
start = record { document = holding busy; outside = 7 }

wait_for_process_drain-ends_example :
    Ended worker (wait_for_process_drain stubborn service worker start).0
wait_for_process_drain-ends_example =
    wait_for_process_drain-ends stubborn stubborn-Timely service worker start

-- The rounds of the wait come at 7, 37, 67, 97 and 127.
wait-stubborn : (wait_for_process_drain stubborn service worker start).1.outside ≡ 157
unfolding wait_for_process_drain
wait-stubborn = refl

release_assignment-Keeps_example :
    IsSound host (release_assignment broken_git service host assignment_id options start).1.document
release_assignment-Keeps_example =
    release_assignment-Keeps host (IsSound host) (Step-IsSound host host-IsLawful) broken_git
      (broken_git-Seamless (IsSound host)) service options
      (λ reader v same w h. ground (arith, same)) assignment_id start holding-busy-IsSound

git-fails :
    (release_assignment broken_git service host assignment_id options start).0
    ≡ err (external "git clean")
unfolding release_assignment release_locked release_returning release_assignment_workspace
    assignment_workspaces release_lock_path clean_processes cancel_release relock_after_git_failure
    transact with_lock mutate_document update begin_workspace_return begin_return start_return
    finish_workspace_return finish_return cancel_workspace_return cancel_return at_assignment
    find_assignment put valid_state empty_state empty_metrics valid_uuid valid_safe_positive
    tree_key canonical_timestamp valid_timestamp is_finite_positive valid_keepers valid_times
    valid_assignment valid_processes valid_failure valid_operation valid_idle valid_ownership
    valid_availability valid_identity valid_workspace valid_entry valid_metrics valid_global_fences
    parse_stars count stars
git-fails = refl

broken_git-Reliable : Reliable broken_git
broken_git-Reliable = record {
  locks = λ path w. refl;
  unlocks = λ path w. refl;
  reads = λ w. refl;
  replaces = λ w. refl;
}

release_assignment-Restored_example :
    ((release_assignment broken_git service host assignment_id options start).1.document
      ≡ holding busy)
    ⊎ HasWorkspaceBack host broken_git assignment_id
        (release_assignment broken_git service host assignment_id options start).1.document
release_assignment-Restored_example =
    release_assignment-Restored host host-IsLawful broken_git (λ f. refl) broken_git-Seamless
      broken_git-Reliable service assignment_id options
      (λ P reader v same w h. ground (arith, same)) start (external "git clean")
      holding-busy-IsSound git-fails

-- The workspace that a release of it leaves.
abbrev freed : WorkspaceRecord
freed = record idle { updated_at = ""; available_at = some "" }

release-calm :
    (release_assignment calm service host assignment_id options start).0
    ≡ ok (record { workspace = freed; cleaned_processes = 0 })
unfolding release_assignment release_locked release_returning release_assignment_workspace
    assignment_workspaces release_lock_path clean_processes cancel_release relock_after_git_failure
    transact with_lock mutate_document update begin_workspace_return begin_return start_return
    finish_workspace_return finish_return cancel_workspace_return cancel_return at_assignment
    find_assignment put valid_state empty_state empty_metrics valid_uuid valid_safe_positive
    tree_key canonical_timestamp valid_timestamp is_finite_positive valid_keepers valid_times
    valid_assignment valid_processes valid_failure valid_operation valid_idle valid_ownership
    valid_availability valid_identity valid_workspace valid_entry valid_metrics valid_global_fences
    parse_stars count stars
release-calm = refl

release_assignment-IsReturned_example :
    IsReturned (record { workspace = freed; cleaned_processes = 0 })
release_assignment-IsReturned_example =
    release_assignment-IsReturned host calm service assignment_id options start release-calm
