-- ===== src/Examples/Plans.antt =====
-- The theorems on reservations, plans and deletions at concrete states.
use ruk.Prelude.{
  ℕ, ◌≡◌, ◌≤◌, refl, inl, true, false, ◌||◌, ◌&&◌, [], ◌∷◌, ◌∈◌, Option, none, some, String,
  is_empty,
}
use ruk.Prelude.Text.{str_eq}
use ruk.Prelude.Results.{ok}
use ruk.Prelude.Assoc.{lookup, delete, put}
use ruk.Prelude.Sorting.{IsSorted, sort_by, insert_by}
use ruk.Platform.{truncate}
use ruk.State.{WorkspaceRecord, State, empty_state, assigned}
use ruk.State.Valid.{is_nil, is_available, is_failed, is_returning, tree_key}
use ruk.Lifecycle.Clock.{parse_timestamp}
use ruk.Lifecycle.Records.{store_at, collection_key, same_operation}
use ruk.Lifecycle.Assignment.{
  AssignmentInput, validate_assignment_input, expiry_of, assign, candidates, requested_key,
  new_assignment, reserve_available_workspace,
}
use ruk.Lifecycle.Collection.{delete_workspace_record, collectable}
use ruk.Lifecycle.Gc.{
  GcCandidate, gc_expired_assignment, gc_abandoned_acquisition, gc_available, make_gc_candidate,
  gc_candidate, gc_candidates, settled_candidate, available_reason, expired_reason,
  has_active_keeper, clone_workspace, path_less, identify_gc_candidates,
}
use ruk.Lifecycle.Reservation.{Oldest, reserve_available_workspace-Oldest}
use ruk.Lifecycle.Eligibility.{
  Expired, gc_candidate-safe, gc_candidate-Expired, identify_gc_candidates-complete,
  identify_gc_candidates-IsSorted,
}
use ruk.Lifecycle.Frames.{delete_workspace_record-safe}
use ruk.Examples.Host.{host, parse_stars, count}
use ruk.Examples.Runs.{preparation_id, assignment_id, idle, busy, holding}
use ruk.Examples.Actions.{collected}

abbrev input : AssignmentInput
input = record {
  owner = "agent";
  hostname = "host";
  branch = "";
  expires_at = 9000000;
  lease_duration_minutes = 0;
}

abbrev taken : WorkspaceRecord
taken = record idle {
  lifecycle = assigned;
  operation_id = some preparation_id;
  assignment = some (new_assignment host 5000000 9000000 assignment_id input);
  updated_at = host.format_time 5000000;
  available_at = none;
}

reserve_idle :
    reserve_available_workspace host 5000000 assignment_id preparation_id input none (holding idle)
    ≡ ok (holding taken, some taken)
unfolding reserve_available_workspace candidates sort_by insert_by assign expiry_of truncate put
    validate_assignment_input requested_key empty_state
reserve_idle = refl

reserve_available_workspace-Oldest_example :
    (requested : Option String) × (requested_key host none ≡ ok requested)
    × (key : String) × (w : WorkspaceRecord) × ((key, w)
        ∈ candidates requested (holding idle).workspaces)
    × (Oldest (candidates requested (holding idle).workspaces) (key, w))
    × (assign host 5000000 assignment_id preparation_id input w ≡ ok taken)
    × (holding taken ≡ store_at key taken (holding idle))
reserve_available_workspace-Oldest_example =
    reserve_available_workspace-Oldest host 5000000 assignment_id preparation_id input none
      (holding idle) (holding taken) taken reserve_idle

abbrev stalled : WorkspaceRecord
stalled = record busy { operation_id = some preparation_id }

abbrev stalled_candidate : GcCandidate
stalled_candidate = make_gc_candidate (clone_workspace stalled) gc_abandoned_acquisition false

abbrev busy_candidate : GcCandidate
busy_candidate = make_gc_candidate (clone_workspace busy) gc_expired_assignment true

abbrev idle_candidate : GcCandidate
idle_candidate = make_gc_candidate (clone_workspace idle) gc_available false

stalled_is_candidate : gc_candidate host 5000000 2000000 true stalled ≡ ok (some stalled_candidate)
unfolding gc_candidate make_gc_candidate parse_timestamp parse_stars count
stalled_is_candidate = refl

busy_is_candidate : gc_candidate host 5000000 5000000 false busy ≡ ok (some busy_candidate)
unfolding gc_candidate settled_candidate available_reason expired_reason has_active_keeper
    make_gc_candidate parse_timestamp parse_stars count
busy_is_candidate = refl

idle_is_candidate :
    gc_candidate host (truncate 5000000) (truncate 5000000) false idle ≡ ok (some idle_candidate)
unfolding gc_candidate settled_candidate available_reason make_gc_candidate parse_timestamp
    parse_stars count truncate
idle_is_candidate = refl

idle_plan :
    identify_gc_candidates host (holding idle) 5000000 5000000 false ≡ ok (idle_candidate ∷ [])
unfolding identify_gc_candidates gc_candidates gc_candidate settled_candidate available_reason
    make_gc_candidate parse_timestamp parse_stars count truncate sort_by insert_by empty_state
idle_plan = refl

gc_candidate-safe_example :
    (true ≡ true)
    × (is_returning stalled.lifecycle ≡ false)
    × (is_nil stalled.operation_id ≡ false)
    × (u : ℕ) × (parse_timestamp host stalled.updated_at ≡ ok u)
    × (u ≤ 5000000)
unfolding make_gc_candidate
gc_candidate-safe_example =
    gc_candidate-safe host 5000000 2000000 true stalled stalled_candidate stalled_is_candidate refl
      refl

gc_candidate-Expired_example : Expired host 5000000 busy
unfolding make_gc_candidate
gc_candidate-Expired_example =
    gc_candidate-Expired host 5000000 5000000 false busy busy_candidate busy_is_candidate refl

identify_gc_candidates-complete_example : idle_candidate ∈ (idle_candidate ∷ [])
unfolding empty_state
identify_gc_candidates-complete_example =
    identify_gc_candidates-complete host (holding idle) 5000000 5000000 false (idle_candidate ∷ [])
      "/w" idle idle_candidate idle_plan (inl refl) idle_is_candidate

identify_gc_candidates-IsSorted_example : IsSorted (path_less host) (idle_candidate ∷ [])
identify_gc_candidates-IsSorted_example =
    identify_gc_candidates-IsSorted host (holding idle) 5000000 5000000 false (idle_candidate ∷ [])
      idle_plan

abbrev emptied : State
emptied = record empty_state { workspaces = [] }

delete_collected :
    delete_workspace_record host "/w" preparation_id (holding collected) ≡ ok (emptied, collected)
unfolding delete_workspace_record collectable collection_key tree_key lookup delete empty_state
delete_collected = refl

delete_workspace_record-safe_example :
    (key : String) × (collection_key host "/w" ≡ ok key)
    × (lookup key (holding collected).workspaces ≡ some collected)
    × (is_available collected.lifecycle || is_failed collected.lifecycle ≡ true)
    × (is_nil collected.assignment && is_empty collected.processes ≡ true)
    × (same_operation collected.operation_id preparation_id ≡ true)
    × (lookup key emptied.workspaces ≡ none)
    × ((other : String)
        → str_eq key other ≡ false
        → lookup other emptied.workspaces ≡ lookup other (holding collected).workspaces)
delete_workspace_record-safe_example =
    delete_workspace_record-safe host "/w" preparation_id (holding collected) emptied collected
      delete_collected
