-- ===== src/Lifecycle/Activity.antt =====
-- internal/lifecycle/activity.go: the heartbeat keepers of an assignment.
use ruk.Prelude.{ℕ, ◌+◌, Bool, not, ◌||◌, List, [], ◌∷◌, ◌++◌, String, ltb, if◌then◌else◌, any_of}
use ruk.Prelude.Int.{ℤ, pos_part, is_positive}
use ruk.Prelude.Text.{str_eq}
use ruk.Prelude.Results.{Result, ok, ◌>>=◌, ◌>>◌, guard}
use ruk.Errors.{
  Error, wrong_lifecycle, keeper_not_uuid, keeper_active, keeper_not_active, duration_not_positive,
  valid_until_not_future,
}
use ruk.Platform.{Platform, truncate, time_sub}
use ruk.State.{LeaseKeeperRecord, AssignmentRecord, WorkspaceRecord, State}
use ruk.State.Uuid.{valid_uuid}
use ruk.State.Valid.{is_assigned}
use ruk.Lifecycle.Records.{at_assignment}
use ruk.Lifecycle.Clock.{parse_timestamp, later_time, record_activity}

-- assignedWorkspace, whose lifecycle test stands in front of each transition below.
abbrev pub in_assigned :
    (AssignmentRecord → WorkspaceRecord → Result Error WorkspaceRecord)
    → AssignmentRecord
    → WorkspaceRecord
    → Result Error WorkspaceRecord
in_assigned transition a w = guard (is_assigned w.lifecycle) wrong_lifecycle >> transition a w

abbrev pub has_keeper : String → List LeaseKeeperRecord → Bool
has_keeper keeper_id = any_of (λ keeper. str_eq keeper.id keeper_id)

module _ (e : Platform) where
  -- activeKeepers.
  unfoldable pub active_keepers :
      ℕ → String → List LeaseKeeperRecord → Result Error (List LeaseKeeperRecord)
  active_keepers observed_at retained_id [] = ok []
  active_keepers observed_at retained_id (keeper ∷ rest) = do
    valid_until ← parse_timestamp e keeper.valid_until
    active ← active_keepers observed_at retained_id rest
    ok (
        if str_eq keeper.id retained_id || ltb observed_at valid_until
        then keeper ∷ active
        else active)

  abbrev pub new_keeper : String → ℕ → ℕ → LeaseKeeperRecord
  new_keeper id heartbeat_at valid_until = record {
    id = id;
    heartbeat_at = e.format_time heartbeat_at;
    valid_until = e.format_time valid_until;
  }

  unfoldable pub begin :
      ℕ → String → ℕ → AssignmentRecord → WorkspaceRecord → Result Error WorkspaceRecord
  begin now keeper_id duration a w = do
    guard (not (has_keeper keeper_id a.lease_keepers)) keeper_active
    renewed_at ← parse_timestamp e a.renewed_at
    let effective_now = later_time (truncate now) renewed_at
    active ← active_keepers effective_now "" a.lease_keepers
    let keeper = new_keeper keeper_id effective_now (effective_now + duration)
    record_activity e (record a { lease_keepers = active ++ (keeper ∷ []) }) w effective_now

  unfoldable pub begin_assignment_activity :
      ℕ → String → String → ℤ → State → Result Error (State × WorkspaceRecord)
  unfolding begin
  begin_assignment_activity now assignment_id keeper_id duration s = do
    guard (valid_uuid keeper_id) keeper_not_uuid
    guard (is_positive duration) duration_not_positive
    at_assignment assignment_id (in_assigned (begin now keeper_id (pos_part duration))) s

  -- One keeper of the loop of RefreshAssignmentActivity.
  unfoldable pub beat : ℕ → ℕ → LeaseKeeperRecord → Result Error LeaseKeeperRecord
  beat effective_now effective_valid_until keeper = do
    current_valid_until ← parse_timestamp e keeper.valid_until
    ok (record keeper {
      heartbeat_at = e.format_time effective_now;
      valid_until =
          if ltb current_valid_until effective_valid_until
          then e.format_time effective_valid_until
          else keeper.valid_until;
    })

  -- The loop: every keeper with the identifier beats.
  unfoldable pub beat_keepers :
      ℕ → ℕ → String → List LeaseKeeperRecord → Result Error (List LeaseKeeperRecord)
  beat_keepers now valid_until keeper_id [] = ok []
  beat_keepers now valid_until keeper_id (keeper ∷ rest) = do
    beaten ← (if str_eq keeper.id keeper_id then beat now valid_until keeper else ok keeper)
    others ← beat_keepers now valid_until keeper_id rest
    ok (beaten ∷ others)

  unfoldable pub heartbeat :
      ℕ → String → ℕ → AssignmentRecord → WorkspaceRecord → Result Error WorkspaceRecord
  heartbeat now keeper_id valid_until a w = do
    let observed_at = truncate now
    let requested = truncate valid_until
    guard (ltb observed_at requested) valid_until_not_future
    renewed_at ← parse_timestamp e a.renewed_at
    let effective_now = later_time observed_at renewed_at
    let effective_valid_until = effective_now + time_sub requested observed_at
    keepers ← beat_keepers effective_now effective_valid_until keeper_id a.lease_keepers
    guard (has_keeper keeper_id a.lease_keepers) keeper_not_active
    active ← active_keepers effective_now keeper_id keepers
    record_activity e (record a { lease_keepers = active }) w effective_now

  unfoldable pub refresh_assignment_activity :
      ℕ → String → String → ℕ → State → Result Error (State × WorkspaceRecord)
  unfolding heartbeat
  refresh_assignment_activity now assignment_id keeper_id valid_until s = do
    guard (valid_uuid keeper_id) keeper_not_uuid
    at_assignment assignment_id (in_assigned (heartbeat now keeper_id valid_until)) s

  -- The loop of FinishAssignmentActivity: the keepers that stay.
  unfoldable pub remaining_keepers :
      ℕ → String → List LeaseKeeperRecord → Result Error (List LeaseKeeperRecord)
  remaining_keepers completed_at keeper_id [] = ok []
  remaining_keepers completed_at keeper_id (keeper ∷ rest) =
      let others = remaining_keepers completed_at keeper_id rest in
      if str_eq keeper.id keeper_id
      then others
      else (parse_timestamp e keeper.valid_until >>= λ valid_until.
          others >>= λ kept. ok (if ltb completed_at valid_until then keeper ∷ kept else kept))

  unfoldable pub complete :
      ℕ → String → AssignmentRecord → WorkspaceRecord → Result Error WorkspaceRecord
  complete now keeper_id a w = do
    renewed_at ← parse_timestamp e a.renewed_at
    let completed_at = later_time (truncate now) renewed_at
    remaining ← remaining_keepers completed_at keeper_id a.lease_keepers
    guard (has_keeper keeper_id a.lease_keepers) keeper_not_active
    record_activity e (record a { lease_keepers = remaining }) w completed_at

  unfoldable pub finish_assignment_activity :
      ℕ → String → String → State → Result Error (State × WorkspaceRecord)
  unfolding complete
  finish_assignment_activity now assignment_id keeper_id s = do
    guard (valid_uuid keeper_id) keeper_not_uuid
    at_assignment assignment_id (in_assigned (complete now keeper_id)) s
