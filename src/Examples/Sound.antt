-- ===== src/Examples/Sound.antt =====
-- A sound state with an assignment in it.
use ruk.Prelude.{◌≡◌, refl, some, true}
use ruk.Prelude.Assoc.{lookup}
use ruk.State.{empty_state, empty_metrics}
use ruk.State.Uuid.{valid_uuid}
use ruk.State.Valid.{
  valid_safe_positive, tree_key, canonical_timestamp, valid_timestamp, is_finite_positive,
  valid_keepers, valid_times, valid_assignment, valid_processes,
}
use ruk.State.Document.{
  valid_failure, valid_operation, valid_idle, valid_ownership, valid_availability, valid_identity,
  valid_workspace, valid_entry, valid_metrics, valid_global_fences, valid_state,
}
use ruk.Lifecycle.Records.{find_assignment}
use ruk.Lifecycle.Keeps.Sound.{IsSound}
use ruk.Lifecycle.Lookup.{find_assignment_unique}
use ruk.Examples.Host.{host, parse_stars, count, stars}
use ruk.Examples.Runs.{assignment_id, lease, busy, holding}

holding-busy_valid : valid_state host (holding busy) ≡ true
unfolding valid_state empty_state empty_metrics valid_uuid valid_safe_positive tree_key
    canonical_timestamp valid_timestamp is_finite_positive valid_keepers valid_times
    valid_assignment valid_processes valid_failure valid_operation valid_idle valid_ownership
    valid_availability valid_identity valid_workspace valid_entry valid_metrics valid_global_fences
    parse_stars count stars
holding-busy_valid = refl

pub holding-busy-IsSound : IsSound host (holding busy)
unfolding empty_state
holding-busy-IsSound = record { valid = holding-busy_valid; map = refl }

busy_found : lookup "/w" (holding busy).workspaces ≡ some busy
unfolding lookup empty_state
busy_found = refl

find_assignment_unique_example :
    find_assignment assignment_id (holding busy).workspaces
    ≡ some (record { key = "/w"; workspace = busy; assignment = lease })
find_assignment_unique_example =
    find_assignment_unique host (holding busy) assignment_id "/w" busy lease holding-busy-IsSound
      busy_found refl refl
