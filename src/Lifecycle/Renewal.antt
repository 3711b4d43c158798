-- ===== src/Lifecycle/Renewal.antt =====
-- internal/lifecycle/renewal.go.
use ruk.Prelude.{ℕ, Bool, not, Option, none, some, String, false, ltb, if◌then◌else◌}
use ruk.Prelude.Text.{str_eq}
use ruk.Prelude.Results.{Result, ok, ◌>>◌, guard}
use ruk.Errors.{Error, wrong_lifecycle, expiry_not_future}
use ruk.Platform.{Platform, truncate, time_sub}
use ruk.State.{AssignmentRecord, WorkspaceRecord, State}
use ruk.State.Valid.{is_assigned}
use ruk.Lifecycle.Records.{at_assignment}
use ruk.Lifecycle.Clock.{renewal_time}

-- An expected renewal that is given and is not the recorded one.
abbrev pub is_outdated : Option String → String → Bool
is_outdated none renewed_at = false
is_outdated (some expected) renewed_at = not (str_eq renewed_at expected)

unfoldable pub extend :
    Platform → ℕ → ℕ → AssignmentRecord → WorkspaceRecord → Result Error WorkspaceRecord
extend e clock expires_at a w = do
  let renewed = renewal_time e a.renewed_at clock
  let expires = truncate expires_at
  guard (ltb renewed expires) expiry_not_future
  let renewed_at = e.format_time renewed
  ok (record w {
    assignment = some (record a {
      renewed_at = renewed_at;
      expires_at = e.format_time expires;
      lease_duration_minutes = e.duration_minutes (time_sub expires renewed);
      last_activity_at = renewed_at;
    });
    updated_at = renewed_at;
  })

unfoldable pub renew :
    Platform
    → ℕ
    → ℕ
    → Option String
    → AssignmentRecord
    → WorkspaceRecord
    → Result Error WorkspaceRecord
renew e clock expires_at expected_renewed_at a w = do
  guard (is_assigned w.lifecycle) wrong_lifecycle
  if is_outdated expected_renewed_at a.renewed_at then ok w else extend e clock expires_at a w

unfoldable pub renew_assignment :
    Platform → ℕ → String → ℕ → Option String → State → Result Error (State × WorkspaceRecord)
unfolding renew
renew_assignment e now assignment_id expires_at expected_renewed_at =
    at_assignment assignment_id (renew e now expires_at expected_renewed_at)
