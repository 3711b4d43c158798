-- ===== src/Examples/Runs.antt =====
-- The records of one workspace in the stages of its life.
use ruk.Prelude.{true, [], ◌∷◌, none, some, String}
use ruk.Prelude.Int.{pos}
use ruk.State.{
  AssignmentRecord, TrackedProcessRecord, WorkspaceRecord, State, empty_state, available, assigned,
  returning,
}

abbrev pub preparation_id : String
preparation_id = "11111111-1111-4111-8111-111111111111"

abbrev pub assignment_id : String
assignment_id = "22222222-2222-4222-8222-222222222222"

abbrev pub lease : AssignmentRecord
lease = record {
  id = assignment_id;
  owner = "agent";
  hostname = "host";
  assigned_at = "*";
  renewed_at = "*";
  expires_at = "***";
  lease_duration_minutes = 2000000;
  last_activity_at = "*";
  lease_keepers = [];
  ports = [];
}

abbrev pub idle : WorkspaceRecord
idle = record {
  path = "/w";
  managed = true;
  branch = "main";
  lifecycle = available;
  operation_id = none;
  assignment = none;
  processes = [];
  created_at = "*";
  updated_at = "*";
  available_at = some "*";
  failure = none;
}

abbrev pub busy : WorkspaceRecord
busy = record idle { lifecycle = assigned; assignment = some lease; available_at = none }

abbrev pub leaving : WorkspaceRecord
leaving = record busy { lifecycle = returning }

abbrev pub worker : TrackedProcessRecord
worker = record {
  pid = pos 7;
  group_id = none;
  session_id = none;
  session_started_at = none;
  terminal_id = none;
  command = none;
  started_at = "noon";
}

-- A state that holds one workspace under the key of its path.
abbrev pub holding : WorkspaceRecord → State
holding w = record empty_state { workspaces = ("/w", w) ∷ [] }
