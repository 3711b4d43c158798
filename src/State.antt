-- ===== src/State.antt =====
-- internal/state/types.go: the durable records. A pointer that may be nil is an Option, a map is an
-- association list, and the five lifecycle strings are constructors (any other string is refused
-- when the document is decoded).
pub mod Uuid
pub mod Valid
pub mod Document
use ruk.Prelude.{ℕ, Bool, List, [], Option, none, String}
use ruk.Prelude.Int.{ℤ, pos}

abbrev pub current_version : ℕ
current_version = 4

pub record TreeRecord : Type 0 where
  pub path : String
  pub fingerprint : String
  pub projection_fingerprint : String
  pub mode : String
  pub projections : List String
  pub branch : String
  pub updated_at : String

pub data WorkspaceLifecycle : Type 0 where
  available preparing assigned returning failed : WorkspaceLifecycle

pub record LeaseKeeperRecord : Type 0 where
  pub id : String
  pub heartbeat_at : String
  pub valid_until : String

pub record AssignmentRecord : Type 0 where
  pub id : String
  pub owner : String
  pub hostname : String
  pub assigned_at : String
  pub renewed_at : String
  pub expires_at : String
  pub lease_duration_minutes : ℕ  -- float64
  pub last_activity_at : String
  pub lease_keepers : List LeaseKeeperRecord
  pub ports : List (String × ℤ)

pub record UsageMetrics : Type 0 where
  pub acquisitions : ℤ
  pub workspace_reuses : ℤ
  pub preparations : ℤ
  pub preparation_skips : ℤ
  pub preparation_failures : ℤ
  pub total_preparation_ms : ℤ
  pub last_preparation_ms : Option ℤ

unfoldable pub empty_metrics : UsageMetrics
empty_metrics = record {
  acquisitions = pos 0;
  workspace_reuses = pos 0;
  preparations = pos 0;
  preparation_skips = pos 0;
  preparation_failures = pos 0;
  total_preparation_ms = pos 0;
  last_preparation_ms = none;
}

-- A nil command is none.
pub record TrackedProcessRecord : Type 0 where
  pub pid : ℤ
  pub group_id : Option ℤ
  pub session_id : Option ℤ
  pub session_started_at : Option String
  pub terminal_id : Option String
  pub command : Option (List String)
  pub started_at : String

pub record WorkspaceRecord : Type 0 where
  pub path : String
  pub managed : Bool
  pub branch : String
  pub lifecycle : WorkspaceLifecycle
  pub operation_id : Option String
  pub assignment : Option AssignmentRecord
  pub processes : List TrackedProcessRecord
  pub created_at : String
  pub updated_at : String
  pub available_at : Option String
  pub failure : Option String

pub record State : Type 0 where
  pub version : ℕ
  pub trees : List (String × TreeRecord)
  pub workspaces : List (String × WorkspaceRecord)
  pub metrics : UsageMetrics

-- emptyState of store.go.
unfoldable pub empty_state : State
unfolding empty_metrics
empty_state = record {
  version = current_version;
  trees = [];
  workspaces = [];
  metrics = empty_metrics;
}
