-- ===== src/State/Document/Parts.antt =====
-- The tests of validWorkspace, one by one.
use ruk.Prelude.{◌≡◌, true, [], arith}
use ruk.Platform.{Platform}
use ruk.State.{WorkspaceRecord}
use ruk.State.Valid.{valid_timestamp, valid_processes}
use ruk.State.Document.{
  valid_identity, valid_operation, valid_ownership, valid_availability, valid_failure, valid_idle,
  valid_workspace,
}

module _ (e : Platform) where
  pub record Parts (w : WorkspaceRecord) : Type 0 where
    pub identity : valid_identity e w ≡ true
    pub updated : valid_timestamp e w.updated_at ≡ true
    pub operation : valid_operation w.lifecycle w.operation_id ≡ true
    pub ownership : valid_ownership e w.lifecycle w.assignment ≡ true
    pub availability : valid_availability e w.lifecycle w.available_at ≡ true
    pub failure : valid_failure w.lifecycle w.failure ≡ true
    pub idle : valid_idle w.lifecycle w.processes ≡ true
    pub processes : valid_processes [] w.processes ≡ true

  pub parts : (w : WorkspaceRecord) → valid_workspace e w ≡ true → Parts w
  unfolding valid_workspace
  parts w h = ground arith

  pub valid_of_Parts : (w : WorkspaceRecord) → Parts w → valid_workspace e w ≡ true
  unfolding valid_workspace
  valid_of_Parts w p = ground arith
