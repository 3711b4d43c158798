-- ===== src/Services/Failure.antt =====
-- The errors of the services: those of the transitions, those of other programs, and the messages
-- that are wrapped around either.
use ruk.Prelude.{Bool, false, String}
use ruk.Prelude.Int.{ℤ}
use ruk.Errors.{Error}

pub data Failure : Type 0 where
  of_lifecycle : Error → Failure
  external : String → Failure  -- of a program or of the file system
  unfinished : Failure  -- a loop that was given too little fuel
  empty_assignment_id : Failure
  lock_path_empty locks_root_missing : Failure
  not_assigned_here not_unique : Failure  -- Assignment does not exist, is not unique
  changed_workspace : Failure  -- Assignment changed workspace before release
  handoff_in_progress handoff_mismatch : Failure
  reading : Failure → Failure  -- read assignment
  inspecting : ℤ → Failure → Failure  -- inspect tracked process
  terminating : ℤ → Failure → Failure
  force_terminating : ℤ → Failure → Failure
  drain : ℤ → Bool → Failure → Failure  -- ProcessDrainError
  still_present : Failure  -- tracked process tree is still present
  survived : ℤ → Failure → Failure  -- survived graceful termination; retry with --force
  verifying : ℤ → Failure → Failure
  verifying_force : ℤ → Failure → Failure
  relocking : Failure → Failure  -- relock worktree after failed cleanup
  restoring : Failure → Failure  -- restore assignment ownership
  joined : Failure → Failure → Failure  -- errors.Join

-- errors.As to a ProcessDrainError, and its field Alive.
abbrev pub observed_alive : Failure → Bool
observed_alive (drain pid alive cause) = alive
observed_alive _ = false
