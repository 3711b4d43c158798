-- ===== src/Errors.antt =====
-- The errors of internal/state and internal/lifecycle: a constructor for each message.
pub data Error : Type 0 where
  invalid_state : Error  -- Unsupported or invalid Ruk state
  unresolved_path : Error  -- resolve workspace path
  not_managed already_managed : Error
  wrong_lifecycle : Error  -- Workspace is ..., expected ...
  operation_mismatch : Error  -- Preparation, Acquisition or Collection operation does not match
  no_assignment : Error  -- Assignment does not exist
  empty_branch empty_owner empty_hostname empty_failure : Error
  lease_not_positive : Error  -- lease duration must be finite and positive
  lease_out_of_range : Error  -- lease duration exceeds supported timestamp range
  lease_too_short : Error  -- lease duration does not produce a future millisecond
  lease_invalid : Error  -- lease duration is invalid
  expiry_not_future : Error  -- expiresAt must be after now
  bad_timestamp : Error  -- parse lifecycle timestamp
  keeper_not_uuid keeper_active keeper_not_active : Error
  duration_not_positive valid_until_not_future : Error
  acquisition_in_progress acquisition_mismatch : Error
  changed_before_collection renewed_before_collection : Error
  not_safe_to_collect still_tracked still_owned : Error
  not_unassigned_lifecycle changed_before_cleanup workspace_assigned operation_changed : Error
  process_not_tracked process_already_tracked process_other_identity : Error
  not_assigned_or_returning : Error
  retained_incomplete : Error  -- retained process record is incomplete
  bad_process : Error  -- validateProcessRecord
  not_available_at : Error  -- available workspace has no availableAt timestamp
  bad_instant : Error  -- olderThan or now must be a valid timestamp
  unsupported_version : Error
