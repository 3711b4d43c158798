-- ===== src/Lifecycle/Process.antt =====
-- internal/lifecycle/process.go, and appendRetainedProcess of retained_process.go.
use ruk.Prelude.{
  ℕ, Bool, true, false, not, ◌&&◌, ◌||◌, List, [], ◌∷◌, ◌++◌, Option, none, some, String,
  if◌then◌else◌, any_of, is_empty,
}
use ruk.Prelude.Int.{ℤ, eq_ℤ, is_positive}
use ruk.Prelude.Text.{str_eq, is_blank}
use ruk.Prelude.Results.{Result, ok, err, ◌>>=◌, ◌>>◌, guard, or_err}
use ruk.Errors.{
  Error, bad_process, wrong_lifecycle, process_already_tracked, process_not_tracked,
  process_other_identity, retained_incomplete, not_assigned_or_returning,
}
use ruk.Platform.{Platform}
use ruk.State.{AssignmentRecord, TrackedProcessRecord, WorkspaceRecord, State}
use ruk.State.Valid.{is_assigned, is_owned, unless_nil, valid_safe_positive}
use ruk.Lifecycle.Records.{at_assignment}

abbrev pub same_nil {ℓ κ} : {A : Type ℓ} {B : Type κ} → Option A → Option B → Bool
same_nil none none = true
same_nil (some a) (some b) = true
same_nil _ _ = false

unfoldable pub validate_process_record : TrackedProcessRecord → Bool
validate_process_record r =
    valid_safe_positive r.pid
    && not (is_blank r.started_at)
    && unless_nil r.command (λ command. not (is_empty command))
    && unless_nil r.group_id valid_safe_positive
    && unless_nil r.session_id valid_safe_positive
    && same_nil r.session_id r.session_started_at
    && unless_nil r.session_started_at (λ started. not (is_blank started))
    && unless_nil r.terminal_id (λ terminal. not (is_blank terminal || str_eq terminal "??"))

-- An empty command is cloned into a nil slice.
abbrev pub clone_command : Option (List String) → Option (List String)
clone_command none = none
clone_command (some []) = none
clone_command (some (c ∷ cs)) = some (c ∷ cs)

unfoldable pub clone_process_record : TrackedProcessRecord → TrackedProcessRecord
clone_process_record r = record r { command = clone_command r.command }

abbrev pub is_tracked : ℤ → List TrackedProcessRecord → Bool
is_tracked pid = any_of (λ p. eq_ℤ p.pid pid)

abbrev pub is_identity : ℤ → String → TrackedProcessRecord → Bool
is_identity pid started_at p = eq_ℤ p.pid pid && str_eq p.started_at started_at

-- The search for the index, and append(processes[:index], processes[index+1:]...); none where the
-- index stays -1.
unfoldable pub remove_process :
    ℤ → String → List TrackedProcessRecord → Option (List TrackedProcessRecord)
remove_process pid started_at [] = none
remove_process pid started_at (p ∷ rest) =
    let remaining = remove_process pid started_at rest in
    if is_identity pid started_at p
    then some rest
    else elim remaining [ none ↦ none | some kept ↦ some (p ∷ kept) ]

unfoldable pub add_process :
    Platform
    → ℕ
    → TrackedProcessRecord
    → AssignmentRecord
    → WorkspaceRecord
    → Result Error WorkspaceRecord
unfolding clone_process_record
add_process e now r a w = do
  guard (is_assigned w.lifecycle) wrong_lifecycle
  guard (not (is_tracked r.pid w.processes)) process_already_tracked
  ok (record w {
    processes = w.processes ++ (clone_process_record r ∷ []);
    updated_at = e.format_time now;
  })

unfoldable pub add_assignment_process :
    Platform → ℕ → String → TrackedProcessRecord → State → Result Error (State × WorkspaceRecord)
unfolding validate_process_record add_process
add_assignment_process e now assignment_id r s = do
  guard (validate_process_record r) bad_process
  at_assignment assignment_id (add_process e now r) s

unfoldable pub drop_process :
    Platform → ℕ → ℤ → String → AssignmentRecord → WorkspaceRecord → Result Error WorkspaceRecord
drop_process e now pid started_at a w = do
  guard (is_owned w.lifecycle) not_assigned_or_returning
  remaining ← or_err (remove_process pid started_at w.processes) process_not_tracked
  ok (record w { processes = remaining; updated_at = e.format_time now })

unfoldable pub remove_assignment_process :
    Platform → ℕ → String → ℤ → String → State → Result Error (State × WorkspaceRecord)
unfolding drop_process
remove_assignment_process e now assignment_id pid started_at =
    at_assignment assignment_id (drop_process e now pid started_at)

-- The loop of appendRetainedProcess: the tracked process with the same PID decides.
abbrev pub retain_among :
    TrackedProcessRecord
    → List TrackedProcessRecord
    → List TrackedProcessRecord
    → Result Error (List TrackedProcessRecord)
retain_among r all [] = ok (all ++ (r ∷ []))
retain_among r all (p ∷ rest) =
    if eq_ℤ p.pid r.pid
    then (if str_eq p.started_at r.started_at then ok all else err process_other_identity)
    else retain_among r all rest

unfoldable pub append_retained_process :
    Option TrackedProcessRecord → WorkspaceRecord → Result Error WorkspaceRecord
append_retained_process none w = ok w
append_retained_process (some r) w = do
  guard (is_positive r.pid && not (is_blank r.started_at)) retained_incomplete
  processes ← retain_among r w.processes w.processes
  ok (record w { processes = processes })
