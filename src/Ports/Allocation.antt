-- ===== src/Ports/Allocation.antt =====
-- AllocationService.Allocate of internal/ports/allocation.go. The finder and the reservations are
-- parameters, which may fail; the state is that of the transaction in which Allocate runs.
-- `allocate` is its mutation, `allocate_checked` the mutation behind the checks of the arguments.
pub mod Fresh
pub mod Distinct
pub mod Named
use ruk.Prelude.{
  Bool, true, false, not, ◌&&◌, List, [], ◌∷◌, ◌++◌, Option, none, some, String, if◌then◌else◌,
  any_of, is_empty, all_of, ◌==◌, ℕ,
}
use ruk.Prelude.Int.{ℤ}
use ruk.Prelude.Text.{codes, str_eq}
use ruk.Prelude.Assoc.{put}
use ruk.Prelude.Results.{Result, ok, err, ◌>>=◌, ◌>>◌, guard}
use ruk.State.{AssignmentRecord, WorkspaceRecord, State}
use ruk.State.Valid.{is_assigned}
use ruk.State.Document.{held, ports_of}
use ruk.Lifecycle.Records.{Found, find_assignment, store_at}
use ruk.Ports.{
  PortError, not_unique_names, unavailable_port, failed, empty_assignment_id, relative_state_path,
  valid_port, normalize_name,
}
use ruk.Ports.Probe.{excludes}

pub record Reservations (E W : Type 0) : Type 0 where
  pub find_port : List ℤ → W → Result E ℤ × W
  pub reserved : W → List ℤ
  pub reserve : ℤ → String → String → W → Result E (Unit {0}) × W
  pub commit : W → Result E (Unit {0}) × W
  pub no_assignment : E  -- Assignment does not exist
  pub not_assigned : E  -- Workspace is ..., expected assigned

unfoldable pub same_name : List ℕ → List ℕ → Bool
same_name [] [] = true
same_name (c ∷ cs) (d ∷ ds) = (c == d) && same_name cs ds
same_name _ _ = false

-- The loop of validateAllocationNames, with the names seen before.
unfoldable pub validate_names :
    {E : Type 0}
    → (List ℕ → List ℕ)
    → (List ℕ → List ℕ)
    → List (List ℕ)
    → List String
    → Result (PortError E) (Unit {0})
unfolding normalize_name same_name
validate_names to_upper trim_space seen [] = ok tt
validate_names to_upper trim_space seen (name ∷ rest) = do
  environment ← normalize_name to_upper trim_space (codes name)
  let later = validate_names to_upper trim_space (environment ∷ seen) rest
  if any_of (same_name environment) seen then err not_unique_names else later

module _ {E W : Type 0} (session : Reservations E W) where
  open session use {find_port, reserved, reserve, commit, no_assignment, not_assigned}

  abbrev pub next_step :
      {A B : Type 0}
      → Result E A × W
      → (A → W → Result (PortError E) B × W)
      → Result (PortError E) B × W
  next_step (ok a, w) next = next a w
  next_step (err e, w) next = (err (failed e), w)

  -- The loop over the names, with what is excluded and what was allocated so far.
  unfoldable pub allocate_names :
      String
      → String
      → List String
      → List ℤ
      → List (String × ℤ)
      → W
      → Result (PortError E) (List (String × ℤ)) × W
  allocate_names id path [] excluded allocated w = (ok allocated, w)
  allocate_names id path (name ∷ rest) excluded allocated w =
      next_step (find_port excluded w) λ port w1.
        if valid_port port && not (excludes excluded port)
        then next_step (reserve port id path w1)
            (λ done. allocate_names id path rest (port ∷ excluded) (put name port allocated))
        else (err (unavailable_port port), w1)

  -- The ports that no assignment may get.
  abbrev pub excluded_ports : State → W → List ℤ
  excluded_ports s w = reserved w ++ held ports_of s.workspaces

  abbrev pub publish_ports :
      State
      → Found
      → Result (PortError E) (List (String × ℤ)) × W
      → Result (PortError E) (State × WorkspaceRecord) × W
  publish_ports s found (err e, w) = (err e, w)
  publish_ports s found (ok ports, w) = next_step (commit w) λ done w1.
      let workspace : WorkspaceRecord = record found.workspace {
        assignment = some (record found.assignment { ports = ports });
      } in
      (ok (store_at found.key workspace s, workspace), w1)

  -- The mutation that Allocate runs on the state.
  unfoldable pub allocate :
      String → String → List String → State → W → Result (PortError E) (State × WorkspaceRecord) × W
  unfolding allocate_names
  allocate id path names s w = elim (find_assignment id s.workspaces) [
    | none ↦ (err (failed no_assignment), w)
    | some found ↦
        if is_assigned found.workspace.lifecycle
        then publish_ports s found (allocate_names id path names (excluded_ports s w) [] w)
        else (err (failed not_assigned), w)
  ]

  -- The checks of Allocate before its transactions; `is_abs` is filepath.IsAbs.
  unfoldable pub checked :
      (List ℕ → List ℕ)
      → (List ℕ → List ℕ)
      → (String → Bool)
      → String
      → String
      → List String
      → Result (PortError E) (Unit {0})
  unfolding validate_names
  checked to_upper trim_space is_abs id path names =
      guard (not (str_eq id "")) empty_assignment_id
      >> guard (is_abs path) relative_state_path
      >> validate_names to_upper trim_space [] names

  abbrev pub unless_refused :
      {A : Type 0}
      → Result (PortError E) (Unit {0})
      → W
      → Result (PortError E) A × W
      → Result (PortError E) A × W
  unless_refused (ok done) w result = result
  unless_refused (err e) w result = (err e, w)

  unfoldable pub allocate_checked :
      (List ℕ → List ℕ)
      → (List ℕ → List ℕ)
      → (String → Bool)
      → String
      → String
      → List String
      → State
      → W
      → Result (PortError E) (State × WorkspaceRecord) × W
  unfolding checked allocate
  allocate_checked to_upper trim_space is_abs id path names s w =
      unless_refused (checked to_upper trim_space is_abs id path names) w
        (allocate id path names s w)
