-- ===== src/Ports.antt =====
-- internal/ports/ports.go: the names and the range of ports. A text is the list of its code points;
-- ToUpper and TrimSpace are parameters.
pub mod Names
pub mod Probe
pub mod Found
pub mod Allocation
pub mod Environment
use ruk.Prelude.{
  ℕ, ◌==◌, Bool, true, false, not, ◌&&◌, ◌||◌, List, [], ◌∷◌, ◌++◌, leb, if◌then◌else◌, is_empty,
}
use ruk.Prelude.Int.{ℤ, pos, negsuc, at_most, is_positive}
use ruk.Prelude.Results.{Result, ok, err}

-- The errors of the package, with those of the listener.
pub data PortError (E : Type 0) : Type 0 where
  name_without_letter : PortError E
  out_of_range : ℤ → PortError E
  probe_ipv6 probe_ipv4 close_listener : E → PortError E
  nil_listener : PortError E
  invalid_listened : ℤ → PortError E  -- listener returned invalid port
  exhausted : ℕ → PortError E  -- could not allocate an available port
  not_unique_names : PortError E
  unavailable_port : ℤ → PortError E
  failed : E → PortError E
  empty_assignment_id relative_state_path : PortError E

abbrev pub max_port : ℕ
max_port = 65535

abbrev pub default_attempts : ℕ
default_attempts = 20

abbrev pub underscore : ℕ
underscore = 95

-- RUK_PORT_
abbrev pub environment_prefix : List ℕ
environment_prefix = 82 ∷ 85 ∷ 75 ∷ 95 ∷ 80 ∷ 79 ∷ 82 ∷ 84 ∷ 95 ∷ []

abbrev pub is_name_character : ℕ → Bool
is_name_character c = (leb 65 c && leb c 90) || (leb 48 c && leb c 57)

-- The loop of NormalizeName, by whether something is written and whether that ends in an underscore.
unfoldable pub collapse : Bool → Bool → List ℕ → List ℕ
collapse written last [] = []
collapse written last (c ∷ rest) =
    let kept = collapse true false rest in
    let gap = collapse true true rest in
    let skipped = collapse written last rest in
    if is_name_character c
    then c ∷ kept
    else (if written && not last then underscore ∷ gap else skipped)

unfoldable pub trim_start : List ℕ → List ℕ
trim_start [] = []
trim_start (c ∷ rest) =
    let shorter = trim_start rest in if c == underscore then shorter else c ∷ rest

unfoldable pub trim_end : List ℕ → List ℕ
trim_end [] = []
trim_end (c ∷ rest) =
    let shorter = trim_end rest in if is_empty shorter && (c == underscore) then [] else c ∷ shorter

unfoldable pub normalize_name :
    {E : Type 0} → (List ℕ → List ℕ) → (List ℕ → List ℕ) → List ℕ → Result (PortError E) (List ℕ)
unfolding collapse trim_start trim_end
normalize_name to_upper trim_space name =
    let value = trim_start (trim_end (collapse false false (to_upper (trim_space name)))) in
    if is_empty value then err name_without_letter else ok (environment_prefix ++ value)

abbrev pub valid_port : ℤ → Bool
valid_port port = is_positive port && at_most port max_port

unfoldable pub validate_port : {E : Type 0} → ℤ → Result (PortError E) (Unit {0})
validate_port port = if valid_port port then ok tt else err (out_of_range port)
