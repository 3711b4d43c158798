-- ===== src/Examples/Addresses.antt =====
-- Names of ports, and searches for a free one: the world is the number of open sockets.
use ruk.Prelude.{
  ℕ, suc, ◌+◌, ◌-◌, ◌≤◌, ◌≡◌, refl, true, false, List, [], ◌∷◌, ◌++◌, Option, none, some, String,
  ap, sym, map,
}
use ruk.Prelude.Int.{pos}
use ruk.Prelude.Text.{codes, str_eq}
use ruk.Prelude.Assoc.{put}
use ruk.Prelude.Results.{Result, ok, err}
use ruk.State.{WorkspaceRecord, empty_state}
use ruk.State.Valid.{is_assigned}
use ruk.Lifecycle.Records.{Found, find_assignment}
use ruk.Ports.{
  unavailable_port, environment_prefix, collapse, trim_start, trim_end, normalize_name, max_port,
}
use ruk.Ports.Names.{is_words, normalize_name-words}
use ruk.Ports.Probe.{BoundListener, AvailabilityProbe, excludes, find}
use ruk.Ports.Found.{Counts, find-bounds, count-find}
use ruk.Ports.Allocation.{Reservations, excluded_ports, allocate, allocate_checked}
use ruk.Ports.Allocation.Fresh.{Published, allocate-Published}
use ruk.Ports.Allocation.Named.{names_of, allocate_checked-names_of}
use ruk.Prelude.{All}
use ruk.Prelude.Int.{ℤ}
use ruk.Prelude.Sorting.{sort_by}
use ruk.State.Document.{distinct}
use ruk.Ports.{not_unique_names, validate_port, valid_port}
use ruk.Ports.Environment.{
  name_lt, is_name, variable_names, build_environment, build_environment-distinct,
}
use ruk.Examples.Runs.{assignment_id, lease, busy, holding}

web_api :
    normalize_name {E = String} (λ s. s) (λ s. s) (codes "--WEB..API 2-")
    ≡ ok (codes "RUK_PORT_WEB_API_2")
unfolding normalize_name collapse trim_start trim_end
web_api = refl

normalize_name-words_example :
    (value : List ℕ) × (codes "RUK_PORT_WEB_API_2" ≡ environment_prefix ++ value)
    × (is_words true value ≡ true)
normalize_name-words_example =
    normalize_name-words {E = String} (λ s. s) (λ s. s) (codes "--WEB..API 2-") web_api

-- The world is the number of open sockets, and the number of the next port.
abbrev probe : AvailabilityProbe String (ℕ × ℕ)
probe = record {
  listen = λ request w. (
    ok (some (record { port = pos w.1; close = λ v. (ok tt, (v.0 - 1, v.1)) })),
    (w.0 + 1, w.1 + 1),
  );
  ipv6_unavailable = λ e. true;
  max_attempts = pos 3;
}

third : (find probe (pos 8000 ∷ pos 8001 ∷ []) (5, 8000)).0 ≡ ok (pos 8002)
unfolding find
third = refl

find-bounds_example :
    (n : ℕ) × (pos 8002 ≡ pos n)
    × (1 ≤ n)
    × (n ≤ max_port)
    × (excludes (pos 8000 ∷ pos 8001 ∷ []) (pos 8002) ≡ false)
find-bounds_example = find-bounds probe (pos 8000 ∷ pos 8001 ∷ []) (5, 8000) third

abbrev closing : Result String (Option (BoundListener String (ℕ × ℕ))) → ℕ × ℕ → ℕ
closing (ok (some bound)) w = (bound.close w).1.0
closing (ok none) w = 0
closing (err e) w = 0

probe-Counts : Counts probe (λ w. w.0)
probe-Counts = record {
  listen-count = λ request w. refl;
  close-count = λ request v w bound same. sym (ap (λ r. closing r w) same);
}

count-find_example : (find probe (pos 8000 ∷ pos 8001 ∷ []) (5, 8000)).1.0 ≡ 5
count-find_example = count-find probe (pos 8000 ∷ pos 8001 ∷ []) (λ w. w.0) probe-Counts (5, 8000)

-- Each search finds the next port.
abbrev session : Reservations String ℕ
session = record {
  find_port = λ excluded w. (ok (pos w), suc w);
  reserved = λ w. pos 8000 ∷ [];
  reserve = λ port id path w. (ok tt, w);
  commit = λ w. (ok tt, w);
  no_assignment = "no assignment";
  not_assigned = "not assigned";
}

abbrev served : WorkspaceRecord
served = record busy {
  assignment = some (record lease { ports = ("web", pos 8001) ∷ ("api", pos 8002) ∷ [] });
}

two_ports :
    (allocate session assignment_id "/state" ("web" ∷ "api" ∷ []) (holding busy) 8001).0
    ≡ ok (holding served, served)
unfolding allocate find_assignment put empty_state
two_ports = refl

taken_port :
    (allocate session assignment_id "/state" ("web" ∷ []) (holding busy) 8000).0
    ≡ err (unavailable_port (pos 8000))
unfolding allocate find_assignment put empty_state
taken_port = refl

allocate-Published_example :
    (f : Found) × (find_assignment assignment_id (holding busy).workspaces ≡ some f)
    × (is_assigned f.workspace.lifecycle ≡ true)
    × Published session
        (holding busy)
        f
        (excluded_ports session (holding busy) 8001)
        (holding served)
        served
allocate-Published_example =
    allocate-Published session assignment_id "/state" ("web" ∷ "api" ∷ []) (holding busy) 8001
      two_ports

abbrev shout : List ℕ → List ℕ
shout text = map (λ c. c - 32) text

two_checked :
    (allocate_checked session shout
      (λ s. s)
      (str_eq "/state")
      assignment_id
      "/state"
      ("web" ∷ "api" ∷ [])
      (holding busy)
      8001).0
    ≡ ok (holding served, served)
unfolding allocate_checked normalize_name collapse trim_start trim_end find_assignment put
    empty_state
two_checked = refl

web_twice :
    (allocate_checked session shout
      (λ s. s)
      (str_eq "/state")
      assignment_id
      "/state"
      ("web" ∷ "web" ∷ [])
      (holding busy)
      8001).0
    ≡ err not_unique_names
unfolding allocate_checked normalize_name collapse trim_start trim_end find_assignment put
    empty_state
web_twice = refl

allocate_checked-names_of_example :
    (distinct str_eq ("web" ∷ "api" ∷ []) ≡ true)
    × (f : Found) × (find_assignment assignment_id (holding busy).workspaces ≡ some f)
    × (ports : List (String × ℤ)) × (served
        ≡ record f.workspace { assignment = some (record f.assignment { ports = ports }) })
    × (names_of ports ≡ ("web" ∷ "api" ∷ []))
allocate_checked-names_of_example =
    allocate_checked-names_of session shout (λ s. s) (str_eq "/state") assignment_id "/state"
      ("web" ∷ "api" ∷ []) (holding busy) 8001 two_checked

abbrev two_variables : List (List ℕ × ℤ)
two_variables = (codes "RUK_PORT_API", pos 9) ∷ (codes "RUK_PORT_WEB", pos 8) ∷ []

two_built :
    build_environment {E = String}
      (λ s. s)
      (λ s. s)
      ((codes "WEB", pos 8) ∷ (codes "-API", pos 9) ∷ [])
    ≡ ok two_variables
unfolding build_environment validate_port normalize_name collapse trim_start trim_end sort_by
    name_lt is_name
two_built = refl

build_environment-distinct_example :
    (distinct is_name (variable_names two_variables) ≡ true)
    × All (λ v. valid_port v.1 ≡ true) two_variables
build_environment-distinct_example =
    build_environment-distinct {E = String} (λ s. s) (λ s. s)
      ((codes "WEB", pos 8) ∷ (codes "-API", pos 9) ∷ []) two_built
