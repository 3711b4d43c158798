-- ===== src/Ports/Allocation/Named.antt =====
-- The names of the ports that an allocation gives.
use mathlib.Core.List.{append-nil, append_assoc}
use ruk.Prelude.{
  ℕ, ◌≡◌, refl, inl, inr, Bool, true, false, not, ◌&&◌, ◌||◌, List, [], ◌∷◌, ◌++◌, some, String,
  All, arith, Bool-cases, Option-cases, sym, any_of,
}
use ruk.Prelude.Int.{ℤ}
use ruk.Prelude.Text.{str_eq, str_eq_iff}
use ruk.Prelude.Assoc.{put}
use ruk.Prelude.Results.{Result, ok, err, Result-cases}
use ruk.State.{WorkspaceRecord, State}
use ruk.State.Document.{distinct}
use ruk.State.Valid.{is_assigned}
use ruk.Lifecycle.Records.{Found, find_assignment}
use ruk.Ports.{PortError, valid_port}
use ruk.Ports.Probe.{excludes}
use ruk.Ports.Allocation.{
  Reservations, next_step, validate_names, allocate_names, excluded_ports, publish_ports, allocate,
  checked, allocate_checked,
}
use ruk.Ports.Allocation.Distinct.{distinct-validate_names}

abbrev pub names_of : List (String × ℤ) → List String
names_of [] = []
names_of ((name, port) ∷ rest) = name ∷ names_of rest

names_of-put :
    (name : String) (port : ℤ) (ports : List (String × ℤ))
    → any_of (str_eq name) (names_of ports) ≡ false
    → names_of (put name port ports) ≡ names_of ports ++ (name ∷ [])
unfolding put
names_of-put name port [] new = refl
names_of-put name port ((n, p) ∷ ports) new =
    ground (arith, new, names_of-put name port ports, str_eq_iff n name, str_eq_iff name n)

any_of-append :
    (p : String → Bool) (names : List String) (name : String)
    → any_of p (names ++ (name ∷ [])) ≡ (any_of p names || p name)
any_of-append p [] name = ground arith
any_of-append p (other ∷ names) name = ground (arith, any_of-append p names name)

-- The names that are left stay apart from those that have a port, and from the one that gets it.
apart_after :
    (name : String) (given names : List String)
    → any_of (str_eq name) names ≡ false
    → All (λ other. any_of (str_eq other) given ≡ false) names
    → All (λ other. any_of (str_eq other) (given ++ (name ∷ [])) ≡ false) names
apart_after name given [] alone h = tt
apart_after name given (other ∷ names) alone h = (
  rw (any_of-append (str_eq other) given name)
      (ground (arith, alone, h.0, str_eq_iff name other, str_eq_iff other name)),
  apart_after name given names (ground (arith, alone)) h.1,
)

apart_at_first : (names : List String) → All (λ name. any_of (str_eq name) [] ≡ false) names
apart_at_first [] = tt
apart_at_first (name ∷ names) = (refl, apart_at_first names)

abbrev IsNamed : {E : Type 0} → List String → Result (PortError E) (List (String × ℤ)) → Type 0
IsNamed names (err e) = Unit
IsNamed names (ok ports) = names_of ports ≡ names

module _ {E W : Type 0} (session : Reservations E W) where
  next_step-IsNamed :
      {A : Type 0} (names : List String) (r : Result E A × W)
      (next : A → W → Result (PortError E) (List (String × ℤ)) × W)
      → ((a : A) (w : W) → IsNamed names (next a w).0)
      → IsNamed names (next_step session r next).0
  next_step-IsNamed names (ok a, w) next h = h a w
  next_step-IsNamed names (err e, w) next h = tt

  allocate_names-IsNamed :
      (id path : String) (names : List String) (excluded : List ℤ) (ports : List (String × ℤ))
      (w : W)
      → distinct str_eq names ≡ true
      → All (λ name. any_of (str_eq name) (names_of ports) ≡ false) names
      → IsNamed (names_of ports ++ names) (allocate_names session id path names excluded ports w).0
  unfolding allocate_names
  allocate_names-IsNamed id path [] excluded ports w differ apart =
      sym (append-nil (names_of ports))
  allocate_names-IsNamed id path (name ∷ rest) excluded ports w differ apart =
      next_step-IsNamed (names_of ports ++ (name ∷ rest)) (session.find_port excluded w) _
        λ port w1. elim (Bool-cases (valid_port port && not (excludes excluded port))) [
          | inr refused ↦ rw refused tt
          | inl taken ↦
              let is = names_of-put name port ports apart.0 in
              let later = apart_after name (names_of ports) rest (ground (arith, differ)) apart.1 in
              let moved : names_of ports ++ (name ∷ rest) ≡ names_of (put name port ports) ++ rest =
                rw is (sym (append_assoc (names_of ports) (name ∷ []) rest)) in
              rw (taken, moved)
                (next_step-IsNamed (names_of (put name port ports) ++ rest)
                  (session.reserve port id path w1) _
                  λ done w2.
                    allocate_names-IsNamed id path rest (port ∷ excluded) (put name port ports) w2
                      (ground (arith, differ)) (rw is later))
        ]

  publish_ports-names_of :
      (s : State) (f : Found) (names : List String)
      (r : Result (PortError E) (List (String × ℤ)) × W) {t : State} {v : WorkspaceRecord}
      → IsNamed names r.0
      → (publish_ports session s f r).0 ≡ ok (t, v)
      → (ports : List (String × ℤ)) × (v
          ≡ record f.workspace { assignment = some (record f.assignment { ports = ports }) })
        × (names_of ports ≡ names)
  publish_ports-names_of s f names (err e, w) named done = ground (arith, done)
  publish_ports-names_of s f names (ok ports, w) named done =
      elim (Result-cases (session.commit w).0) [
        | inr (e, bad) ↦ ground (arith, bad, done)
        | inl (unit, fine) ↦ (ports, ground (arith, fine, done), named)
      ]

  checked-validate_names :
      (to_upper trim_space : List ℕ → List ℕ) (is_abs : String → Bool) (id path : String)
      (names : List String)
      → checked session to_upper trim_space is_abs id path names ≡ ok tt
      → validate_names {E = E} to_upper trim_space [] names ≡ ok tt
  unfolding checked
  checked-validate_names to_upper trim_space is_abs id path names done =
      elim (Bool-cases (str_eq id "")) [
        | inl blank ↦ ground (arith, blank, done)
        | inr given ↦ elim (Bool-cases (is_abs path)) [
          | inl absolute ↦ ground (arith, given, absolute, done)
          | inr relative ↦ ground (arith, given, relative, done)
        ]
      ]

  -- Whenever Allocate succeeds, the names differ from each other, and the record that it returns is
  -- that of the assignment found, with its ports replaced by a map that gives one port to each of the
  -- names, in their order, and to nothing else.
  pub allocate_checked-names_of :
      (to_upper trim_space : List ℕ → List ℕ) (is_abs : String → Bool) (id path : String)
      (names : List String) (s : State) (w : W) {t : State} {v : WorkspaceRecord}
      → (allocate_checked session to_upper trim_space is_abs id path names s w).0 ≡ ok (t, v)
      → (distinct str_eq names ≡ true)
        × (f : Found) × (find_assignment id s.workspaces ≡ some f)
        × (ports : List (String × ℤ)) × (v
            ≡ record f.workspace { assignment = some (record f.assignment { ports = ports }) })
        × (names_of ports ≡ names)
  unfolding allocate_checked allocate
  allocate_checked-names_of to_upper trim_space is_abs id path names s w done =
      elim (Result-cases (checked session to_upper trim_space is_abs id path names)) [
        | inr (e, bad) ↦ ground (arith, bad, done)
        | inl (unit, fine) ↦
            let valid = checked-validate_names to_upper trim_space is_abs id path names fine in
            let differ = (distinct-validate_names E to_upper trim_space [] names valid).0 in
            elim (Option-cases (find_assignment id s.workspaces)) [
              | inl missing ↦ ground (arith, fine, missing, done)
              | inr (f, located) ↦ elim (Bool-cases (is_assigned f.workspace.lifecycle)) [
                | inr other ↦ ground (arith, fine, located, other, done)
                | inl owned ↦
                    let named =
                      allocate_names-IsNamed id path names (excluded_ports session s w) [] w differ
                        (apart_at_first names) in
                    let (ports, is, given) =
                      publish_ports-names_of s f names _ named
                        (rw (fine, allocate, located, owned) at done) in
                    (differ, f, located, ports, is, given)
              ]
            ]
      ]
