-- ===== src/Ports/Environment.antt =====
-- BuildEnvironment of internal/ports/ports.go. A variable holds the port; the program writes it in
-- decimal.
use ruk.Prelude.{
  ℕ, ◌==◌, ◌≡◌, refl, inl, inr, Bool, true, false, ◌&&◌, ◌||◌, List, [], ◌∷◌, if◌then◌else◌, any_of,
  ltb, arith, Bool-cases, All,
}
use ruk.Prelude.Int.{ℤ}
use ruk.Prelude.Results.{Result, ok, err, ◌>>=◌, ◌>>◌, Result-cases}
use ruk.Prelude.Sorting.{sort_by}
use ruk.State.Document.{distinct}
use ruk.Ports.{PortError, not_unique_names, validate_port, valid_port, normalize_name}

abbrev Name : Type 0
Name = List ℕ

unfoldable pub name_lt : Name → Name → Bool
name_lt [] [] = false
name_lt [] (d ∷ ds) = true
name_lt (c ∷ cs) [] = false
name_lt (c ∷ cs) (d ∷ ds) = ltb c d || ((c == d) && name_lt cs ds)

unfoldable pub is_name : Name → Name → Bool
is_name [] [] = true
is_name (c ∷ cs) (d ∷ ds) = (c == d) && is_name cs ds
is_name _ _ = false

abbrev pub variable_names : List (Name × ℤ) → List Name
variable_names [] = []
variable_names ((name, port) ∷ rest) = name ∷ variable_names rest

is_name_sym : (s t : Name) → is_name s t ≡ is_name t s
unfolding is_name
is_name_sym [] [] = refl
is_name_sym [] (d ∷ t) = refl
is_name_sym (c ∷ s) [] = refl
is_name_sym (c ∷ s) (d ∷ t) = ground (arith, is_name_sym s t)

-- None of the names was seen before, they differ from each other, and the ports are in range.
abbrev Apart : List Name → List (Name × ℤ) → Type 0
Apart seen vars =
    All (λ name. any_of (is_name name) seen ≡ false) (variable_names vars)
    × (distinct is_name (variable_names vars) ≡ true)
    × All (λ v. valid_port v.1 ≡ true) vars

not_among :
    (seen : List Name) (name : Name) (vars : List (Name × ℤ))
    → All (λ other. any_of (is_name other) (name ∷ seen) ≡ false) (variable_names vars)
    → (any_of (is_name name) (variable_names vars) ≡ false)
      × All (λ other. any_of (is_name other) seen ≡ false) (variable_names vars)
not_among seen name [] h = (refl, tt)
not_among seen name ((other, port) ∷ vars) h =
    let (later, rest) = not_among seen name vars h.1 in
    (ground (arith, h.0, later, is_name_sym name other), (ground (arith, h.0), rest))

module _ {E : Type 0} (to_upper trim_space : Name → Name) where
  abbrev variable : List Name → ℤ → Name → Result (PortError E) (Name × ℤ)
  variable seen port environment =
      if any_of (is_name environment) seen then err not_unique_names else ok (environment, port)

  -- One turn of the loop, by the variables before it.
  unfoldable pub build_variable : List Name → Name × ℤ → Result (PortError E) (Name × ℤ)
  unfolding validate_port normalize_name
  build_variable seen (name, port) =
      validate_port port >> (normalize_name to_upper trim_space name >>= variable seen port)

  unfoldable pub build_from : List Name → List (Name × ℤ) → Result (PortError E) (List (Name × ℤ))
  unfolding build_variable
  build_from seen [] = ok []
  build_from seen (entry ∷ rest) = build_variable seen entry >>= λ built.
      build_from (built.0 ∷ seen) rest >>= λ others. ok (built ∷ others)

  unfoldable pub build_environment : List (Name × ℤ) → Result (PortError E) (List (Name × ℤ))
  unfolding build_from
  build_environment ports = build_from [] (sort_by (λ left right. name_lt left.0 right.0) ports)

  build_variable-eq :
      (seen : List Name) (entry : Name × ℤ) {built : Name × ℤ}
      → build_variable seen entry ≡ ok built
      → (any_of (is_name built.0) seen ≡ false) × (valid_port built.1 ≡ true)
  unfolding build_variable validate_port
  build_variable-eq seen (name, port) {built} done = elim (Bool-cases (valid_port port)) [
    | inr bad ↦ ground (arith, bad, done)
    | inl good ↦ elim (Result-cases (normalize_name {E = E} to_upper trim_space name)) [
      | inr (e, bad) ↦ ground (arith, good, bad, done)
      | inl (environment, fine) ↦ elim (Bool-cases (any_of (is_name environment) seen)) [
        | inl twice ↦ ground (arith, good, fine, twice, done)
        | inr new ↦
            let is : built ≡ (environment, port) = ground (arith, good, fine, new, done) in
            rw is (new, good)
      ]
    ]
  ]

  build_from-Apart :
      (seen : List Name) (entries : List (Name × ℤ)) {vars : List (Name × ℤ)}
      → build_from seen entries ≡ ok vars
      → Apart seen vars
  unfolding build_from
  build_from-Apart seen [] {vars} done =
      let is : vars ≡ [] = ground (arith, done) in rw is (tt, refl, tt)
  build_from-Apart seen (entry ∷ rest) {vars} done =
      elim (Result-cases (build_variable seen entry)) [
        | inr (e, bad) ↦ ground (arith, bad, done)
        | inl (built, fine) ↦ elim (Result-cases (build_from (built.0 ∷ seen) rest)) [
          | inr (e, bad) ↦ ground (arith, fine, bad, done)
          | inl (others, good) ↦
              let is : vars ≡ built ∷ others = ground (arith, fine, good, done) in
              let (new, valid) = build_variable-eq seen entry fine in
              let (apart, differ, in_range) = build_from-Apart (built.0 ∷ seen) rest good in
              let (alone, unseen) = not_among seen built.0 others apart in
              rw is ((new, unseen), ground (arith, alone, differ), (valid, in_range))
        ]
      ]

  -- Whenever the environment of named ports can be built, its variables have different names and
  -- their ports lie between 1 and 65535.
  pub build_environment-distinct :
      (ports : List (Name × ℤ)) {vars : List (Name × ℤ)}
      → build_environment ports ≡ ok vars
      → (distinct is_name (variable_names vars) ≡ true) × All (λ v. valid_port v.1 ≡ true) vars
  unfolding build_environment
  build_environment-distinct ports {vars} done =
      let (apart, differ, in_range) =
        build_from-Apart [] (sort_by (λ left right. name_lt left.0 right.0) ports) {vars = vars}
          done in
      (differ, in_range)
