-- ===== src/Ports/Allocation/Fresh.antt =====
-- The ports that an allocation gives.
use ruk.Prelude.{
  ◌≡◌, refl, inl, inr, true, false, not, ◌&&◌, List, [], ◌∷◌, some, String, All, arith, Bool-cases,
  Option-cases, ◌∙◌, ap, sym,
}
use ruk.Prelude.Int.{ℤ, eq_ℤ, eq_ℤ_iff}
use ruk.Prelude.Text.{str_eq}
use ruk.Prelude.Assoc.{put}
use ruk.Prelude.Results.{Result, ok, err, Result-cases}
use ruk.State.{WorkspaceRecord, State}
use ruk.State.Document.{port_numbers, distinct}
use ruk.Lifecycle.Records.{Found, find_assignment, store_at}
use ruk.State.Valid.{is_assigned}
use ruk.Ports.{PortError, valid_port}
use ruk.Ports.Probe.{excludes}
use ruk.Ports.Allocation.{
  Reservations, next_step, allocate_names, excluded_ports, publish_ports, allocate,
}

-- A port of the map after a put is the one that was put, or was there.
excludes-put :
    (name : String) (port q : ℤ) (ports : List (String × ℤ))
    → eq_ℤ q port ≡ false
    → excludes (port_numbers ports) q ≡ false
    → excludes (port_numbers (put name port ports)) q ≡ false
unfolding put
excludes-put name port q [] apart absent = ground (arith, apart)
excludes-put name port q ((n, p) ∷ ports) apart absent =
    ground (arith, apart, absent, excludes-put name port q ports apart)

distinct-put :
    (name : String) (port : ℤ) (ports : List (String × ℤ))
    → excludes (port_numbers ports) port ≡ false
    → distinct eq_ℤ (port_numbers ports) ≡ true
    → distinct eq_ℤ (port_numbers (put name port ports)) ≡ true
unfolding put
distinct-put name port [] absent apart = refl
distinct-put name port ((n, p) ∷ ports) absent apart = ground (
  arith,
  absent,
  apart,
  distinct-put name port ports,
  excludes-put name port p ports,
  eq_ℤ_iff p port,
  eq_ℤ_iff port p,
)

-- The ports so far are valid and were not excluded at first, are excluded by now, and differ.
record Fresh (before excluded : List ℤ) (ports : List (String × ℤ)) : Type 0 where
  differ : distinct eq_ℤ (port_numbers ports) ≡ true
  valid : All (λ p. valid_port p ≡ true) (port_numbers ports)
  free : All (λ p. excludes before p ≡ false) (port_numbers ports)
  known : All (λ p. excludes excluded p ≡ true) (port_numbers ports)
  grown : (p : ℤ) → excludes before p ≡ true → excludes excluded p ≡ true

All-put :
    (P : ℤ → Type 0) (name : String) (port : ℤ) (ports : List (String × ℤ))
    → P port
    → All P (port_numbers ports)
    → All P (port_numbers (put name port ports))
unfolding put
All-put P name port [] h hs = (h, tt)
All-put P name port ((n, p) ∷ ports) h hs = elim (Bool-cases (str_eq n name)) [
  | inl same ↦ rw same (h, hs.1)
  | inr other ↦ rw other (hs.0, All-put P name port ports h hs.1)
]

-- What is not excluded is not among ports that are.
absent :
    (excluded : List ℤ) (q : ℤ) (ports : List (String × ℤ))
    → All (λ p. excludes excluded p ≡ true) (port_numbers ports)
    → excludes excluded q ≡ false
    → excludes (port_numbers ports) q ≡ false
absent excluded q [] known new = refl
absent excluded q ((n, p) ∷ ports) known new = elim (Bool-cases (eq_ℤ q p)) [
  | inl same ↦
      let is : q ≡ p = (eq_ℤ_iff q p).0 same in
      let clash : excludes excluded q ≡ true = rw is known.0 in ground (arith, clash, new)
  | inr other ↦ ground (arith, other, absent excluded q ports known.1 new)
]

wider :
    (excluded : List ℤ) (port : ℤ) (ports : List (String × ℤ))
    → All (λ p. excludes excluded p ≡ true) (port_numbers ports)
    → All (λ p. excludes (port ∷ excluded) p ≡ true) (port_numbers ports)
wider excluded port [] known = tt
wider excluded port ((n, p) ∷ ports) known =
    (ground (arith, known.0), wider excluded port ports known.1)

Fresh-put :
    (before excluded : List ℤ) (name : String) (port : ℤ) (ports : List (String × ℤ))
    → Fresh before excluded ports
    → valid_port port ≡ true
    → excludes excluded port ≡ false
    → Fresh before (port ∷ excluded) (put name port ports)
Fresh-put before excluded name port ports h good new =
    let unused : excludes before port ≡ false = elim (Bool-cases (excludes before port)) [
      | inl old ↦ ground (arith, h.grown port old, new)
      | inr fine ↦ fine
    ] in
    record {
      differ = distinct-put name port ports (absent excluded port ports h.known new) h.differ;
      valid = All-put (λ p. valid_port p ≡ true) name port ports good h.valid;
      free = All-put (λ p. excludes before p ≡ false) name port ports unused h.free;
      known =
          All-put (λ p. excludes (port ∷ excluded) p ≡ true) name port ports
            (ground (arith, (eq_ℤ_iff port port).1 refl)) (wider excluded port ports h.known);
      grown = λ p old. ground (arith, h.grown p old);
    }

-- What an allocation may answer.
abbrev pub IsFresh : {E : Type 0} → List ℤ → Result (PortError E) (List (String × ℤ)) → Type 0
IsFresh before (err e) = Unit
IsFresh before (ok ports) =
    (distinct eq_ℤ (port_numbers ports) ≡ true)
    × All (λ p. valid_port p ≡ true) (port_numbers ports)
    × All (λ p. excludes before p ≡ false) (port_numbers ports)

module _ {E W : Type 0} (session : Reservations E W) where
  next_step-IsFresh :
      {A : Type 0} (before : List ℤ) (r : Result E A × W)
      (next : A → W → Result (PortError E) (List (String × ℤ)) × W)
      → ((a : A) (w : W) → IsFresh before (next a w).0)
      → IsFresh before (next_step session r next).0
  next_step-IsFresh before (ok a, w) next h = h a w
  next_step-IsFresh before (err e, w) next h = tt

  allocate_names-IsFresh :
      (id path : String) (names : List String) (before excluded : List ℤ)
      (ports : List (String × ℤ)) (w : W)
      → Fresh before excluded ports
      → IsFresh before (allocate_names session id path names excluded ports w).0
  unfolding allocate_names
  allocate_names-IsFresh id path [] before excluded ports w h = (h.differ, h.valid, h.free)
  allocate_names-IsFresh id path (name ∷ rest) before excluded ports w h =
      next_step-IsFresh before (session.find_port excluded w) _ λ port w1.
        elim (Bool-cases (valid_port port && not (excludes excluded port))) [
          | inr refused ↦ rw refused tt
          | inl taken ↦
              let step =
                Fresh-put before excluded name port ports h (ground (arith, taken))
                  (ground (arith, taken)) in
              rw taken (
                next_step-IsFresh before (session.reserve port id path w1) _ λ done w2.
                  allocate_names-IsFresh id path rest before (port ∷ excluded) (put name port ports)
                    w2 step)
        ]

  -- The ports that a successful allocation stores, and where it stores them.
  abbrev pub Published : State → Found → List ℤ → State → WorkspaceRecord → Type 0
  Published s f before t v =
      (ports : List (String × ℤ)) × (v
        ≡ record f.workspace { assignment = some (record f.assignment { ports = ports }) })
      × (t ≡ store_at f.key v s)
      × IsFresh {E = E} before (ok ports)

  publish_ports-eq :
      (s : State) (f : Found) (before : List ℤ) (r : Result (PortError E) (List (String × ℤ)) × W)
      {t : State} {v : WorkspaceRecord}
      → IsFresh before r.0
      → (publish_ports session s f r).0 ≡ ok (t, v)
      → Published s f before t v
  publish_ports-eq s f before (err e, w) fresh done = ground (arith, done)
  publish_ports-eq s f before (ok ports, w) {t} {v} fresh done =
      elim (Result-cases (session.commit w).0) [
        | inr (e, bad) ↦ ground (arith, bad, done)
        | inl (unit, fine) ↦
            let stored : t
                ≡ store_at f.key
                    (record f.workspace {
                      assignment = some (record f.assignment { ports = ports });
                    })
                    s =
              ground (arith, fine, done) in
            let is : v
                ≡ record f.workspace { assignment = some (record f.assignment { ports = ports }) } =
              ground (arith, fine, done) in
            (ports, is, stored ∙ ap (λ u. store_at f.key u s) (sym is), fresh)
      ]

  -- Whenever an allocation succeeds, the assignment was found in an assigned workspace, and the
  -- result is its record with new ports, stored under its key. The new ports lie between 1 and
  -- 65535, differ from each other, and none of them was reserved or belonged to any assignment.
  pub allocate-Published :
      (id path : String) (names : List String) (s : State) (w : W) {t : State} {v : WorkspaceRecord}
      → (allocate session id path names s w).0 ≡ ok (t, v)
      → (f : Found) × (find_assignment id s.workspaces ≡ some f)
        × (is_assigned f.workspace.lifecycle ≡ true)
        × Published s f (excluded_ports session s w) t v
  unfolding allocate
  allocate-Published id path names s w done =
      elim (Option-cases (find_assignment id s.workspaces)) [
        | inl missing ↦ ground (arith, missing, done)
        | inr (f, located) ↦ elim (Bool-cases (is_assigned f.workspace.lifecycle)) [
          | inr other ↦ ground (arith, located, other, done)
          | inl owned ↦
              let before = excluded_ports session s w in
              let start : Fresh before before [] = record {
                differ = refl;
                valid = tt;
                free = tt;
                known = tt;
                grown = λ p old. old;
              } in
              (
                f,
                located,
                owned,
                publish_ports-eq s f before (allocate_names session id path names before [] w)
                    (allocate_names-IsFresh id path names before before [] w start)
                    (rw (allocate, located, owned) at done),
              )
        ]
      ]
