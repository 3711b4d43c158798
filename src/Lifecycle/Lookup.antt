-- ===== src/Lifecycle/Lookup.antt =====
-- The search for an assignment and the order of the entries: Go ranges over the workspaces in none.
use ruk.Prelude.{
  &&-eq-true, ◌∙◌, sym, ◌≡◌, refl, inl, inr, true, false, not, List, [], ◌∷◌, some, String, arith,
  Bool-cases, Option-cases, any_of,
}
use ruk.Prelude.Text.{str_eq, str_eq_iff, str_eq_refl}
use ruk.Prelude.Assoc.{lookup}
use ruk.State.{AssignmentRecord, WorkspaceRecord, State}
use ruk.State.Document.{held, assignment_of, distinct, valid_global_fences, valid_state}
use ruk.Platform.{Platform}
use ruk.Lifecycle.Records.{find_assignment}
use ruk.Lifecycle.Keeps.Sound.{IsSound}

any_of-held :
    (key : String) (ws : List (String × WorkspaceRecord)) {w : WorkspaceRecord}
    {a : AssignmentRecord}
    → lookup key ws ≡ some w
    → w.assignment ≡ some a
    → any_of (str_eq a.id) (held assignment_of ws) ≡ true
unfolding lookup
any_of-held key [] found holds = ground (arith, found)
any_of-held key ((j, v) ∷ ws) {w} {a} found holds = elim (Bool-cases (str_eq j key)) [
  | inl here ↦
      let is : v ≡ w = ground (arith, here) in
      let own : v.assignment ≡ some a = rw is holds in rw own (rw (str_eq_refl a.id) refl)
  | inr later ↦
      let rest = any_of-held key ws {w = w} {a = a} (ground (arith, later)) holds in
      elim (Option-cases v.assignment) [
        | inl free ↦ rw free rest
        | inr (b, taken) ↦ rw taken (ground (arith, rest))
      ]
]

-- A text that is not in a list differs from one that is.
other_id :
    (i j id : String) (xs : List String)
    → i ≡ id
    → any_of (str_eq i) xs ≡ true
    → not (any_of (str_eq j) xs) ≡ true
    → str_eq j id ≡ false
other_id i j id xs same member absent = elim (Bool-cases (str_eq j id)) [
  | inr other ↦ other
  | inl equal ↦
      let is : j ≡ i = (str_eq_iff j id).0 equal ∙ sym same in
      let clash : any_of (str_eq j) xs ≡ true = rw is member in ground (arith, clash, absent)
]

find_assignment-lookup :
    (id key : String) (ws : List (String × WorkspaceRecord)) {w : WorkspaceRecord}
    {a : AssignmentRecord}
    → distinct str_eq (held assignment_of ws) ≡ true
    → lookup key ws ≡ some w
    → w.assignment ≡ some a
    → a.id ≡ id
    → find_assignment id ws ≡ some (record { key = key; workspace = w; assignment = a })
unfolding lookup find_assignment
find_assignment-lookup id key [] apart found holds same = ground (arith, found)
find_assignment-lookup id key ((j, v) ∷ ws) {w} {a} apart found holds same =
    elim (Bool-cases (str_eq j key)) [
      | inl here ↦
          let is : v ≡ w = ground (arith, found, here) in
          let own : v.assignment ≡ some a = rw is holds in
          let spelled : j ≡ key = (str_eq_iff j key).0 here in
          let fits : str_eq a.id id ≡ true = (str_eq_iff a.id id).1 same in
          rw own (rw fits (rw (spelled, is) refl))
      | inr later ↦
          let below : lookup key ws ≡ some w = ground (arith, found, later) in
          let member = any_of-held key ws {w = w} {a = a} below holds in
          elim (Option-cases v.assignment) [
            | inl free ↦ rw free (
                find_assignment-lookup id key ws {w = w} {a = a} (rw free at apart) below holds
                  same)
            | inr (b, taken) ↦
                let others =
                  &&-eq-true (not (any_of (str_eq b.id) (held assignment_of ws)))
                    (distinct str_eq (held assignment_of ws)) (rw taken at apart) in
                let rest =
                  find_assignment-lookup id key ws {w = w} {a = a} others.1 below holds same in
                let differs : str_eq b.id id ≡ false =
                  other_id a.id b.id id (held assignment_of ws) same member others.0 in
                rw taken (rw differs rest)
          ]
    ]

-- Whenever a state is sound, an entry that holds the assignment of an identifier is the one that
-- the search for the identifier finds, wherever it stands among the entries.
pub find_assignment_unique :
    (e : Platform) (s : State) (id key : String) (w : WorkspaceRecord) (a : AssignmentRecord)
    → IsSound e s
    → lookup key s.workspaces ≡ some w
    → w.assignment ≡ some a
    → a.id ≡ id
    → find_assignment id s.workspaces ≡ some (record { key = key; workspace = w; assignment = a })
unfolding valid_state valid_global_fences
find_assignment_unique e s id key w a h found holds same =
    let valid = h.valid in
    find_assignment-lookup id key s.workspaces {w = w} {a = a} (ground (arith, valid)) found holds
      same
