-- ===== src/Lifecycle/Keeps/Maps.antt =====
-- The workspaces of a state stand for a map: no key has two entries. Then what findAssignment finds
-- is what its key looks up.
use ruk.Prelude.{
  ◌≡◌, refl, inl, inr, Bool, true, false, not, List, [], ◌∷◌, Option, some, String, arith,
  Bool-cases, Option-cases, any_of, All, All-map, &&-eq-true,
}
use ruk.Prelude.Text.{str_eq, str_eq_iff, str_eq_refl}
use ruk.Prelude.Assoc.{lookup, put, delete}
use ruk.State.{WorkspaceRecord}
use ruk.State.Document.{distinct}
use ruk.Lifecycle.Records.{Found, find_assignment}
use ruk.Lifecycle.Assignment.{is_candidate, candidates}

abbrev pub keys : List (String × WorkspaceRecord) → List String
keys [] = []
keys ((key, w) ∷ rest) = key ∷ keys rest

abbrev pub IsMap : List (String × WorkspaceRecord) → Type 0
IsMap ws = distinct str_eq (keys ws) ≡ true

-- The entry that findAssignment returns holds the assignment that was asked for.
pub find_assignment-Found :
    (id : String) (ws : List (String × WorkspaceRecord)) {f : Found}
    → find_assignment id ws ≡ some f
    → (f.workspace.assignment ≡ some f.assignment) × (f.assignment.id ≡ id)
unfolding find_assignment
find_assignment-Found id [] found = cc
find_assignment-Found id ((key, w) ∷ ws) {f} found = elim (Option-cases w.assignment) [
  | inl free ↦ ground (arith, free, find_assignment-Found id ws {f = f})
  | inr (a, held) ↦ elim (Bool-cases (str_eq a.id id)) [
    | inl hit ↦ ground (arith, held, hit, str_eq_iff a.id id)
    | inr miss ↦ ground (arith, held, miss, find_assignment-Found id ws {f = f})
  ]
]

-- What is found stands under one of the keys.
find_assignment-key :
    (p : String → Bool) (id : String) (ws : List (String × WorkspaceRecord)) {f : Found}
    → find_assignment id ws ≡ some f
    → any_of p (keys ws) ≡ false
    → p f.key ≡ false
unfolding find_assignment
find_assignment-key p id [] found h = cc
find_assignment-key p id ((key, w) ∷ ws) {f} found h = elim (Option-cases w.assignment) [
  | inl free ↦ ground (arith, free, find_assignment-key p id ws {f = f})
  | inr (a, held) ↦ elim (Bool-cases (str_eq a.id id)) [
    | inl hit ↦ ground (arith, held, hit)
    | inr miss ↦ ground (arith, held, miss, find_assignment-key p id ws {f = f})
  ]
]

pub lookup-find_assignment :
    (id : String) (ws : List (String × WorkspaceRecord)) {f : Found}
    → IsMap ws
    → find_assignment id ws ≡ some f
    → lookup f.key ws ≡ some f.workspace
unfolding find_assignment lookup
lookup-find_assignment id [] m found = cc
lookup-find_assignment id ((key, w) ∷ ws) {f} m found =
    let absent = find_assignment-key (str_eq key) id ws {f = f} in
    let rest = lookup-find_assignment id ws {f = f} in
    elim (Option-cases w.assignment) [
      | inl free ↦ ground (arith, free, absent, rest)
      | inr (a, held) ↦ elim (Bool-cases (str_eq a.id id)) [
        | inl hit ↦ ground (arith, held, hit, str_eq_iff key key)
        | inr miss ↦ ground (arith, held, miss, absent, rest)
      ]
    ]

any_of-keys-put :
    (p : String → Bool) (key : String) (w : WorkspaceRecord) (ws : List (String × WorkspaceRecord))
    → p key ≡ false
    → any_of p (keys ws) ≡ false
    → any_of p (keys (put key w ws)) ≡ false
unfolding put
any_of-keys-put p key w [] new h = ground arith
any_of-keys-put p key w ((j, v) ∷ ws) new h = ground (arith, any_of-keys-put p key w ws)

pub put-IsMap :
    (key : String) (w : WorkspaceRecord) (ws : List (String × WorkspaceRecord))
    → IsMap ws
    → IsMap (put key w ws)
unfolding put
put-IsMap key w [] m = refl
put-IsMap key w ((j, v) ∷ ws) m =
    ground (arith, any_of-keys-put (str_eq j) key w ws, put-IsMap key w ws)

any_of-keys-delete :
    (p : String → Bool) (key : String) (ws : List (String × WorkspaceRecord))
    → any_of p (keys ws) ≡ false
    → any_of p (keys (delete key ws)) ≡ false
unfolding delete
any_of-keys-delete p key [] h = refl
any_of-keys-delete p key ((j, v) ∷ ws) h = ground (arith, any_of-keys-delete p key ws)

pub delete-IsMap :
    (key : String) (ws : List (String × WorkspaceRecord)) → IsMap ws → IsMap (delete key ws)
unfolding delete
delete-IsMap key [] m = refl
delete-IsMap key ((j, v) ∷ ws) m =
    ground (arith, any_of-keys-delete (str_eq j) key ws, delete-IsMap key ws)

-- A key that no entry has differs from one that is found.
lookup-other :
    (j key : String) (ws : List (String × WorkspaceRecord)) {w : WorkspaceRecord}
    → any_of (str_eq j) (keys ws) ≡ false
    → lookup key ws ≡ some w
    → str_eq j key ≡ false
unfolding lookup
lookup-other j key [] absent found = cc
lookup-other j key ((i, v) ∷ ws) {w} absent found =
    ground
      (arith, str_eq_iff i key, str_eq_iff j key, str_eq_iff j i, lookup-other j key ws {w = w})

abbrev pub IsCandidateOf :
    Option String → List (String × WorkspaceRecord) → String × WorkspaceRecord → Type 0
IsCandidateOf requested ws (key, w) =
    (lookup key ws ≡ some w) × (is_candidate requested (key, w) ≡ true)

IsCandidateOf-cons :
    (requested : Option String) (j : String) (v : WorkspaceRecord)
    (ws : List (String × WorkspaceRecord))
    → any_of (str_eq j) (keys ws) ≡ false
    → (entry : String × WorkspaceRecord) → IsCandidateOf requested ws entry
    → IsCandidateOf requested ((j, v) ∷ ws) entry
unfolding lookup
IsCandidateOf-cons requested j v ws absent (key, w) (found, wanted) =
    (rw (lookup-other j key ws absent found) found, wanted)

-- Every candidate is an entry that its key looks up, and is eligible.
pub candidates-IsCandidateOf :
    (requested : Option String) (ws : List (String × WorkspaceRecord))
    → IsMap ws
    → All (IsCandidateOf requested ws) (candidates requested ws)
unfolding candidates
candidates-IsCandidateOf requested [] m = tt
candidates-IsCandidateOf requested ((j, v) ∷ ws) m =
    let (absent, distinct_rest) =
      &&-eq-true (not (any_of (str_eq j) (keys ws))) (distinct str_eq (keys ws)) m in
    let lift = IsCandidateOf-cons requested j v ws (ground (arith, absent)) in
    let rest =
      All-map (IsCandidateOf requested ws) (IsCandidateOf requested ((j, v) ∷ ws))
        (candidates requested ws) lift (candidates-IsCandidateOf requested ws distinct_rest) in
    elim (Bool-cases (is_candidate requested (j, v))) [
      | inl wanted ↦ rw wanted ((head wanted, wanted), rest)
      | inr other ↦ rw other rest
    ]
  where
    head : is_candidate requested (j, v) ≡ true → lookup j ((j, v) ∷ ws) ≡ some v
    head wanted = unfold lookup in rw (str_eq_refl j)
