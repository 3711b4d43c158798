-- ===== src/Lifecycle/Reservation.antt =====
-- Which workspace ReserveAvailableWorkspace takes.
use ruk.Prelude.{
  ℕ, ◌≡◌, inl, inr, Bool, true, false, List, [], ◌∷◌, ◌∈◌, Option, some, String, arith, Bool-cases,
  All, All-∈, All-member,
}
use ruk.Prelude.Text.{str_eq_iff, str_lt_asym, str_lt_trans, str_lt_total}
use ruk.Prelude.Results.{ok, Result-cases}
use ruk.Prelude.Sorting.{sort_by, IsSorted, sort_by-IsSorted, ∈-sort_by, All-sort_by}
use ruk.Platform.{Platform}
use ruk.State.{WorkspaceRecord, State}
use ruk.Lifecycle.Records.{store_at}
use ruk.Lifecycle.Assignment.{
  AssignmentInput, validate_assignment_input, assign, older, text_or_empty, candidates,
  requested_key, reserve_first, reserve_available_workspace,
}

older_asym : (x y : String × WorkspaceRecord) → older x y ≡ true → older y x ≡ false
older_asym (i, v) (j, w) h =
    let s = text_or_empty v.available_at in
    let t = text_or_empty w.available_at in
    ground (
      arith,
      h,
      str_lt_asym s t,
      str_lt_asym t s,
      str_lt_asym v.path w.path,
      str_eq_iff s t,
      str_eq_iff t s,
    )

-- older reads as a linear order of the pairs of instant and path: what stands here is x ≤ y ≤ z.
older_trans :
    (x y z : String × WorkspaceRecord) → older y x ≡ false → older z y ≡ false → older z x ≡ false
older_trans (i, u) (j, v) (k, w) h g =
    let r = text_or_empty u.available_at in
    let s = text_or_empty v.available_at in
    let t = text_or_empty w.available_at in
    ground (
      arith,
      h,
      g,
      str_lt_trans r s t,
      str_lt_total r s,
      str_lt_total s t,
      str_lt_trans u.path v.path w.path,
      str_eq_iff t r,
      str_eq_iff s r,
      str_eq_iff r s,
      str_eq_iff t s,
      str_eq_iff s t,
    )

-- The head of a sorted list is least in it.
head_least :
    {A : Type 0} (less : A → A → Bool)
    → ((x y : A) → less x y ≡ true → less y x ≡ false)
    → (x : A) (xs : List A) → IsSorted less (x ∷ xs)
    → (y : A) → y ∈ (x ∷ xs)
    → less y x ≡ false
head_least {A = A} less asym x xs sorted y (inl same) = rw same (irreflexive x)
  where
    irreflexive : (x : A) → less x x ≡ false
    irreflexive x = elim (Bool-cases (less x x)) [
      | inl less_than ↦ asym x x less_than
      | inr other ↦ other
    ]
head_least less asym x xs sorted y (inr later) = All-∈ (λ y. less y x ≡ false) y xs sorted.0 later

-- What a reservation with a result has done: one of the candidates, older than none of which is any
-- other candidate, is assigned and stored under its key.
abbrev pub Oldest : List (String × WorkspaceRecord) → String × WorkspaceRecord → Type 0
Oldest all chosen = (other : String × WorkspaceRecord) → other ∈ all → older other chosen ≡ false

-- What the choice of the first of the sorted candidates has done.
reserve_first-Oldest :
    (e : Platform) (now : ℕ) (new_id new_operation_id : String) (input : AssignmentInput)
    (all sorted : List (String × WorkspaceRecord)) (s t : State) (result : WorkspaceRecord)
    → IsSorted older sorted
    → ((entry : String × WorkspaceRecord) → entry ∈ all → entry ∈ sorted)
    → All (λ entry. entry ∈ all) sorted
    → reserve_first e now new_id new_operation_id input sorted s ≡ ok (t, some result)
    → (key : String) × (w : WorkspaceRecord) × ((key, w) ∈ all)
      × (Oldest all (key, w))
      × (assign e now new_id new_operation_id input w ≡ ok result)
      × (t ≡ store_at key result s)
reserve_first-Oldest e now new_id new_operation_id input all [] s t result order here back done =
    ground arith
reserve_first-Oldest e now new_id new_operation_id input all ((key, w) ∷ rest) s t result order here
      back done =
    elim (Result-cases (assign e now new_id new_operation_id input w)) [
      | inr (x, bad) ↦ ground (arith, bad)
      | inl (w', fine) ↦ (
        key,
        w,
        back.0,
        λ other m. head_least older older_asym (key, w) rest order other (here other m),
        ground (arith, fine),
        ground (arith, fine),
      )
    ]

-- Whenever a reservation succeeds with a workspace, some key and record among the candidates
-- exist such that no candidate is older, the result is that record assigned, and the new state is
-- the old one with the result stored under that key.
pub reserve_available_workspace-Oldest :
    (e : Platform) (now : ℕ) (new_id new_operation_id : String) (input : AssignmentInput)
    (path : Option String) (s t : State) (result : WorkspaceRecord)
    → reserve_available_workspace e now new_id new_operation_id input path s ≡ ok (t, some result)
    → (requested : Option String) × (requested_key e path ≡ ok requested)
      × (key : String) × (w : WorkspaceRecord) × ((key, w) ∈ candidates requested s.workspaces)
      × (Oldest (candidates requested s.workspaces) (key, w))
      × (assign e now new_id new_operation_id input w ≡ ok result)
      × (t ≡ store_at key result s)
unfolding reserve_available_workspace
reserve_available_workspace-Oldest e now new_id new_operation_id input path s t result done =
    elim (Result-cases (validate_assignment_input input)) [
      | inr (x, bad) ↦ ground (arith, bad)
      | inl (u, valid) ↦ elim (Result-cases (requested_key e path)) [
        | inr (x, bad) ↦ ground (arith, valid, bad)
        | inl (requested, named) ↦
            let all = candidates requested s.workspaces in
            let (key, w, member, least, stored, is) =
              reserve_first-Oldest e now new_id new_operation_id input all (sort_by older all) s t
                result (sort_by-IsSorted older older_asym older_trans all)
                (λ entry m. ∈-sort_by older entry all m)
                (All-sort_by older (λ entry. entry ∈ all) all (All-member all all (λ a m. m)))
                (ground (arith, valid, named)) in
            (requested, named, key, w, member, least, stored, is)
      ]
    ]
