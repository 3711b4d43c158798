-- ===== src/Prelude/Sorting.antt =====
-- sort.Slice by a less function: a stable insertion sort, with what its callers rely on.
use mathlib.Core.Path.{◌≡◌}
use mathlib.Core.Logic.{◌⊎◌, inl, inr}
use mathlib.Core.Bool.{Bool, true, false}
use mathlib.Core.List.{List, [], ◌∷◌, Perm}
use mathlib.Core.List.Perm
use ruk.Prelude.Tests.{if◌then◌else◌, Bool-cases}
use ruk.Prelude.Lists.{All, All-map, ◌∈◌}

regroup : {P Q R S : Type 0} → P ⊎ (Q ⊎ R) → (P ⊎ R → S) → Q ⊎ S
regroup (inl p) f = inr (f (inl p))
regroup (inr (inl q)) f = inl q
regroup (inr (inr r)) f = inr (f (inr r))

-- No element is less than one that stands before it.
module _ {A : Type 0} (less : A → A → Bool) where
  unfoldable pub insert_by : A → List A → List A
  insert_by x [] = x ∷ []
  insert_by x (y ∷ ys) = if less y x then y ∷ insert_by x ys else x ∷ y ∷ ys

  unfoldable pub sort_by : List A → List A
  unfolding insert_by
  sort_by [] = []
  sort_by (x ∷ xs) = insert_by x (sort_by xs)

  abbrev pub IsSorted : List A → Type 0
  IsSorted [] = Unit
  IsSorted (x ∷ xs) = All (λ y. less y x ≡ false) xs × IsSorted xs

  insert_by-perm : (x : A) (xs : List A) → Perm (insert_by x xs) (x ∷ xs)
  unfolding insert_by
  insert_by-perm x [] = Perm.refl _
  insert_by-perm x (y ∷ ys) = elim (Bool-cases (less y x)) [
    | inl e ↦ rw e (Perm.trans (Perm.cons y (insert_by-perm x ys)) (Perm.swap x y ys))
    | inr e ↦ rw e (Perm.refl _)
  ]

  pub sort_by-perm : (xs : List A) → Perm (sort_by xs) xs
  unfolding sort_by
  sort_by-perm [] = Perm.refl _
  sort_by-perm (x ∷ xs) = Perm.trans (insert_by-perm x (sort_by xs)) (Perm.cons x (sort_by-perm xs))

  All-insert_by : (P : A → Type 0) (x : A) (xs : List A) → P x → All P xs → All P (insert_by x xs)
  unfolding insert_by
  All-insert_by P x [] p h = (p, tt)
  All-insert_by P x (y ∷ ys) p h = elim (Bool-cases (less y x)) [
    | inl e ↦ rw e (h.0, All-insert_by P x ys p h.1)
    | inr e ↦ rw e (p, h)
  ]

  pub All-sort_by : (P : A → Type 0) (xs : List A) → All P xs → All P (sort_by xs)
  unfolding sort_by
  All-sort_by P [] h = tt
  All-sort_by P (x ∷ xs) h = All-insert_by P x (sort_by xs) h.0 (All-sort_by P xs h.1)

  ∈-insert_by : (a x : A) (xs : List A) → (a ≡ x) ⊎ (a ∈ xs) → a ∈ insert_by x xs
  unfolding insert_by
  ∈-insert_by a x [] h = h
  ∈-insert_by a x (y ∷ ys) h = elim (Bool-cases (less y x)) [
    | inl e ↦ rw e (regroup h (∈-insert_by a x ys))
    | inr e ↦ rw e h
  ]

  pub ∈-sort_by : (a : A) (xs : List A) → a ∈ xs → a ∈ sort_by xs
  unfolding sort_by
  ∈-sort_by a [] h = h
  ∈-sort_by a (x ∷ xs) (inl p) = ∈-insert_by a x (sort_by xs) (inl p)
  ∈-sort_by a (x ∷ xs) (inr p) = ∈-insert_by a x (sort_by xs) (inr (∈-sort_by a xs p))

  -- A less function that is asymmetric, and whose complement is transitive, sorts.
  module _ (asym : (x y : A) → less x y ≡ true → less y x ≡ false)
      (trans : (x y z : A) → less y x ≡ false → less z y ≡ false → less z x ≡ false) where
    insert_by-IsSorted : (x : A) (xs : List A) → IsSorted xs → IsSorted (insert_by x xs)
    unfolding insert_by
    insert_by-IsSorted x [] h = (tt, tt)
    insert_by-IsSorted x (y ∷ ys) h = elim (Bool-cases (less y x)) [
      | inl e ↦
          rw e (
            All-insert_by (λ z. less z y ≡ false) x ys (asym y x e) h.0,
            insert_by-IsSorted x ys h.1,
          )
      | inr e ↦ rw e (
        (
          e,
          All-map (λ z. less z y ≡ false) (λ z. less z x ≡ false) ys (λ z p. trans x y z e p) h.0,
        ),
        h,
      )
    ]

    pub sort_by-IsSorted : (xs : List A) → IsSorted (sort_by xs)
    unfolding sort_by
    sort_by-IsSorted [] = tt
    sort_by-IsSorted (x ∷ xs) = insert_by-IsSorted x (sort_by xs) (sort_by-IsSorted xs)
