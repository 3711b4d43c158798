-- ===== src/Descendants/Answer.antt =====
-- What Exists answers.
use ruk.Prelude.{
  ◌≡◌, refl, inl, inr, ◌⊎◌, Bool, true, false, List, [], ◌∷◌, ◌∈◌, none, some, if◌then◌else◌,
  any_of, arith, Bool-cases, ◌↔◌,
}
use ruk.Prelude.Int.{ℤ, eq_ℤ, eq_ℤ_iff, is_positive}
use ruk.Prelude.Results.{ok}
use ruk.Descendants.{Entry, has, in_group, is_longer_than_one, descends, exists}
use ruk.Descendants.Closure.{
  Descends, itself, child, Built, alone, joined, Built-Descends, ancestors_lem,
}

-- Some other process of the snapshot is in the group of the root, or its parent is the root or
-- descends from it.
abbrev pub HasDescendant : ℤ → List Entry → Type 0
HasDescendant root entries =
    (entry : Entry) × (entry ∈ entries)
    × (is_positive entry.pid ≡ true)
    × (eq_ℤ entry.pid root ≡ false)
    × ((eq_ℤ entry.group_id root ≡ true) ⊎ Descends root entries entry.parent_pid)

longer_of_two :
    (known : List ℤ) (p q : ℤ)
    → has known p ≡ true
    → has known q ≡ true
    → eq_ℤ p q ≡ false
    → is_longer_than_one known ≡ true
longer_of_two [] p q hp hq apart = ground (arith, hp)
longer_of_two (x ∷ []) p q hp hq apart =
    ground (arith, hp, hq, apart, eq_ℤ_iff p x, eq_ℤ_iff q x, eq_ℤ_iff p q)
longer_of_two (x ∷ y ∷ rest) p q hp hq apart = refl

any_of-∈ :
    {A : Type 0} (test : A → Bool) (xs : List A)
    → any_of test xs ≡ true
    → (x : A) × (x ∈ xs) × (test x ≡ true)
any_of-∈ test [] h = ground (arith, h)
any_of-∈ test (x ∷ xs) h = elim (Bool-cases (test x)) [
  | inl here ↦ (x, inl refl, here)
  | inr later ↦
      let (y, member, holds) = any_of-∈ test xs (ground (arith, h, later)) in (y, inr member, holds)
]

∈-any_of :
    {A : Type 0} (test : A → Bool) (x : A) (xs : List A)
    → x ∈ xs
    → test x ≡ true
    → any_of test xs ≡ true
∈-any_of test x [] member holds = elim member [ ]
∈-any_of test x (y ∷ xs) (inl same) holds = rw (← same) (rw holds refl)
∈-any_of test x (y ∷ xs) (inr later) holds = ground (arith, ∈-any_of test x xs later holds)

module _ (root : ℤ) (entries : List Entry) where
  Built-child :
      (known : List ℤ)
      → Built root entries known
      → is_longer_than_one known ≡ true
      → HasDescendant root entries
  Built-child (_ ∷ []) alone h = ground (arith, h)
  Built-child _ (joined entry known member new b) h =
      let (final, done, built, exact) = ancestors_lem root entries in
      (
        entry,
        member,
        ground (arith, new),
        ground (arith, new),
        inr (Built-Descends root entries known entry.parent_pid b (ground (arith, new))),
      )

  descends_sound : descends root entries ≡ true → HasDescendant root entries
  descends_sound h =
      let (final, done, built, exact) = ancestors_lem root entries in
      Built-child final built (rw (done, descends) at h)

  -- A process that has a known parent makes the set longer than the root alone.
  descends_complete :
      (entry : Entry)
      → entry ∈ entries
      → is_positive entry.pid ≡ true
      → eq_ℤ entry.pid root ≡ false
      → Descends root entries entry.parent_pid
      → descends root entries ≡ true
  descends_complete entry member positive other parent =
      let (final, done, built, exact) = ancestors_lem root entries in
      let young = (exact entry.pid).1 (child entry entry.pid member positive other parent refl) in
      let old = (exact root).1 itself in
      rw (done, descends) (longer_of_two final entry.pid root young old other)

  answer_sound :
      (if any_of (in_group root) entries then true else descends root entries) ≡ true
      → HasDescendant root entries
  answer_sound h = elim (Bool-cases (any_of (in_group root) entries)) [
    | inl grouped ↦
        let (entry, member, holds) = any_of-∈ (in_group root) entries grouped in
        (entry, member, ground (arith, holds), ground (arith, holds), inl (ground (arith, holds)))
    | inr alone_there ↦ descends_sound (rw alone_there at h)
  ]

  answer_complete :
      HasDescendant root entries
      → (if any_of (in_group root) entries then true else descends root entries) ≡ true
  answer_complete (entry, member, positive, other, inl group) =
      let grouped =
        ∈-any_of (in_group root) entry entries member (ground (arith, positive, other, group)) in
      rw grouped refl
  answer_complete (entry, member, positive, other, inr parent) =
      let below = descends_complete entry member positive other parent in ground (arith, below)

  -- For a positive root, a context that is not done and a table that can be read, the answer is
  -- true exactly if some other process of the snapshot is in the group of the root, or has a
  -- parent that is the root or descends from it.
  pub exists_iff :
      {E : Type 0} (unavailable : E)
      → is_positive root ≡ true
      → (exists root none unavailable (some (ok entries)) ≡ ok true) ↔ HasDescendant root entries
  unfolding exists
  exists_iff unavailable positive = (
    λ h. answer_sound (ground (arith, positive, h)),
    λ h. let yes_it_has = answer_complete h in rw positive (rw yes_it_has refl),
  )
