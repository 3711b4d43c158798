-- ===== src/Ports/Allocation/Distinct.antt =====
-- The names that validateAllocationNames accepts.
use ruk.Prelude.{
  ℕ, ◌≡◌, refl, inl, inr, true, false, List, [], ◌∷◌, String, All, arith, Bool-cases, ◌∙◌, sym,
  any_of,
}
use ruk.Prelude.Text.{codes, str_eq, str_eq_iff}
use ruk.Prelude.Results.{Result, ok, Result-cases}
use ruk.State.Document.{distinct}
use ruk.Ports.{normalize_name}
use ruk.Ports.Allocation.{same_name, validate_names}

ok-eq : {E A : Type 0} (a b : A) → Path (Result E A) (ok a) (ok b) → a ≡ b
ok-eq a b same = cc same

same_name_refl : (s : List ℕ) → same_name s s ≡ true
unfolding same_name
same_name_refl [] = refl
same_name_refl (c ∷ s) = ground (arith, same_name_refl s)

module _ (E : Type 0) (to_upper trim_space : List ℕ → List ℕ) where
  -- The variables of the names differ from those seen.
  abbrev Unseen : List (List ℕ) → List String → Type 0
  Unseen seen names =
      All
        (λ name.
          (environment : List ℕ)
          → normalize_name {E = E} to_upper trim_space (codes name) ≡ ok environment
          → any_of (same_name environment) seen ≡ false)
        names

  first-Unseen :
      (seen : List (List ℕ)) (name : String) (environment : List ℕ) (names : List String)
      → normalize_name {E = E} to_upper trim_space (codes name) ≡ ok environment
      → Unseen (environment ∷ seen) names
      → (any_of (str_eq name) names ≡ false) × Unseen seen names
  first-Unseen seen name environment [] is h = (refl, tt)
  first-Unseen seen name environment (other ∷ names) is h =
      let (later, rest) = first-Unseen seen name environment names is h.1 in
      (
        elim (Bool-cases (str_eq name other)) [
          | inr apart ↦ ground (arith, apart, later)
          | inl same ↦
              let again = h.0 environment (rw (sym ((str_eq_iff name other).0 same)) is) in
              ground (arith, again, same_name_refl environment)
        ],
        ((λ found found_is. let new = h.0 found found_is in ground (arith, new)), rest),
      )

  -- Names that validateAllocationNames accepts are different.
  pub distinct-validate_names :
      (seen : List (List ℕ)) (names : List String)
      → validate_names {E = E} to_upper trim_space seen names ≡ ok tt
      → (distinct str_eq names ≡ true) × Unseen seen names
  unfolding validate_names
  distinct-validate_names seen [] done = (refl, tt)
  distinct-validate_names seen (name ∷ names) done =
      elim (Result-cases (normalize_name {E = E} to_upper trim_space (codes name))) [
        | inr (e, bad) ↦ ground (arith, bad, done)
        | inl (environment, is) ↦ elim (Bool-cases (any_of (same_name environment) seen)) [
          | inl twice ↦ ground (arith, is, twice, done)
          | inr new ↦
              let (differ, unseen) =
                distinct-validate_names (environment ∷ seen) names
                  (ground (arith, is, new, done)) in
              let (alone, others) = first-Unseen seen name environment names is unseen in
              (
                ground (arith, alone, differ),
                (
                  (λ found found_is.
                      let same : found ≡ environment =
                        ok-eq found environment (sym found_is ∙ is) in
                      rw same new),
                  others,
                ),
              )
        ]
      ]
