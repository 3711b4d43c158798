-- ===== src/State/Document/Laws.antt =====
-- What storing one record does to the identifiers that a document holds.
use ruk.Prelude.{
  ◌≡◌, refl, inl, inr, Bool, true, false, List, [], ◌∷◌, ◌++◌, none, some, String, arith,
  Bool-cases, any_of, all_of, All,
}
use ruk.Prelude.Text.{str_eq}
use ruk.Prelude.Assoc.{lookup, put, delete}
use ruk.State.{WorkspaceRecord}
use ruk.State.Document.{held, distinct}

module _ {A : Type 0} where
  any_of-append :
      (p : A → Bool) (xs ys : List A)
      → any_of p xs ≡ false
      → any_of p ys ≡ false
      → any_of p (xs ++ ys) ≡ false
  any_of-append p [] ys h k = k
  any_of-append p (x ∷ xs) ys h k = ground (arith, any_of-append p xs ys)

  any_of-left : (p : A → Bool) (xs ys : List A) → any_of p (xs ++ ys) ≡ false → any_of p xs ≡ false
  any_of-left p [] ys h = refl
  any_of-left p (x ∷ xs) ys h = ground (arith, any_of-left p xs ys)

  any_of-right : (p : A → Bool) (xs ys : List A) → any_of p (xs ++ ys) ≡ false → any_of p ys ≡ false
  any_of-right p [] ys h = h
  any_of-right p (x ∷ xs) ys h = ground (arith, any_of-right p xs ys)

module _ {A : Type 0} (eq : A → A → Bool) where
  distinct-right : (xs ys : List A) → distinct eq (xs ++ ys) ≡ true → distinct eq ys ≡ true
  distinct-right [] ys h = h
  distinct-right (x ∷ xs) ys h = ground (arith, distinct-right xs ys)

  -- The tail of a list without repetition may be changed if no element of the front enters it.
  distinct-append :
      (xs ys zs : List A)
      → All (λ x. any_of (eq x) ys ≡ false → any_of (eq x) zs ≡ false) xs
      → distinct eq (xs ++ ys) ≡ true
      → distinct eq zs ≡ true
      → distinct eq (xs ++ zs) ≡ true
  distinct-append [] ys zs apart h k = k
  distinct-append (x ∷ xs) ys zs apart h k = ground (
    arith,
    any_of-left (eq x) xs ys,
    any_of-right (eq x) xs ys,
    any_of-append (eq x) xs zs,
    apart.0,
    distinct-append xs ys zs apart.1,
  )

module _ {A : Type 0} (f : WorkspaceRecord → List A) (key : String) (w' : WorkspaceRecord) where
  pub held-put_same :
      (w : WorkspaceRecord) (ws : List (String × WorkspaceRecord))
      → f w' ≡ f w
      → lookup key ws ≡ some w
      → held f (put key w' ws) ≡ held f ws
  unfolding lookup put
  held-put_same w [] same found = cc
  held-put_same w ((j, v) ∷ ws) same found = elim (Bool-cases (str_eq j key)) [
    | inl hit ↦ rw hit (ground (arith, hit))
    | inr miss ↦ rw miss (ground (arith, held-put_same w ws))
  ]

  any_of-held-put :
      (p : A → Bool) (ws : List (String × WorkspaceRecord))
      → any_of p (f w') ≡ false
      → any_of p (held f ws) ≡ false
      → any_of p (held f (put key w' ws)) ≡ false
  unfolding put
  any_of-held-put p [] new h = any_of-append p (f w') [] new refl
  any_of-held-put p ((j, v) ∷ ws) new h = elim (Bool-cases (str_eq j key)) [
    | inl hit ↦ rw hit (any_of-append p (f w') (held f ws) new (any_of-right p (f v) (held f ws) h))
    | inr miss ↦ rw miss (
        any_of-append p (f v) _ (any_of-left p (f v) (held f ws) h)
          (any_of-held-put p ws new (any_of-right p (f v) (held f ws) h)))
  ]

-- No value of ys is among xs.
module _ {A : Type 0} (eq : A → A → Bool) where
  abbrev pub Apart : List A → List A → Type 0
  Apart ys xs = All (λ y. any_of (eq y) xs ≡ false) ys

  module _ (eq_comm : (a b : A) → eq a b ≡ eq b a) where
    any_of-Apart : (x : A) (xs ys : List A) → Apart ys (x ∷ xs) → any_of (eq x) ys ≡ false
    any_of-Apart x xs [] h = refl
    any_of-Apart x xs (y ∷ ys) h = ground (arith, eq_comm x y, any_of-Apart x xs ys h.1, h.0)

    Apart-tail : (x : A) (xs ys : List A) → Apart ys (x ∷ xs) → Apart ys xs
    Apart-tail x xs [] h = tt
    Apart-tail x xs (y ∷ ys) h = (ground (arith, h.0), Apart-tail x xs ys h.1)

    Apart-comm : (xs ys : List A) → Apart ys xs → Apart xs ys
    Apart-comm [] ys h = tt
    Apart-comm (x ∷ xs) ys h = (any_of-Apart x xs ys h, Apart-comm xs ys (Apart-tail x xs ys h))

  Apart-left : (xs zs ys : List A) → Apart ys (xs ++ zs) → Apart ys xs
  Apart-left xs zs [] h = tt
  Apart-left xs zs (y ∷ ys) h = (any_of-left (eq y) xs zs h.0, Apart-left xs zs ys h.1)

  Apart-right : (xs zs ys : List A) → Apart ys (xs ++ zs) → Apart ys zs
  Apart-right xs zs [] h = tt
  Apart-right xs zs (y ∷ ys) h = (any_of-right (eq y) xs zs h.0, Apart-right xs zs ys h.1)

module _ {A : Type 0} (eq : A → A → Bool) (f : WorkspaceRecord → List A) where
  All-held-put :
      (key : String) (w' : WorkspaceRecord) (xs : List A) (ws : List (String × WorkspaceRecord))
      → All (λ x. any_of (eq x) (f w') ≡ false) xs
      → All
          (λ x. any_of (eq x) (held f ws) ≡ false → any_of (eq x) (held f (put key w' ws)) ≡ false)
          xs
  All-held-put key w' [] ws h = tt
  All-held-put key w' (x ∷ xs) ws h =
      (any_of-held-put f key w' (eq x) ws h.0, All-held-put key w' xs ws h.1)

  distinct-of_Apart :
      (eq_comm : (a b : A) → eq a b ≡ eq b a) (xs ys : List A)
      → distinct eq xs ≡ true
      → distinct eq ys ≡ true
      → Apart eq xs ys
      → distinct eq (xs ++ ys) ≡ true
  distinct-of_Apart eq_comm [] ys h k apart = k
  distinct-of_Apart eq_comm (x ∷ xs) ys h k apart =
      ground (arith, any_of-append (eq x) xs ys, apart.0, distinct-of_Apart eq_comm xs ys, apart.1)

  -- A record whose values no entry holds keeps the document distinct.
  pub distinct-held-put :
      (eq_comm : (a b : A) → eq a b ≡ eq b a) (key : String) (w' : WorkspaceRecord)
      (ws : List (String × WorkspaceRecord))
      → distinct eq (f w') ≡ true
      → Apart eq (f w') (held f ws)
      → distinct eq (held f ws) ≡ true
      → distinct eq (held f (put key w' ws)) ≡ true
  unfolding put
  distinct-held-put eq_comm key w' [] new fresh h =
      distinct-of_Apart eq_comm (f w') [] new refl fresh
  distinct-held-put eq_comm key w' ((j, v) ∷ ws) new fresh h = elim (Bool-cases (str_eq j key)) [
    | inl hit ↦ rw hit (
        distinct-of_Apart eq_comm (f w') (held f ws) new (distinct-right eq (f v) (held f ws) h)
          (Apart-right eq (f v) (held f ws) (f w') fresh))
    | inr miss ↦ rw miss (
        distinct-append eq (f v) (held f ws) _
          (All-held-put key w' (f v) ws
            (Apart-comm eq eq_comm (f v) (f w') (Apart-left eq (f v) (held f ws) (f w') fresh)))
          h
          (distinct-held-put eq_comm key w' ws new (Apart-right eq (f v) (held f ws) (f w') fresh)
            (distinct-right eq (f v) (held f ws) h)))
  ]

module _ {A : Type 0} (f : WorkspaceRecord → List A) (key : String) where
  any_of-held-delete :
      (p : A → Bool) (ws : List (String × WorkspaceRecord))
      → any_of p (held f ws) ≡ false
      → any_of p (held f (delete key ws)) ≡ false
  unfolding delete
  any_of-held-delete p [] h = refl
  any_of-held-delete p ((j, v) ∷ ws) h = elim (Bool-cases (str_eq j key)) [
    | inl hit ↦ rw hit (any_of-held-delete p ws (any_of-right p (f v) (held f ws) h))
    | inr miss ↦ rw miss (
        any_of-append p (f v) _ (any_of-left p (f v) (held f ws) h)
          (any_of-held-delete p ws (any_of-right p (f v) (held f ws) h)))
  ]

  All-held-delete :
      (eq : A → A → Bool) (xs : List A) (ws : List (String × WorkspaceRecord))
      → All
          (λ x. any_of (eq x) (held f ws) ≡ false → any_of (eq x) (held f (delete key ws)) ≡ false)
          xs
  All-held-delete eq [] ws = tt
  All-held-delete eq (x ∷ xs) ws = (any_of-held-delete (eq x) ws, All-held-delete eq xs ws)

  pub distinct-held-delete :
      (eq : A → A → Bool) (ws : List (String × WorkspaceRecord))
      → distinct eq (held f ws) ≡ true
      → distinct eq (held f (delete key ws)) ≡ true
  unfolding delete
  distinct-held-delete eq [] h = refl
  distinct-held-delete eq ((j, v) ∷ ws) h = elim (Bool-cases (str_eq j key)) [
    | inl hit ↦ rw hit (distinct-held-delete eq ws (distinct-right eq (f v) (held f ws) h))
    | inr miss ↦ rw miss (
        distinct-append eq (f v) (held f ws) _ (All-held-delete eq (f v) ws) h
          (distinct-held-delete eq ws (distinct-right eq (f v) (held f ws) h)))
  ]

-- Every entry passes a test after a record is stored that passes it under the key of the old one.
module _ (p : String × WorkspaceRecord → Bool) (key : String) where
  pub all_of-put :
      (w w' : WorkspaceRecord) (ws : List (String × WorkspaceRecord))
      → ((j : String) → str_eq j key ≡ true → p (j, w) ≡ true → p (j, w') ≡ true)
      → lookup key ws ≡ some w
      → all_of p ws ≡ true
      → all_of p (put key w' ws) ≡ true
  unfolding lookup put
  all_of-put w w' [] keep found h = cc
  all_of-put w w' ((j, v) ∷ ws) keep found h = elim (Bool-cases (str_eq j key)) [
    | inl hit ↦ rw hit (ground (arith, hit, keep j hit))
    | inr miss ↦ rw miss (ground (arith, all_of-put w w' ws keep))
  ]

  pub all_of-put_new :
      (w : WorkspaceRecord) (ws : List (String × WorkspaceRecord))
      → p (key, w) ≡ true
      → lookup key ws ≡ none
      → all_of p ws ≡ true
      → all_of p (put key w ws) ≡ true
  unfolding lookup put
  all_of-put_new w [] new found h = ground arith
  all_of-put_new w ((j, v) ∷ ws) new found h = elim (Bool-cases (str_eq j key)) [
    | inl hit ↦ rw hit (ground (arith, hit))
    | inr miss ↦ rw miss (ground (arith, all_of-put_new w ws))
  ]

  pub all_of-delete :
      (ws : List (String × WorkspaceRecord)) → all_of p ws ≡ true → all_of p (delete key ws) ≡ true
  unfolding delete
  all_of-delete [] h = refl
  all_of-delete ((j, v) ∷ ws) h = ground (arith, all_of-delete ws)

  pub all_of-lookup :
      (w : WorkspaceRecord) (ws : List (String × WorkspaceRecord))
      → lookup key ws ≡ some w
      → all_of p ws ≡ true
      → (j : String) × (str_eq j key ≡ true) × (p (j, w) ≡ true)
  unfolding lookup
  all_of-lookup w [] found h = cc
  all_of-lookup w ((j, v) ∷ ws) found h = elim (Bool-cases (str_eq j key)) [
    | inl hit ↦ (j, hit, ground (arith, hit))
    | inr miss ↦ all_of-lookup w ws (ground (arith, miss)) (ground arith)
  ]
