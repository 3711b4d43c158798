-- ===== src/Services/Gives.antt =====
-- Effects whose results, if they return any, pass a test, whatever happens to the document.
use ruk.Prelude.{◌≡◌, refl, Bool, String, ℕ, if◌then◌else◌, arith}
use ruk.Prelude.Results.{Result, ok, err}
use ruk.Errors.{Error}
use ruk.Platform.{Platform}
use ruk.State.{State}
use ruk.State.Document.{update}
use ruk.Services.Failure.{Failure, joined}
use ruk.Services.Effects.{
  World, Effect, Seams, return, fail, after, attempt, publish, mutated, unlock_after, with_lock,
  mutate_document, transact,
}
use ruk.Services.Keeps.{update-eq}

abbrev pub Good : {A : Type 0} → (A → Type 0) → Result Failure A → Type 0
Good Q (ok a) = Q a
Good Q (err f) = Unit

Good-any : {A : Type 0} (r : Result Failure A) → Good (λ a. Unit) r
Good-any (ok a) = tt
Good-any (err f) = tt

-- What passes is what is returned.
pub Good-eq :
    {A : Type 0} (Q : A → Type 0) {a : A} (r : Result Failure A) → Good Q r → r ≡ ok a → Q a
Good-eq Q (ok b) h same = ground (arith, h, same)
Good-eq Q (err f) h same = ground (arith, same)

module _ {W : Type 0} where
  -- Whatever the effect returns passes.
  abbrev pub Gives : {A : Type 0} → (A → Type 0) → Effect W A → Type 0
  Gives Q m = (w : World W) → Good Q (m w).0

  Gives-after :
      {A B : Type 0} (Q : B → Type 0) (P : A → Type 0) (r : Result Failure A × World W)
      (bad : Failure → Effect W B) (good : A → Effect W B)
      → Good P r.0
      → ((f : Failure) → Gives Q (bad f))
      → ((a : A) → P a → Gives Q (good a))
      → Good Q (after r bad good).0
  Gives-after Q P (ok a, w) bad good h gb gg = gg a h w
  Gives-after Q P (err f, w) bad good h gb gg = gb f w

  pub Gives-attempt :
      {A B : Type 0} (Q : B → Type 0) (P : A → Type 0) (m : Effect W A) (bad : Failure → Effect W B)
      (good : A → Effect W B)
      → Gives P m
      → ((f : Failure) → Gives Q (bad f))
      → ((a : A) → P a → Gives Q (good a))
      → Gives Q (attempt m bad good)
  Gives-attempt Q P m bad good gm gb gg w = Gives-after Q P (m w) bad good (gm w) gb gg

  pub Gives-next :
      {A B : Type 0} (Q : B → Type 0) (m : Effect W A) (bad : Failure → Effect W B)
      (good : A → Effect W B)
      → ((f : Failure) → Gives Q (bad f))
      → ((a : A) → Gives Q (good a))
      → Gives Q (attempt m bad good)
  Gives-next Q m bad good gb gg w =
      Gives-after Q (λ a. Unit) (m w) bad good (Good-any (m w).0) gb (λ a _. gg a)

  pub Gives-if :
      {A : Type 0} (Q : A → Type 0) (b : Bool) (m k : Effect W A)
      → Gives Q m
      → Gives Q k
      → Gives Q (if b then m else k)
  Gives-if Q Bool.true m k gm gk = gm
  Gives-if Q Bool.false m k gm gk = gk

  module _ (seams : Seams W) where
    Good-unlocked :
        {A : Type 0} (Q : A → Type 0) (path : String) (r : Result Failure A × World W)
        → Good Q r.0
        → Good Q (unlock_after seams path r).0
    Good-unlocked Q path (ok a, w) h =
        Gives-next Q (seams.unlock path) fail (λ _. return a) (λ f w. tt) (λ _ w. h) w
    Good-unlocked Q path (err f, w) h =
        Gives-next Q (seams.unlock path) (λ g. fail (joined f g)) (λ _. fail f) (λ g w. tt)
          (λ _ w. tt) w

    pub Gives-with_lock :
        {A : Type 0} (Q : A → Type 0) (path : String) (m : Effect W A)
        → Gives Q m
        → Gives Q (with_lock seams path m)
    unfolding with_lock
    Gives-with_lock Q path m gm =
        Gives-next Q (seams.lock path) fail (λ _ w. unlock_after seams path (m w)) (λ f w. tt)
          λ _ w. Good-unlocked Q path (m w) (gm w)

    Good-published :
        {A : Type 0} (Q : A → Type 0) (t : State) (a : A) (w : World W)
        (r : Result Failure (Unit {0}) × W)
        → Q a
        → Good Q (publish seams t a w r).0
    Good-published Q t a w (ok done, o) h = h
    Good-published Q t a w (err f, o) h = tt

    Good-mutated :
        {A : Type 0} (Q : A → Type 0) (w : World W) (m : Result Error (State × A))
        → ((t : State) (a : A) → m ≡ ok (t, a) → Q a)
        → Good Q (mutated seams w m).0
    Good-mutated Q w (ok (t, a)) h = Good-published Q t a w (seams.replace_store w) (h t a refl)
    Good-mutated Q w (err x) h = tt

    pub Gives-transact :
        {A : Type 0} (Q : A → Type 0) (e : Platform) (mutate : ℕ → State → Result Error (State × A))
        → ((now : ℕ) (s t : State) (a : A) → mutate now s ≡ ok (t, a) → Q a)
        → Gives Q (transact seams e mutate)
    unfolding transact mutate_document
    Gives-transact Q e mutate good = Gives-with_lock Q seams.state_lock _ (
        Gives-next Q seams.read_store fail (λ _. mutate_document seams e mutate) (λ f w. tt)
          λ _ w. Good-mutated Q w (update e (mutate (seams.clock w)) w.document) λ t a done.
            good (seams.clock w) w.document t a
              (update-eq e (mutate (seams.clock w)) w.document t a done))
