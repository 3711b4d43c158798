-- ===== src/Services/Keeps.antt =====
-- Effects that keep a property of the document.
use ruk.Prelude.{
  ℕ, ◌<◌, ◌≡◌, refl, inl, inr, Bool, true, false, if◌then◌else◌, List, some, String, arith,
}
use ruk.Prelude.Results.{Result, ok, err, Result-cases}
use ruk.Errors.{Error}
use ruk.Platform.{Platform, time_limit}
use ruk.State.{State, TrackedProcessRecord}
use ruk.State.Document.{update}
use ruk.Services.Failure.{Failure, joined}
use ruk.Services.Effects.{
  World, Effect, Seams, return, fail, after, attempt, publish, mutated, unlock_after, with_lock,
  mutate_document, transact,
}

-- A transaction writes what the mutation computed.
pub update-eq :
    {A : Type 0} (e : Platform) (mutate : State → Result Error (State × A)) (s t : State) (a : A)
    → update e mutate s ≡ ok (t, a)
    → mutate s ≡ ok (t, a)
unfolding update
update-eq e mutate s t a done = elim (Result-cases (mutate s)) [
  | inr (x, bad) ↦ ground (arith, done, bad)
  | inl ((t', a'), fine) ↦ ground (arith, done, fine)
]

module _ {W : Type 0} (P : State → Type 0) where
  abbrev pub Keeps : {A : Type 0} → Effect W A → Type 0
  Keeps m = (w : World W) → P w.document → P (m w).1.document

  Keeps-after :
      {A B : Type 0} (r : Result Failure A × World W) (bad : Failure → Effect W B)
      (good : A → Effect W B)
      → P r.1.document
      → ((f : Failure) → Keeps (bad f))
      → ((a : A) → Keeps (good a))
      → P (after r bad good).1.document
  Keeps-after (ok a, w) bad good h kb kg = kg a w h
  Keeps-after (err f, w) bad good h kb kg = kb f w h

  pub Keeps-attempt :
      {A B : Type 0} (m : Effect W A) (bad : Failure → Effect W B) (good : A → Effect W B)
      → Keeps m
      → ((f : Failure) → Keeps (bad f))
      → ((a : A) → Keeps (good a))
      → Keeps (attempt m bad good)
  Keeps-attempt m bad good km kb kg w h = Keeps-after (m w) bad good (km w h) kb kg

  pub Keeps-bind :
      {A B : Type 0} (m : Effect W A) (good : A → Effect W B)
      → Keeps m
      → ((a : A) → Keeps (good a))
      → Keeps (attempt m fail good)
  Keeps-bind m good km kg = Keeps-attempt m fail good km (λ f w h. h) kg

  pub Keeps-wrap :
      {A : Type 0} (f : Failure → Failure) (m : Effect W A)
      → Keeps m
      → Keeps (attempt m (λ x. fail (f x)) return)
  Keeps-wrap f m km = Keeps-attempt m (λ x. fail (f x)) return km (λ x w h. h) (λ a w h. h)

  pub Keeps-if :
      {A : Type 0} (b : Bool) (m k : Effect W A) → Keeps m → Keeps k → Keeps (if b then m else k)
  Keeps-if true m k km kk = km
  Keeps-if false m k km kk = kk

  -- Each call outside of the state keeps the property, whatever other programs do to the document
  -- meanwhile, and the clock stays before year 10000.
  pub record Seamless (seams : Seams W) : Type 0 where
    pub lock-Keeps : (path : String) → Keeps (seams.lock path)
    pub unlock-Keeps : (path : String) → Keeps (seams.unlock path)
    pub read-Keeps : Keeps seams.read_store
    pub exists-Keeps : (r : TrackedProcessRecord) → Keeps (seams.process_exists r)
    pub terminate-Keeps :
        (r : TrackedProcessRecord) (force : Bool) → Keeps (seams.terminate r force)
    pub pause-Keeps :
        (interval deadline : ℕ) (w : World W)
        → P w.document
        → P (seams.pause interval deadline w).1.document
    pub return-Keeps :
        (path : String) (force : Bool) (names : List String)
        → Keeps (seams.git_return path force names)
    pub relock-Keeps :
        (relock : String → Effect W (Unit {0})) (path : String)
        → seams.git_lock ≡ some relock
        → Keeps (relock path)
    pub ports-Keeps : (id : String) → Keeps (seams.release_ports id)
    pub clock-limit : (w : World W) → seams.clock w < time_limit

  module _ (seams : Seams W) (kept : Seamless seams) where
    Keeps-unlock_after :
        {A : Type 0} (path : String) (r : Result Failure A × World W)
        → P r.1.document
        → P (unlock_after seams path r).1.document
    Keeps-unlock_after path (ok a, w) h =
        Keeps-bind (seams.unlock path) (λ _. return a) (kept.unlock-Keeps path) (λ _ w h. h) w h
    Keeps-unlock_after path (err f, w) h =
        Keeps-attempt (seams.unlock path) (λ g. fail (joined f g)) (λ _. fail f)
          (kept.unlock-Keeps path) (λ g w h. h) (λ _ w h. h) w h

    pub Keeps-with_lock :
        {A : Type 0} (path : String) (m : Effect W A) → Keeps m → Keeps (with_lock seams path m)
    unfolding with_lock
    Keeps-with_lock path m km =
        Keeps-bind (seams.lock path) (λ _ w. unlock_after seams path (m w)) (kept.lock-Keeps path)
          λ _ w h. Keeps-unlock_after path (m w) (km w h)

    Keeps-publish :
        {A : Type 0} (t : State) (a : A) (w : World W) (r : Result Failure (Unit {0}) × W)
        → P w.document
        → P t
        → P (publish seams t a w r).1.document
    Keeps-publish t a w (ok done, o) old new = new
    Keeps-publish t a w (err f, o) old new = old

    Keeps-mutated :
        {A : Type 0} (w : World W) (m : Result Error (State × A))
        → P w.document
        → ((t : State) (a : A) → m ≡ ok (t, a) → P t)
        → P (mutated seams w m).1.document
    Keeps-mutated w (ok (t, a)) old new =
        Keeps-publish t a w (seams.replace_store w) old (new t a refl)
    Keeps-mutated w (err x) old new = old

    -- A transaction keeps what its mutation keeps.
    pub Keeps-transact :
        {A : Type 0} (e : Platform) (mutate : ℕ → State → Result Error (State × A))
        → ((now : ℕ) (s t : State) (a : A)
            → now < time_limit
            → P s
            → mutate now s ≡ ok (t, a)
            → P t)
        → Keeps (transact seams e mutate)
    unfolding transact mutate_document
    Keeps-transact e mutate step = Keeps-with_lock seams.state_lock _ (
        Keeps-bind seams.read_store (λ _. mutate_document seams e mutate) kept.read-Keeps
          λ _ w h. Keeps-mutated w (update e (mutate (seams.clock w)) w.document) h λ t a done.
            step (seams.clock w) w.document t a (kept.clock-limit w) h
              (update-eq e (mutate (seams.clock w)) w.document t a done))
