-- ===== src/Services/Triples.antt =====
-- What an effect leaves, by its result, when no other program changes the document and no lock and
-- no file fails.
use ruk.Prelude.{ℕ, ◌<◌, ◌≡◌, refl, String, Bool, true, false, if◌then◌else◌, arith}
use ruk.Prelude.Results.{Result, ok, err}
use ruk.Errors.{Error}
use ruk.Platform.{Platform, time_limit}
use ruk.State.{State}
use ruk.State.Document.{update}
use ruk.Services.Failure.{Failure, of_lifecycle, joined}
use ruk.Services.Effects.{
  World, Effect, Seams, return, fail, after, attempt, publish, mutated, unlock_after, with_lock,
  mutate_document, transact,
}
use ruk.Services.Keeps.{Keeps, Seamless}

module _ {W : Type 0} where
  -- From a document of P the effect leaves a result and a document of Q.
  abbrev pub Triple :
      {A : Type 0} → (State → Type 0) → Effect W A → (Result Failure A → State → Type 0) → Type 0
  Triple P m Q = (w : World W) → P w.document → Q (m w).0 (m w).1.document

  module _ {A B : Type 0} (R : Result Failure A → State → Type 0)
      (Q : Result Failure B → State → Type 0) where
    Triple-after :
        (r : Result Failure A × World W) (bad : Failure → Effect W B) (good : A → Effect W B)
        → R r.0 r.1.document
        → ((f : Failure) → Triple (R (err f)) (bad f) Q)
        → ((a : A) → Triple (R (ok a)) (good a) Q)
        → Q (after r bad good).0 (after r bad good).1.document
    Triple-after (ok a, w) bad good h tb tg = tg a w h
    Triple-after (err f, w) bad good h tb tg = tb f w h

    pub Triple-attempt :
        (P : State → Type 0) (m : Effect W A) (bad : Failure → Effect W B) (good : A → Effect W B)
        → Triple P m R
        → ((f : Failure) → Triple (R (err f)) (bad f) Q)
        → ((a : A) → Triple (R (ok a)) (good a) Q)
        → Triple P (attempt m bad good) Q
    Triple-attempt P m bad good tm tb tg w h = Triple-after (m w) bad good (tm w h) tb tg

  pub Triple-if :
      {A : Type 0} (P : State → Type 0) (Q : Result Failure A → State → Type 0) (b : Bool)
      (m k : Effect W A)
      → Triple P m Q
      → Triple P k Q
      → Triple P (if b then m else k) Q
  Triple-if P Q true m k tm tk = tm
  Triple-if P Q false m k tm tk = tk

  -- Locks are there to take, and the file of the state can be read and replaced.
  pub record Reliable (seams : Seams W) : Type 0 where
    pub locks : (path : String) (w : World W) → (seams.lock path w).0 ≡ ok tt
    pub unlocks : (path : String) (w : World W) → (seams.unlock path w).0 ≡ ok tt
    pub reads : (w : World W) → (seams.read_store w).0 ≡ ok tt
    pub replaces : (w : World W) → (seams.replace_store w).0 ≡ ok tt

  module _ (seams : Seams W) (alone : (P : State → Type 0) → Seamless P seams)
      (reliable : Reliable seams) where
    -- A call that succeeds and leaves the document alone.
    silent :
        {B : Type 0} (P : State → Type 0) (Q : Result Failure B → State → Type 0)
        (m : Effect W (Unit {0})) (bad : Failure → Effect W B) (good : Unit {0} → Effect W B)
        → ((w : World W) → (m w).0 ≡ ok tt)
        → Keeps P m
        → Triple P (good tt) Q
        → Triple P (attempt m bad good) Q
    silent P Q m bad good fine km tg w h =
        let there : Q (after (ok tt, (m w).1) bad good).0
            (after (ok tt, (m w).1) bad good).1.document =
          tg (m w).1 (km w h) in
        rw (fine w) there

    Triple-unlock_after :
        {A : Type 0} (Q : Result Failure A → State → Type 0) (path : String)
        (r : Result Failure A × World W)
        → Q r.0 r.1.document
        → Q (unlock_after seams path r).0 (unlock_after seams path r).1.document
    Triple-unlock_after Q path (ok a, w) h =
        silent (Q (ok a)) Q (seams.unlock path) fail (λ _. return a) (reliable.unlocks path)
          ((alone (Q (ok a))).unlock-Keeps path) (λ w h. h) w h
    Triple-unlock_after Q path (err f, w) h =
        silent (Q (err f)) Q (seams.unlock path) (λ g. fail (joined f g)) (λ _. fail f)
          (reliable.unlocks path) ((alone (Q (err f))).unlock-Keeps path) (λ w h. h) w h

    pub Triple-with_lock :
        {A : Type 0} (P : State → Type 0) (Q : Result Failure A → State → Type 0) (path : String)
        (m : Effect W A)
        → Triple P m Q
        → Triple P (with_lock seams path m) Q
    unfolding with_lock
    Triple-with_lock P Q path m tm =
        silent P Q (seams.lock path) fail (λ _ w. unlock_after seams path (m w))
          (reliable.locks path) ((alone P).lock-Keeps path)
          λ w h. Triple-unlock_after Q path (m w) (tm w h)

    Triple-publish :
        {A : Type 0} (Q : Result Failure A → State → Type 0) (t : State) (a : A) (w : World W)
        (r : Result Failure (Unit {0}) × W)
        → r.0 ≡ ok tt
        → Q (ok a) t
        → Q (publish seams t a w r).0 (publish seams t a w r).1.document
    Triple-publish Q t a w (ok done, o) fine h = h
    Triple-publish Q t a w (err f, o) fine h = ground (arith, fine)

    Triple-mutated :
        {A : Type 0} (Q : Result Failure A → State → Type 0) (w : World W)
        (m : Result Error (State × A))
        → ((t : State) (a : A) → m ≡ ok (t, a) → Q (ok a) t)
        → ((x : Error) → m ≡ err x → Q (err (of_lifecycle x)) w.document)
        → Q (mutated seams w m).0 (mutated seams w m).1.document
    Triple-mutated Q w (ok (t, a)) good bad =
        Triple-publish Q t a w (seams.replace_store w) (reliable.replaces w) (good t a refl)
    Triple-mutated Q w (err x) good bad = bad x refl

    -- A transaction leaves what its mutation computes, or the document as it was.
    pub Triple-transact :
        {A : Type 0} (P : State → Type 0) (Q : Result Failure A → State → Type 0) (e : Platform)
        (mutate : ℕ → State → Result Error (State × A))
        → ((now : ℕ) (s t : State) (a : A)
            → now < time_limit
            → P s
            → update e (mutate now) s ≡ ok (t, a)
            → Q (ok a) t)
        → ((now : ℕ) (s : State) (x : Error)
            → now < time_limit
            → P s
            → update e (mutate now) s ≡ err x
            → Q (err (of_lifecycle x)) s)
        → Triple P (transact seams e mutate) Q
    unfolding transact mutate_document
    Triple-transact P Q e mutate good bad = Triple-with_lock P Q seams.state_lock _ (
        silent P Q seams.read_store fail (λ _. mutate_document seams e mutate) reliable.reads
          (alone P).read-Keeps
          λ w h.
            let now = seams.clock w in
            let early = (alone P).clock-limit w in
            Triple-mutated Q w (update e (mutate now) w.document)
              (λ t a done. good now w.document t a early h done)
              (λ x done. bad now w.document x early h done))
