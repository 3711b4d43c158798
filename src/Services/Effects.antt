-- ===== src/Services/Effects.antt =====
-- Calls that act on the world: the document of internal/state, and whatever is outside of it. A
-- call may fail, and other programs may change the world while it runs. DirectoryLocker.With is
-- internal/lock/lock.go, Store.Update is internal/state/store.go.
use ruk.Prelude.{ℕ, Bool, List, Option, String}
use ruk.Prelude.Results.{Result, ok, err}
use ruk.Errors.{Error}
use ruk.Platform.{Platform}
use ruk.State.{TrackedProcessRecord, State}
use ruk.State.Document.{update}
use ruk.Services.Failure.{Failure, of_lifecycle, joined}

pub record World (W : Type 0) : Type 0 where
  pub document : State
  pub outside : W

abbrev pub Effect : Type 0 → Type 0 → Type 0
Effect W A = World W → Result Failure A × World W

module _ {W : Type 0} where
  abbrev pub return : {A : Type 0} → A → Effect W A
  return a w = (ok a, w)

  abbrev pub fail : {A : Type 0} → Failure → Effect W A
  fail f w = (err f, w)

  abbrev pub after :
      {A B : Type 0}
      → Result Failure A × World W
      → (Failure → Effect W B)
      → (A → Effect W B)
      → Result Failure B × World W
  after (ok a, w) bad good = good a w
  after (err f, w) bad good = bad f w

  -- `if err := m(); err != nil { bad }`, and what follows it.
  abbrev pub attempt :
      {A B : Type 0} → Effect W A → (Failure → Effect W B) → (A → Effect W B) → Effect W B
  attempt m bad good w = after (m w) bad good

  infixl 5 ◌>>=◌ ◌>>◌
  abbrev pub ◌>>=◌ : {A B : Type 0} → Effect W A → (A → Effect W B) → Effect W B
  m >>= f = attempt m fail f

  abbrev pub ◌>>◌ : {B : Type 0} → Effect W (Unit {0}) → Effect W B → Effect W B
  m >> k = m >>= λ _. k

  -- `return ..., fmt.Errorf("...: %w", err)`
  abbrev pub wrap : {A : Type 0} → (Failure → Failure) → Effect W A → Effect W A
  wrap f m = attempt m (λ e. fail (f e)) return

  abbrev pub lift : {A : Type 0} → Result Failure A → Effect W A
  lift r w = (r, w)

-- What the services call outside of the state: the store's file, locks, clock, processes, git and
-- the port registry. `pause` waits for the interval or until the deadline, and tells whether the
-- deadline came first. `text` formats an error.
pub record Seams (W : Type 0) : Type 0 where
  pub text : Failure → String
  pub trim : String → String  -- strings.TrimSpace
  pub join_path : String → String → String  -- filepath.Join
  pub state_lock : String
  pub clock : World W → ℕ
  pub lock : String → Effect W (Unit {0})  -- DirectoryLocker.Acquire
  pub unlock : String → Effect W (Unit {0})  -- Guard.Release
  pub read_store : Effect W (Unit {0})
  pub replace_store : World W → Result Failure (Unit {0}) × W  -- Store.replace
  pub process_exists : TrackedProcessRecord → Effect W Bool
  pub terminate : TrackedProcessRecord → Bool → Effect W Bool
  pub pause : ℕ → ℕ → World W → Bool × World W
  pub git_return : String → Bool → List String → Effect W (Unit {0})
  pub git_lock : Option (String → Effect W (Unit {0}))
  pub release_ports : String → Effect W (Unit {0})

module _ {W : Type 0} (seams : Seams W) where
  open seams use {lock, unlock, clock, read_store, replace_store, state_lock}

  -- The deferred release of the lock, whose error is joined to the result.
  abbrev pub unlock_after :
      {A : Type 0} → String → Result Failure A × World W → Result Failure A × World W
  unlock_after path (ok a, w) = attempt (unlock path) fail (λ _. return a) w
  unlock_after path (err f, w) = attempt (unlock path) (λ g. fail (joined f g)) (λ _. fail f) w

  unfoldable pub with_lock : {A : Type 0} → String → Effect W A → Effect W A
  with_lock path m = lock path >>= λ _. λ w. unlock_after path (m w)

  -- The new document takes the place of the old one if its file was replaced.
  abbrev pub publish :
      {A : Type 0}
      → State
      → A
      → World W
      → Result Failure (Unit {0}) × W
      → Result Failure A × World W
  publish t a w (ok done, o) = (ok a, record { document = t; outside = o })
  publish t a w (err f, o) = (err f, record { document = w.document; outside = o })

  abbrev pub mutated :
      {A : Type 0} → World W → Result Error (State × A) → Result Failure A × World W
  mutated w (ok (t, a)) = publish t a w (replace_store w)
  mutated w (err x) = (err (of_lifecycle x), w)

  module _ (e : Platform) where
    -- The mutation reads the clock once it has the document.
    unfoldable pub mutate_document :
        {A : Type 0} → (ℕ → State → Result Error (State × A)) → Effect W A
    unfolding update
    mutate_document mutate w = mutated w (update e (mutate (clock w)) w.document)

    unfoldable pub transact : {A : Type 0} → (ℕ → State → Result Error (State × A)) → Effect W A
    unfolding with_lock mutate_document
    transact mutate = with_lock state_lock (read_store >> mutate_document mutate)
