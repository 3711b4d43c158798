-- ===== src/Descendants/Closure.antt =====
-- The loops of Exists, and the processes that descend from the root.
use ruk.Prelude.{
  ℕ, ◌+◌, ◌≤◌, ◌<◌, ◌≡◌, refl, inl, inr, true, false, List, [], ◌∷◌, ◌∈◌, some, if◌then◌else◌,
  length, arith, Bool-cases, All, All-∈, All-member, sym, ap, subst, ◌∙◌, ◌↔◌,
}
use ruk.Prelude.Int.{ℤ, eq_ℤ, eq_ℤ_iff, is_positive}
use ruk.Descendants.{Entry, Round, has, joins, take_entry, sweep, close}

-- The processes that descend from the root: it, and each other process whose parent does.
pub data Descends (root : ℤ) (entries : List Entry) : ℤ → Type 0 where
  itself : Descends root entries root
  child :
      (entry : Entry) (pid : ℤ)
      → entry ∈ entries
      → is_positive entry.pid ≡ true
      → eq_ℤ entry.pid root ≡ false
      → Descends root entries entry.parent_pid
      → pid ≡ entry.pid
      → Descends root entries pid

-- How many entries are not known yet.
pub unknown : List Entry → List ℤ → ℕ
unknown [] known = 0
unknown (entry ∷ rest) known = (if has known entry.pid then 0 else 1) + unknown rest known

pub unknown-le-length :
    (entries : List Entry) (known : List ℤ) → unknown entries known ≤ length entries
unfolding unknown
unknown-le-length [] known = omega arith
unknown-le-length (entry ∷ rest) known = ground (arith, unknown-le-length rest known)

abbrev Within : List ℤ → List ℤ → Type 0
Within known more = (p : ℤ) → has known p ≡ true → has more p ≡ true

unknown_mono :
    (entries : List Entry) (known more : List ℤ)
    → Within known more
    → unknown entries more ≤ unknown entries known
unfolding unknown
unknown_mono [] known more h = omega arith
unknown_mono (entry ∷ rest) known more h =
    ground (arith, h entry.pid, unknown_mono rest known more h)

has-cons : (known : List ℤ) (p q : ℤ) → has known q ≡ true → has (p ∷ known) q ≡ true
has-cons known p q h = ground (arith, h)

-- A new process lowers the count.
pub unknown-cons :
    (entries : List Entry) (known : List ℤ) (entry : Entry)
    → entry ∈ entries
    → has known entry.pid ≡ false
    → unknown entries (entry.pid ∷ known) < unknown entries known
unfolding unknown
unknown-cons [] known entry member new = elim member [ ]
unknown-cons (e ∷ rest) known entry (inl here) new =
    let same : e.pid ≡ entry.pid = rw here refl in
    ground (
      arith,
      same,
      new,
      (eq_ℤ_iff entry.pid entry.pid).1 refl,
      unknown_mono rest known (entry.pid ∷ known) (has-cons known entry.pid),
    )
unknown-cons (e ∷ rest) known entry (inr later) new =
    ground (arith, unknown-cons rest known entry later new, has-cons known entry.pid e.pid)

-- A pass keeps what is known.
sweep-Within :
    (root : ℤ) (entries : List Entry) (r : Round) → Within r.known (sweep root entries r).known
unfolding sweep
sweep-Within root [] r p h = h
sweep-Within root (entry ∷ rest) r p h = sweep-Within root rest (take_entry root entry r) p (grow h)
  where
    grow : has r.known p ≡ true → has (take_entry root entry r).known p ≡ true
    grow h = ground (arith, has-cons r.known entry.pid p h)

take_entry-kept :
    (root : ℤ) (entry : Entry) (r : Round)
    → joins root r.known entry ≡ false
    → take_entry root entry r ≡ r
take_entry-kept root entry r kept = rw kept refl

-- A pass that adds nothing leaves the set as it was, and found no process to add.
abbrev Settled : ℤ → List ℤ → List Entry → Type 0
Settled root known = All (λ entry. joins root known entry ≡ false)

sweep-Settled :
    (root : ℤ) (entries : List Entry) (r : Round)
    → (sweep root entries r).changed ≡ false
    → (r.changed ≡ false) × ((sweep root entries r).known ≡ r.known) × Settled root r.known entries
unfolding sweep
sweep-Settled root [] r h = (h, refl, tt)
sweep-Settled root (entry ∷ rest) r h = elim (Bool-cases (joins root r.known entry)) [
  | inl joined ↦
      let ih = sweep-Settled root rest (take_entry root entry r) h in ground (arith, joined, ih.0)
  | inr kept ↦
      let is = take_entry-kept root entry r kept in
      let (still, same, settled) =
        sweep-Settled root rest r (subst (λ x. (sweep root rest x).changed ≡ false) is h) in
      (still, ap (λ x. (sweep root rest x).known) is ∙ same, (kept, settled))
]

-- A pass that adds something makes the count of unknown processes fall.
sweep-unknown :
    (root : ℤ) (all entries : List Entry) (known : List ℤ)
    → All (λ entry. entry ∈ all) entries
    → (sweep root entries (record { known = known; changed = false })).changed ≡ true
    → unknown all (sweep root entries (record { known = known; changed = false })).known
      < unknown all known
unfolding sweep
sweep-unknown root all [] known members h = ground (arith, h)
sweep-unknown root all (entry ∷ rest) known members h = elim (Bool-cases (joins root known entry)) [
  | inl joined ↦
      let new : has known entry.pid ≡ false = ground (arith, joined) in
      let next : Round = record { known = entry.pid ∷ known; changed = true } in
      let is : take_entry root entry (record { known = known; changed = false }) ≡ next =
        rw joined refl in
      let fewer = unknown-cons all known entry members.0 new in
      let kept = unknown_mono all (entry.pid ∷ known) _ (sweep-Within root rest next) in
      subst (λ x. unknown all (sweep root rest x).known < unknown all known) (sym is)
        (omega (arith, fewer, kept))
  | inr kept ↦
      let is = take_entry-kept root entry (record { known = known; changed = false }) kept in
      subst (λ x. unknown all (sweep root rest x).known < unknown all known) (sym is)
        (sweep-unknown root all rest known members.1
          (subst (λ x. (sweep root rest x).changed ≡ true) is h))
]

-- Every member of the set but the last, which is the root, joined it as the child of a member.
pub data Built (root : ℤ) (entries : List Entry) : List ℤ → Type 0 where
  alone : Built root entries (root ∷ [])
  joined :
      (entry : Entry) (known : List ℤ)
      → entry ∈ entries
      → joins root known entry ≡ true
      → Built root entries known
      → Built root entries (entry.pid ∷ known)

take_entry-Built :
    (root : ℤ) (entries : List Entry) (entry : Entry) (r : Round)
    → entry ∈ entries
    → Built root entries r.known
    → Built root entries (take_entry root entry r).known
take_entry-Built root entries entry r member b = elim (Bool-cases (joins root r.known entry)) [
  | inl new ↦ rw new (joined entry r.known member new b)
  | inr kept ↦ rw kept b
]

sweep-Built :
    (root : ℤ) (all entries : List Entry) (r : Round)
    → All (λ entry. entry ∈ all) entries
    → Built root all r.known
    → Built root all (sweep root entries r).known
unfolding sweep
sweep-Built root all [] r members b = b
sweep-Built root all (entry ∷ rest) r members b =
    sweep-Built root all rest (take_entry root entry r) members.1
      (take_entry-Built root all entry r members.0 b)

-- With more fuel than there are unknown processes the outer loop ends, in a set that was built by
-- its passes and to which no process is left to add.
close-Settled :
    (fuel : ℕ) (root : ℤ) (entries : List Entry) (known : List ℤ)
    → unknown entries known < fuel
    → Built root entries known
    → (final : List ℤ) × (close fuel root entries known ≡ some final)
      × Built root entries final
      × Within known final
      × Settled root final entries
unfolding close
close-Settled ℕ.zero root entries known enough b = ground (arith, enough)
close-Settled (ℕ.suc fuel) root entries known enough b =
    let start : Round = record { known = known; changed = false } in
    let members = All-member entries entries (λ entry m. m) in
    let built = sweep-Built root entries entries start members b in
    elim (Bool-cases (sweep root entries start).changed) [
      | inl more ↦
          let fewer = sweep-unknown root entries entries known members more in
          let (final, done, good, grown, settled) =
            close-Settled fuel root entries (sweep root entries start).known
              (omega (arith, fewer, enough)) built in
          (final, rw more done, good, λ p h. grown p (sweep-Within root entries start p h), settled)
      | inr done ↦
          let (still, same, settled) = sweep-Settled root entries start done in
          (
            (sweep root entries start).known,
            rw done refl,
            built,
            sweep-Within root entries start,
            subst (λ k. Settled root k entries) (sym same) settled,
          )
    ]

-- Who is in a set that was built descends from the root.
pub Built-Descends :
    (root : ℤ) (entries : List Entry) (known : List ℤ) (p : ℤ)
    → Built root entries known
    → has known p ≡ true
    → Descends root entries p
Built-Descends root entries (_ ∷ []) p alone h =
    let same : p ≡ root = (eq_ℤ_iff p root).0 (ground (arith, h)) in rw same itself
Built-Descends root entries _ p (joined entry known member new b) h =
    elim (Bool-cases (eq_ℤ p entry.pid)) [
      | inl here ↦
          child entry p member (ground (arith, new)) (ground (arith, new))
            (Built-Descends root entries known entry.parent_pid b (ground (arith, new)))
            ((eq_ℤ_iff p entry.pid).0 here)
      | inr later ↦ Built-Descends root entries known p b (ground (arith, h, later))
    ]

-- In a settled set every descendant is known.
Descends-known :
    (root : ℤ) (entries : List Entry) (known : List ℤ) (p : ℤ)
    → has known root ≡ true
    → Settled root known entries
    → Descends root entries p
    → has known p ≡ true
Descends-known root entries known p first settled itself = first
Descends-known root entries known p first settled
      (child entry q member positive other parent same) =
    let above = Descends-known root entries known entry.parent_pid first settled parent in
    let stays = All-∈ (λ entry. joins root known entry ≡ false) entry entries settled member in
    rw same (ground (arith, positive, other, above, stays))

-- For every root and every snapshot the outer loop ends within one round more than there are
-- entries, and the set that it leaves holds exactly the processes that descend from the root.
pub ancestors_lem :
    (root : ℤ) (entries : List Entry)
    → (final : List ℤ) × (close (ℕ.suc (length entries)) root entries (root ∷ []) ≡ some final)
      × Built root entries final
      × ((p : ℤ) → (has final p ≡ true) ↔ Descends root entries p)
ancestors_lem root entries =
    let enough : unknown entries (root ∷ []) < ℕ.suc (length entries) =
      omega (arith, unknown-le-length entries (root ∷ [])) in
    let itself_known : has (root ∷ []) root ≡ true = ground (arith, (eq_ℤ_iff root root).1 refl) in
    let (final, done, built, grown, settled) =
      close-Settled (ℕ.suc (length entries)) root entries (root ∷ []) enough alone in
    (
      final,
      done,
      built,
      λ p. (
        λ h. Built-Descends root entries final p built h,
        λ d. Descends-known root entries final p (grown root itself_known) settled d,
      ),
    )
