-- ===== src/Descendants/Walked.antt =====
-- The walk over the links, and the processes that it reaches.
use ruk.Prelude.{
  ℕ, suc, ◌+◌, ◌≤◌, ◌<◌, ◌≡◌, refl, inl, inr, ◌⊎◌, true, false, ◌&&◌, ◌||◌, List, [], ◌∷◌, ◌∈◌,
  some, length, arith, Bool-cases, All, All-append, All-member, length-append,
}
use ruk.Prelude.Int.{ℤ, eq_ℤ, eq_ℤ_iff, is_positive}
use ruk.Versions.{Text}
use ruk.Descendants.{Entry, has}
use ruk.Descendants.Closure.{unknown, unknown-le-length, unknown-cons}
use ruk.Descendants.Links.{
  created_before, children_of, Walk, follow_child, follow, walk, only_kept,
  descendants_created_after_parents, Follows, starts, links,
}

module _ (all : List Entry) (parent : ℤ) where
  -- A child of the parent is the process of an entry.
  abbrev IsChild : ℤ → Type 0
  IsChild child =
      (entry : Entry) × (entry ∈ all)
      × (is_positive entry.pid ≡ true)
      × (entry.parent_pid ≡ parent)
      × (entry.pid ≡ child)

  children_of-IsChild :
      (entries : List Entry)
      → All (λ entry. entry ∈ all) entries
      → All IsChild (children_of parent entries)
  unfolding children_of
  children_of-IsChild [] members = tt
  children_of-IsChild (entry ∷ rest) members =
      elim (Bool-cases
        (is_positive entry.pid && is_positive entry.parent_pid && eq_ℤ entry.parent_pid parent)) [
          | inl child ↦
              let here : entry.parent_pid ≡ parent =
                (eq_ℤ_iff entry.parent_pid parent).0 (ground (arith, child)) in
              rw child (
                (entry, members.0, ground (arith, child), here, refl),
                children_of-IsChild rest members.1,
              )
          | inr other ↦ rw other (children_of-IsChild rest members.1)
        ]

-- What is left to keep, and to take from the queue.
abbrev measure : List Entry → Walk → ℕ
measure all w = unknown all w.kept + length w.queue

module _ (identities : ℤ → Text) (root : ℤ) (all : List Entry) where
  abbrev Reached : ℤ → Type 0
  Reached = Follows identities root all

  record Good (w : Walk) : Type 0 where
    kept-Reached : (p : ℤ) → has w.kept p ≡ true → Reached p
    queue-Reached : All Reached w.queue

  follow_child-Good :
      (parent child : ℤ) (w : Walk)
      → Reached parent
      → IsChild all parent child
      → Good w
      → Good (follow_child identities parent child w)
        × (measure all (follow_child identities parent child w) ≤ measure all w)
  follow_child-Good parent child w above (entry, member, positive, below_parent, is) good =
      elim (Bool-cases
        (has w.kept child || created_before (identities child) (identities parent))) [
          | inl skipped ↦ rw skipped (good, omega arith)
          | inr taken ↦
              let reached =
                links entry parent child member positive below_parent is (ground (arith, taken))
                  above in
              let new : has w.kept entry.pid ≡ false = rw is (ground (arith, taken)) in
              let fewer = unknown-cons all w.kept entry member new in
              let fewer_here = rw is at fewer in
              rw taken (
                record {
                  kept-Reached = λ p h. elim (Bool-cases (eq_ℤ p child)) [
                    | inl same ↦ let q = (eq_ℤ_iff p child).0 same in rw q reached
                    | inr other ↦ good.kept-Reached p (ground (arith, h, other))
                  ];
                  queue-Reached =
                      All-append Reached w.queue (child ∷ []) good.queue-Reached (reached, tt);
                },
                omega (arith, fewer_here, length-append w.queue (child ∷ [])),
              )
        ]

  follow-Good :
      (parent : ℤ) (children : List ℤ) (w : Walk)
      → Reached parent
      → All (IsChild all parent) children
      → Good w
      → Good (follow identities parent children w)
        × (measure all (follow identities parent children w) ≤ measure all w)
  unfolding follow
  follow-Good parent [] w above linked good = (good, omega arith)
  follow-Good parent (child ∷ rest) w above linked good =
      let (first, less) = follow_child-Good parent child w above linked.0 good in
      let (later, still) =
        follow-Good parent rest (follow_child identities parent child w) above linked.1 first in
      (later, omega (arith, less, still))

  walk-Good :
      (fuel : ℕ) (kept queue : List ℤ)
      → unknown all kept + length queue < fuel
      → Good (record { kept = kept; queue = queue })
      → (final : List ℤ) × (walk identities fuel all (record { kept = kept; queue = queue })
          ≡ some final)
        × ((p : ℤ) → has final p ≡ true → Reached p)
  unfolding walk
  walk-Good ℕ.zero kept queue enough good = ground (arith, enough)
  walk-Good (ℕ.suc fuel) kept [] enough good = (kept, refl, good.kept-Reached)
  walk-Good (ℕ.suc fuel) kept (parent ∷ rest) enough good =
      let start : Walk = record { kept = kept; queue = rest } in
      let begun : Good start = record {
        kept-Reached = good.kept-Reached;
        queue-Reached = good.queue-Reached.1;
      } in
      let (next, less) =
        follow-Good parent (children_of parent all) start good.queue-Reached.0
          (children_of-IsChild all parent all (All-member all all (λ entry m. m))) begun in
      let after = follow identities parent (children_of parent all) start in
      walk-Good fuel after.kept after.queue (omega (arith, less, enough)) next

  first_or_later :
      (kept : List ℤ) (pid : ℤ) (rest : List ℤ) (p : ℤ)
      → Reached pid
      → (p ≡ pid) ⊎ (p ∈ only_kept kept rest)
      → (p ∈ only_kept kept rest → (p ∈ rest) × Reached p)
      → ((p ≡ pid) ⊎ (p ∈ rest)) × Reached p
  first_or_later kept pid rest p good (inl same) f = (inl same, rw same good)
  first_or_later kept pid rest p good (inr later) f =
      let (listed, there) = f later in (inr listed, there)

  only_kept-Reached :
      (kept pids : List ℤ)
      → ((p : ℤ) → has kept p ≡ true → Reached p)
      → (p : ℤ) → p ∈ only_kept kept pids
      → (p ∈ pids) × Reached p
  unfolding only_kept
  only_kept-Reached kept [] reached p member = elim member [ ]
  only_kept-Reached kept (pid ∷ rest) reached p member = elim (Bool-cases (has kept pid)) [
    | inl inside ↦
        first_or_later kept pid rest p (reached pid inside) (rw (inside, only_kept) at member)
          (only_kept-Reached kept rest reached p)
    | inr out ↦
        let (listed, good) =
          only_kept-Reached kept rest reached p (rw (out, only_kept) at member) in
        (inr listed, good)
  ]

  -- For every snapshot, root, list of processes and identities the walk ends within two rounds more
  -- than there are entries, and each process of its result is in the list, and is the root or linked
  -- to it by children that are not known to be older than their parents.
  pub descendants_created_after_parents_lem :
      (pids : List ℤ)
      → (result : List ℤ) × (descendants_created_after_parents all root pids identities
          ≡ some result)
        × ((p : ℤ) → p ∈ result → (p ∈ pids) × Follows identities root all p)
  unfolding descendants_created_after_parents
  descendants_created_after_parents_lem pids =
      let enough : unknown all (root ∷ []) + length (root ∷ []) < suc (suc (length all)) =
        omega (arith, unknown-le-length all (root ∷ [])) in
      let begun : Good (record { kept = root ∷ []; queue = root ∷ [] }) = record {
        kept-Reached = λ p h. let same = (eq_ℤ_iff p root).0 (ground (arith, h)) in rw same starts;
        queue-Reached = (starts, tt);
      } in
      let (final, done, reached) =
        walk-Good (suc (suc (length all))) (root ∷ []) (root ∷ []) enough begun in
      (
        only_kept final pids,
        rw (done, descendants_created_after_parents) refl,
        only_kept-Reached final pids reached,
      )
