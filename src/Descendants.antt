-- ===== src/Descendants.antt =====
-- internal/process/descendants.go: whether a process has descendants, from one snapshot of the
-- process table. The snapshot and the context are the environment's.
pub mod Closure
pub mod Answer
pub mod Links
pub mod Walked
use ruk.Prelude.{
  ℕ, Bool, true, false, not, ◌&&◌, List, [], ◌∷◌, Option, none, some, if◌then◌else◌, any_of, length,
}
use ruk.Prelude.Int.{ℤ, eq_ℤ, is_positive}
use ruk.Prelude.Results.{Result, ok, err}

pub record Entry : Type 0 where
  pub pid : ℤ
  pub parent_pid : ℤ
  pub group_id : ℤ

abbrev pub has : List ℤ → ℤ → Bool
has known pid = any_of (eq_ℤ pid) known

-- The set of ancestors, and whether the current pass has added to it.
pub record Round : Type 0 where
  pub known : List ℤ
  pub changed : Bool

-- The tests of one turn of the inner loop, past which the entry joins the set.
abbrev pub joins : ℤ → List ℤ → Entry → Bool
joins root known entry =
    is_positive entry.pid
    && not (eq_ℤ entry.pid root)
    && not (has known entry.pid)
    && has known entry.parent_pid

abbrev pub take_entry : ℤ → Entry → Round → Round
take_entry root entry r =
    if joins root r.known entry then record { known = entry.pid ∷ r.known; changed = true } else r

-- One pass over the snapshot.
unfoldable pub sweep : ℤ → List Entry → Round → Round
sweep root [] r = r
sweep root (entry ∷ rest) r = sweep root rest (take_entry root entry r)

-- The outer loop; none means that the fuel ran out.
unfoldable pub close : ℕ → ℤ → List Entry → List ℤ → Option (List ℤ)
unfolding sweep
close ℕ.zero root entries known = none
close (ℕ.suc fuel) root entries known =
    let next = sweep root entries (record { known = known; changed = false }) in
    let rest = close fuel root entries next.known in if next.changed then rest else some next.known

-- A member of the process group that the root leads.
abbrev pub in_group : ℤ → Entry → Bool
in_group root entry = is_positive entry.pid && not (eq_ℤ entry.pid root) && eq_ℤ entry.group_id root

-- len(ancestors) > 1
abbrev pub is_longer_than_one : List ℤ → Bool
is_longer_than_one (x ∷ y ∷ rest) = true
is_longer_than_one _ = false

abbrev pub descends : ℤ → List Entry → Bool
descends root entries = elim (close (ℕ.suc (length entries)) root entries (root ∷ [])) [
  | none ↦ false
  | some ancestors ↦ is_longer_than_one ancestors
]

-- Exists: the context's error, the table that may be missing, and its answer.
unfoldable pub exists :
    {E : Type 0} → ℤ → Option E → E → Option (Result E (List Entry)) → Result E Bool
unfolding close
exists root cancelled unavailable table =
    if is_positive root
    then (elim cancelled [
      | some failure ↦ err failure
      | none ↦ elim table [
        | none ↦ err unavailable
        | some (err failure) ↦ err failure
        | some (ok entries) ↦
            ok (if any_of (in_group root) entries then true else descends root entries)
      ]
    ])
    else ok false
