-- ===== src/Descendants/Links.antt =====
-- descendantsCreatedAfterParents of internal/process/descendants.go, with the walk that it makes.
use ruk.Prelude.{
  ℕ, suc, ◌≡◌, Bool, true, false, ◌&&◌, ◌||◌, List, [], ◌∷◌, ◌++◌, ◌∈◌, Option, none, some,
  if◌then◌else◌, ltb, length, is_empty,
}
use ruk.Prelude.Int.{ℤ, eq_ℤ, is_positive}
use ruk.Versions.{Text}
use ruk.Versions.Parse.{parse_digits}
use ruk.Descendants.{Entry, has}

abbrev pub parse_ticks : Text → Option ℕ
parse_ticks text = if is_empty text then none else parse_digits 0 text

abbrev earlier : Option ℕ → Option ℕ → Bool
earlier (some child) (some parent) = ltb child parent
earlier _ _ = false

unfoldable pub created_before : Text → Text → Bool
unfolding parse_digits
created_before child parent = earlier (parse_ticks child) (parse_ticks parent)

-- children[parent]
unfoldable pub children_of : ℤ → List Entry → List ℤ
children_of parent [] = []
children_of parent (entry ∷ rest) =
    let others = children_of parent rest in
    if is_positive entry.pid && is_positive entry.parent_pid && eq_ℤ entry.parent_pid parent
    then entry.pid ∷ others
    else others

pub record Walk : Type 0 where
  pub kept : List ℤ
  pub queue : List ℤ

module _ (identities : ℤ → Text) where
  abbrev pub follow_child : ℤ → ℤ → Walk → Walk
  follow_child parent child w =
      if has w.kept child || created_before (identities child) (identities parent)
      then w
      else record { kept = child ∷ w.kept; queue = w.queue ++ (child ∷ []) }

  unfoldable pub follow : ℤ → List ℤ → Walk → Walk
  unfolding created_before
  follow parent [] w = w
  follow parent (child ∷ rest) w = follow parent rest (follow_child parent child w)

  -- The loop over the queue; none means that the fuel ran out.
  unfoldable pub walk : ℕ → List Entry → Walk → Option (List ℤ)
  unfolding follow children_of
  walk ℕ.zero entries w = none
  walk (ℕ.suc fuel) entries w = elim w.queue [
    | [] ↦ some w.kept
    | ◌∷◌ parent rest ↦
        walk fuel entries
          (follow parent (children_of parent entries) (record { kept = w.kept; queue = rest }))
  ]

unfoldable pub only_kept : List ℤ → List ℤ → List ℤ
only_kept kept [] = []
only_kept kept (pid ∷ rest) =
    let others = only_kept kept rest in if has kept pid then pid ∷ others else others

unfoldable pub descendants_created_after_parents :
    List Entry → ℤ → List ℤ → (ℤ → Text) → Option (List ℤ)
unfolding walk only_kept
descendants_created_after_parents entries root pids identities =
    elim (walk identities (suc (suc (length entries))) entries
      (record { kept = root ∷ []; queue = root ∷ [] })) [
        | none ↦ none
        | some kept ↦ some (only_kept kept pids)
      ]

-- The links that the walk follows: to a child that is not known to be older than its parent.
pub data Follows (identities : ℤ → Text) (root : ℤ) (entries : List Entry) : ℤ → Type 0 where
  starts : Follows identities root entries root
  links :
      (entry : Entry) (parent pid : ℤ)
      → entry ∈ entries
      → is_positive entry.pid ≡ true
      → entry.parent_pid ≡ parent
      → entry.pid ≡ pid
      → created_before (identities pid) (identities parent) ≡ false
      → Follows identities root entries parent
      → Follows identities root entries pid
