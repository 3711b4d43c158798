-- ===== src/Lifecycle/Keeps/Stored.antt =====
-- When storing or deleting one workspace record keeps a document valid.
use ruk.Prelude.{◌≡◌, ◌⊎◌, inl, inr, Bool, true, List, [], none, some, String, arith}
use ruk.Prelude.Int.{ℤ, eq_ℤ}
use ruk.Prelude.Text.{str_eq, str_eq_iff, str_eq_refl}
use ruk.Prelude.Assoc.{lookup, put, delete}
use ruk.Platform.{Platform}
use ruk.State.{WorkspaceRecord, State}
use ruk.State.Valid.{tree_key}
use ruk.State.Document.{
  held, distinct, operation_of, assignment_of, ports_of, valid_workspace, valid_entry,
  valid_global_fences, valid_state,
}
use ruk.State.Document.Laws.{
  Apart, held-put_same, distinct-held-put, distinct-held-delete, all_of-put, all_of-put_new,
  all_of-delete, all_of-lookup,
}
use ruk.State.Document.Parts.{Parts, valid_of_Parts}
use ruk.Lifecycle.Records.{store_at}

str_eq_comm : (a b : String) → str_eq a b ≡ str_eq b a
str_eq_comm a b = ground (arith, str_eq_iff a b, str_eq_iff b a)

eq_ℤ_comm : (a b : ℤ) → eq_ℤ a b ≡ eq_ℤ b a
eq_ℤ_comm a b = ground arith

module _ {A : Type 0} (eq : A → A → Bool) (f : WorkspaceRecord → List A) where
  -- The values of the new record are those of the old one, or distinct values that no entry holds.
  abbrev pub Renewed : WorkspaceRecord → WorkspaceRecord → List (String × WorkspaceRecord) → Type 0
  Renewed w w' ws = (f w' ≡ f w) ⊎ ((distinct eq (f w') ≡ true) × Apart eq (f w') (held f ws))

  distinct-Renewed :
      (eq_comm : (a b : A) → eq a b ≡ eq b a) (key : String) (w w' : WorkspaceRecord)
      (ws : List (String × WorkspaceRecord))
      → lookup key ws ≡ some w
      → Renewed w w' ws
      → distinct eq (held f ws) ≡ true
      → distinct eq (held f (put key w' ws)) ≡ true
  distinct-Renewed eq_comm key w w' ws found (inl same) h =
      rw (held-put_same f key w' w ws same found) h
  distinct-Renewed eq_comm key w w' ws found (inr (new, apart)) h =
      distinct-held-put eq f eq_comm key w' ws new apart h

  distinct-empty :
      (eq_comm : (a b : A) → eq a b ≡ eq b a) (key : String) (w : WorkspaceRecord)
      (ws : List (String × WorkspaceRecord))
      → f w ≡ []
      → distinct eq (held f ws) ≡ true
      → distinct eq (held f (put key w ws)) ≡ true
  distinct-empty eq_comm key w ws empty =
      distinct-held-put eq f eq_comm key w ws (rw empty) (rw empty tt)

module _ (e : Platform) where
  -- What a transition owes for the document to stay valid.
  pub record Keeps (w w' : WorkspaceRecord) (ws : List (String × WorkspaceRecord)) : Type 0 where
    pub same_path : w'.path ≡ w.path
    pub valid : valid_workspace e w' ≡ true
    pub operation : Renewed str_eq operation_of w w' ws
    pub assignment : Renewed str_eq assignment_of w w' ws
    pub ports : Renewed eq_ℤ ports_of w w' ws

  pub keeps :
      (w w' : WorkspaceRecord) (ws : List (String × WorkspaceRecord))
      → w'.path ≡ w.path
      → Parts e w'
      → Renewed str_eq operation_of w w' ws
      → Renewed str_eq assignment_of w w' ws
      → Renewed eq_ℤ ports_of w w' ws
      → Keeps w w' ws
  keeps w w' ws path parts operation assignment ports = record {
    same_path = path;
    valid = valid_of_Parts e w' parts;
    operation = operation;
    assignment = assignment;
    ports = ports;
  }

  entry-Keeps :
      (w w' : WorkspaceRecord) (ws : List (String × WorkspaceRecord)) (j : String)
      → Keeps w w' ws
      → valid_entry e (j, w) ≡ true
      → valid_entry e (j, w') ≡ true
  unfolding valid_entry
  entry-Keeps w w' ws j k h = rw k.same_path (ground (arith, k.valid))

  fences-Keeps :
      (w w' : WorkspaceRecord) (ws : List (String × WorkspaceRecord)) (key : String)
      → Keeps w w' ws
      → lookup key ws ≡ some w
      → valid_global_fences ws ≡ true
      → valid_global_fences (put key w' ws) ≡ true
  unfolding valid_global_fences
  fences-Keeps w w' ws key k found h = ground (
    arith,
    distinct-Renewed str_eq operation_of str_eq_comm key w w' ws found k.operation,
    distinct-Renewed str_eq assignment_of str_eq_comm key w w' ws found k.assignment,
    distinct-Renewed eq_ℤ ports_of eq_ℤ_comm key w w' ws found k.ports,
  )

  pub valid_state-store_at :
      (key : String) (w w' : WorkspaceRecord) (s : State)
      → lookup key s.workspaces ≡ some w
      → Keeps w w' s.workspaces
      → valid_state e s ≡ true
      → valid_state e (store_at key w' s) ≡ true
  unfolding valid_state
  valid_state-store_at key w w' s found k h = ground (
    arith,
    all_of-put (valid_entry e) key w w' s.workspaces (λ j hit. entry-Keeps w w' s.workspaces j k)
        found,
    fences-Keeps w w' s.workspaces key k found,
  )

  pub valid_state-delete :
      (key : String) (s : State)
      → valid_state e s ≡ true
      → valid_state e (record s { workspaces = delete key s.workspaces }) ≡ true
  unfolding valid_state valid_global_fences
  valid_state-delete key s h = ground (
    arith,
    all_of-delete (valid_entry e) key s.workspaces,
    distinct-held-delete operation_of key str_eq s.workspaces,
    distinct-held-delete assignment_of key str_eq s.workspaces,
    distinct-held-delete ports_of key eq_ℤ s.workspaces,
  )

  -- A workspace under a new key, whose operation no entry holds and which has no assignment.
  pub valid_state-store_new :
      (key : String) (w : WorkspaceRecord) (s : State)
      → lookup key s.workspaces ≡ none
      → tree_key e w.path ≡ some key
      → valid_workspace e w ≡ true
      → assignment_of w ≡ []
      → ports_of w ≡ []
      → distinct str_eq (operation_of w) ≡ true
      → Apart str_eq (operation_of w) (held operation_of s.workspaces)
      → valid_state e s ≡ true
      → valid_state e (store_at key w s) ≡ true
  unfolding valid_state valid_global_fences valid_entry
  valid_state-store_new key w s missing derived valid unassigned portless new apart h = ground (
    arith,
    derived,
    str_eq_refl key,
    all_of-put_new (valid_entry e) key w s.workspaces,
    distinct-held-put str_eq operation_of str_eq_comm key w s.workspaces new apart,
    distinct-empty str_eq assignment_of str_eq_comm key w s.workspaces unassigned,
    distinct-empty eq_ℤ ports_of eq_ℤ_comm key w s.workspaces portless,
  )

  pub valid_workspace-lookup :
      (key : String) (w : WorkspaceRecord) (s : State)
      → lookup key s.workspaces ≡ some w
      → valid_state e s ≡ true
      → valid_workspace e w ≡ true
  unfolding valid_state valid_entry
  valid_workspace-lookup key w s found h =
      let entry = all_of-lookup (valid_entry e) key w s.workspaces found in ground (arith, entry)
