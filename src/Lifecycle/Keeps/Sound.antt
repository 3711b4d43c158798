-- ===== src/Lifecycle/Keeps/Sound.antt =====
-- A sound state is a map whose document passes the validation; how the two combinators of
-- Lifecycle/Records keep it so.
use ruk.Prelude.{◌≡◌, inl, inr, true, some, String, arith, Option-cases}
use ruk.Prelude.Results.{Result, ok, Result-cases}
use ruk.Prelude.Assoc.{lookup}
use ruk.Errors.{Error}
use ruk.Platform.{Platform}
use ruk.State.{AssignmentRecord, WorkspaceRecord, State}
use ruk.State.Document.{valid_state}
use ruk.State.Document.Parts.{Parts, parts}
use ruk.Lifecycle.Records.{Found, find_assignment, store_at, collection_key, at_path, at_assignment}
use ruk.Lifecycle.Keeps.Stored.{Keeps, valid_state-store_at, valid_workspace-lookup}
use ruk.Lifecycle.Keeps.Maps.{IsMap, find_assignment-Found, lookup-find_assignment, put-IsMap}

pub record IsSound (e : Platform) (s : State) : Type 0 where
  pub valid : valid_state e s ≡ true
  pub map : IsMap s.workspaces

-- What a successful run of a combinator has found and stored.
pub at_path-eq :
    (e : Platform) (path : String) (transition : WorkspaceRecord → Result Error WorkspaceRecord)
    (s : State) {t : State} {w' : WorkspaceRecord}
    → at_path e path transition s ≡ ok (t, w')
    → (key : String) × (collection_key e path ≡ ok key)
      × (w : WorkspaceRecord) × (lookup key s.workspaces ≡ some w)
      × (transition w ≡ ok w')
      × (t ≡ store_at key w' s)
unfolding at_path
at_path-eq e path transition s done = elim (Result-cases (collection_key e path)) [
  | inr (x, bad) ↦ ground (arith, bad)
  | inl (key, named) ↦ elim (Option-cases (lookup key s.workspaces)) [
    | inl missing ↦ ground (arith, named, missing)
    | inr (w, found) ↦ elim (Result-cases (transition w)) [
      | inr (x, bad) ↦ ground (arith, named, found, bad)
      | inl (w', fine) ↦ (
        key,
        named,
        w,
        found,
        ground (arith, named, found, fine),
        ground (arith, named, found, fine),
      )
    ]
  ]
]

pub at_assignment-eq :
    (id : String) (transition : AssignmentRecord → WorkspaceRecord → Result Error WorkspaceRecord)
    (s : State) {t : State} {w' : WorkspaceRecord}
    → at_assignment id transition s ≡ ok (t, w')
    → (f : Found) × (find_assignment id s.workspaces ≡ some f)
      × (transition f.assignment f.workspace ≡ ok w')
      × (t ≡ store_at f.key w' s)
unfolding at_assignment
at_assignment-eq id transition s done = elim (Option-cases (find_assignment id s.workspaces)) [
  | inl missing ↦ ground (arith, missing)
  | inr (f, found) ↦ elim (Result-cases (transition f.assignment f.workspace)) [
    | inr (x, bad) ↦ ground (arith, found, bad)
    | inl (w', fine) ↦ (f, found, ground (arith, found, fine), ground (arith, found, fine))
  ]
]

module _ (e : Platform) (s : State) (h : IsSound e s) where
  pub store_at-IsSound :
      (key : String) (w w' : WorkspaceRecord)
      → lookup key s.workspaces ≡ some w
      → Keeps e w w' s.workspaces
      → IsSound e (store_at key w' s)
  store_at-IsSound key w w' found k = record {
    valid = valid_state-store_at e key w w' s found k h.valid;
    map = put-IsMap key w' s.workspaces h.map;
  }

  pub at_path-IsSound :
      (path : String) (transition : WorkspaceRecord → Result Error WorkspaceRecord) {t : State}
      {w' : WorkspaceRecord}
      → at_path e path transition s ≡ ok (t, w')
      → ((key : String) (w : WorkspaceRecord)
          → lookup key s.workspaces ≡ some w
          → Parts e w
          → transition w ≡ ok w'
          → Keeps e w w' s.workspaces)
      → IsSound e t
  at_path-IsSound path transition done keep =
      let (key, named, w, found, fine, is) = at_path-eq e path transition s done in
      let old = parts e w (valid_workspace-lookup e key w s found h.valid) in
      rw is (store_at-IsSound key w _ found (keep key w found old fine))

  pub at_assignment-IsSound :
      (id : String) (transition : AssignmentRecord → WorkspaceRecord → Result Error WorkspaceRecord)
      {t : State} {w' : WorkspaceRecord}
      → at_assignment id transition s ≡ ok (t, w')
      → ((f : Found)
          → find_assignment id s.workspaces ≡ some f
          → f.workspace.assignment ≡ some f.assignment
          → Parts e f.workspace
          → transition f.assignment f.workspace ≡ ok w'
          → Keeps e f.workspace w' s.workspaces)
      → IsSound e t
  at_assignment-IsSound id transition done keep =
      let (f, located, fine, is) = at_assignment-eq id transition s done in
      let found = lookup-find_assignment id s.workspaces h.map located in
      let held = (find_assignment-Found id s.workspaces located).0 in
      let old = parts e f.workspace (valid_workspace-lookup e f.key f.workspace s found h.valid) in
      rw is (store_at-IsSound f.key f.workspace _ found (keep f located held old fine))
