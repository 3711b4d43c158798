-- ===== src/Lifecycle/Frames.antt =====
-- What a deletion requires, and what it leaves alone.
use ruk.Prelude.{
  ◌≡◌, inl, inr, true, false, ◌&&◌, ◌||◌, none, some, String, arith, Option-cases, is_empty, ◌∙◌,
  ap,
}
use ruk.Prelude.Text.{str_eq, str_eq_refl}
use ruk.Prelude.Results.{ok, Result-cases}
use ruk.Prelude.Assoc.{lookup, delete, lookup-delete}
use ruk.Platform.{Platform}
use ruk.State.{WorkspaceRecord, State}
use ruk.State.Valid.{is_available, is_failed, is_nil}
use ruk.Lifecycle.Records.{collection_key, same_operation}
use ruk.Lifecycle.Collection.{collectable, delete_workspace_record}

-- Whenever a deletion succeeds, it removes the entry of one key, the one of the path: there a
-- workspace stood that was available or failed, with no assignment and no processes, and in a
-- collection that had the operation identifier given. Every other entry stays.
pub delete_workspace_record-safe :
    (e : Platform) (path operation_id : String) (s t : State) (w : WorkspaceRecord)
    → delete_workspace_record e path operation_id s ≡ ok (t, w)
    → (key : String) × (collection_key e path ≡ ok key)
      × (lookup key s.workspaces ≡ some w)
      × (is_available w.lifecycle || is_failed w.lifecycle ≡ true)
      × (is_nil w.assignment && is_empty w.processes ≡ true)
      × (same_operation w.operation_id operation_id ≡ true)
      × (lookup key t.workspaces ≡ none)
      × ((other : String)
          → str_eq key other ≡ false
          → lookup other t.workspaces ≡ lookup other s.workspaces)
unfolding delete_workspace_record collectable
delete_workspace_record-safe e path operation_id s t w done =
    elim (Result-cases (collection_key e path)) [
      | inr (x, bad) ↦ ground (arith, bad)
      | inl (key, named) ↦ elim (Option-cases (lookup key s.workspaces)) [
        | inl missing ↦ ground (arith, named, missing)
        | inr (v, found) ↦
            let same : v ≡ w = ground (arith, named, found) in
            let is : t ≡ record s { workspaces = delete key s.workspaces } =
              ground (arith, named, found) in
            let removed = lookup-delete key key s.workspaces in
            (
              key,
              named,
              found ∙ ap (λ u. some u) same,
              ground (arith, named, found, same),
              ground (arith, named, found, same),
              ground (arith, named, found, same),
              rw is (ground (arith, removed, str_eq_refl key)),
              λ other apart. rw is (ground (arith, lookup-delete key other s.workspaces, apart)),
            )
      ]
    ]
