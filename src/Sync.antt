-- ===== src/Sync.antt =====
-- pkg/utils/apply.go, `SyncDiff`: carries a difference out, and goes on after errors.
pub mod References
pub mod Managed
pub mod Kept
pub mod Convergence
pub mod Store
pub mod Writes
pub mod Desired
pub mod Moves
pub mod Order
pub mod Apart
use Prim.Native.Nat.{Ordering}
use Prim.Native.String.{compare}
use bundle_controller.Base.{
  String, ◌<>◌, Bool, true, false, Option, none, some, List, [], ◌∷◌, ◌++◌, ◌==◌, string_eq,
  if◌then◌else◌, Result, ok, err, join_lines, is_empty,
}
use bundle_controller.Types.{
  ObjectReference, annotation_ignore_option_on_update, annotation_ignore_option_on_delete,
}
use bundle_controller.Resource.{Unstructured, get_reference, is_skiped_on}
use bundle_controller.Cluster.{
  ApiError, Reply, reply, failed, Patch, server_side_apply, merge_from, Client, Platform,
}
use bundle_controller.Diff.{DiffResult, diff}

pub record SyncOptions : Type 0 where
  pub server_side_apply : Bool
  pub create_namespace : Bool

abbrev pub new_default_sync_options : SyncOptions
new_default_sync_options = record { server_side_apply = true; create_namespace = true }

pub record ApplyOptions : Type 0 where
  pub server_side_apply : Bool
  pub field_owner : String

module _ (c : Client) where
  -- `createNsIfNotExists`
  unfoldable pub create_ns_if_not_exists : String → c.State → Option ApiError × c.State
  create_ns_if_not_exists name s =
      if name == "" then (none, s) else c.create_or_update_namespace name s

  abbrev stored :
      Unstructured → Reply Unstructured × c.State → Option ApiError × Unstructured × c.State
  stored obj (reply answer, s) = (none, answer, s)
  stored obj (failed e, s) = (some e, obj, s)

  -- The field owner, which defaults to "bundler".
  abbrev field_owner_or_default : ApplyOptions → String
  field_owner_or_default options =
      if options.field_owner == "" then "bundler" else options.field_owner

  patch_resource :
      ApplyOptions
      → Unstructured
      → Unstructured
      → c.State
      → Option ApiError × Unstructured × c.State
  patch_resource options exists obj s =
      if options.server_side_apply
      then (let sent = record obj { managed_fields = none } in
          stored sent (c.patch (server_side_apply (field_owner_or_default options) true) sent s))
      else stored obj (c.patch (merge_from exists) obj s)

  -- `ApplyResource`: the error if there is one, the object as it is left, and the cluster.
  unfoldable pub apply_resource :
      Unstructured → ApplyOptions → c.State → Option ApiError × Unstructured × c.State
  unfolding patch_resource
  apply_resource obj options s = elim (c.get obj s) [
    | reply exists ↦ patch_resource options exists obj s
    | failed e ↦ if e.not_found then stored obj (c.create obj s) else (some e, obj, s)
  ]

  -- The variables of `SyncDiff` beside the cluster.
  pub record Progress : Type 0 where
    pub cluster : c.State
    pub managed : List ObjectReference
    pub errs : List String

module _ (p : Platform) (c : Client) where
  open c use {State}

  -- The text that an error of a resource is reported with.
  unfoldable pub failure_text : Unstructured → ApiError → String
  failure_text item e =
      p.gvk_string item.api_version item.kind
      <> " "
      <> item.namespace
      <> "/"
      <> item.name
      <> ": "
      <> e.message

  unfoldable pub prepare_namespace : SyncOptions → Unstructured → State → State
  prepare_namespace options item s =
      if options.create_namespace then (create_ns_if_not_exists c item.namespace s).1 else s

  abbrev apply_options : SyncOptions → ApplyOptions
  apply_options options = record { server_side_apply = options.server_side_apply; field_owner = "" }

  abbrev note_created : Option ApiError × Unstructured × State → Progress c → Progress c
  note_created (none, item, s) g = record g {
    cluster = s;
    managed = g.managed ++ (get_reference item ∷ []);
  }
  note_created (some e, item, s) g = record g {
    cluster = s;
    errs = g.errs ++ (failure_text item e ∷ []);
  }

  abbrev note_applied : Option ApiError × Unstructured × State → Progress c → Progress c
  note_applied (none, item, s) g = record g { cluster = s }
  note_applied (some e, item, s) g = record g {
    cluster = s;
    errs = g.errs ++ (failure_text item e ∷ []);
  }

  unfoldable pub create_one : SyncOptions → Unstructured → Progress c → Progress c
  create_one options item g =
      note_created
        (apply_resource c item (apply_options options) (prepare_namespace options item g.cluster)) g

  unfoldable pub apply_one : SyncOptions → Unstructured → Progress c → Progress c
  apply_one options item g =
      let h : Progress c = record g { managed = g.managed ++ (get_reference item ∷ []) } in
      if is_skiped_on item annotation_ignore_option_on_update
      then h
      else note_applied
          (apply_resource c item (apply_options options) (prepare_namespace options item h.cluster))
          h

  abbrev note_removed : Unstructured → Option ApiError × State → Progress c → Progress c
  note_removed item (none, s) g = record g { cluster = s }
  note_removed item (some e, s) g = if e.not_found then record g { cluster = s } else record g {
    cluster = s;
    managed = g.managed ++ (get_reference item ∷ []);
    errs = g.errs ++ (failure_text item e ∷ []);
  }

  unfoldable pub remove_one : Unstructured → Progress c → Progress c
  remove_one item g =
      if is_skiped_on item annotation_ignore_option_on_delete
      then g
      else note_removed item (c.delete item g.cluster) g

  unfoldable pub create_all : SyncOptions → List Unstructured → Progress c → Progress c
  create_all options [] g = g
  create_all options (item ∷ items) g = create_all options items (create_one options item g)

  unfoldable pub apply_all : SyncOptions → List Unstructured → Progress c → Progress c
  apply_all options [] g = g
  apply_all options (item ∷ items) g = apply_all options items (apply_one options item g)

  unfoldable pub remove_all : List Unstructured → Progress c → Progress c
  remove_all [] g = g
  remove_all (item ∷ items) g = remove_all items (remove_one item g)

  -- `less` of the sort: the texts of the API versions, in descending order.
  abbrev pub api_version_after : ObjectReference → ObjectReference → Bool
  api_version_after a b = elim (compare a.api_version b.api_version) [
    | Ordering.gt ↦ true
    | _ ↦ false
  ]

  -- The references that are managed afterwards, the error if there is one, and the cluster.
  pub record Synced : Type 0 where
    pub managed : List ObjectReference
    pub failure : Option String
    pub cluster : State

  unfoldable pub run_diff : DiffResult → SyncOptions → State → Progress c
  run_diff d options s = remove_all d.removes (
      apply_all options d.applys
        (create_all options d.creats (record { cluster = s; managed = []; errs = [] })))

  unfoldable pub sync_diff : DiffResult → SyncOptions → State → Synced
  sync_diff d options s =
      let g = run_diff d options s in
      record {
        managed = p.sort_slice api_version_after g.managed;
        failure = if is_empty g.errs then none else some (join_lines g.errs);
        cluster = g.cluster;
      }

  unfoldable pub sync : List ObjectReference → List Unstructured → SyncOptions → State → Synced
  sync managed resources options s = sync_diff (diff p managed resources) options s
