-- ===== src/Sync/Moves.antt =====
-- What the writes of `SyncDiff` do to the cluster one after the other, in a relation of states.
use bundle_controller.Base.{
  String, Option, none, some, List, [], ◌∷◌, ◌≡◌, refl, All, if◌then◌else◌, ◌==◌, string_eq,
  Bool-cases, inl, inr,
}
use bundle_controller.Types.{ObjectReference, annotation_ignore_option_on_update}
use bundle_controller.Resource.{Unstructured, get_reference, is_skiped_on}
use bundle_controller.Cluster.{ApiError, Reply, reply, failed, Patch, Client, Platform}
use bundle_controller.Sync.{
  SyncOptions, ApplyOptions, Progress, stored, patch_resource, apply_resource, prepare_namespace,
  create_ns_if_not_exists, apply_options, note_created, note_applied, note_removed, create_one,
  apply_one, create_all, apply_all,
}

-- A relation that the calls of the server keep to: on objects whose reference is among `Touched`, and
-- on namespaces.
pub record Moves (c : Client) (Touched : ObjectReference → Type 0) (R : c.State → c.State → Type 0)
    : Type 0 where
  pub same : (s : c.State) → R s s
  pub next : (s t u : c.State) → R s t → R t u → R s u
  pub create :
      (obj : Unstructured) (s : c.State) → Touched (get_reference obj) → R s (c.create obj s).1
  pub patch :
      (patch : Patch) (obj : Unstructured) (s : c.State)
      → Touched (get_reference obj)
      → R s (c.patch patch obj s).1
  pub namespace : (name : String) (s : c.State) → R s (c.create_or_update_namespace name s).1

module _ (p : Platform) (c : Client) where
  pub note_removed-cluster :
      (item : Unstructured) (w : Option ApiError × c.State) (g : Progress c)
      → (note_removed p c item w g).cluster ≡ w.1
  note_removed-cluster item (none, s) g = refl
  note_removed-cluster item (some e, s) g = elim (Bool-cases e.not_found) [
    | inl gone ↦ rw gone refl
    | inr kept ↦ rw kept refl
  ]

module _ (p : Platform) (c : Client) (Touched : ObjectReference → Type 0)
    (R : c.State → c.State → Type 0) (moves : Moves c Touched R) (options : SyncOptions) where
  stored-state : (obj : Unstructured) (w : Reply Unstructured × c.State) → (stored c obj w).2 ≡ w.1
  stored-state obj (reply answer, s) = refl
  stored-state obj (failed e, s) = refl

  patch_resource-moves :
      (options : ApplyOptions) (exists obj : Unstructured) (s : c.State)
      → Touched (get_reference obj)
      → R s (patch_resource c options exists obj s).2
  unfolding patch_resource get_reference
  patch_resource-moves options exists obj s touched = elim (Bool-cases options.server_side_apply) [
    | inl server ↦
        rw (server, stored-state) (moves.patch _ (record obj { managed_fields = none }) s touched)
    | inr merge ↦ rw (merge, stored-state) (moves.patch _ obj s touched)
  ]

  apply_resource-moves :
      (obj : Unstructured) (options : ApplyOptions) (s : c.State)
      → Touched (get_reference obj)
      → R s (apply_resource c obj options s).2
  unfolding apply_resource
  apply_resource-moves obj options s touched = by_read (c.get obj s)
    where
      by_read :
          (read : Reply Unstructured)
          → R s
              (elim read as (λ _. Option ApiError × Unstructured × c.State) [
                | reply exists ↦ patch_resource c options exists obj s
                | failed e ↦ if e.not_found then stored c obj (c.create obj s) else (some e, obj, s)
              ]).2
      by_read (reply exists) = patch_resource-moves options exists obj s touched
      by_read (failed e) = elim (Bool-cases e.not_found) [
        | inl missing ↦ rw (missing, stored-state) (moves.create obj s touched)
        | inr broken ↦ rw broken (moves.same s)
      ]

  pub prepare_namespace-moves :
      (item : Unstructured) (s : c.State) → R s (prepare_namespace p c options item s)
  unfolding prepare_namespace create_ns_if_not_exists
  prepare_namespace-moves item s = elim (Bool-cases options.create_namespace) [
    | inr kept ↦ rw kept (moves.same s)
    | inl created ↦ elim (Bool-cases (item.namespace == "")) [
      | inl none_given ↦ rw (created, none_given) (moves.same s)
      | inr given ↦ rw (created, given) (moves.namespace item.namespace s)
    ]
  ]

  pub note_created-cluster :
      (w : Option ApiError × Unstructured × c.State) (g : Progress c)
      → (note_created p c w g).cluster ≡ w.2
  note_created-cluster (none, item, s) g = refl
  note_created-cluster (some e, item, s) g = refl

  pub note_applied-cluster :
      (w : Option ApiError × Unstructured × c.State) (g : Progress c)
      → (note_applied p c w g).cluster ≡ w.2
  note_applied-cluster (none, item, s) g = refl
  note_applied-cluster (some e, item, s) g = refl

  written-moves :
      (item : Unstructured) (s : c.State)
      → Touched (get_reference item)
      → R s
          (apply_resource c item
            (apply_options p c options)
            (prepare_namespace p c options item s)).2
  written-moves item s touched =
      moves.next s (prepare_namespace p c options item s) _ (prepare_namespace-moves item s) (
        apply_resource-moves item (apply_options p c options) (prepare_namespace p c options item s)
          touched)

  pub create_all-moves :
      (items : List Unstructured) (g : Progress c)
      → All (λ item. Touched (get_reference item)) items
      → R g.cluster (create_all p c options items g).cluster
  unfolding create_all create_one
  create_all-moves [] g touched = moves.same g.cluster
  create_all-moves (item ∷ items) g (touched, rest) =
      moves.next g.cluster (create_one p c options item g).cluster _
        (rw note_created-cluster (written-moves item g.cluster touched))
        (create_all-moves items (create_one p c options item g) rest)

  apply_one-moves :
      (item : Unstructured) (g : Progress c)
      → Touched (get_reference item)
      → R g.cluster (apply_one p c options item g).cluster
  unfolding apply_one
  apply_one-moves item g touched =
      elim (Bool-cases (is_skiped_on item annotation_ignore_option_on_update)) [
        | inl skiped ↦ rw skiped (moves.same g.cluster)
        | inr tried ↦ rw (tried, note_applied-cluster) (written-moves item g.cluster touched)
      ]

  pub apply_all-moves :
      (items : List Unstructured) (g : Progress c)
      → All (λ item. Touched (get_reference item)) items
      → R g.cluster (apply_all p c options items g).cluster
  unfolding apply_all
  apply_all-moves [] g touched = moves.same g.cluster
  apply_all-moves (item ∷ items) g (touched, rest) =
      moves.next g.cluster (apply_one p c options item g).cluster _ (apply_one-moves item g touched)
        (apply_all-moves items (apply_one p c options item g) rest)
