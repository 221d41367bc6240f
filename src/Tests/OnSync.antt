-- ===== src/Tests/OnSync.antt =====
-- A run of the synchronisation on a cluster that holds one object too many.
use bundle_controller.Base.{
  true, false, ap, sym, any, all, Bool, Bool-cases, inl, inr, map, ◌++◌, List, [], ◌∷◌, ◌≡◌, refl,
  none, contains, All, lookup, insert,
}
use bundle_controller.Types.{ObjectReference, reference_eq}
use bundle_controller.Resource.{Unstructured, get_reference, is_skiped_on}
use bundle_controller.Diff.{
  diff, from_reference, managed_map, sort_resource, sort_resources, unused,
}
use bundle_controller.Sync.{
  sync, sync_diff, run_diff, create_all, apply_all, remove_all, create_one, apply_one, remove_one,
  apply_resource, prepare_namespace, create_ns_if_not_exists, failure_text,
  new_default_sync_options,
}
use bundle_controller.Sync.Kept.{Refuses, contains-sync_refused}
use bundle_controller.Cluster.{Reply, reply, failed, server_side_apply}
use bundle_controller.Sync.Order.{
  Call, creates, patches, deletes, makes_namespace, is_delete, sends, IsReadable, logged,
  sync-order,
}
use bundle_controller.Tests.Samples.{config_map_named, reference_to}
use bundle_controller.Tests.Servers.{
  platform, platform-IsFaithful, memory, guarded_memory, same_object,
}

abbrev managed : List ObjectReference
managed = reference_to "old" ∷ reference_to "kept" ∷ []

abbrev rendered : List Unstructured
rendered = config_map_named "kept" ∷ config_map_named "new" ∷ []

abbrev cluster : List Unstructured
cluster = config_map_named "old" ∷ config_map_named "kept" ∷ []

sync_fine : (sync platform memory managed rendered new_default_sync_options cluster).failure ≡ none
unfolding sync sync_diff run_diff create_all apply_all remove_all create_one apply_one remove_one
    apply_resource prepare_namespace create_ns_if_not_exists failure_text diff from_reference
    managed_map sort_resource sort_resources unused get_reference is_skiped_on lookup insert
    reference_eq
sync_fine = refl

guarded_memory-Refuses : Refuses platform guarded_memory (reference_to "old")
guarded_memory-Refuses = λ item s e. refl

contains-sync_refused_example :
    contains
      (sync platform guarded_memory managed rendered new_default_sync_options cluster).managed
      (reference_to "old")
    ≡ true
unfolding reference_eq
contains-sync_refused_example =
    contains-sync_refused platform guarded_memory (reference_to "old") managed rendered
      new_default_sync_options cluster platform-IsFaithful (refl, (refl, tt)) guarded_memory-Refuses
      refl

-- The rendered objects are written, each after its namespace, before the old one is deleted.
sync_log :
    (sync platform
      (logged memory)
      managed
      rendered
      new_default_sync_options
      (cluster, [])).cluster.1
    ≡ makes_namespace "shop"
      ∷ creates (config_map_named "new")
      ∷ makes_namespace "shop"
      ∷ patches (server_side_apply "bundler" true) (config_map_named "kept")
      ∷ deletes (config_map_named "old")
      ∷ []
unfolding sync sync_diff run_diff create_all apply_all remove_all create_one apply_one remove_one
    apply_resource prepare_namespace create_ns_if_not_exists failure_text diff from_reference
    managed_map sort_resource sort_resources unused get_reference is_skiped_on lookup insert
    reference_eq
sync_log = refl

abbrev not_found_of : Reply Unstructured → Bool
not_found_of (reply obj) = true
not_found_of (failed e) = e.not_found

memory-IsReadable : IsReadable memory
memory-IsReadable obj [] e refused = ap (λ r. not_found_of r) (sym refused)
memory-IsReadable obj (o ∷ os) e refused = elim (Bool-cases (same_object obj o)) [
  | inl found ↦ absurd (cc (rw found at refused))
  | inr other ↦ memory-IsReadable obj os e (rw other at refused)
]

sync-order_example :
    (writes : List Call) × All (λ call. is_delete call ≡ false) writes
    × ((sync platform
          (logged memory)
          managed
          rendered
          new_default_sync_options
          (cluster, [])).cluster.1
        ≡ [] ++ (writes ++ map deletes (diff platform managed rendered).removes))
    × (all (λ item. any (sends item) writes) rendered ≡ true)
unfolding is_skiped_on
sync-order_example =
    sync-order platform memory new_default_sync_options managed rendered (cluster, [])
      memory-IsReadable (refl, (refl, tt))
