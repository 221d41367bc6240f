-- ===== src/Sync/Order.antt =====
-- In which order `SyncDiff` writes.
use bundle_controller.Base.{
  String, Bool, true, false, arith, Option, none, some, any, all, any-append, all-append, all-perm,
  ◌==◌, ==_refl, if◌then◌else◌, Bool-cases, inl, inr, List, [], ◌∷◌, ◌++◌, map, ◌≡◌, refl, ◌∙◌, sym,
  ap, All,
}
use mathlib.Core.List.{append_assoc, append-nil}
use bundle_controller.Types.{
  ObjectReference, reference_eq, annotation_ignore_option_on_delete,
  annotation_ignore_option_on_update,
}
use bundle_controller.Resource.{Unstructured, get_reference, is_skiped_on}
use bundle_controller.Cluster.{ApiError, Reply, reply, failed, Patch, Client, Platform}
use bundle_controller.Diff.{DiffResult, diff}
use bundle_controller.Diff.Partition.{diff-perm}
use bundle_controller.Diff.Members.{All-applys_diff}
use bundle_controller.Diff.Removes.{removes_diff-never_skiped}
use bundle_controller.Sync.{
  SyncOptions, ApplyOptions, stored, patch_resource, apply_resource, apply_options,
  prepare_namespace, create_one, apply_one, Progress, remove_one, create_all, apply_all, remove_all,
  run_diff, sync_diff, sync,
}
use bundle_controller.Sync.Moves.{
  note_removed-cluster, note_created-cluster, note_applied-cluster, Moves, prepare_namespace-moves,
}

-- A write that the server is asked for.
pub data Call : Type 0 where
  creates : Unstructured → Call
  patches : Patch → Unstructured → Call
  deletes : Unstructured → Call
  makes_namespace : String → Call

abbrev pub is_delete : Call → Bool
is_delete (creates obj) = false
is_delete (patches patch obj) = false
is_delete (deletes obj) = true
is_delete (makes_namespace name) = false

-- The call asks for the object of the item to be created or patched.
abbrev pub sends : Unstructured → Call → Bool
sends item (creates obj) = get_reference obj == get_reference item
sends item (patches patch obj) = get_reference obj == get_reference item
sends item (deletes obj) = false
sends item (makes_namespace name) = false

-- The server answers a read with the object or with the error that there is none.
abbrev pub IsReadable : Client → Type 0
IsReadable c =
    (obj : Unstructured) (s : c.State) (e : ApiError) → c.get obj s ≡ failed e → e.not_found ≡ true

-- A server that also writes down what it is asked for.
abbrev pub logged : Client → Client
logged c = record {
  State = c.State × List Call;
  is_namespaced = c.is_namespaced;
  get = λ obj s. c.get obj s.0;
  create = λ obj s. let (r, t) = c.create obj s.0 in (r, (t, s.1 ++ (creates obj ∷ [])));
  patch = λ patch obj s.
      let (r, t) = c.patch patch obj s.0 in (r, (t, s.1 ++ (patches patch obj ∷ [])));
  delete = λ obj s. let (r, t) = c.delete obj s.0 in (r, (t, s.1 ++ (deletes obj ∷ [])));
  create_or_update_namespace = λ name s.
      let (r, t) = c.create_or_update_namespace name s.0 in
      (r, (t, s.1 ++ (makes_namespace name ∷ [])));
}

module _ (p : Platform) (c : Client) (options : SyncOptions) where
  -- Calls that are no deletions were added.
  abbrev Adds : (logged c).State → (logged c).State → Type 0
  Adds s t = (calls : List Call) × All (λ call. is_delete call ≡ false) calls × (t.1 ≡ s.1 ++ calls)

  All-append :
      (xs ys : List Call)
      → All (λ call. is_delete call ≡ false) xs
      → All (λ call. is_delete call ≡ false) ys
      → All (λ call. is_delete call ≡ false) (xs ++ ys)
  All-append [] ys hx hy = hy
  All-append (x ∷ xs) ys (h, hx) hy = (h, All-append xs ys hx hy)

  Moves-Adds : Moves (logged c) (λ _. Unit {0}) Adds
  Moves-Adds = record {
    same = λ s. ([], tt, sym (append-nil s.1));
    next = λ s t u (xs, hx, ex) (ys, hy, ey).
        (xs ++ ys, All-append xs ys hx hy, ey ∙ ap (λ l. l ++ ys) ex ∙ append_assoc s.1 xs ys);
    create = λ obj s _. (creates obj ∷ [], (refl, tt), refl);
    patch = λ patch obj s _. (patches patch obj ∷ [], (refl, tt), refl);
    namespace = λ name s. (makes_namespace name ∷ [], (refl, tt), refl);
  }

  -- Calls that are no deletions were added, and each of the objects was sent with one of them.
  abbrev Sends : List Unstructured → (logged c).State → (logged c).State → Type 0
  Sends items s t =
      (calls : List Call) × All (λ call. is_delete call ≡ false) calls
      × (t.1 ≡ s.1 ++ calls)
      × (all (λ item. any (sends item) calls) items ≡ true)

  sends-before :
      (items : List Unstructured) (xs ys : List Call)
      → all (λ item. any (sends item) xs) items ≡ true
      → all (λ item. any (sends item) (xs ++ ys)) items ≡ true
  sends-before [] xs ys sent = refl
  sends-before (item ∷ items) xs ys sent =
      ground (arith, any-append (sends item) xs ys, sends-before items xs ys (ground arith))

  sends-after :
      (items : List Unstructured) (xs ys : List Call)
      → all (λ item. any (sends item) ys) items ≡ true
      → all (λ item. any (sends item) (xs ++ ys)) items ≡ true
  sends-after [] xs ys sent = refl
  sends-after (item ∷ items) xs ys sent =
      ground (arith, any-append (sends item) xs ys, sends-after items xs ys (ground arith))

  Sends-next :
      (items more : List Unstructured) (s t u : (logged c).State)
      → Sends items s t
      → Sends more t u
      → Sends (items ++ more) s u
  Sends-next items more s t u (xs, hx, ex, sx) (ys, hy, ey, sy) = (
    xs ++ ys,
    All-append xs ys hx hy,
    ey ∙ ap (λ l. l ++ ys) ex ∙ append_assoc s.1 xs ys,
    all-append (λ item. any (sends item) (xs ++ ys)) items more
        ∙ rw (sends-before items xs ys sx, sends-after more xs ys sy) refl,
  )

  stored-log :
      (obj : Unstructured) (w : Reply Unstructured × (logged c).State)
      → (stored (logged c) obj w).2 ≡ w.1
  stored-log obj (reply answer, s) = refl
  stored-log obj (failed e, s) = refl

  patch_resource-Sends :
      (options : ApplyOptions) (exists obj : Unstructured) (s : (logged c).State)
      → Sends (obj ∷ []) s (patch_resource (logged c) options exists obj s).2
  unfolding patch_resource get_reference
  patch_resource-Sends options exists obj s = elim (Bool-cases options.server_side_apply) [
    | inl server ↦
        rw (server, stored-log)
          (
            patches _ (record obj { managed_fields = none }) ∷ [],
            (refl, tt),
            refl,
            rw (==_refl (get_reference obj)) refl,
          )
    | inr merge ↦
        rw (merge, stored-log)
          (patches _ obj ∷ [], (refl, tt), refl, rw (==_refl (get_reference obj)) refl)
  ]

  apply_resource-Sends :
      (obj : Unstructured) (options : ApplyOptions) (s : (logged c).State)
      → IsReadable c
      → Sends (obj ∷ []) s (apply_resource (logged c) obj options s).2
  unfolding apply_resource
  apply_resource-Sends obj options s readable = by_read (c.get obj s.0) refl
    where
      by_read :
          (read : Reply Unstructured)
          → c.get obj s.0 ≡ read
          → Sends
              (obj ∷ [])
              s
              (elim read as (λ _. Option ApiError × Unstructured × (logged c).State) [
                | reply exists ↦ patch_resource (logged c) options exists obj s
                | failed e ↦
                    if e.not_found
                    then stored (logged c) obj ((logged c).create obj s)
                    else (some e, obj, s)
              ]).2
      by_read (reply exists) e = patch_resource-Sends options exists obj s
      by_read (failed e) refused =
          rw (readable obj s.0 e refused, stored-log)
            (creates obj ∷ [], (refl, tt), refl, rw (==_refl (get_reference obj)) refl)

  written-Sends :
      (item : Unstructured) (s : (logged c).State)
      → IsReadable c
      → Sends
          (item ∷ [])
          s
          (apply_resource
            (logged c)
            item
            (apply_options p (logged c) options)
            (prepare_namespace p (logged c) options item s)).2
  written-Sends item s readable =
      let prepared : (logged c).State = prepare_namespace p (logged c) options item s in
      let after : (logged c).State =
        (apply_resource (logged c) item (apply_options p (logged c) options) prepared).2 in
      let (calls, none_deleted, log) =
        prepare_namespace-moves p (logged c) (λ _. Unit {0}) Adds Moves-Adds options item s in
      Sends-next [] (item ∷ []) s prepared after (calls, none_deleted, log, refl)
        (apply_resource-Sends item (apply_options p (logged c) options) prepared readable)

  create_all-Sends :
      (items : List Unstructured) (g : Progress (logged c))
      → IsReadable c
      → Sends items g.cluster (create_all p (logged c) options items g).cluster
  unfolding create_all create_one
  create_all-Sends [] g readable = ([], tt, sym (append-nil g.cluster.1), refl)
  create_all-Sends (item ∷ items) g readable =
      let step : Progress (logged c) = create_one p (logged c) options item g in
      Sends-next (item ∷ []) items g.cluster step.cluster
        (create_all p (logged c) options items step).cluster
        (rw (note_created-cluster p (logged c) (λ _. Unit {0}) Adds Moves-Adds options)
          (written-Sends item g.cluster readable))
        (create_all-Sends items step readable)

  apply_one-Sends :
      (item : Unstructured) (g : Progress (logged c))
      → IsReadable c
      → is_skiped_on item annotation_ignore_option_on_update ≡ false
      → Sends (item ∷ []) g.cluster (apply_one p (logged c) options item g).cluster
  unfolding apply_one
  apply_one-Sends item g readable tried =
      rw (tried, note_applied-cluster p (logged c) (λ _. Unit {0}) Adds Moves-Adds options)
        (written-Sends item g.cluster readable)

  apply_all-Sends :
      (items : List Unstructured) (g : Progress (logged c))
      → IsReadable c
      → All (λ item. is_skiped_on item annotation_ignore_option_on_update ≡ false) items
      → Sends items g.cluster (apply_all p (logged c) options items g).cluster
  unfolding apply_all
  apply_all-Sends [] g readable tried = ([], tt, sym (append-nil g.cluster.1), refl)
  apply_all-Sends (item ∷ items) g readable (tried, rest) =
      let step : Progress (logged c) = apply_one p (logged c) options item g in
      Sends-next (item ∷ []) items g.cluster step.cluster
        (apply_all p (logged c) options items step).cluster (apply_one-Sends item g readable tried)
        (apply_all-Sends items step readable rest)

  remove_all-log :
      (items : List Unstructured) (g : Progress (logged c))
      → All (λ item. is_skiped_on item annotation_ignore_option_on_delete ≡ false) items
      → (remove_all p (logged c) items g).cluster.1 ≡ g.cluster.1 ++ map deletes items
  unfolding remove_all remove_one
  remove_all-log [] g tried = sym (append-nil g.cluster.1)
  remove_all-log (item ∷ items) g (tried, rest) =
      remove_all-log items (remove_one p (logged c) item g) rest
      ∙ ap (λ l. l ++ map deletes items)
          (rw tried (
            ap (λ (s : (logged c).State). s.1)
              (note_removed-cluster p (logged c) item ((logged c).delete item g.cluster) g)))
      ∙ append_assoc g.cluster.1 (deletes item ∷ []) (map deletes items)

  -- Before anything is deleted, the server was asked to write each object that is rendered, whatever
  -- it answered: of the writes that a synchronisation asks for, the deletions come last, one for each
  -- object to remove, in the order of the difference, and among those before them there is for each
  -- rendered object a creation or a patch of it. The rendered objects do not ignore updates, and the
  -- server answers each read with the object or that there is none.
  pub sync-order :
      (managed : List ObjectReference) (resources : List Unstructured) (s : (logged c).State)
      → IsReadable c
      → All (λ item. is_skiped_on item annotation_ignore_option_on_update ≡ false) resources
      → (writes : List Call) × All (λ call. is_delete call ≡ false) writes
        × ((sync p (logged c) managed resources options s).cluster.1
            ≡ s.1 ++ (writes ++ map deletes (diff p managed resources).removes))
        × (all (λ item. any (sends item) writes) resources ≡ true)
  unfolding sync sync_diff run_diff
  sync-order managed resources s readable updates =
      let d : DiffResult = diff p managed resources in
      let start : Progress (logged c) = record { cluster = s; managed = []; errs = [] } in
      let created : Progress (logged c) = create_all p (logged c) options d.creats start in
      let applied : Progress (logged c) = apply_all p (logged c) options d.applys created in
      let (writes, none_deleted, log, sent) =
        Sends-next d.creats d.applys s created.cluster applied.cluster
          (create_all-Sends d.creats start readable)
          (apply_all-Sends d.applys created readable (
            All-applys_diff (λ item. is_skiped_on item annotation_ignore_option_on_update ≡ false) p
              managed resources updates)) in
      (
        writes,
        none_deleted,
        remove_all-log d.removes applied
              (removes_diff-never_skiped p managed resources annotation_ignore_option_on_delete)
            ∙ ap (λ l. l ++ map deletes d.removes) log
            ∙ append_assoc s.1 writes (map deletes d.removes),
        sym (all-perm (λ item. any (sends item) writes) (diff-perm p managed resources)) ∙ sent,
      )
