-- ===== src/Reconciler/Loop/Settled.antt =====
-- Two calls of `Reconcile` one after the other on a kustomize bundle, with the default appliers.
use mathlib.Core.Path.{subst}
use bundle_controller.Base.{
  String, true, false, ◌||◌, none, some, List, [], ◌≡◌, refl, ◌∙◌, ap, arith, ◌==◌, string_eq,
  Result, ok, All,
}
use bundle_controller.Types.{Bundle, BundleStatus, bundle_kind_kustomize}
use bundle_controller.Values.Data.{Fields, IsMap}
use bundle_controller.Cluster.{IsStorable, Client, Platform, IsFaithful, KeepsReferences, reply}
use bundle_controller.Manifest.{split_yaml}
use bundle_controller.Outcome.{Outcome}
use bundle_controller.Native.{set_namespace_if_not_set, target_namespace, TemplateFun, Tools}
use bundle_controller.Native.Recorded.{unchanged}
use bundle_controller.Helm.Sdk.{Sdk}
use bundle_controller.Download.{download, has_tgz}
use bundle_controller.Download.Again.{cache_path}
use bundle_controller.Download.Host.{FileSystem}
use bundle_controller.Applier.{apply, BundleApplier}
use bundle_controller.Applier.Twice.{applier, applier_later, spec-applied}
use bundle_controller.Reconciler.Api.{Api, Libraries}
use bundle_controller.Reconciler.Dependencies.{check_depenency, check_depenency-status}
use bundle_controller.Reconciler.Values.{
  resolve_values_ref, resolve_values_ref-status, spec-resolve_values_ref,
}
use bundle_controller.Reconciler.Loop.{
  reconcile, sync_and_report, sync, install, note_failure, has_finalizer, is_deleted,
  status_written, done,
}
use bundle_controller.Reconciler.Loop.Failures.{reconcile-sync}
use bundle_controller.Reconciler.Wire.{Wire, carried, carried_values, KeepsAllElse}

module _ (l : Libraries) {State : Type 0} (api : Api State) (a : BundleApplier State) where
  -- A bundle that is ready and resolved is applied.
  pub sync-apply :
      (b r : Bundle) (s : State)
      → (b.spec.disabled || is_deleted b) ≡ false
      → check_depenency api b s ≡ none
      → resolve_values_ref l api b s ≡ ok r
      → sync l api a b s ≡ apply a r s
  unfolding sync
  sync-apply b r s wanted ready resolved = simp (wanted, install, ready, resolved)

  -- One whose synchronisation succeeds gets the status that this leaves.
  pub reconcile-synced :
      (b : Bundle) (s : State) (o : Outcome State)
      → api.get_bundle b.namespace b.name s ≡ reply b
      → is_deleted b ≡ false
      → has_finalizer l b ≡ true
      → sync l api a b s ≡ o
      → o.failure ≡ none
      → reconcile l api a b.namespace b.name s
        ≡ status_written none (api.update_status o.bundle o.state)
  unfolding sync_and_report note_failure
  reconcile-synced b s o read present guarded synced fine =
      reconcile-sync l api a b.namespace b.name b s read (ground arith)
      ∙ rw synced (simp (note_failure, fine))

module _ (p : Platform) (c : Client) (t : Tools) (h : Sdk c.State) (f : FileSystem c.State)
    (build : String → c.State → Result String) (template_fun : TemplateFun c.State)
    (cache_dir : String) (l : Libraries) (api : Api c.State) where
  abbrev a : BundleApplier c.State
  a = applier p c t h f build template_fun cache_dir

  -- A kustomize bundle that was reconciled is settled. Let the first call find the bundle with its
  -- finalizer, neither disabled nor deleted, ready and resolved, and let it succeed, with its status
  -- written. Then the stored bundle has the new status, as it is carried to the server and back, and
  -- the next call finds everything up to date: it changes nothing, but writes that status once more.
  -- The values come back from the server as they were written; no search directory is given; the
  -- download ends with the directory of the version, which is there the next time, with no archive
  -- beside it, and builds to the same text; the references resolve to the same values, which have
  -- unique keys; the rendered objects are storable; the servers and the runtime keep to their
  -- documentation, and the applier leaves the stored bundle alone.
  pub reconcile_settled :
      (w : Wire) (b r got answer : Bundle) (text : String) (entries : List String)
      (s after u : c.State)
      → IsFaithful p
      → KeepsReferences c
      → KeepsAllElse w api
      → api.get_bundle b.namespace b.name s ≡ reply b
      → b.spec.disabled ≡ false
      → is_deleted b ≡ false
      → has_finalizer l b ≡ true
      → check_depenency api b s ≡ none
      → resolve_values_ref l api b s ≡ ok r
      → ((m : Fields) → r.spec.values.object ≡ some m → IsMap m)
      → r.spec.kind ≡ bundle_kind_kustomize
      → (r.spec.version == "") ≡ false
      → (cache_dir == "") ≡ false
      → (cache_path f h cache_dir r == "") ≡ false
      → download f h r cache_dir [] s ≡ (ok (cache_path f h cache_dir r), got, after)
      → build (cache_path f h cache_dir r) after ≡ ok text
      → All
          (IsStorable c)
          (set_namespace_if_not_set t (target_namespace got) (split_yaml t.decode text).objs)
      → (apply a r s).failure ≡ none
      → (carried_values w (apply a r s).bundle.status.values).object
        ≡ (apply a r s).bundle.status.values.object
      → api.get_bundle b.namespace b.name (apply a r s).state ≡ reply b
      → api.update_status (apply a r s).bundle (apply a r s).state ≡ (reply answer, u)
      → check_depenency api b u ≡ none
      → resolve_values_ref l api b u ≡ ok r
      → has_tgz f (cache_path f h cache_dir r) u ≡ none
      → f.read_dir (cache_path f h cache_dir r) u ≡ some entries
      → build (cache_path f h cache_dir r) u ≡ ok text
      → let σ : BundleStatus = carried w (apply a r s).bundle.status in
        (reconcile l api a b.namespace b.name s ≡ (done, u))
        × (api.get_bundle b.namespace b.name u ≡ reply (record b { status = σ }))
        × (sync l api a (record b { status = σ }) u
            ≡ unchanged (record (apply a r s).bundle { status = σ }) u)
        × (reconcile l api a b.namespace b.name u
            ≡ status_written none
                (api.update_status (record (apply a r s).bundle { status = σ }) u))
  reconcile_settled w b r got answer text entries s after u faithful keeps keeps_else read enabled
        present guarded ready resolved maps kind versioned given path downloaded built storable fine
        survives still written ready_again resolved_again no_archive there again =
      let o : Outcome c.State = apply a r s in
      let σ : BundleStatus = carried w o.bundle.status in
      let left : Bundle = record o.bundle { status = σ } in
      let wanted : (b.spec.disabled || is_deleted b) ≡ false = ground arith in
      let applied : o.bundle ≡ record r { status = o.bundle.status } =
        spec-applied p c t h f build template_fun cache_dir r got text entries s after faithful
          keeps kind versioned given path downloaded built storable maps fine in
      let o_spec : o.bundle
          ≡ record b { status = o.bundle.status; spec = record b.spec { values = r.spec.values } } =
        applied
        ∙ ap (λ (x : Bundle). record x { status = o.bundle.status })
            (spec-resolve_values_ref l api b r s resolved) in
      let stored : api.get_bundle b.namespace b.name u ≡ reply (record b { status = σ }) =
        keeps_else
          (record b { status = o.bundle.status; spec = record b.spec { values = r.spec.values } }) b
          answer o.state u still
          (subst (λ (x : Bundle). api.update_status x o.state ≡ (reply answer, u)) o_spec
            written) in
      let later : sync l api a (record b { status = σ }) u ≡ unchanged left u =
        sync-apply l api a (record b { status = σ }) (record r { status = σ }) u wanted
          (check_depenency-status api b σ u ∙ ready_again)
          (resolve_values_ref-status l api b r σ u resolved_again)
        ∙ subst (λ (x : Bundle). apply a x u ≡ unchanged left u)
            (ap (λ (x : Bundle). record x { status = σ }) applied)
            (applier_later p c t h f build template_fun cache_dir r got text entries s after
              faithful keeps kind versioned given path downloaded built storable maps fine u σ
              (refl, survives, refl) no_archive there again) in
      (
        reconcile-synced l api a b s o read present guarded
              (sync-apply l api a b r s wanted ready resolved) fine
            ∙ rw written refl,
        stored,
        later,
        reconcile-synced l api a (record b { status = σ }) u (unchanged left u) stored present
            guarded later refl,
      )
