-- ===== src/Native/Recorded.antt =====
-- What a synchronisation records in the bundle.
use bundle_controller.Base.{
  String, true, Option, none, some, List, ◌≡◌, ◌∙◌, sym, refl, arith, Bool-cases, Option-cases, inl,
  inr, ◌⊎◌, Perm, All,
}
use bundle_controller.Values.Data.{Fields, IsMap}
use bundle_controller.Values.Codec.{Json, full_fill}
use bundle_controller.Values.Equal.{equal_map_values_refl}
use bundle_controller.Types.{Bundle, BundleStatus, phase_installed}
use bundle_controller.Resource.{Unstructured}
use bundle_controller.Cluster.{IsStorable, Client, Platform, IsFaithful, KeepsReferences}
use bundle_controller.Diff.{diff}
use bundle_controller.Diff.Partition.{references}
use bundle_controller.Diff.Members.{All-creats_diff}
use bundle_controller.Sync.{Synced, sync, sync_diff, new_default_sync_options}
use bundle_controller.Sync.Managed.{sync-perm}
use bundle_controller.Sync.Convergence.{diff_settled}
use bundle_controller.Outcome.{Outcome}
use bundle_controller.Native.{Tools, apply_resources, record_sync, installed_status, is_up_to_date}

object-full_fill :
    (json : Json) (o : Option Fields)
    → (full_fill json (record { raw = none; object = o })).object ≡ o
unfolding full_fill
object-full_fill json none = refl
object-full_fill json (some m) = refl

-- What a run gives that changes nothing.
abbrev pub unchanged : {State : Type 0} → Bundle → State → Outcome State
unchanged bundle s = record { failure = none; bundle = bundle; state = s }

pub unchanged_lem :
    {State : Type 0} (o : Outcome State) → o.failure ≡ none → unchanged o.bundle o.state ≡ o
unchanged_lem o fine = λ i. record { failure = sym fine i; bundle = o.bundle; state = o.state }

-- The statuses agree in what `Apply` compares.
abbrev pub Agrees : BundleStatus → BundleStatus → Type 0
Agrees status other =
    (other.phase ≡ status.phase)
    × (other.values.object ≡ status.values.object)
    × (other.resources ≡ status.resources)

module _ (p : Platform) (c : Client) (t : Tools) where
  -- A bundle that is up to date is so with a status that agrees.
  pub is_up_to_date-Agrees :
      (resources : List Unstructured) (bundle : Bundle) (status : BundleStatus)
      → Agrees bundle.status status
      → is_up_to_date p c t bundle (diff p bundle.status.resources resources) ≡ true
      → is_up_to_date p c t (record bundle { status = status }) (diff p status.resources resources)
        ≡ true
  unfolding is_up_to_date
  is_up_to_date-Agrees resources bundle status (phase, values, owned) same =
      rw (phase, values, owned) same

  module _ (resources : List Unstructured) (ns : String) (bundle : Bundle) (s : c.State) where
    -- The managed references and the values are settled with the resources.
    pub apply_resources-up_to_date :
        IsFaithful p
        → ((m : Fields) → bundle.spec.values.object ≡ some m → IsMap m)
        → bundle.status.phase ≡ phase_installed
        → bundle.status.values.object ≡ bundle.spec.values.object
        → Perm bundle.status.resources (references resources)
        → apply_resources p c t resources ns bundle s
          ≡ record { failure = none; bundle = bundle; state = s }
    unfolding apply_resources is_up_to_date
    apply_resources-up_to_date faithful maps installed same settled =
        let (nothing_new, nothing_old) =
          diff_settled p bundle.status.resources resources faithful settled in
        rw (
          installed,
          same,
          equal_map_values_refl bundle.spec.values.object maps,
          nothing_new,
          nothing_old,
        )

  record_sync-fine :
      (synced : Synced p c) (ns : String) (bundle : Bundle)
      → synced.failure ≡ none
      → record_sync p c t synced ns bundle ≡ record {
        failure = none;
        bundle = record bundle { status = installed_status p c t bundle synced ns };
        state = synced.cluster;
      }
  unfolding record_sync
  record_sync-fine synced ns bundle fine = ground arith

  module _ (resources : List Unstructured) (ns : String) (bundle : Bundle) (s : c.State) where
    abbrev pub first_sync : Synced p c
    first_sync = sync_diff p c (diff p bundle.status.resources resources) new_default_sync_options s

    abbrev pub recorded : Outcome c.State
    recorded = record {
      failure = none;
      bundle = record bundle { status = installed_status p c t bundle first_sync ns };
      state = first_sync.cluster;
    }

    record_sync-succeeded :
        first_sync.failure ≡ none → record_sync p c t first_sync ns bundle ≡ recorded
    record_sync-succeeded fine = record_sync-fine first_sync ns bundle fine

    -- The bundle that a successful synchronisation leaves is settled, whatever the state has become.
    pub recorded-settled :
        (u : c.State) (status : BundleStatus)
        → Agrees recorded.bundle.status status
        → IsFaithful p
        → KeepsReferences c
        → All (IsStorable c) resources
        → ((m : Fields) → bundle.spec.values.object ≡ some m → IsMap m)
        → first_sync.failure ≡ none
        → apply_resources p c t resources ns (record recorded.bundle { status = status }) u
          ≡ unchanged (record recorded.bundle { status = status }) u
    unfolding installed_status sync
    recorded-settled u status (phase, values, owned) faithful keeps named maps fine =
        apply_resources-up_to_date resources ns (record recorded.bundle { status = status }) u
          faithful maps phase (values ∙ object-full_fill t.json bundle.spec.values.object)
          (rw owned (
            sync-perm p c bundle.status.resources resources new_default_sync_options s faithful
              keeps (All-creats_diff (IsStorable c) p bundle.status.resources resources named)
              fine))

    abbrev pub first : Outcome c.State
    first = apply_resources p c t resources ns bundle s

    pub first-cases :
        first.failure ≡ none
        → ((is_up_to_date p c t bundle (diff p bundle.status.resources resources) ≡ true)
            ⊎ ((first_sync.failure ≡ none) × (first ≡ recorded)))
    unfolding apply_resources
    first-cases fine =
        elim (Bool-cases (is_up_to_date p c t bundle (diff p bundle.status.resources resources))) [
          | inl same ↦ inl same
          | inr other ↦ elim (Option-cases first_sync.failure) [
            | inl fine_sync ↦ inr (fine_sync, rw other (record_sync-succeeded fine_sync))
            | inr (message, failed) ↦ absurd (cc (rw (other, failed, record_sync) at fine))
          ]
        ]
