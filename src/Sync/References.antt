-- ===== src/Sync/References.antt =====
-- What the loops of `SyncDiff` do to the list of managed references.
use bundle_controller.Base.{
  String, is_empty, join_lines, true, Option, none, some, List, [], ◌∷◌, ◌++◌, ◌≡◌, ◌≢◌, refl, ◌∙◌,
  if◌then◌else◌, Bool-cases, inl, inr,
}
use bundle_controller.Types.{ObjectReference, reference_eq}
use bundle_controller.Resource.{Unstructured, get_reference}
use bundle_controller.Cluster.{
  ApiError, Patch, Reply, reply, failed, server_side_apply, merge_from, Client, Platform,
  KeepsReferences, IsStorable,
}
use bundle_controller.Sync.{
  ApplyOptions, Progress, stored, field_owner_or_default, patch_resource, apply_resource,
  note_created, note_applied, note_removed,
}

pub append-ne-nil {ℓ} : {A : Type ℓ} (xs : List A) (x : A) → xs ++ (x ∷ []) ≢ []
append-ne-nil [] x e = cc
append-ne-nil (y ∷ xs) x e = cc

pub is_empty-nil :
    (l : List String) → (if is_empty l then none else some (join_lines l)) ≡ none → l ≡ []
is_empty-nil [] h = refl
is_empty-nil (x ∷ l) h = cc

module _ (c : Client) (keeps : KeepsReferences c) where
  get_reference-stored :
      (obj : Unstructured) (r : Reply Unstructured × c.State)
      → ((answer : Unstructured) (t : c.State)
          → r ≡ (reply answer, t)
          → get_reference answer ≡ get_reference obj)
      → get_reference (stored c obj r).1 ≡ get_reference obj
  get_reference-stored obj (reply answer, t) h = h answer t refl
  get_reference-stored obj (failed e, t) h = refl

  get_reference-stored_patch :
      (patch : Patch) (obj : Unstructured) (s : c.State)
      → IsStorable c obj
      → get_reference (stored c obj (c.patch patch obj s)).1 ≡ get_reference obj
  get_reference-stored_patch patch obj s storable =
      get_reference-stored obj (c.patch patch obj s)
        (λ answer t e. keeps.patch-get_reference patch obj answer s t storable e)

  get_reference-stored_create :
      (obj : Unstructured) (s : c.State)
      → IsStorable c obj
      → get_reference (stored c obj (c.create obj s)).1 ≡ get_reference obj
  get_reference-stored_create obj s named =
      get_reference-stored obj (c.create obj s)
        (λ answer t e. keeps.create-get_reference obj answer s t named e)

  get_reference-patch_resource :
      (options : ApplyOptions) (exists obj : Unstructured) (s : c.State)
      → IsStorable c obj
      → get_reference (patch_resource c options exists obj s).1 ≡ get_reference obj
  unfolding patch_resource
  get_reference-patch_resource options exists obj s storable =
      elim (Bool-cases options.server_side_apply) [
        | inl server ↦ rw server (
            get_reference-stored_patch (server_side_apply (field_owner_or_default c options) true)
              (record obj { managed_fields = none }) s storable
            ∙ (unfold get_reference in refl))
        | inr merge ↦ rw merge (get_reference-stored_patch (merge_from exists) obj s storable)
      ]

  -- `ApplyResource` leaves the reference of a named object as it was.
  pub get_reference-apply_resource :
      (obj : Unstructured) (options : ApplyOptions) (s : c.State)
      → IsStorable c obj
      → get_reference (apply_resource c obj options s).1 ≡ get_reference obj
  unfolding apply_resource
  get_reference-apply_resource obj options s named = by_read (c.get obj s)
    where
      by_read :
          (r : Reply Unstructured)
          → get_reference
              (elim r as (λ _. Option ApiError × Unstructured × c.State) [
                | reply exists ↦ patch_resource c options exists obj s
                | failed e ↦ if e.not_found then stored c obj (c.create obj s) else (some e, obj, s)
              ]).1
            ≡ get_reference obj
      by_read (reply exists) = get_reference-patch_resource options exists obj s named
      by_read (failed e) = elim (Bool-cases e.not_found) [
        | inl missing ↦ rw missing (get_reference-stored_create obj s named)
        | inr broken ↦ rw broken
      ]

module _ (p : Platform) (c : Client) where
  abbrev pub Adds : ObjectReference → Progress c → Progress c → Type 0
  Adds r g h = h.managed ≡ g.managed ++ (r ∷ [])

  pub note_created-managed :
      (r : Option ApiError × Unstructured × c.State) (g : Progress c)
      → (note_created p c r g).errs ≡ []
      → (g.errs ≡ []) × Adds (get_reference r.1) g (note_created p c r g)
  note_created-managed (none, item, s) g h = (h, refl)
  note_created-managed (some e, item, s) g h = absurd (append-ne-nil g.errs _ h)

  pub note_applied-managed :
      (r : Option ApiError × Unstructured × c.State) (g : Progress c)
      → (note_applied p c r g).managed ≡ g.managed
  note_applied-managed (none, item, s) g = refl
  note_applied-managed (some e, item, s) g = refl

  pub note_applied-errs :
      (r : Option ApiError × Unstructured × c.State) (g : Progress c)
      → (note_applied p c r g).errs ≡ []
      → g.errs ≡ []
  note_applied-errs (none, item, s) g h = h
  note_applied-errs (some e, item, s) g h = absurd (append-ne-nil g.errs _ h)

  pub note_removed-managed :
      (item : Unstructured) (r : Option ApiError × c.State) (g : Progress c)
      → (note_removed p c item r g).errs ≡ []
      → (g.errs ≡ []) × ((note_removed p c item r g).managed ≡ g.managed)
  note_removed-managed item (none, s) g h = (h, refl)
  note_removed-managed item (some e, s) g h = elim (Bool-cases e.not_found) [
    | inl gone ↦ rw gone (rw gone at h, refl)
    | inr kept ↦ absurd (append-ne-nil g.errs _ (rw kept at h))
  ]
