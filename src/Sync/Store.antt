-- ===== src/Sync/Store.antt =====
-- What an API server keeps, and what one `ApplyResource` puts there.
use bundle_controller.Base.{
  String, Bool, true, false, not, ◌&&◌, ◌||◌, Option, none, some, ◌≡◌, refl, ◌==◌, string_eq,
  if◌then◌else◌, Bool-cases, inl, inr, List, any,
}
use bundle_controller.Types.{ObjectReference, reference_eq}
use bundle_controller.Resource.{Unstructured, get_reference}
use bundle_controller.Cluster.{IsStorable, ApiError, Reply, reply, failed, Patch, Client}
use bundle_controller.Sync.{ApplyOptions, stored, patch_resource, apply_resource}

-- An abstract cluster: for which references there is an object.
abbrev pub Contents : Type 0
Contents = ObjectReference → Bool

-- Whether two references denote one object: the server keeps one object for all versions of its API.
abbrev pub Same : Type 0
Same = ObjectReference → ObjectReference → Bool

-- One of the references denotes the object of `r`.
abbrev pub denotes : Same → List ObjectReference → ObjectReference → Bool
denotes same refs r = any (λ k. same k r) refs

-- What an API server documents of its writes that succeed. `lives` is whether there is an object that
-- is not being deleted, and `fades` whether there is one that is. A creation leaves the object living,
-- and so does a patch, unless the object is being deleted; after a deletion that is accepted the
-- object is gone or, as long as finalizers keep it, being deleted; the answer that there is none
-- leaves it absent. No other object comes or goes with the call, and only a deletion makes one fade.
-- The namespaces that are created on the way are objects of that kind.
pub record IsStore (c : Client) (same : Same) (lives fades : c.State → Contents) : Type 0 where
  pub create-lives :
      (obj answer : Unstructured) (s t : c.State) (r : ObjectReference)
      → IsStorable c obj
      → c.create obj s ≡ (reply answer, t)
      → lives t r ≡ (same (get_reference obj) r || lives s r)
  pub create-fades :
      (obj answer : Unstructured) (s t : c.State) (r : ObjectReference)
      → IsStorable c obj
      → c.create obj s ≡ (reply answer, t)
      → fades s r ≡ false
      → fades t r ≡ false
  pub patch-lives :
      (patch : Patch) (obj answer : Unstructured) (s t : c.State) (r : ObjectReference)
      → IsStorable c obj
      → fades s (get_reference obj) ≡ false
      → c.patch patch obj s ≡ (reply answer, t)
      → lives t r ≡ (same (get_reference obj) r || lives s r)
  pub patch-fades :
      (patch : Patch) (obj answer : Unstructured) (s t : c.State) (r : ObjectReference)
      → IsStorable c obj
      → c.patch patch obj s ≡ (reply answer, t)
      → fades s r ≡ false
      → fades t r ≡ false
  pub delete-lives :
      (obj : Unstructured) (s t : c.State) (r : ObjectReference)
      → c.delete obj s ≡ (none, t)
      → lives t r ≡ (lives s r && not (same (get_reference obj) r))
  pub absent-lives :
      (obj : Unstructured) (e : ApiError) (s t : c.State) (r : ObjectReference)
      → c.delete obj s ≡ (some e, t)
      → e.not_found ≡ true
      → lives t r ≡ (lives s r && not (same (get_reference obj) r))
  pub namespace-lives :
      (name : String) (s : c.State) (r : ObjectReference)
      → (r.kind == "Namespace") ≡ false
      → lives (c.create_or_update_namespace name s).1 r ≡ lives s r
  pub namespace-fades :
      (name : String) (s : c.State) (r : ObjectReference)
      → fades s r ≡ false
      → fades (c.create_or_update_namespace name s).1 r ≡ false

module _ (c : Client) (same : Same) (lives fades : c.State → Contents)
    (store : IsStore c same lives fades) (r : ObjectReference) where
  -- Nothing has begun to be deleted.
  abbrev pub Quiet : c.State → c.State → Type 0
  Quiet s t = (k : ObjectReference) → fades s k ≡ false → fades t k ≡ false

  -- A write that succeeded has put the object there.
  abbrev pub Puts : Unstructured → c.State → Option ApiError × Unstructured × c.State → Type 0
  Puts obj s w =
      w.0 ≡ none → (lives w.2 r ≡ (same (get_reference obj) r || lives s r)) × Quiet s w.2

  stored-Puts :
      (obj sent : Unstructured) (s : c.State) (w : Reply Unstructured × c.State)
      → ((answer : Unstructured) (t : c.State)
          → w ≡ (reply answer, t)
          → (lives t r ≡ (same (get_reference obj) r || lives s r)) × Quiet s t)
      → Puts obj s (stored c sent w)
  stored-Puts obj sent s (reply answer, t) law fine = law answer t refl
  stored-Puts obj sent s (failed e, t) law fine = cc

  patch-Puts :
      (patch : Patch) (obj sent : Unstructured) (s : c.State)
      → IsStorable c sent
      → fades s (get_reference sent) ≡ false
      → get_reference sent ≡ get_reference obj
      → Puts obj s (stored c sent (c.patch patch sent s))
  patch-Puts patch obj sent s storable calm alike = stored-Puts obj sent s _ (λ answer t e. (
    rw (← alike) (store.patch-lives patch sent answer s t r storable calm e),
    λ k before. store.patch-fades patch sent answer s t k storable e before,
  ))

  patch_resource-Puts :
      (options : ApplyOptions) (exists obj : Unstructured) (s : c.State)
      → IsStorable c obj
      → fades s (get_reference obj) ≡ false
      → Puts obj s (patch_resource c options exists obj s)
  unfolding patch_resource get_reference
  patch_resource-Puts options exists obj s storable calm =
      elim (Bool-cases options.server_side_apply) [
        | inl server ↦
            rw server (patch-Puts _ obj (record obj { managed_fields = none }) s storable calm refl)
        | inr merge ↦ rw merge (patch-Puts _ obj obj s storable calm refl)
      ]

  pub apply_resource-Puts :
      (obj : Unstructured) (options : ApplyOptions) (s : c.State)
      → IsStorable c obj
      → fades s (get_reference obj) ≡ false
      → Puts obj s (apply_resource c obj options s)
  unfolding apply_resource
  apply_resource-Puts obj options s storable calm = by_read (c.get obj s)
    where
      by_read :
          (read : Reply Unstructured)
          → Puts obj s (elim read as (λ _. Option ApiError × Unstructured × c.State) [
            | reply exists ↦ patch_resource c options exists obj s
            | failed e ↦ if e.not_found then stored c obj (c.create obj s) else (some e, obj, s)
          ])
      by_read (reply exists) = patch_resource-Puts options exists obj s storable calm
      by_read (failed e) = elim (Bool-cases e.not_found) [
        | inl missing ↦ rw missing (
            stored-Puts obj obj s _ (λ answer t w. (
              store.create-lives obj answer s t r storable w,
              λ k before. store.create-fades obj answer s t k storable w before,
            )))
        | inr broken ↦ rw broken (λ fine. cc)
      ]
