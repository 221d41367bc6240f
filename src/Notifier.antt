-- ===== src/Notifier.antt =====
-- pkg/controllers/notifier.go: which bundles are reconciled when a config map or a secret changes.
use bundle_controller.Base.{
  String, Bool, true, ◌&&◌, Option, none, some, List, [], ◌∷◌, ◌++◌, ◌≡◌, refl, ◌∙◌, arith, ◌==◌,
  ==_iff, string_eq, if◌then◌else◌, any, contains, contains-append, Eq, ◌↔◌,
}
use bundle_controller.Types.{Bundle, ValuesFrom}
use bundle_controller.Reconciler.Api.{Api}

-- The types that the handler tells apart.
pub data Watched : Type 0 where
  config_map : Watched
  secret : Watched
  unwatched : Watched

-- What the handler reads of an object.
pub record Object : Type 0 where
  pub watched : Watched
  pub namespace : String
  pub name : String

pub record Request : Type 0 where
  pub namespace : String
  pub name : String

abbrev pub request_beq : Request → Request → Bool
request_beq a b = a.namespace == b.namespace && a.name == b.name

pub request_beq_iff : (a b : Request) → (request_beq a b ≡ true) ↔ (a ≡ b)
request_beq_iff a b = ground (arith, ==_iff a.namespace b.namespace, ==_iff a.name b.name)

instance unfoldable pub request_eq : Eq Request
request_eq = record { same = request_beq; same_iff = request_beq_iff }

-- The kind that a reference must spell, if the object is watched.
abbrev pub kind_of : Watched → Option String
kind_of config_map = some "ConfigMap"
kind_of secret = some "Secret"
kind_of unwatched = none

abbrev pub object_key_from_object : Bundle → Request
object_key_from_object b = record { namespace = b.namespace; name = b.name }

abbrev pub refers_to : String → String → ValuesFrom → Bool
refers_to kind name ref = ref.kind == kind && ref.name == name

-- One request for each reference to the object.
requests_of_refs : String → String → Bundle → List ValuesFrom → List Request
requests_of_refs kind name b [] = []
requests_of_refs kind name b (ref ∷ refs) =
    let rest = requests_of_refs kind name b refs in
    if refers_to kind name ref then object_key_from_object b ∷ rest else rest

requests_of : String → String → List Bundle → List Request
requests_of kind name [] = []
requests_of kind name (b ∷ bs) =
    requests_of_refs kind name b b.spec.values_from ++ requests_of kind name bs

module _ {State : Type 0} (api : Api State) where
  -- The function of `ConfigMapOrSecretTrigger`.
  unfoldable pub config_map_or_secret_trigger : Object → State → List Request
  unfolding requests_of requests_of_refs
  config_map_or_secret_trigger obj s = elim (kind_of obj.watched) [
    | none ↦ []
    | some kind ↦ requests_of kind obj.name (api.list obj.namespace s).items
  ]

-- The bundle has this key and refers to the object.
abbrev pub is_concerned : String → String → Request → Bundle → Bool
is_concerned kind name request b =
    object_key_from_object b == request && any (refers_to kind name) b.spec.values_from

contains-requests_of_refs :
    (kind name : String) (b : Bundle) (refs : List ValuesFrom) (request : Request)
    → contains (requests_of_refs kind name b refs) request
      ≡ (object_key_from_object b == request && any (refers_to kind name) refs)
unfolding config_map_or_secret_trigger
contains-requests_of_refs kind name b [] request = ground arith
contains-requests_of_refs kind name b (ref ∷ refs) request =
    ground (arith, contains-requests_of_refs kind name b refs request)

contains-requests_of :
    (kind name : String) (bs : List Bundle) (request : Request)
    → contains (requests_of kind name bs) request ≡ any (is_concerned kind name request) bs
unfolding config_map_or_secret_trigger
contains-requests_of kind name [] request = refl
contains-requests_of kind name (b ∷ bs) request =
    contains-append (requests_of_refs kind name b b.spec.values_from) (requests_of kind name bs)
      request
    ∙ rw
        (
          contains-requests_of_refs kind name b b.spec.values_from request,
          contains-requests_of kind name bs request,
        )
        refl

module _ {State : Type 0} (api : Api State) where
  -- A change of a config map or a secret requests a reconciliation of exactly the bundles of its
  -- namespace that name it in a reference, with the kind spelt `ConfigMap` or `Secret`.
  pub contains-config_map_or_secret_trigger :
      (obj : Object) (kind : String) (request : Request) (s : State)
      → kind_of obj.watched ≡ some kind
      → contains (config_map_or_secret_trigger api obj s) request
        ≡ any (is_concerned kind obj.name request) (api.list obj.namespace s).items
  unfolding config_map_or_secret_trigger
  contains-config_map_or_secret_trigger obj kind request s watched =
      (λ i.
        contains
          (elim (watched i) [
            | none ↦ []
            | some k ↦ requests_of k obj.name (api.list obj.namespace s).items
          ])
          request)
      ∙ contains-requests_of kind obj.name (api.list obj.namespace s).items request
