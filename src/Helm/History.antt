-- ===== src/Helm/History.antt =====
-- `removeHistories`: deletes revisions of a release before an upgrade.
pub mod Limit
use bundle_controller.Base.{
  ℕ, ◌-◌, String, Bool, true, false, not, ◌&&◌, Option, none, some, List, [], ◌∷◌, ◌++◌, length,
  ◌==◌, nat_eq, string_eq, ltb, if◌then◌else◌, Result, ok, err,
}
use bundle_controller.Helm.Sdk.{Release, is_deployed, Sdk}

-- The loop over the revisions: `seen` tells that `lastDeployed` is set, and `to_delete` is what was
-- collected so far.
unfoldable pub collect : ℕ → ℕ → List Release → Bool → List Release → List Release
collect total max [] seen to_delete = to_delete
collect total max (rls ∷ rest) seen to_delete = elim (is_deployed rls && not seen) [
  | true ↦ collect total max rest true to_delete
  | false ↦ elim (total - length to_delete == max) [
    | true ↦ to_delete
    | false ↦ collect total max rest seen (to_delete ++ (rls ∷ []))
  ]
]

-- A limit of 0 or less counts as 1.
abbrev pub effective_limit : ℕ → ℕ
effective_limit max = if max == 0 then 1 else max

-- The revisions that are deleted, of those given newest first.
unfoldable pub revisions_to_delete : ℕ → List Release → List Release
revisions_to_delete max rlss = collect (length rlss) (effective_limit max) rlss false []

abbrev pub newer : Release → Release → Bool
newer a b = ltb b.version a.version

module _ {State : Type 0} (h : Sdk State) (namespace : String) where
  -- The deletions, up to the first that fails.
  unfoldable pub delete_all : List Release → State → Option String × State
  delete_all [] s = (none, s)
  delete_all (rls ∷ rest) s =
      let (failure, t) = h.delete namespace rls.name rls.version s in
      elim failure [ none ↦ delete_all rest t | some message ↦ (some message, t) ]

  unfoldable pub remove_histories : String → ℕ → State → Option String × State
  remove_histories name max s = elim (h.history namespace name s) [
    | err message ↦ (some message, s)
    | ok rlss ↦ delete_all (revisions_to_delete max (h.sort_func newer rlss)) s
  ]
