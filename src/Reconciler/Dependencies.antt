-- ===== src/Reconciler/Dependencies.antt =====
-- `checkDepenency`: every dependency exists, and is installed if it is a bundle.
use bundle_controller.Base.{
  String, ◌<>◌, Option, none, some, List, [], ◌∷◌, ◌≡◌, ◌↔◌, refl, arith, ◌==◌, ==_iff, string_eq,
  if◌then◌else◌, All, Bool-cases, Option-cases, inl, inr,
}
use bundle_controller.Types.{Bundle, BundleStatus, ObjectReference, phase_installed}
use bundle_controller.Cluster.{Reply, reply, failed}
use bundle_controller.Reconciler.Api.{Api, Dependency, bundle, other}

-- `DependencyError.Error`
dependency_error : ObjectReference → String → String
dependency_error dep reason = "dependency " <> dep.namespace <> "/" <> dep.name <> " :" <> reason

-- The namespace and the kind default to those of the bundle.
unfoldable pub complete : Bundle → ObjectReference → ObjectReference
complete b dep =
    let placed : ObjectReference = record dep {
      namespace = if dep.namespace == "" then b.namespace else dep.namespace;
    } in
    if dep.kind == "" then record placed { api_version = b.api_version; kind = b.kind } else placed

module _ {State : Type 0} (api : Api State) where
  check_fetched : ObjectReference → Reply Dependency → Option String
  check_fetched dep (failed e) =
      some (if e.not_found then dependency_error dep e.message else e.message)
  check_fetched dep (reply other) = none
  check_fetched dep (reply (bundle obj)) =
      if obj.status.phase == phase_installed
      then none
      else some (dependency_error dep "not installed")

  check_one : Bundle → ObjectReference → State → Option String
  check_one b dep s =
      if dep.name == ""
      then none
      else check_fetched (complete b dep) (api.get_dependency (complete b dep) s)

  check_all : Bundle → List ObjectReference → State → Option String
  check_all b [] s = none
  check_all b (dep ∷ deps) s = elim (check_one b dep s) [
    | some message ↦ some message
    | none ↦ check_all b deps s
  ]

  -- The error if there is one.
  unfoldable pub check_depenency : Bundle → State → Option String
  unfolding check_all check_one check_fetched dependency_error
  check_depenency b s = check_all b b.spec.dependencies s

  abbrev pub IsAvailable : Reply Dependency → Type 0
  IsAvailable (failed e) = ⊥
  IsAvailable (reply other) = Unit
  IsAvailable (reply (bundle obj)) = obj.status.phase ≡ phase_installed

  -- A dependency with a name is there, and installed if it is a bundle.
  abbrev pub IsReady : Bundle → State → ObjectReference → Type 0
  IsReady b s dep =
      if dep.name == "" then Unit else IsAvailable (api.get_dependency (complete b dep) s)

  check_fetched_iff :
      (dep : ObjectReference) (r : Reply Dependency) → (check_fetched dep r ≡ none) ↔ IsAvailable r
  unfolding check_depenency
  check_fetched_iff dep (failed e) = ((λ e. cc), (λ e. absurd e))
  check_fetched_iff dep (reply other) = ((λ _. tt), (λ _. refl))
  check_fetched_iff dep (reply (bundle obj)) =
      ground (arith, ==_iff obj.status.phase phase_installed)

  check_one_iff :
      (b : Bundle) (s : State) (dep : ObjectReference)
      → (check_one b dep s ≡ none) ↔ IsReady b s dep
  unfolding check_depenency
  check_one_iff b s dep = elim (Bool-cases (dep.name == "")) [
    | inl unnamed ↦ rw unnamed ((λ _. tt), (λ _. refl))
    | inr named ↦ rw named (check_fetched_iff (complete b dep) _)
  ]

  check_all_iff :
      (b : Bundle) (s : State) (deps : List ObjectReference)
      → (check_all b deps s ≡ none) ↔ All (IsReady b s) deps
  unfolding check_depenency
  check_all_iff b s [] = ((λ _. tt), (λ _. refl))
  check_all_iff b s (dep ∷ deps) = elim (Option-cases (check_one b dep s)) [
    | inl ready ↦
        rw (ready, check_all)
          (
            λ e. ((check_one_iff b s dep).0 ready, (check_all_iff b s deps).0 e),
            λ (_, later). (check_all_iff b s deps).1 later,
          )
    | inr (message, unready) ↦
        rw (unready, check_all)
          (λ e. cc, λ (now, _). absurd (cc ((check_one_iff b s dep).1 now, unready)))
  ]

  -- The check passes exactly if each dependency that has a name exists and, where it is a bundle, is
  -- installed.
  pub check_depenency_iff :
      (b : Bundle) (s : State)
      → (check_depenency b s ≡ none) ↔ All (IsReady b s) b.spec.dependencies
  unfolding check_depenency
  check_depenency_iff b s = check_all_iff b s b.spec.dependencies

module _ {State : Type 0} (api : Api State) (update : Bundle → State → Reply Bundle × State) where
  check_all-update :
      (b : Bundle) (deps : List ObjectReference) (s : State)
      → check_all (record api { update = update }) b deps s ≡ check_all api b deps s
  unfolding check_depenency
  check_all-update b [] s = refl
  check_all-update b (dep ∷ deps) s = λ i. elim (check_one api b dep s) [
    | some message ↦ some message
    | none ↦ check_all-update b deps s i
  ]

  -- The check reads and does not update.
  pub check_depenency-update :
      (b : Bundle) (s : State)
      → check_depenency (record api { update = update }) b s ≡ check_depenency api b s
  unfolding check_depenency
  check_depenency-update b s = check_all-update b b.spec.dependencies s

module _ {State : Type 0} (api : Api State) (b : Bundle) (status : BundleStatus) where
  check_all-status :
      (deps : List ObjectReference) (s : State)
      → check_all api (record b { status = status }) deps s ≡ check_all api b deps s
  unfolding check_depenency complete
  check_all-status [] s = refl
  check_all-status (dep ∷ deps) s = λ i. elim (check_one api b dep s) [
    | some message ↦ some message
    | none ↦ check_all-status deps s i
  ]

  -- The check does not look at the status of the bundle itself.
  pub check_depenency-status :
      (s : State) → check_depenency api (record b { status = status }) s ≡ check_depenency api b s
  unfolding check_depenency
  check_depenency-status s = check_all-status b.spec.dependencies s
