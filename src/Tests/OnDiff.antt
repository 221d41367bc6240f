-- ===== src/Tests/OnDiff.antt =====
-- The difference between managed references and rendered resources, at a list that keeps one
-- reference, drops one, and adds an object twice.
use bundle_controller.Base.{false, List, [], ◌∷◌, ◌≡◌, All}
use bundle_controller.Types.{ObjectReference, reference_eq, annotation_ignore_option_on_delete}
use bundle_controller.Resource.{Unstructured, is_skiped_on}
use bundle_controller.Diff.{diff}
use bundle_controller.Diff.Removes.{removes_diff-never_skiped}
use bundle_controller.Tests.Samples.{config_map_named, reference_to}
use bundle_controller.Tests.Servers.{platform}

abbrev managed : List ObjectReference
managed = reference_to "old" ∷ reference_to "kept" ∷ []

abbrev rendered : List Unstructured
rendered = config_map_named "kept" ∷ config_map_named "new" ∷ config_map_named "new" ∷ []

removes_diff-never_skiped_example :
    All
      (λ item. is_skiped_on item annotation_ignore_option_on_delete ≡ false)
      (diff platform managed rendered).removes
removes_diff-never_skiped_example =
    removes_diff-never_skiped platform managed rendered annotation_ignore_option_on_delete
