-- ===== src/Template/Version.antt =====
-- What `Template` does to the bundle.
use bundle_controller.Base.{
  String, Bool, false, none, ◌≡◌, refl, arith, Result, ok, err, ap, ◌∙◌, ◌==◌, string_eq,
}
use bundle_controller.Types.{Bundle, phase_installed}
use bundle_controller.Cluster.{Client, Platform}
use bundle_controller.Manifest.{Split, split_yaml}
use bundle_controller.Native.{
  TemplateFun, Tools, apply, apply_rendered, apply_split, apply_resources, installed_status,
  is_up_to_date,
}
use bundle_controller.Template.Engine.{Helm}
use bundle_controller.Template.{template, load}

module _ {State Loaded : Type 0} (e : Helm State Loaded) where
  -- A template whose chart loads changes nothing of the bundle but the version of its spec, which
  -- becomes the chart's, also where the rendering fails.
  pub template-version :
      (configured : Bool) (plugin : Bundle) (dir : String) (s : State) (chart : Loaded)
      → load e plugin.name plugin.spec.version dir s ≡ ok chart
      → (template e configured plugin dir s).1
        ≡ record plugin { spec = record plugin.spec { version = e.version_of chart } }
  unfolding template
  template-version configured plugin dir s chart loaded = rw loaded refl

module _ (p : Platform) (c : Client) (t : Tools) (template_fun : TemplateFun c.State) where
  apply_split-version :
      (split : Split) (bundle : Bundle) (s : c.State)
      → (bundle.status.phase == phase_installed) ≡ false
      → (apply_split p c t split bundle s).failure ≡ none
      → (apply_split p c t split bundle s).bundle.status.version ≡ bundle.spec.version
  unfolding apply apply_resources installed_status is_up_to_date
  apply_split-version split bundle s fresh fine = ground arith

  apply_rendered-version :
      (r : Result String × Bundle) (s : c.State)
      → (r.1.status.phase == phase_installed) ≡ false
      → (apply_rendered p c t r s).failure ≡ none
      → (apply_rendered p c t r s).bundle.status.version ≡ r.1.spec.version
  unfolding apply
  apply_rendered-version (err message, bundle) s fresh fine = cc
  apply_rendered-version (ok text, bundle) s fresh fine =
      apply_split-version (split_yaml t.decode text) bundle s fresh fine

  -- The status of a bundle that is not yet installed shows, after an `Apply` that succeeds, the
  -- version that the template function left in its spec.
  pub apply-version :
      (bundle : Bundle) (into : String) (s : c.State)
      → ((template_fun bundle into s).1.status.phase == phase_installed) ≡ false
      → (apply p c t template_fun bundle into s).failure ≡ none
      → (apply p c t template_fun bundle into s).bundle.status.version
        ≡ (template_fun bundle into s).1.spec.version
  unfolding apply
  apply-version bundle into s fresh fine =
      apply_rendered-version (template_fun bundle into s) s fresh fine

-- A template bundle that is not yet installed shows, after an `Apply` that succeeds, the version of the
-- chart that was loaded from its directory, whatever version its spec asks for.
pub apply-template_version :
    {Loaded : Type 0} (p : Platform) (c : Client) (t : Tools) (e : Helm c.State Loaded)
    (configured : Bool) (bundle : Bundle) (into : String) (s : c.State) (chart : Loaded)
    → load e bundle.name bundle.spec.version into s ≡ ok chart
    → (bundle.status.phase == phase_installed) ≡ false
    → (apply p c t (template e configured) bundle into s).failure ≡ none
    → (apply p c t (template e configured) bundle into s).bundle.status.version ≡ e.version_of chart
apply-template_version p c t e configured bundle into s chart loaded fresh fine =
    let changed = template-version e configured bundle into s chart loaded in
    apply-version p c t (template e configured) bundle into s
      (ap (λ (b : Bundle). b.status.phase == phase_installed) changed ∙ fresh) fine
    ∙ ap (λ (b : Bundle). b.spec.version) changed
