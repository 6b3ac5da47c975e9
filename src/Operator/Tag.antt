-- ===== src/Operator/Tag.antt =====
-- What the templates of an installation are rendered with (operator/src/instance_common.rs,
-- `do_reconcile`).
use vynil.Prelude.{String, Option, none, some, [], ◌≡◌, refl, ◌⊎◌, ◌≢◌, inl, inr, eq_iff, All}
use vynil.Prelude.Dict.{lookup, insert}
use vynil.Prelude.Text.{ne_of_eq_false}
use vynil.Prelude.Json.{Json, string}
use vynil.Package.{VynilPackage}
use vynil.Instance.{Instance}
use vynil.Result.{ok-injective, ok}
use vynil.Kube.{Cluster, History, call, render, ◌>>=◌, ◌>>◌, pure}
use vynil.Kube.Keeps.{Keeps, Keeps-if, Keeps-bind, Keeps-pure, Keeps-call-All}
use vynil.Operator.Jobs.{upsert_job}
use vynil.Operator.Reconcile.{TemplateContext, job_name, base_entries, force_reinstall}
use vynil.Prelude.{subst, sym}
use vynil.Kube.Keeps.{Keeps-bind_returned, Returns-bind}
use vynil.Kube.{touch, touch_diagnostics, lift, eval_map_string}
use vynil.Instance.{init_from_version, current_tag}
use vynil.Operator.{Action}
use vynil.Operator.Select.{JukeCacheItem, Cache, select_package}
use vynil.Operator.Reconcile.{
  quarter, is_suspended, value_entries, reco_entries, or_install, tag_or, run_install, install,
  with_package, with_box, do_reconcile,
}
use vynil.Operator.Recommend.{RecoContext}
use vynil.Operator.Quiet.{
  build_recommendations-quiet, value_entries-quiet, check_requirements-quiet,
  resolve_init_version-quiet, set_missing_box-quiet, set_missing_package-quiet,
}
use vynil.Operator.InitVersion.{Resolved, resolve_init_version-Resolved}
use vynil.Operator.Contexts.{IsFor, full-IsFor}
use vynil.Operator.Renders.{
  RendersWith, is_render, quiet-RendersWith, Keeps-other, upsert_job-Rendering,
  force_reinstall-Rendering,
}

module _ (c : Cluster) (inst : Instance) where
  -- The tag to install: the version that `initFrom` asks for, if it asks for one and the instance has
  -- no tag yet, and else that of the package.
  pub IsEffective : VynilPackage → String → Type 0
  IsEffective pck t =
      ((current_tag inst ≡ "") × (init_from_version inst ≡ some t))
      ⊎ (((current_tag inst ≢ "") ⊎ (init_from_version inst ≡ none)) × (t ≡ pck.tag))

  -- The context is for the installation of the package that the cache gives.
  pub IsInstall : Cache → TemplateContext → Type 0
  IsInstall cache ctx =
      (item : JukeCacheItem) × (pck : VynilPackage) × (t : String) × (lookup inst.jukebox cache
        ≡ some item)
      × (select_package c inst item ≡ some pck)
      × IsEffective pck t
      × IsFor c inst "install" pck t ctx

  -- The values are added to the context under one key.
  pub value_entries-insert :
      (script : Option String) (ctx : TemplateContext) (h : History) (full : TemplateContext)
      → (value_entries c inst script ctx h).0 ≡ ok full
      → (values : Json) × (full ≡ insert "ctrl_values" values ctx)
  unfolding value_entries pure
  value_entries-insert none ctx h full returned = (string "\"{}\"", cc)
  value_entries-insert (some script) ctx h full returned =
      let (read, _, later) = Returns-bind (lift (c.unquoted script)) _ h full returned in
      let (val, _, last) =
        Returns-bind (call (eval_map_string inst read) c.map_string) _ _ full later in
      (string (c.debug_text val), sym (ok-injective last))

  tag_or-IsEffective :
      (item : JukeCacheItem) (pck : VynilPackage) (version : Option String)
      → Resolved c inst pck item.packages version
      → IsEffective pck (tag_or c inst pck.tag version)
  unfolding tag_or IsEffective Resolved
  tag_or-IsEffective item pck none (inl unasked) = inr (inr unasked, refl)
  tag_or-IsEffective item pck none (inr tagged) =
      inr (inl (ne_of_eq_false (current_tag inst) "" tagged), refl)
  tag_or-IsEffective item pck (some v) (asked, fresh, there) =
      inl ((eq_iff (current_tag inst) "").0 fresh, asked)

  module _ (P : TemplateContext → Type 0) where
    rendered-Rendering :
        (full : TemplateContext)
        → P full
        → Keeps (All (RendersWith P)) (do
          force_reinstall c inst
          job_def ← call (render "{{> package.yaml }}" full) c.rendered
          upsert_job c (job_name inst) job_def
          pure quarter)
    rendered-Rendering full p = Keeps-bind _ _ (force_reinstall-Rendering P c inst) (λ _.
        Keeps-bind _ _
          (Keeps-call-All (RendersWith P) (render "{{> package.yaml }}" full) c.rendered p)
          (λ job_def.
            Keeps-bind _ _ (upsert_job-Rendering P c (job_name inst) job_def)
              (λ _. Keeps-pure quarter)))

    run_install-Rendering :
        (pck : VynilPackage) (ctx : TemplateContext)
        → ((recos : RecoContext) (values : Json)
            → P (insert "ctrl_values" values (reco_entries recos ctx)))
        → Keeps (All (RendersWith P)) (run_install c inst pck ctx)
    unfolding run_install
    run_install-Rendering pck ctx p =
        Keeps-bind _ _
          (build_recommendations-quiet c (RendersWith P) (quiet-RendersWith P) inst.kind inst
            pck.recommandations)
          (λ recos.
            Keeps-bind_returned _ _
              (value_entries-quiet c (RendersWith P) (quiet-RendersWith P) inst pck.value_script
                (reco_entries recos ctx))
              (λ h full returned.
                let (values, same) =
                  value_entries-insert pck.value_script (reco_entries recos ctx) h full returned in
                rendered-Rendering full (subst P (sym same) (p recos values))))

    or_install-Rendering :
        (pck : VynilPackage) (ctx : TemplateContext) (blocked : Option Action)
        → ((recos : RecoContext) (values : Json)
            → P (insert "ctrl_values" values (reco_entries recos ctx)))
        → Keeps (All (RendersWith P)) (or_install c inst pck ctx blocked)
    unfolding or_install
    or_install-Rendering pck ctx none p = run_install-Rendering pck ctx p
    or_install-Rendering pck ctx (some action) p = Keeps-pure action

  module _ (cache : Cache) where
    abbrev P : TemplateContext → Type 0
    P = IsInstall cache

    install-Rendering :
        (item : JukeCacheItem) (pck : VynilPackage) (base : TemplateContext)
        → lookup inst.jukebox cache ≡ some item
        → select_package c inst item ≡ some pck
        → Keeps (All (RendersWith P)) (install c inst item pck (base_entries c inst "install" base))
    unfolding install IsInstall reco_entries
    install-Rendering item pck base found chosen =
        Keeps-bind_returned _ _
          (resolve_init_version-quiet c (RendersWith P) (quiet-RendersWith P) inst pck item.packages
            item.pull_secret)
          (λ h version returned.
            let resolved =
              resolve_init_version-Resolved c inst pck item.packages item.pull_secret h version
                returned in
            let t = tag_or c inst pck.tag version in
            Keeps-bind _ _
              (check_requirements-quiet c (RendersWith P) (quiet-RendersWith P) inst
                pck.requirements)
              (λ blocked. or_install-Rendering P pck _ blocked (λ recos values. (
                item,
                pck,
                t,
                found,
                chosen,
                tag_or-IsEffective item pck version resolved,
                full-IsFor c inst "install" pck t base item.pull_secret values _ _ _,
              ))))

    package-Rendering :
        (item : JukeCacheItem) (chosen : Option VynilPackage) (base : TemplateContext)
        → lookup inst.jukebox cache ≡ some item
        → select_package c inst item ≡ chosen
        → Keeps
            (All (RendersWith P))
            (with_package c inst item (base_entries c inst "install" base) chosen)
    unfolding with_package
    package-Rendering item none base found chosen =
        Keeps-bind _ _
          (set_missing_package-quiet c (RendersWith P) (quiet-RendersWith P) inst inst.category
            inst.package_name)
          (λ _. Keeps-pure quarter)
    package-Rendering item (some pck) base found chosen =
        install-Rendering item pck base found chosen

    box-Rendering :
        (box : Option JukeCacheItem) (base : TemplateContext)
        → lookup inst.jukebox cache ≡ box
        → Keeps (All (RendersWith P)) (with_box c inst (base_entries c inst "install" base) box)
    unfolding with_box
    box-Rendering none base found =
        Keeps-bind _ _
          (set_missing_box-quiet c (RendersWith P) (quiet-RendersWith P) inst inst.jukebox)
          (λ _. Keeps-pure quarter)
    box-Rendering (some item) base found =
        package-Rendering item (select_package c inst item) base found refl

    reconcile-Rendering :
        (base : TemplateContext) → Keeps (All (RendersWith P)) (do_reconcile c inst base cache)
    unfolding do_reconcile touch is_render
    reconcile-Rendering base =
        Keeps-bind _ _ (Keeps-other P touch_diagnostics (λ h. ok tt) refl) (λ _.
          Keeps-if (is_suspended inst) (pure quarter) _ (λ _. Keeps-pure quarter)
            (λ _. box-Rendering (lookup inst.jukebox cache) base refl))

    -- Whatever the API answers, from no earlier calls, each template that a reconciliation renders has
    -- a context that names the instance, its job and the digest of its options, and the registry and
    -- image of the package that the cache gives for the instance; its tag is the version that
    -- `initFrom` asks for, if it asks for one and the instance has no tag, and else that of the
    -- package.
    pub do_reconcile-IsInstall :
        (base : TemplateContext)
        → All (RendersWith (IsInstall cache)) (do_reconcile c inst base cache []).1
    do_reconcile-IsInstall base = (reconcile-Rendering base).at [] tt
