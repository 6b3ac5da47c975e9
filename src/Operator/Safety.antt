-- ===== src/Operator/Safety.antt =====
-- When a reconciliation may write a job (operator/src/instance_common.rs, `do_reconcile`).
use vynil.Prelude.{
  ℕ, String, Bool, true, false, Option, none, some, List, [], ◌∷◌, ◌≡◌, refl, any, All,
  if◌then◌else◌,
}
use vynil.Prelude.Dict.{lookup}
use vynil.Result.{ok}
use vynil.Kube.{
  Cluster, Call, render, apply_job, create_job, delete_job, History, Kube, pure, ◌>>◌, touch,
  touch_diagnostics,
}
use vynil.Kube.Keeps.{IsFree, Keeps-IsFree, Reaches-bind, Returns-bind, Keeps-call}
use vynil.Package.{VynilPackage, VynilPackageRequirement}
use vynil.Instance.{Instance}
use vynil.Operator.{Action, requeue}
use vynil.Status.{set_missing_requirement, set_missing_box, set_missing_package}
use vynil.Requirements.{Checked}
use vynil.Operator.Select.{Cache, JukeCacheItem, select_package}
use vynil.Operator.Reconcile.{
  TemplateContext, resolve_init_version, check, check_requirements, or_install, install,
  with_package, with_box, do_reconcile, is_suspended, base_entries, quarter,
}
use vynil.Operator.Quiet.{
  is_quiet, check_requirements-quiet, resolve_init_version-quiet, set_missing_box-quiet,
  set_missing_package-quiet,
}

-- The calls that write a job: apply, create and delete.
abbrev pub writes_job : Call → Bool
writes_job (apply_job name def) = true
writes_job (create_job def) = true
writes_job (delete_job name) = true
writes_job c = false

-- No job was written.
abbrev pub NoJob : History → Type 0
NoJob = IsFree writes_job

quiet-writes_job : (x : Call) → is_quiet x ≡ true → writes_job x ≡ false
quiet-writes_job (render template ctx) quiet = refl
quiet-writes_job (apply_job name def) quiet = cc
quiet-writes_job (create_job def) quiet = cc
quiet-writes_job (delete_job name) quiet = cc
quiet-writes_job _ quiet = refl

-- A check of the requirement has answered that it is met.
pub Met : Cluster → Instance → VynilPackageRequirement → Type 0
Met c inst req =
    (h : History) × (message : String) × (seconds : ℕ) × ((check c inst.kind inst req h).0
      ≡ ok (true, message, seconds))

module _ (c : Cluster) (inst : Instance) where
  first-Met :
      (req : VynilPackageRequirement) (rest : Kube (Option Action)) (h h' : History)
      (checked : Checked)
      → (check c inst.kind inst req h).0 ≡ ok checked
      → ((if checked.0
            then rest
            else (do set_missing_requirement c inst checked.1; pure (some (requeue checked.2))))
          h').0
        ≡ ok none
      → Met c inst req × ((rest h').0 ≡ ok none)
  unfolding Met pure
  first-Met req rest h h' (true, message, seconds) answered returned =
      ((h, message, seconds, answered), returned)
  first-Met req rest h h' (false, message, seconds) answered returned =
      let (updated, _, last) =
        Returns-bind (set_missing_requirement c inst message) (λ _. pure (some (requeue seconds)))
          h' none returned in
      cc

  cleared :
      (reqs : List VynilPackageRequirement) (h : History)
      → (check_requirements c inst reqs h).0 ≡ ok none
      → All (Met c inst) reqs
  unfolding check_requirements
  cleared [] h returned = tt
  cleared (req ∷ reqs) h returned =
      let (checked, answered, later) =
        Returns-bind (check c inst.kind inst req) _ h none returned in
      let (met, rest) = first-Met req (check_requirements c inst reqs) h _ checked answered later in
      (met, cleared reqs _ rest)

  -- What must hold of the cache for a job to be written.
  pub Allowed : Cache → Type 0
  Allowed cache =
      (is_suspended inst ≡ false)
      × (item : JukeCacheItem) × (pck : VynilPackage) × (lookup inst.jukebox cache ≡ some item)
      × (select_package c inst item ≡ some pck)
      × All (Met c inst) pck.requirements

  unblocked :
      (pck : VynilPackage) (ctx : TemplateContext) (blocked : Option Action) (h h' : History)
      → (check_requirements c inst pck.requirements h).0 ≡ ok blocked
      → NoJob h'
      → any writes_job (or_install c inst pck ctx blocked h').1 ≡ true
      → All (Met c inst) pck.requirements
  unfolding or_install pure
  unblocked pck ctx none h h' answered free wrote = cleared pck.requirements h answered
  unblocked pck ctx (some action) h h' answered free wrote = cc

  install-Met :
      (item : JukeCacheItem) (pck : VynilPackage) (ctx : TemplateContext) (h : History)
      → NoJob h
      → any writes_job (install c inst item pck ctx h).1 ≡ true
      → All (Met c inst) pck.requirements
  unfolding install
  install-Met item pck ctx h free wrote =
      let (version, _, free', more) =
        Reaches-bind writes_job (resolve_init_version c inst pck item.packages item.pull_secret) _ h
          (Keeps-IsFree writes_job _ (
            resolve_init_version-quiet c (λ x. writes_job x ≡ false) quiet-writes_job inst pck
              item.packages item.pull_secret))
          free wrote in
      let (blocked, answered, free'', last) =
        Reaches-bind writes_job (check_requirements c inst pck.requirements) _ _
          (Keeps-IsFree writes_job _ (
            check_requirements-quiet c (λ x. writes_job x ≡ false) quiet-writes_job inst
              pck.requirements))
          free' more in
      unblocked pck _ blocked _ _ answered free'' last

  package-Met :
      (item : JukeCacheItem) (ctx : TemplateContext) (chosen : Option VynilPackage) (h : History)
      → NoJob h
      → any writes_job (with_package c inst item ctx chosen h).1 ≡ true
      → (pck : VynilPackage) × (chosen ≡ some pck) × All (Met c inst) pck.requirements
  unfolding with_package pure
  package-Met item ctx none h free wrote =
      let (_, _, free', more) =
        Reaches-bind writes_job (set_missing_package c inst inst.category inst.package_name) _ h
          (Keeps-IsFree writes_job _ (
            set_missing_package-quiet c (λ x. writes_job x ≡ false) quiet-writes_job inst
              inst.category inst.package_name))
          free wrote in
      cc
  package-Met item ctx (some pck) h free wrote = (pck, refl, install-Met item pck ctx h free wrote)

  box-Met :
      (ctx : TemplateContext) (box : Option JukeCacheItem) (h : History)
      → NoJob h
      → any writes_job (with_box c inst ctx box h).1 ≡ true
      → (item : JukeCacheItem) × (pck : VynilPackage) × (box ≡ some item)
        × (select_package c inst item ≡ some pck)
        × All (Met c inst) pck.requirements
  unfolding with_box pure
  box-Met ctx none h free wrote =
      let (_, _, free', more) =
        Reaches-bind writes_job (set_missing_box c inst inst.jukebox) _ h
          (Keeps-IsFree writes_job _ (
            set_missing_box-quiet c (λ x. writes_job x ≡ false) quiet-writes_job inst inst.jukebox))
          free wrote in
      cc
  box-Met ctx (some item) h free wrote =
      let (pck, chosen, met) = package-Met item ctx (select_package c inst item) h free wrote in
      (item, pck, refl, chosen, met)

  started :
      (suspended : Bool) (ctx : TemplateContext) (box : Option JukeCacheItem) (h : History)
      → NoJob h
      → any writes_job ((if suspended then pure quarter else with_box c inst ctx box) h).1 ≡ true
      → (suspended ≡ false) × (any writes_job (with_box c inst ctx box h).1 ≡ true)
  unfolding pure
  started true ctx box h free wrote = cc
  started false ctx box h free wrote = (refl, wrote)

  -- A reconciliation that has written a job (applied, created or deleted one), where none was
  -- written before, is of an instance that is not suspended and whose jukebox is in the cache; a
  -- package of the jukebox fits it, and each requirement of that package was checked and met.
  pub do_reconcile-Allowed :
      (base_context : TemplateContext) (cache : Cache) (h : History)
      → NoJob h
      → any writes_job (do_reconcile c inst base_context cache h).1 ≡ true
      → Allowed cache
  unfolding do_reconcile Allowed touch
  do_reconcile-Allowed base_context cache h free wrote =
      let (_, _, free', more) =
        Reaches-bind writes_job touch _ h
          (Keeps-call writes_job touch_diagnostics (λ h. ok tt) refl) free wrote in
      let ctx = base_entries c inst "install" base_context in
      let (running, later) =
        started (is_suspended inst) ctx (lookup inst.jukebox cache) _ free' more in
      let (item, pck, found, chosen, met) = box-Met ctx (lookup inst.jukebox cache) _ free' later in
      (running, item, pck, found, chosen, met)
