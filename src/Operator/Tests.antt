-- ===== src/Operator/Tests.antt =====
-- Runs of the operations of an instance.
use vynil.Prelude.{
  refl, ◌≡◌, ◌↔◌, true, false, List, [], ◌∷◌, ◌++◌, any, All, some, none, is_some, ◌==◌,
  if◌then◌else◌,
}
use vynil.Result.{ok}
use vynil.Kube.{Cluster, lift}
use vynil.JukeBox.{JukeBox}
use vynil.Operator.{await_change}
use vynil.Examples.{
  fair_cluster, fresh_instance, installed_instance, box_cache, box_item, site_package, some_box,
}
use vynil.Operator.Reconcile.{do_reconcile}
use vynil.Prelude.{find}
use vynil.Prelude.Dict.{lookup}
use vynil.Kube.{touch, attempt, ◌>>=◌, call, pure}
use vynil.Semver.{parse}
use vynil.Package.{VynilPackage, usage_eq, is_min_version_ok, is_vynil_version_ok}
use vynil.Instance.{Instance, init_from_version, current_tag}
use vynil.Requirements.{check_tenant}
use vynil.Operator.Jobs.{upsert_job}
use vynil.Operator.Select.{Cache, is_named, select_package}
use vynil.Operator.Recommend.{build_recommendations}
use vynil.Operator.Reconcile.{
  verify_version, registry_auth, is_suspended, resolve_init_version, check_requirements,
  value_entries,
}
use vynil.Operator.Safety.{writes_job, NoJob, Allowed, do_reconcile-Allowed}
use vynil.Operator.Cleanup.{do_cleanup}
use vynil.Operator.Release.{Released, do_cleanup-Released}
use vynil.Operator.Renders.{RendersWith}
use vynil.Operator.Tag.{IsInstall, do_reconcile-IsInstall}
use vynil.Operator.InitVersion.{Resolved, resolve_init_version-Resolved}
use vynil.Operator.Removal.{IsRemoval, do_cleanup-IsRemoval}
use vynil.Operator.Choice.{Fits, select_package-first}
use vynil.Operator.Caching.{cache_entry_differs}
use vynil.Operator.Scan.{reconcile, cleanup, force_scan}
use vynil.Operator.Coherence.{cached, cache_entry_differs-cached, lookup-cleanup-reconcile}
use vynil.Operator.ForceScan.{removes, Scanned, reconcile-Scanned, reconcile-NoJob}

installs : any writes_job (do_reconcile fair_cluster fresh_instance [] box_cache []).1 ≡ true
unfolding do_reconcile ◌>>=◌ touch is_suspended lookup select_package find usage_eq
    is_min_version_ok parse is_vynil_version_ok resolve_init_version init_from_version
    check_requirements check_tenant build_recommendations value_entries upsert_job call pure attempt
installs = refl

do_reconcile-Allowed_example : Allowed fair_cluster fresh_instance box_cache
do_reconcile-Allowed_example =
    do_reconcile-Allowed fair_cluster fresh_instance [] box_cache [] refl installs

-- A cluster that lets an installed instance go.
removed : (do_cleanup fair_cluster installed_instance [] box_cache []).0 ≡ ok await_change
unfolding do_cleanup ◌>>=◌ touch lookup select_package find usage_eq is_min_version_ok parse
    is_vynil_version_ok value_entries call pure attempt lift
    vynil.Operator.Reconcile.delete_if_there
removed = refl

do_cleanup-Released_example : Released fair_cluster installed_instance (lookup "box" box_cache)
do_cleanup-Released_example =
    do_cleanup-Released fair_cluster installed_instance [] box_cache [] await_change removed

-- A jukebox in the cache without packages.
abbrev empty_cache : Cache
empty_cache = ("box", record box_item { packages = [] }) ∷ []

do_reconcile-IsInstall_example :
    All
      (RendersWith (IsInstall fair_cluster fresh_instance box_cache))
      (do_reconcile fair_cluster fresh_instance [] box_cache []).1
do_reconcile-IsInstall_example = do_reconcile-IsInstall fair_cluster fresh_instance box_cache []

-- An instance that starts from a version which only the registry has.
abbrev restored_instance : Instance
restored_instance = record fresh_instance { init_from = some (some "1.0.0") }

resolve_init_version-Resolved_example :
    Resolved fair_cluster restored_instance site_package (site_package ∷ []) (some "1.0.0")
unfolding resolve_init_version init_from_version call pure ◌>>=◌ verify_version registry_auth
    current_tag is_named usage_eq
resolve_init_version-Resolved_example =
    resolve_init_version-Resolved fair_cluster restored_instance site_package (site_package ∷ [])
      none [] (some "1.0.0") refl

select_package-first_example :
    (before : List VynilPackage) × (after : List VynilPackage) × (box_item.packages
      ≡ before ++ site_package ∷ after)
    × Fits fair_cluster fresh_instance site_package
    × All (λ q. ¬ Fits fair_cluster fresh_instance q) before
unfolding select_package find usage_eq is_min_version_ok parse is_vynil_version_ok
select_package-first_example =
    select_package-first fair_cluster fresh_instance box_item site_package refl

-- A jukebox that was scanned, and one that is to be scanned now.
abbrev scanned_box : JukeBox
scanned_box = record some_box {
  status = some (record { conditions = []; packages = site_package ∷ [] });
}

abbrev forced_box : JukeBox
forced_box = record some_box { annotations = ("vynil.solidite.fr/force-scan", "true") ∷ [] }

cache_entry_differs-cached_example :
    (cache_entry_differs empty_cache scanned_box ≡ false)
    ↔ (lookup "box" empty_cache ≡ cached scanned_box scanned_box.status (lookup "box" empty_cache))
cache_entry_differs-cached_example = cache_entry_differs-cached scanned_box empty_cache

lookup-cleanup-reconcile_example :
    lookup "box"
      (cleanup fair_cluster scanned_box (reconcile fair_cluster scanned_box [] empty_cache).0).0
    ≡ (if "box" == "box" then none else lookup "box" empty_cache)
lookup-cleanup-reconcile_example =
    lookup-cleanup-reconcile scanned_box fair_cluster [] empty_cache "box"

scans : any removes ((reconcile fair_cluster forced_box [] []).1 []).1 ≡ true
unfolding reconcile ◌>>=◌ touch call attempt pure lookup upsert_job
    vynil.Operator.Scan.should_create_scan_job
scans = refl

reconcile-Scanned_example :
    (is_some (force_scan fair_cluster forced_box) ≡ true) × Scanned fair_cluster forced_box
reconcile-Scanned_example = reconcile-Scanned fair_cluster forced_box [] [] [] refl scans

-- A cluster where the scan job still runs.
abbrev running_cluster : Cluster
running_cluster = record fair_cluster {
  job = λ h. ok (some (record { deleting = false; conditions = none }));
}

reconcile-NoJob_example : NoJob ((reconcile running_cluster scanned_box [] []).1 []).1
unfolding force_scan lookup
reconcile-NoJob_example =
    reconcile-NoJob running_cluster scanned_box [] [] []
      (record { deleting = false; conditions = none }) refl refl refl

do_cleanup-IsRemoval_example :
    All
      (RendersWith (IsRemoval fair_cluster installed_instance box_cache))
      (do_cleanup fair_cluster installed_instance [] box_cache []).1
do_cleanup-IsRemoval_example = do_cleanup-IsRemoval fair_cluster installed_instance box_cache []
