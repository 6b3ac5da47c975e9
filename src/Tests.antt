-- ===== src/Tests.antt =====
-- Runs of the parts that the operator uses: versions, requirements, status updates, jukeboxes.
use vynil.Prelude.{
  ℕ, String, true, false, none, some, List, [], ◌∷◌, ◌++◌, ◌≡◌, ◌↔◌, refl, arith, All, zero, suc,
}
use vynil.Prelude.Decimal.{print, parse_u32}
use vynil.Prelude.Text.{concat}
use vynil.Prelude.Json.{string}
use vynil.Result.{ok, err, panic, parse_int}
use vynil.Semver.{Semver, parse, display, ge, inc_tag, beta, strip_prefix, starts_with_v}
use vynil.Semver.Bump.{inc_tag_times, with_tag, inc_tag_times_lem, inc_tag-panic_iff}
use vynil.Semver.Order.{parse-display}
use vynil.Package.{
  VynilPackage, VynilPackageRequirement, vynil_version, minimum_previous_version, tenant, service,
  is_min_version_ok, get_min_version, get_vynil_version, is_vynil_version_ok,
}
use vynil.Package.Versions.{is_min_version_ok-display}
use vynil.Instance.{Instance, InstanceStatus, agent_started}
use vynil.Instance.Conditions.{missing_box, missing_requirement}
use vynil.Instance.Conditions.Lists.{conditions_of, have_condition, get_conditions_excluding}
use vynil.JukeBox.{split_filter, filter_packages}
use vynil.JukeBox.Merge.{IsRest, filter_packages-IsRest}
use vynil.JukeBox.Status.{set_status_failed}
use vynil.JukeBox.Failure.{KeepsPackages, set_status_failed-KeepsPackages}
use vynil.Kube.{◌>>=◌, get_api_version, patch_status}
use vynil.Status.{generation_of, set_missing_requirement}
use vynil.Status.Counts.{IsUnique, count}
use vynil.Status.Methods
use vynil.Status.Methods.{run}
use vynil.Status.Unique.{IsTidyCall}
use vynil.Status.Tidy.{run-IsTidy}
use vynil.Status.Repeats.{recorded, run-again}
use vynil.Status.Notes.{set_missing_requirement-panics}
use vynil.Requirements.{Checked, check_system, check_cluster_version}
use vynil.Requirements.Outcome.{check_cluster_version-quoted}
use vynil.Requirements.Agree.{is_shared, check-same, check_vynil_version-is_vynil_version_ok}
use vynil.Operator.Reconcile.{check}
use vynil.TtlCache.{Shared, written, Reaches, start, step, write}
use vynil.TtlCache.Single.{IsSpaced, Reaches-IsSpaced}
use vynil.Examples.{
  some_version, one_version_crate, fair_cluster, fresh_instance, site_package, some_box,
}

abbrev some_semver : Semver
some_semver = record { version = some_version; use_v = true }

parse-display_example :
    parse one_version_crate (display one_version_crate some_semver) ≡ ok some_semver
unfolding starts_with_v
parse-display_example =
    parse-display one_version_crate some_semver (record { reads = refl; no_v = refl })

inc_tag_times_lem_example :
    inc_tag_times one_version_crate beta refl 3 some_semver
    ≡ (ok tt, with_tag some_semver 4 (beta ++ print 3))
inc_tag_times_lem_example =
    inc_tag_times_lem one_version_crate beta refl (λ n. refl) some_semver 2 refl (omega arith)
      (omega arith)

-- `1.2.3-beta.rc`, whose counter is no number.
abbrev rc_semver : Semver
rc_semver = with_tag some_semver 3 (beta ++ b'r' ∷ b'c' ∷ [])

inc_tag-panic_iff_example : ((inc_tag one_version_crate beta rc_semver).0 ≡ panic) ↔ (
    (text : List ℕ) × (strip_prefix beta rc_semver.version.pre ≡ some text)
    × (parse_u32 text ≡ none))
inc_tag-panic_iff_example = inc_tag-panic_iff one_version_crate beta refl rc_semver

-- A package with a least version that is written with a `v`.
abbrev demanding_package : VynilPackage
demanding_package = record site_package {
  requirements = minimum_previous_version "v1.2.3" ∷ vynil_version "1.2.3" ∷ [];
}

abbrev plain_semver : Semver
plain_semver = record { version = some_version; use_v = false }

is_min_version_ok-display_example :
    (is_min_version_ok one_version_crate demanding_package (display one_version_crate plain_semver)
      ≡ false)
    ↔ ((some_semver.use_v ≡ true) × (plain_semver.use_v ≡ false))
unfolding get_min_version display starts_with_v
is_min_version_ok-display_example =
    is_min_version_ok-display one_version_crate demanding_package plain_semver some_semver
      (record { reads = refl; no_v = refl }) refl refl refl

-- An instance that waits for its jukebox.
abbrev waiting_status : InstanceStatus
waiting_status = record {
  conditions = missing_box 3 "box" 2 ∷ [];
  tag = none;
  tfstate = none;
  rhaistate = none;
  befores = none;
  vitals = none;
  scalables = none;
  others = none;
  posts = none;
  systems = none;
  crds = none;
}

abbrev waiting_instance : Instance
waiting_instance = record fresh_instance { status = some waiting_status }

waiting-IsUnique : IsUnique (conditions_of waiting_instance.status)
unfolding count conditions_of
waiting-IsUnique t = ground arith

run-IsTidy_example :
    All IsTidyCall (run fair_cluster waiting_instance (Methods.before_failed "no") []).1
run-IsTidy_example =
    run-IsTidy fair_cluster waiting_instance (Methods.before_failed "no") [] waiting-IsUnique tt

run-again_example :
    run fair_cluster waiting_instance (Methods.missing_box "box") [] ≡ (ok waiting_instance, [])
unfolding recorded conditions_of generation_of
run-again_example =
    run-again fair_cluster waiting_instance [] (Methods.missing_box "box")
      (λ now g. missing_box now "box" g) 3 [] refl refl

filter_packages-IsRest_example :
    (kept : List VynilPackage) × (filter_packages
        (demanding_package ∷ [])
        (split_filter "web/site").0
        (split_filter "web/site").1
        (site_package ∷ [])
      ≡ kept ++ site_package ∷ [])
    × IsRest "web/site" (demanding_package ∷ []) kept
filter_packages-IsRest_example =
    filter_packages-IsRest (demanding_package ∷ []) (site_package ∷ []) "web/site"

set_status_failed-KeepsPackages_example :
    All (KeepsPackages some_box) (set_status_failed fair_cluster some_box "no registry" []).1
set_status_failed-KeepsPackages_example =
    set_status_failed-KeepsPackages fair_cluster some_box "no registry"

check_cluster_version-quoted_example :
    check_cluster_version fair_cluster 1 29 [] ≡ (err parse_int, get_api_version ∷ [])
check_cluster_version-quoted_example =
    check_cluster_version-quoted fair_cluster 1 29 [] (string "1") (string "30") (b'1' ∷ b'"' ∷ [])
      refl refl

check-same_example :
    check fair_cluster tenant fresh_instance (VynilPackageRequirement.system_service "dns")
    ≡ check fair_cluster service waiting_instance (VynilPackageRequirement.system_service "dns")
unfolding is_shared
check-same_example =
    check-same fair_cluster tenant service fresh_instance waiting_instance
      (VynilPackageRequirement.system_service "dns") refl

-- The answer of the check of the operator's version.
abbrev version_checked : Checked
version_checked = (
  true, "Requested vynil version 1.2.3 is over current version 1.2.3. Please upgrade vynil first",
  900,
)

check_vynil_version-is_vynil_version_ok_example :
    version_checked.0 ≡ is_vynil_version_ok one_version_crate "1.2.3" demanding_package
unfolding get_vynil_version check check_system ◌>>=◌ parse ge concat
check_vynil_version-is_vynil_version_ok_example =
    check_vynil_version-is_vynil_version_ok fair_cluster demanding_package fresh_instance "1.2.3" []
      version_checked refl refl

-- A text with `n` letters and a character of two bytes.
abbrev long_reason : ℕ → String
long_reason zero = "é"
long_reason (suc n) = String.◌∷◌ "a" (long_reason n)

set_missing_requirement-panics_example :
    set_missing_requirement fair_cluster fresh_instance (long_reason 1022) [] ≡ (
      panic,
      patch_status fresh_instance.name
            (get_conditions_excluding fresh_instance (agent_started ∷ [])
              ++ missing_requirement
                  (fair_cluster.now [])
                  (long_reason 1022)
                  (generation_of fresh_instance)
                ∷ [])
            []
          ∷ [],
    )
unfolding have_condition
set_missing_requirement-panics_example =
    set_missing_requirement-panics fair_cluster fresh_instance fresh_instance (long_reason 1022) []
      refl refl refl refl

-- A cache of ten units of time that is empty, and that was written twice.
abbrev empty_shared : Shared ℕ
empty_shared = record { clock = 0; guarded = record { cell = none; stores = [] } }

twice_stored : Reaches 10 (written 10 12 13 (ok 6) (written 10 1 2 (ok 5) empty_shared))
unfolding written
twice_stored =
    step _ _ (step _ _ (start 0) (write empty_shared 1 2 (ok 5) (omega arith) (omega arith)))
      (write (written 10 1 2 (ok 5) empty_shared) 12 13 (ok 6) (omega arith) (omega arith))

Reaches-IsSpaced_example :
    IsSpaced 10 (written 10 12 13 (ok 6) (written 10 1 2 (ok 5) empty_shared)).guarded.stores
Reaches-IsSpaced_example =
    Reaches-IsSpaced 10 (written 10 12 13 (ok 6) (written 10 1 2 (ok 5) empty_shared)) twice_stored
