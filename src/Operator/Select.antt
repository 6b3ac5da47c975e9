-- ===== src/Operator/Select.antt =====
-- The package cache of the operator (operator/src/manager.rs) and the choice of a package from it
-- (operator/src/instance_common.rs, the lookups of `do_reconcile` and `do_cleanup`).
use vynil.Prelude.{String, Bool, Option, List, ◌&&◌, find, ◌==◌}
use vynil.Prelude.Dict.{Dict}
use vynil.Package.{VynilPackage, usage_eq, is_min_version_ok, is_vynil_version_ok}
use vynil.Instance.{Instance, current_tag}
use vynil.Kube.{Cluster}

pub record JukeCacheItem : Type 0 where
  pub pull_secret : Option String
  pub packages : List VynilPackage

-- The packages of each jukebox.
abbrev pub Cache : Type 0
Cache = Dict JukeCacheItem

-- The package has the name, the category and the type that the instance asks for.
unfoldable pub is_named : Instance → VynilPackage → Bool
is_named inst p =
    p.metadata.name == inst.package_name
    && p.metadata.category == inst.category
    && usage_eq p.metadata.usage inst.kind

unfoldable pub is_candidate : Cluster → Instance → VynilPackage → Bool
unfolding is_named
is_candidate c inst p =
    is_named inst p
    && is_min_version_ok c.semver p (current_tag inst)
    && is_vynil_version_ok c.semver c.version p

-- The first package of the jukebox that fits.
unfoldable pub select_package : Cluster → Instance → JukeCacheItem → Option VynilPackage
unfolding is_candidate
select_package c inst item = find (is_candidate c inst) item.packages
