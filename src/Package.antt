-- ===== src/Package.antt =====
-- common/src/vynilpackage.rs: what a jukebox knows of a package, and the version tests by which a
-- package is selected.
pub mod Versions
use vynil.Prelude.{ℕ, String, Bool, true, false, Option, none, some, List, [], ◌∷◌}
use native.Mathlib.Decide.{ℕ_discrete}
use vynil.Prelude.Dict.{Dict}
use vynil.Prelude.Json.{Json}
use vynil.Prelude.Text.{String_discrete}
use vynil.Result.{Result, ok, err, panic}
use vynil.Semver.{SemverCrate, Semver, parse, ge}

pub data VynilPackageType : Type 0 where
  tenant system service : VynilPackageType

pub data VynilPackageFeature : Type 0 where
  upgrade backup monitoring high_availability auto_config auto_scaling : VynilPackageFeature
  deprecated : VynilPackageFeature

pub record VynilPackageMeta : Type 0 where
  pub name : String
  pub category : String
  pub description : String
  pub app_version : Option String
  pub usage : VynilPackageType
  pub features : List VynilPackageFeature
  pub backup_affinity : Option String

pub data StorageCapability : Type 0 where
  rwx rox : StorageCapability

-- `cpu` holds thousandths: the value is informative only, and nothing computes with it.
pub data VynilPackageRequirement : Type 0 where
  custom_resource_definition : String → VynilPackageRequirement
  system_service : String → VynilPackageRequirement
  tenant_service : String → VynilPackageRequirement
  system_package : (category name : String) → VynilPackageRequirement
  tenant_package : (category name : String) → VynilPackageRequirement
  prefly : (script name : String) → VynilPackageRequirement
  cluster_version : (major minor : ℕ) → VynilPackageRequirement
  storage_capability : StorageCapability → VynilPackageRequirement
  minimum_previous_version : String → VynilPackageRequirement
  vynil_version : String → VynilPackageRequirement
  cpu : ℕ → VynilPackageRequirement
  memory : ℕ → VynilPackageRequirement
  disk : ℕ → VynilPackageRequirement

pub data VynilPackageRecommandation : Type 0 where
  custom_resource_definition : String → VynilPackageRecommandation
  system_service : String → VynilPackageRecommandation
  tenant_service : String → VynilPackageRecommandation

pub record VynilPackage : Type 0 where
  pub registry : String
  pub image : String
  pub tag : String
  pub metadata : VynilPackageMeta
  pub requirements : List VynilPackageRequirement
  pub recommandations : Option (List VynilPackageRecommandation)
  pub options : Option (Dict Json)
  pub value_script : Option String

-- The `PartialEq` that the compiler derives.
unfoldable pub VynilPackage-discrete : Discrete VynilPackage
VynilPackage-discrete = hlevel (ℕ_discrete, String_discrete)

-- `VynilPackage`'s derived `PartialEq`, on lists.
unfoldable pub packages-discrete : Discrete (List VynilPackage)
unfolding VynilPackage-discrete
packages-discrete = hlevel VynilPackage-discrete

unfoldable pub usage_eq : VynilPackageType → VynilPackageType → Bool
usage_eq tenant tenant = true
usage_eq system system = true
usage_eq service service = true
usage_eq a b = false

first_min_version : List VynilPackageRequirement → Option String
first_min_version [] = none
first_min_version (minimum_previous_version v ∷ rest) = some v
first_min_version (req ∷ rest) = first_min_version rest

first_vynil_version : List VynilPackageRequirement → Option String
first_vynil_version [] = none
first_vynil_version (vynil_version v ∷ rest) = some v
first_vynil_version (req ∷ rest) = first_vynil_version rest

unfoldable pub get_min_version : VynilPackage → Option String
unfolding first_min_version
get_min_version p = first_min_version p.requirements

unfoldable pub get_vynil_version : VynilPackage → Option String
unfolding first_vynil_version
get_vynil_version p = first_vynil_version p.requirements

-- The version tests pass wherever a version cannot be read.
unfoldable pub at_least : SemverCrate → Result Semver → Option String → Bool
at_least crate (ok current) none = true
at_least crate (ok current) (some target) = elim (parse crate target) [
  | ok wanted ↦ ge crate current wanted
  | _ ↦ true
]
at_least crate _ target = true

unfoldable pub is_min_version_ok : SemverCrate → VynilPackage → String → Bool
unfolding at_least get_min_version
is_min_version_ok crate p current = at_least crate (parse crate current) (get_min_version p)

-- `version` is `VERSION`, which the build sets.
unfoldable pub is_vynil_version_ok : SemverCrate → String → VynilPackage → Bool
unfolding at_least get_vynil_version
is_vynil_version_ok crate version p = at_least crate (parse crate version) (get_vynil_version p)
