-- ===== src/Package/Versions.antt =====
-- The version tests of a package (common/src/vynilpackage.rs).
use vynil.Prelude.{
  String, Bool, true, false, Ordering, some, ◌≡◌, ◌↔◌, refl, sym, subst, ◌∙◌, not, ◌||◌, arith,
}
use vynil.Result.{ok}
use vynil.Semver.{SemverCrate, Semver, parse, display, ge}
use vynil.Semver.Order.{Prints, parse-display, ge-same_version}
use vynil.Package.{
  VynilPackage, at_least, get_min_version, get_vynil_version, is_min_version_ok,
  is_vynil_version_ok,
}

refused :
    (answer current_v target_v : Bool)
    → answer ≡ (current_v || not target_v)
    → (answer ≡ false) ↔ ((target_v ≡ true) × (current_v ≡ false))
refused answer current_v target_v h = ground (arith, h)

module _ (crate : SemverCrate) (p : VynilPackage) where
  -- Where both versions are read, a package fits an installed tag if its minimum is no greater.
  pub is_min_version_ok-ge :
      (current target : String) (a b : Semver)
      → get_min_version p ≡ some target
      → parse crate current ≡ ok a
      → parse crate target ≡ ok b
      → is_min_version_ok crate p current ≡ ge crate a b
  unfolding is_min_version_ok at_least
  is_min_version_ok-ge current target a b asked current_read target_read =
      rw (asked, current_read, target_read, at_least) refl

  -- A package whose minimum is the version that is installed is refused exactly if the minimum is
  -- written with a `v` and the installed tag without. The crate reads the version back as it printed
  -- it, and finds it equal to itself.
  pub is_min_version_ok-display :
      (current target : Semver)
      → Prints crate current.version
      → crate.version_cmp current.version current.version ≡ Ordering.eq
      → target.version ≡ current.version
      → get_min_version p ≡ some (display crate target)
      → (is_min_version_ok crate p (display crate current) ≡ false)
        ↔ ((target.use_v ≡ true) × (current.use_v ≡ false))
  is_min_version_ok-display current target prints equal same asked =
      let target_prints = subst (λ v. Prints crate v) (sym same) prints in
      let compared =
        is_min_version_ok-ge (display crate current) (display crate target) current target asked
          (parse-display crate current prints) (parse-display crate target target_prints) in
      let ordered =
        ge-same_version crate current target
          (subst (λ v. crate.version_cmp current.version v ≡ Ordering.eq) (sym same) equal) in
      refused (is_min_version_ok crate p (display crate current)) current.use_v target.use_v
        (compared ∙ ordered)

  pub is_vynil_version_ok-ge :
      (version target : String) (a b : Semver)
      → get_vynil_version p ≡ some target
      → parse crate version ≡ ok a
      → parse crate target ≡ ok b
      → is_vynil_version_ok crate version p ≡ ge crate a b
  unfolding is_vynil_version_ok at_least
  is_vynil_version_ok-ge version target a b asked version_read target_read =
      rw (asked, version_read, target_read, at_least) refl
