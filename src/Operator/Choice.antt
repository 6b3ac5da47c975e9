-- ===== src/Operator/Choice.antt =====
-- Which package of a jukebox an instance gets (operator/src/instance_common.rs).
use vynil.Prelude.{
  Bool, true, false, some, List, [], ◌∷◌, ◌++◌, ◌≡◌, refl, subst, arith, any, find-first, ◌&&◌,
  ◌||◌, All, eq_iff,
}
use vynil.Package.{
  VynilPackage, VynilPackageType, tenant, system, service, usage_eq, is_min_version_ok,
  is_vynil_version_ok,
}
use vynil.Instance.{Instance, current_tag}
use vynil.Kube.{Cluster}
use vynil.Operator.Select.{JukeCacheItem, is_named, is_candidate, select_package}

-- The package is the one that the instance asks for, in the type of the instance, and accepts the
-- tag that is installed and the version of the operator.
pub record Fits (c : Cluster) (inst : Instance) (p : VynilPackage) : Type 0 where
  pub name : p.metadata.name ≡ inst.package_name
  pub category : p.metadata.category ≡ inst.category
  pub usage : p.metadata.usage ≡ inst.kind
  pub accepts_tag : is_min_version_ok c.semver p (current_tag inst) ≡ true
  pub accepts_operator : is_vynil_version_ok c.semver c.version p ≡ true

true_or : (a b : Bool) → a ≡ true → (a || b) ≡ false → ⊥
true_or a b h none = ground (arith, h, none)

and_both : (a b : Bool) → (a && b) ≡ true → (a ≡ true) × (b ≡ true)
and_both a b h = ground arith

usage_eq-eq : (a b : VynilPackageType) → usage_eq a b ≡ true → a ≡ b
unfolding usage_eq
usage_eq-eq tenant tenant h = refl
usage_eq-eq system system h = refl
usage_eq-eq service service h = refl
usage_eq-eq tenant system h = cc
usage_eq-eq tenant service h = cc
usage_eq-eq system tenant h = cc
usage_eq-eq system service h = cc
usage_eq-eq service tenant h = cc
usage_eq-eq service system h = cc

usage_eq_refl : (a : VynilPackageType) → usage_eq a a ≡ true
unfolding usage_eq
usage_eq_refl tenant = refl
usage_eq_refl system = refl
usage_eq_refl service = refl

eq-usage_eq : (a b : VynilPackageType) → a ≡ b → usage_eq a b ≡ true
eq-usage_eq a b same = subst (λ x. usage_eq a x ≡ true) same (usage_eq_refl a)

module _ (c : Cluster) (inst : Instance) where
  is_candidate-Fits : (p : VynilPackage) → is_candidate c inst p ≡ true → Fits c inst p
  unfolding is_candidate is_named
  is_candidate-Fits p h =
      let (rest, operator) = and_both _ _ h in
      let (named, tag) = and_both _ _ rest in
      let (titled, used) = and_both _ _ named in
      let (name, category) = and_both _ _ titled in
      record {
        name = (eq_iff p.metadata.name inst.package_name).0 name;
        category = (eq_iff p.metadata.category inst.category).0 category;
        usage = usage_eq-eq p.metadata.usage inst.kind used;
        accepts_tag = tag;
        accepts_operator = operator;
      }

  Fits-is_candidate : (p : VynilPackage) → Fits c inst p → is_candidate c inst p ≡ true
  unfolding is_candidate is_named
  Fits-is_candidate p f =
      rw
        (
          (eq_iff p.metadata.name inst.package_name).1 f.name,
          (eq_iff p.metadata.category inst.category).1 f.category,
          eq-usage_eq p.metadata.usage inst.kind f.usage,
          f.accepts_tag,
          f.accepts_operator,
        )
        refl

  any-Fits :
      (packages : List VynilPackage)
      → any (is_candidate c inst) packages ≡ false
      → All (λ q. ¬ Fits c inst q) packages
  any-Fits [] h = tt
  any-Fits (q ∷ packages) h = (
    (λ f. true_or (is_candidate c inst q) _ (Fits-is_candidate q f) h),
    any-Fits packages (ground (arith, h)),
  )

  -- The chosen package has the name, the category and the type of the instance, accepts the tag that
  -- is installed and the version of the operator, and no package before it in the jukebox does all
  -- of this.
  pub select_package-first :
      (item : JukeCacheItem) (p : VynilPackage)
      → select_package c inst item ≡ some p
      → (before : List VynilPackage) × (after : List VynilPackage) × (item.packages
          ≡ before ++ p ∷ after)
        × Fits c inst p
        × All (λ q. ¬ Fits c inst q) before
  unfolding select_package
  select_package-first item p chosen =
      let (before, after, split, none_before, fits) =
        find-first (is_candidate c inst) item.packages p chosen in
      (before, after, split, is_candidate-Fits p fits, any-Fits before none_before)
