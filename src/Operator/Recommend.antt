-- ===== src/Operator/Recommend.antt =====
-- operator/src/instance_common.rs, `build_base_recommendations`, and `build_recommendations` of
-- operator/src/instancetenant.rs, instanceservice.rs and instancesystem.rs.
use Prim.Native.String.{compare}
use vynil.Prelude.{
  String, Ordering, Bool, true, false, not, Option, none, some, List, [], ◌∷◌, ◌++◌, keep,
  if◌then◌else◌,
}
use vynil.Prelude.Text.{contains}
use vynil.Package.{VynilPackageType, tenant, VynilPackageRecommandation}
use vynil.Instance.{Instance}
use vynil.Kube.{Cluster, Kube, get_crd, list_services, get_tenant_services, pure, call, ◌>>=◌}

pub record RecoContext : Type 0 where
  pub crds : List String
  pub system_services : List String
  pub tenant_services : List String

insert_sorted : String → List String → List String
insert_sorted s [] = s ∷ []
insert_sorted s (t ∷ ts) =
    let rest = insert_sorted s ts in elim (compare s t) [ Ordering.gt ↦ t ∷ rest | _ ↦ s ∷ t ∷ ts ]

-- `Vec::sort`; equal texts are the same, so any sort gives this list.
sort : List String → List String
unfolding insert_sorted
sort [] = []
sort (s ∷ ss) = insert_sorted s (sort ss)

abbrev pub push_if {ℓ} : {A : Type ℓ} → Bool → A → List A → List A
push_if true a l = l ++ a ∷ []
push_if false a l = l

module _ (c : Cluster) where
  -- The loop over the recommendations, with the lists found so far.
  unfoldable pub base_loop :
      List String
      → List VynilPackageRecommandation
      → List String
      → List String
      → Kube (List String × List String)
  unfolding sort
  base_loop current [] crds services = pure (sort crds, sort services)
  base_loop current (VynilPackageRecommandation.custom_resource_definition crd ∷ recos) crds
        services =
      do found ← call (get_crd crd) c.crd; base_loop current recos (push_if found crd crds) services
  base_loop current (VynilPackageRecommandation.system_service svc ∷ recos) crds services =
      base_loop current recos crds (push_if (contains current svc) svc services)
  base_loop current (VynilPackageRecommandation.tenant_service svc ∷ recos) crds services =
      base_loop current recos crds services

  unfoldable pub build_base_recommendations :
      Option (List VynilPackageRecommandation) → Kube (List String × List String)
  unfolding base_loop
  build_base_recommendations none = pure ([], [])
  build_base_recommendations (some recos) = do
    current ← call list_services c.services
    base_loop current recos [] []

  is_tenant_service : VynilPackageRecommandation → Bool
  is_tenant_service (VynilPackageRecommandation.tenant_service svc) = true
  is_tenant_service reco = false

  available : List String → List VynilPackageRecommandation → List String
  available current [] = []
  available current (VynilPackageRecommandation.tenant_service svc ∷ recos) =
      let rest = available current recos in if contains current svc then svc ∷ rest else rest
  available current (reco ∷ recos) = available current recos

  or_empty : Option (List VynilPackageRecommandation) → List VynilPackageRecommandation
  or_empty none = []
  or_empty (some recos) = recos

  unfoldable pub build_recommendations :
      VynilPackageType → Instance → Option (List VynilPackageRecommandation) → Kube RecoContext
  unfolding available or_empty is_tenant_service sort build_base_recommendations
  build_recommendations tenant inst recos = do
    current ← call (get_tenant_services inst) c.tenant_services
    let tenant_services = sort (available current (or_empty recos))
    base ←
        build_base_recommendations (some (keep (λ r. not (is_tenant_service r)) (or_empty recos)))
    pure (record { crds = base.0; system_services = base.1; tenant_services = tenant_services })
  build_recommendations kind inst recos = do
    base ← build_base_recommendations recos
    pure (record { crds = base.0; system_services = base.1; tenant_services = [] })
