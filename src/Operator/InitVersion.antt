-- ===== src/Operator/InitVersion.antt =====
-- The version of `initFrom` (operator/src/instance_common.rs, `resolve_init_version`).
use vynil.Prelude.{
  String, Bool, true, false, Option, none, some, List, ◌∷◌, ap, ◌∙◌, subst, sym, ◌≡◌, refl, any,
  ◌⊎◌, inl, inr, if◌then◌else◌, ◌==◌, ◌&&◌,
}
use mathlib.Core.Option.{some-injective}
use vynil.Result.{ok, missing_init_version}
use vynil.Kube.{Cluster, RegistryAuth, History, Kube, pure, fail, call, verify_tag, ◌>>◌}
use vynil.Kube.Keeps.{Returns-bind}
use vynil.Package.{VynilPackage}
use vynil.Instance.{Instance, current_tag, init_from_version}
use vynil.Operator.Select.{is_named}
use vynil.Operator.Reconcile.{
  registry_auth, verify_version, requested_version, resolve_init_version,
}

module _ (c : Cluster) (inst : Instance) (pck : VynilPackage) (cached : List VynilPackage) where
  -- The registry has answered that the package's image has this tag.
  pub Verified : String → Type 0
  Verified v =
      (auth : RegistryAuth) × (h : History) × (c.tag_exists
          (verify_tag pck.registry pck.image v auth ∷ h)
        ≡ ok true)

  -- A package of the jukebox has the name, category and type of the instance, and this tag.
  pub IsCached : String → Type 0
  IsCached v = any (λ p. is_named inst p && p.tag == v) cached ≡ true

  -- What a resolved version says.
  unfoldable pub Resolved : Option String → Type 0
  Resolved none = (init_from_version inst ≡ none) ⊎ ((current_tag inst == "") ≡ false)
  Resolved (some v) =
      (init_from_version inst ≡ some v)
      × ((current_tag inst == "") ≡ true)
      × (IsCached v ⊎ Verified v)

  -- The end of the verification of a tag returns the tag only if it exists.
  answered :
      (exists : Bool) (m : Kube Instance) (requested : String) (h : History)
      (result : Option String)
      → ((if exists then pure (some requested) else (do m; fail (missing_init_version requested)))
          h).0
        ≡ ok result
      → (exists ≡ true) × (result ≡ some requested)
  unfolding pure fail
  answered true m requested h result returned = (refl, cc)
  answered false m requested h result returned =
      let (_, _, failed) =
        Returns-bind m (λ _. fail (missing_init_version requested)) h result returned in
      cc

  verify_version-Verified :
      (pull_secret : Option String) (requested : String) (h : History) (result : Option String)
      → (verify_version c inst pck pull_secret requested h).0 ≡ ok result
      → (result ≡ some requested) × Verified requested
  unfolding verify_version Verified call
  verify_version-Verified pull_secret requested h result returned =
      let (auth, _, later) = Returns-bind (registry_auth c pull_secret pck) _ h result returned in
      let (exists, asked, last) =
        Returns-bind (call (verify_tag pck.registry pck.image requested auth) c.tag_exists) _ _
          result later in
      let (there, same) = answered exists _ requested _ result last in
      (same, (auth, _, asked ∙ ap ok there))

  chosen :
      (pull_secret : Option String) (requested : String) (h : History) (result : Option String)
      (is_new is_cached : Bool)
      → ((if is_new
            then (if is_cached
                then pure (some requested)
                else verify_version c inst pck pull_secret requested)
            else pure none)
          h).0
        ≡ ok result
      → ((result ≡ none) × (is_new ≡ false))
        ⊎ ((result ≡ some requested) × (is_new ≡ true) × ((is_cached ≡ true) ⊎ Verified requested))
  unfolding pure
  chosen pull_secret requested h result false is_cached returned = inl (cc, refl)
  chosen pull_secret requested h result true true returned = inr (cc, refl, inl refl)
  chosen pull_secret requested h result true false returned =
      let (same, verified) = verify_version-Verified pull_secret requested h result returned in
      inr (same, refl, inr verified)

  -- The two ways to end where a version is asked for.
  conclude :
      (requested : String) (result : Option String)
      → init_from_version inst ≡ some requested
      → ((result ≡ none) × ((current_tag inst == "") ≡ false))
        ⊎ ((result ≡ some requested)
            × ((current_tag inst == "") ≡ true)
            × (IsCached requested ⊎ Verified requested))
      → Resolved result
  unfolding Resolved IsCached
  conclude requested none asked (inl (ended, tagged)) = inr tagged
  conclude requested none asked (inr (ended, fresh, there)) = cc
  conclude requested (some v) asked (inl (ended, tagged)) = cc
  conclude requested (some v) asked (inr (ended, fresh, there)) = (
    asked ∙ sym ended,
    fresh,
    subst (λ u. IsCached u ⊎ Verified u) (some-injective requested v (sym ended)) there,
  )

  requested-Resolved :
      (pull_secret version : Option String) (h : History) (result : Option String)
      → init_from_version inst ≡ version
      → (requested_version c inst pck cached pull_secret version h).0 ≡ ok result
      → Resolved result
  unfolding requested_version Resolved IsCached pure
  requested-Resolved pull_secret none h none asked returned = inl asked
  requested-Resolved pull_secret none h (some v) asked returned = cc
  requested-Resolved pull_secret (some requested) h result asked returned =
      conclude requested result asked (
        chosen pull_secret requested h result (current_tag inst == "")
          (any (λ p. is_named inst p && p.tag == requested) cached) returned)

  -- A version that `resolve_init_version` returns is the one that `initFrom` asks for, of an
  -- instance without a tag, and either a package of the jukebox has it or the registry answered
  -- that it exists. No version is returned only where `initFrom` asks for none or a tag is there.
  pub resolve_init_version-Resolved :
      (pull_secret : Option String) (h : History) (result : Option String)
      → (resolve_init_version c inst pck cached pull_secret h).0 ≡ ok result
      → Resolved result
  unfolding resolve_init_version
  resolve_init_version-Resolved pull_secret h result returned =
      requested-Resolved pull_secret (init_from_version inst) h result refl returned
