-- ===== src/Operator/Coherence.antt =====
-- The package cache agrees with the status of the jukeboxes (operator/src/manager.rs,
-- operator/src/jukebox.rs).
use vynil.Prelude.{
  String, Bool, true, false, Option, none, some, ◌≡◌, ◌↔◌, refl, ap, subst, eq_iff, eq_refl, ◌∙◌,
  ◌||◌, if◌then◌else◌, Bool-cases, inl, inr, ◌==◌, arith,
}
use vynil.Prelude.Dict.{lookup, insert, lookup-insert, lookup-insert_self, lookup-remove}
use vynil.Package.{packages-discrete}
use vynil.JukeBox.{JukeBox, JukeBoxStatus}
use vynil.Kube.{Cluster}
use vynil.Operator.Select.{Cache, JukeCacheItem}
use vynil.Operator.Reconcile.{TemplateContext}
use vynil.Operator.Caching.{
  item_of, secret-discrete, is_no, entry_differs, differs_from, cache_entry_differs, upsert,
  upsert_cache_entry, remove_jukebox_cache,
}
use vynil.Operator.Scan.{follow, reconcile, cleanup}

is_no-false {ℓ} : {A : Type ℓ} (d : Dec A) → is_no d ≡ false → A
unfolding is_no
is_no-false (yes same) h = same
is_no-false (no other) h = cc

is_no_refl {ℓ} : {A : Type ℓ} (d : Dec A) → A → is_no d ≡ false
unfolding is_no
is_no_refl (yes same) a = refl
is_no_refl (no other) a = elim (other a) [ ]

or_left : (a b : Bool) → (a || b) ≡ false → (a ≡ false) × (b ≡ false)
or_left a b h = ground arith

-- The entry of a jukebox with this status.
module _ (box : JukeBox) (st : JukeBoxStatus) where
  entry_differs-same :
      (entry : JukeCacheItem) → entry_differs entry box st ≡ false → entry ≡ item_of box st
  unfolding entry_differs item_of
  entry_differs-same entry same =
      let (packages, secret) = or_left _ _ same in
      let same_packages : entry.packages ≡ st.packages =
        is_no-false (packages-discrete entry.packages st.packages) packages in
      let same_secret : entry.pull_secret ≡ box.pull_secret =
        is_no-false (secret-discrete entry.pull_secret box.pull_secret) secret in
      λ i. record { pull_secret = same_secret i; packages = same_packages i }

  entry_differs_self : entry_differs (item_of box st) box st ≡ false
  unfolding entry_differs item_of
  entry_differs_self =
      rw
        (
          is_no_refl (packages-discrete st.packages st.packages) refl,
          is_no_refl (secret-discrete box.pull_secret box.pull_secret) refl,
        )
        refl

  followed :
      (cache : Cache) (entry : Option JukeCacheItem) (differs : Bool)
      → lookup box.name cache ≡ entry
      → differs_from entry box (some st) ≡ differs
      → lookup box.name (if differs then insert box.name (item_of box st) cache else cache)
        ≡ some (item_of box st)
  unfolding differs_from
  followed cache entry true found d = lookup-insert_self box.name (item_of box st) cache
  followed cache none false found d = cc
  followed cache (some entry) false found d = found ∙ ap some (entry_differs-same entry d)

after_removal {ℓ} :
    {A : Type ℓ} (b : Bool) (x y z : Option A)
    → x ≡ (if b then y else z)
    → (if b then none else x) ≡ (if b then none else z)
after_removal true x y z h = refl
after_removal false x y z h = h

-- What the cache holds of a jukebox that was reconciled.
unfoldable pub cached : JukeBox → Option JukeBoxStatus → Option JukeCacheItem → Option JukeCacheItem
cached box none before = before
cached box (some st) before = some (item_of box st)

module _ (box : JukeBox) where
  kept_apart :
      (status : Option JukeBoxStatus) (cache : Cache) (j : String) (differs : Bool)
      → (box.name == j) ≡ false
      → lookup j (if differs then upsert cache box status else cache) ≡ lookup j cache
  unfolding upsert
  kept_apart none cache j true other = refl
  kept_apart (some st) cache j true other =
      rw (lookup-insert box.name j (item_of box st) cache, other) refl
  kept_apart status cache j false other = refl

  own :
      (status : Option JukeBoxStatus) (cache : Cache)
      → lookup box.name (
          if differs_from (lookup box.name cache) box status
          then upsert cache box status
          else cache)
        ≡ cached box status (lookup box.name cache)
  unfolding differs_from upsert cached
  own none cache = refl
  own (some st) cache = followed box st cache (lookup box.name cache) _ refl refl

  lookup-follow :
      (c : Cluster) (cache : Cache) (j : String)
      → lookup j (follow c box cache)
        ≡ (if box.name == j then cached box box.status (lookup j cache) else lookup j cache)
  unfolding follow cache_entry_differs upsert_cache_entry
  lookup-follow c cache j = elim (Bool-cases (box.name == j)) [
    | inl same ↦
        subst
          (λ k.
            lookup k (follow c box cache)
            ≡ (if box.name == k then cached box box.status (lookup k cache) else lookup k cache))
          ((eq_iff box.name j).0 same) (rw (eq_refl box.name) (own box.status cache))
    | inr other ↦ rw (other) (kept_apart box.status cache j _ other)
  ]

  pub lookup-reconcile :
      (c : Cluster) (base : TemplateContext) (cache : Cache) (j : String)
      → lookup j (reconcile c box base cache).0
        ≡ (if box.name == j then cached box box.status (lookup j cache) else lookup j cache)
  unfolding reconcile
  lookup-reconcile c base cache j = lookup-follow c cache j

  differs_from-cached :
      (status : Option JukeBoxStatus) (before : Option JukeCacheItem)
      → before ≡ cached box status before
      → differs_from before box status ≡ false
  unfolding differs_from cached
  differs_from-cached none none same = refl
  differs_from-cached none (some entry) same = refl
  differs_from-cached (some st) before same = rw same (entry_differs_self box st)

  cached-differs_from :
      (status : Option JukeBoxStatus) (before : Option JukeCacheItem)
      → differs_from before box status ≡ false
      → before ≡ cached box status before
  unfolding differs_from cached
  cached-differs_from none before same = refl
  cached-differs_from (some st) none same = cc
  cached-differs_from (some st) (some entry) same = ap some (entry_differs-same box st entry same)

  -- The cache is found not to differ from a jukebox exactly if its entry has the secret of the
  -- jukebox and the packages of its status, or the jukebox has no status.
  pub cache_entry_differs-cached :
      (cache : Cache)
      → (cache_entry_differs cache box ≡ false)
        ↔ (lookup box.name cache ≡ cached box box.status (lookup box.name cache))
  unfolding cache_entry_differs
  cache_entry_differs-cached cache = (
    cached-differs_from box.status (lookup box.name cache),
    differs_from-cached box.status (lookup box.name cache),
  )

  -- A jukebox that was reconciled and then cleaned up leaves no entry of its own, and every other
  -- entry as it was before both.
  pub lookup-cleanup-reconcile :
      (c : Cluster) (base : TemplateContext) (cache : Cache) (j : String)
      → lookup j (cleanup c box (reconcile c box base cache).0).0
        ≡ (if box.name == j then none else lookup j cache)
  unfolding cleanup remove_jukebox_cache
  lookup-cleanup-reconcile c base cache j =
      lookup-remove box.name j (reconcile c box base cache).0
      ∙ after_removal (box.name == j) _ _ _ (lookup-reconcile c base cache j)
