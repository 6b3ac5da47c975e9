-- ===== src/Operator/Caching.antt =====
-- operator/src/manager.rs: how the package cache follows the jukeboxes. A lock guards the cache, so
-- each of these is one step.
use vynil.Prelude.{
  String, Bool, true, false, not, Option, none, some, List, [], ◌∷◌, ◌||◌, is_empty, if◌then◌else◌,
}
use vynil.Prelude.Dict.{lookup, insert, remove}
use vynil.Prelude.Text.{String_discrete}
use vynil.Package.{packages-discrete}
use vynil.JukeBox.{JukeBox, JukeBoxStatus}
use vynil.Operator.Select.{Cache, JukeCacheItem}

unfoldable pub item_of : JukeBox → JukeBoxStatus → JukeCacheItem
item_of box st = record { pull_secret = box.pull_secret; packages = st.packages }

-- `Option<String>`'s derived `PartialEq`.
unfoldable pub secret-discrete : Discrete (Option String)
unfolding String_discrete
secret-discrete = hlevel String_discrete

-- `!=`, by the decision of the equality.
unfoldable pub is_no {ℓ} : {A : Type ℓ} → Dec A → Bool
is_no (yes same) = false
is_no (no other) = true

unfoldable pub entry_differs : JukeCacheItem → JukeBox → JukeBoxStatus → Bool
unfolding is_no
entry_differs entry box st =
    is_no (packages-discrete entry.packages st.packages)
    || is_no (secret-discrete entry.pull_secret box.pull_secret)

unfoldable pub differs_from : Option JukeCacheItem → JukeBox → Option JukeBoxStatus → Bool
differs_from entry box none = false
differs_from none box (some st) = true
differs_from (some entry) box (some st) = entry_differs entry box st

unfoldable pub cache_entry_differs : Cache → JukeBox → Bool
unfolding differs_from entry_differs
cache_entry_differs cache box = differs_from (lookup box.name cache) box box.status

unfoldable pub upsert : Cache → JukeBox → Option JukeBoxStatus → Cache
unfolding item_of
upsert cache box none = cache
upsert cache box (some st) = insert box.name (item_of box st) cache

unfoldable pub upsert_cache_entry : Cache → JukeBox → Cache
unfolding upsert
upsert_cache_entry cache box = upsert cache box box.status

unfoldable pub remove_jukebox_cache : String → Cache → Cache
remove_jukebox_cache name cache = remove name cache

-- The loop over the listed jukeboxes.
unfoldable pub cache_all : List JukeBox → Cache → Cache
unfolding upsert_cache_entry
cache_all [] cache = cache
cache_all (box ∷ boxes) cache = cache_all boxes (upsert_cache_entry cache box)

-- The cache is replaced unless the list has no status to cache.
unfoldable pub set_package_cache : List JukeBox → Cache → Cache
unfolding cache_all
set_package_cache boxes cache =
    let fresh = cache_all boxes [] in if not (is_empty fresh) then fresh else cache
