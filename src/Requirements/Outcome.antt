-- ===== src/Requirements/Outcome.antt =====
-- The answer of the check of the cluster's version (common/src/vynilpackage.rs).
use vynil.Prelude.{ℕ, List, ◌∷◌, ◌≡◌, refl}
use vynil.Prelude.Decimal.{parse_u64-quoted}
use vynil.Prelude.Json.{Json}
use vynil.Result.{ok, err, parse_int}
use vynil.Kube
use vynil.Kube.{Cluster, History, get_api_version, call, lift, pure}
use vynil.Requirements.{read_version, or_parse_int, check_cluster_version}

module _ (c : Cluster) where
  read_version-quoted :
      (j : Json) (text : List ℕ)
      → c.json_text j ≡ ok (b'"' ∷ text)
      → read_version c j ≡ err parse_int
  unfolding read_version or_parse_int
  read_version-quoted j text quoted = rw (quoted, parse_u64-quoted text) refl

  -- A server that answers its version as texts, which JSON puts in quotes, always makes the check
  -- of the cluster's version fail with a parse error, after the one call that asked for it.
  pub check_cluster_version-quoted :
      (major minor : ℕ) (h : History) (a b : Json) (text : List ℕ)
      → c.api_version (get_api_version ∷ h) ≡ ok (a, b)
      → c.json_text a ≡ ok (b'"' ∷ text)
      → check_cluster_version c major minor h ≡ (err parse_int, get_api_version ∷ h)
  unfolding check_cluster_version call lift Kube.◌>>=◌
  check_cluster_version-quoted major minor h a b text answered quoted =
      rw (answered, read_version-quoted a text quoted) refl
