-- ===== src/Server/Guards.antt =====
-- What has passed before the server reads anything of the cluster for a request
-- (server/src/server.rs, `instance_handler`).
use vynil.Prelude.{
  eq_iff, ◌==◌, ◌⊎◌, inl, inr, Bool-cases, Bool, true, false, not, Option, none, some, [], ◌≡◌,
  refl, any, if◌then◌else◌, ◌||◌, arith, String,
}
use vynil.Prelude.Text.{contains}
use vynil.Server.{
  Config, DiagError, invalid_name_format, unknown_kind, unknown_item, authorization_denied,
  packages_disabled, valid_kinds, valid_items,
}
use vynil.Server.World.{World, Call, History, Identity, review_token, review_access, ok, pure, fail}
use vynil.Server.World.Keeps.{Avoids, reached-unless, reached-bind, returns-bind, avoid_rules}
use vynil.Server.Access.{
  validate_token, of_bearer, with_token, or_token, extract_identity, check_instance_access,
  check_item_access, is_instance_scoped_item, HeaderMap, strip_prefix,
}
use vynil.Server.Handler.{validate_dns1123, Request, serve, instance_handler}

-- All calls but the two reviews.
abbrev pub reads_cluster : Call → Bool
reads_cluster (review_token token) = false
reads_cluster (review_access identity access) = false
reads_cluster c = true

ruleset quiet = (avoid_rules, refl)

module _ (w : World) where
  validate_token-quiet : (token : String) → Avoids reads_cluster (validate_token w token)
  unfolding validate_token
  validate_token-quiet token = search quiet

  of_bearer-quiet : (token : Option String) → Avoids reads_cluster (of_bearer w token)
  unfolding of_bearer
  of_bearer-quiet none = search quiet
  of_bearer-quiet (some token) = validate_token-quiet token

  with_token-quiet : (header : Option (Option String)) → Avoids reads_cluster (with_token w header)
  unfolding with_token
  with_token-quiet (some (some value)) = of_bearer-quiet (strip_prefix "Bearer " value)
  with_token-quiet (some none) = search quiet
  with_token-quiet none = search quiet

  or_token-quiet :
      (headers : HeaderMap) (identity : Option Identity)
      → Avoids reads_cluster (or_token w headers identity)
  unfolding or_token
  or_token-quiet headers none = with_token-quiet headers.authorization
  or_token-quiet headers (some identity) = search quiet

  extract_identity-quiet :
      (headers : HeaderMap) (trust : Bool) → Avoids reads_cluster (extract_identity w headers trust)
  unfolding extract_identity
  extract_identity-quiet headers trust = or_token-quiet headers _

  check_instance_access-quiet :
      (identity : Identity) (kind ns name : String)
      → Avoids reads_cluster (check_instance_access w identity kind ns name)
  unfolding check_instance_access
  check_instance_access-quiet identity kind ns name = search quiet

  check_item_access-quiet :
      (identity : Identity) (kind ns name item : String) (packages_enabled : Bool)
      → Avoids reads_cluster (check_item_access w identity kind ns name item packages_enabled)
  unfolding check_item_access
  check_item_access-quiet identity kind ns name item packages_enabled =
      search (quiet, check_instance_access-quiet)

-- What has passed: the path is well formed, the caller is known, and the API has allowed the caller
-- to read the instance, where the item is about it; a list of packages is enabled.
pub record Admitted (w : World) (config : Config) (request : Request) : Type 0 where
  pub ns_valid : validate_dns1123 request.ns ≡ true
  pub name_valid : validate_dns1123 request.name ≡ true
  pub kind_known : contains valid_kinds request.kind ≡ true
  pub item_known : contains valid_items request.item ≡ true
  pub identity : Identity
  pub identified :
      (extract_identity w request.headers config.trust_request_header []).0 ≡ ok identity
  pub allowed :
      (is_instance_scoped_item request.item ≡ false)
      ⊎ ((check_instance_access w identity request.kind request.ns request.name
            (extract_identity w request.headers config.trust_request_header []).1).0
          ≡ ok true)
  pub packages_enabled : ((request.item == "packages") ≡ false) ⊎ (config.enable_packages ≡ true)

-- An action that may refuse has not.
passed_if :
    (test : Bool) (e : DiagError) (h : History)
    → ((if test then pure (tt {0}) else fail e) h).0 ≡ ok tt
    → test ≡ true
unfolding pure fail
passed_if true e h returned = refl
passed_if false e h returned = cc

passed_unless :
    (test : Bool) (e : DiagError) (h : History)
    → ((if test then fail e else pure (tt {0})) h).0 ≡ ok tt
    → test ≡ false
unfolding pure fail
passed_unless true e h returned = cc
passed_unless false e h returned = refl

module _ (w : World) (config : Config) where
  -- A check that passed has seen the API allow the access.
  granted :
      (identity : Identity) (kind ns name item : String) (flag : Bool) (h : History)
      → (check_item_access w identity kind ns name item flag h).0 ≡ ok tt
      → (is_instance_scoped_item item ≡ false)
        ⊎ ((check_instance_access w identity kind ns name h).0 ≡ ok true)
  unfolding check_item_access
  granted identity kind ns name item flag h passed =
      elim (Bool-cases (is_instance_scoped_item item)) [
        | inr open_to_all ↦ inl open_to_all
        | inl scoped ↦
            let (allowed, answered, rest) =
              returns-bind (check_instance_access w identity kind ns name) _ h tt
                (rw scoped at passed) in
            let was_allowed = passed_if allowed authorization_denied _ rest in
            inr (rw was_allowed at answered)
      ]

  enabled :
      (identity : Identity) (kind ns name item : String) (flag : Bool) (h : History)
      → (check_item_access w identity kind ns name item flag h).0 ≡ ok tt
      → ((item == "packages") ≡ false) ⊎ (flag ≡ true)
  unfolding check_item_access
  enabled identity kind ns name item flag h passed = elim (Bool-cases (item == "packages")) [
    | inr other ↦ inl other
    | inl same ↦
        let named = (eq_iff item "packages").0 same in
        let refused = passed_unless (not flag) packages_disabled h (rw named at passed) in
        inr (ground (arith, refused))
  ]

  -- If handling a request made any call but a review of a token or of an access, then its namespace
  -- and name are DNS names, its kind and item are known, its caller was identified, the API has
  -- allowed that caller to get the instance or the item is not about one, and packages are enabled
  -- or the item is another.
  pub instance_handler-Admitted :
      (request : Request)
      → any reads_cluster (instance_handler w config request []).1 ≡ true
      → Admitted w config request
  unfolding instance_handler serve
  instance_handler-Admitted request reached =
      let (names_valid, r1) =
        reached-unless reads_cluster
          (not (validate_dns1123 request.ns) || not (validate_dns1123 request.name))
          invalid_name_format _ [] refl reached in
      let (kind_ok, r2) =
        reached-unless reads_cluster (not (contains valid_kinds request.kind)) unknown_kind _ []
          refl r1 in
      let (item_ok, r3) =
        reached-unless reads_cluster (not (contains valid_items request.item)) unknown_item
          (serve w config request) [] refl r2 in
      let (identity, identified, free, r4) =
        reached-bind reads_cluster (extract_identity w request.headers config.trust_request_header)
          _ [] (extract_identity-quiet w request.headers config.trust_request_header) refl r3 in
      let (done, passed, free', r5) =
        reached-bind reads_cluster
          (check_item_access w identity request.kind request.ns request.name request.item
            config.enable_packages)
          _ _
          (check_item_access-quiet w identity request.kind request.ns request.name request.item
            config.enable_packages)
          free r4 in
      record {
        ns_valid = ground (arith, names_valid);
        name_valid = ground (arith, names_valid);
        kind_known = ground (arith, kind_ok);
        item_known = ground (arith, item_ok);
        identity = identity;
        identified = identified;
        allowed =
            granted identity request.kind request.ns request.name request.item
              config.enable_packages _ passed;
        packages_enabled =
            enabled identity request.kind request.ns request.name request.item
              config.enable_packages _ passed;
      }
