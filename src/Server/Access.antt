-- ===== src/Server/Access.antt =====
-- server/src/auth.rs and server/src/authz.rs: who calls, and what the caller may see. A value of a
-- header is what its `to_str` gives, `none` where that is no text.
use vynil.Prelude.{
  String, Bool, true, false, not, Option, none, some, List, [], ◌∷◌, ◌&&◌, ◌==◌, if◌then◌else◌,
}
use vynil.Prelude.Text.{contains}
use vynil.Server.{
  authentication_required, authorization_denied, internal_error, packages_disabled, unknown_kind,
}
use vynil.Server.World.{
  World, Identity, UserInfo, TokenReviewStatus, Access, review_token, review_access, Diag, pure,
  fail, ask, require, ◌>>=◌,
}

pub record HeaderMap : Type 0 where
  pub remote_user : Option (Option String)
  pub remote_groups : List (Option String)
  pub authorization : Option (Option String)

some_of : List (Option String) → List String
some_of [] = []
some_of (none ∷ values) = some_of values
some_of (some value ∷ values) = value ∷ some_of values

identity_of : Option (Option String) → List (Option String) → Option Identity
unfolding some_of
identity_of (some (some user)) groups =
    if user == "" then none else some (record { user = user; groups = some_of groups })
identity_of user groups = none

unfoldable pub request_header_identity : HeaderMap → Option Identity
unfolding identity_of
request_header_identity headers = identity_of headers.remote_user headers.remote_groups

-- What is left of a text after a prefix, `str::strip_prefix`.
unfoldable pub strip_prefix : String → String → Option String
strip_prefix String.[] s = some s
strip_prefix (String.◌∷◌ c p) String.[] = none
strip_prefix (String.◌∷◌ c p) (String.◌∷◌ d s) =
    let rest = strip_prefix p s in
    if String.◌∷◌ c String.[] == String.◌∷◌ d String.[] then rest else none

or_default : Option String → String
or_default none = ""
or_default (some s) = s

groups_of : Option (List String) → List String
groups_of none = []
groups_of (some groups) = groups

user_of : Option UserInfo → Identity
unfolding or_default groups_of
user_of none = record { user = ""; groups = [] }
user_of (some info) = record { user = or_default info.username; groups = groups_of info.groups }

-- `status.unwrap_or_default()`, which is not authenticated.
unfoldable pub reviewed : Option TokenReviewStatus → Option Identity
unfolding user_of
reviewed none = none
reviewed (some status) = elim status.authenticated [
  | some true ↦ some (user_of status.user)
  | _ ↦ none
]

-- The plural of a kind that is known.
unfoldable pub resource_of : String → Option String
resource_of kind =
    if kind == "tenantinstances"
    then some "tenantinstances"
    else if kind == "serviceinstances"
    then some "serviceinstances"
    else if kind == "systeminstances"
    then some "systeminstances"
    else none

unfoldable pub is_instance_scoped_item : String → Bool
unfolding contains
is_instance_scoped_item item =
    contains ("state" ∷ "children" ∷ "agentlog" ∷ "childlogs" ∷ "operatorlog" ∷ []) item

is_allowed : Option Bool → Bool
is_allowed none = false
is_allowed (some allowed) = allowed

-- What the server asks for: to read the instance.
unfoldable pub access_to : String → String → String → Access
access_to resource namespace name = record {
  verb = "get";
  group = "vynil.solidite.fr";
  resource = resource;
  namespace = namespace;
  name = name;
}

module _ (w : World) where
  unfoldable pub validate_token : String → Diag Identity
  unfolding reviewed
  validate_token token = do
    answer ← ask (review_token token) w.token_review
    status ← require authentication_required answer
    require authentication_required (reviewed status)

  unfoldable pub of_bearer : Option String → Diag Identity
  unfolding validate_token
  of_bearer none = fail authentication_required
  of_bearer (some token) = validate_token token

  -- The bearer token of a request.
  unfoldable pub with_token : Option (Option String) → Diag Identity
  unfolding strip_prefix of_bearer
  with_token (some (some value)) = of_bearer (strip_prefix "Bearer " value)
  with_token header = fail authentication_required

  unfoldable pub or_token : HeaderMap → Option Identity → Diag Identity
  unfolding with_token
  or_token headers none = with_token headers.authorization
  or_token headers (some identity) = pure identity

  unfoldable pub extract_identity : HeaderMap → Bool → Diag Identity
  unfolding request_header_identity or_token
  extract_identity headers trust_request_header =
      or_token headers (if trust_request_header then request_header_identity headers else none)

  unfoldable pub check_instance_access : Identity → String → String → String → Diag Bool
  unfolding resource_of is_allowed access_to
  check_instance_access identity kind namespace name = do
    resource ← require unknown_kind (resource_of kind)
    answer ← ask (review_access identity (access_to resource namespace name)) w.access_review
    status ← require internal_error answer
    pure (is_allowed status)

  unfoldable pub check_item_access :
      Identity → String → String → String → String → Bool → Diag (Unit {0})
  unfolding check_instance_access is_instance_scoped_item
  check_item_access identity kind namespace name item packages_enabled =
      if is_instance_scoped_item item
      then (do
        allowed ← check_instance_access identity kind namespace name
        if allowed then pure tt else fail authorization_denied)
      else (if item == "packages" && not packages_enabled then fail packages_disabled else pure tt)
