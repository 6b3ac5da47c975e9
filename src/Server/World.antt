-- ===== src/Server/World.antt =====
-- What the diagnostic server asks of the Kubernetes API, and the actions that ask. As in Kube, an
-- action returns its result with the calls made, the latest first; the server has errors of its own.
pub mod Keeps
pub mod Yields
use vynil.Prelude.{ℕ, String, Bool, Option, none, some, List, ◌∷◌}
use vynil.Prelude.Dict.{Dict}
use vynil.Prelude.Json.{Json}
use vynil.Instance.{Instance, Children}
use vynil.Server.{DiagError, kube_error}

-- Who calls (server/src/auth.rs).
pub record Identity : Type 0 where
  pub user : String
  pub groups : List String

-- What a SubjectAccessReview asks about: a verb, an API group, a resource, and an object.
pub record Access : Type 0 where
  pub verb : String
  pub group : String
  pub resource : String
  pub namespace : String
  pub name : String

-- A pod, as far as it is read; the containers are there if the pod has a specification.
pub record Pod : Type 0 where
  pub name : Option String
  pub labels : Option (Dict String)
  pub owners : Option (List (String × String))
  pub containers : Option (List String)

pub record Node : Type 0 where
  pub name : Option String
  pub labels : Option (Dict String)
  pub kubelet_version : Option String

-- A deployment: its labels, and the images of its containers if it has a pod's specification.
pub record Deployment : Type 0 where
  pub labels : Option (Dict String)
  pub images : Option (List (Option String))

pub record StorageClass : Type 0 where
  pub name : Option String
  pub provisioner : String
  pub annotations : Option (Dict String)

pub record UserInfo : Type 0 where
  pub username : Option String
  pub groups : Option (List String)

pub record TokenReviewStatus : Type 0 where
  pub authenticated : Option Bool
  pub user : Option UserInfo

-- A listed object may have no name and no namespace.
pub record Listed : Type 0 where
  pub name : Option String
  pub namespace : Option String
  pub instance_of : Instance

pub record Secret : Type 0 where
  pub bytes : Option (List (List ℕ))
  pub string_data : Option (List String)

pub data Call : Type 0 where
  review_token : String → Call
  review_access : Identity → Access → Call
  get_instance : (kind namespace name : String) → Call
  list_instances : (kind : String) → Call
  list_secrets : (namespace : String) → Call
  list_jobs : (namespace selector : String) → Call
  list_pods : (namespace : String) → (selector : Option String) → Call
  get_pod : (namespace name : String) → Call
  get_logs :
      (namespace pod : String)
      → (container : Option String) → (previous : Bool) → (since : Option ℕ) → Call
  get_object : (kind namespace name : String) → Call
  get_config_map : (namespace name : String) → Call
  list_nodes list_api_groups get_version list_storage_classes list_ingress_classes : Call
  list_deployments : (namespace : String) → Call

abbrev pub History : Type 0
History = List Call

-- `String::from_utf8`, the reading of base64, the order in which a set is read, and the redaction of
-- the patterns by the crate `regex`.
pub record Texts : Type 0 where
  pub from_utf8 : List ℕ → Option String
  pub encoded : List ℕ → String
  pub decoded : String → Option (List ℕ)
  pub in_set_order : List String → List String
  pub apply_patterns : String → String

-- The answers of the API, where `none` is an error of it, and what the libraries compute.
pub record World : Type 0 where
  pub token_review : History → Option (Option TokenReviewStatus)
  pub access_review : History → Option (Option Bool)
  pub instance : History → Option Instance
  pub instances : History → Option (List Listed)
  pub secrets : History → Option (List Secret)
  pub jobs : History → Option (List (Option String))
  pub pods : History → Option (List Pod)
  pub pod : History → Option Pod
  pub logs : History → Option String
  pub object : History → Option Json
  pub match_labels : History → Option (Option (Option (Dict String)))
  pub config_map : History → Option (Option (Dict String))
  pub nodes : History → Option (List Node)
  pub api_groups : History → Option (List String)
  pub apiserver_version : History → Option String
  pub deployments : History → Option (List Deployment)
  pub storage_classes : History → Option (List StorageClass)
  pub ingress_classes : History → Option (List (Option String))
  pub texts : Texts
  -- The crates `serde_json` and `serde_yaml`.
  pub instance_json : Instance → Option Json
  pub config_yaml : Dict String → Option String
  pub yaml : Json → Option String
  pub json_text : Json → Option String
  pub json_value : String → Option Json
  pub as_child : Json → Option Children

pub data Outcome {ℓ} (A : Type ℓ) : Type ℓ where
  ok : A → Outcome A
  err : DiagError → Outcome A

abbrev pub Diag {ℓ} : Type ℓ → Type ℓ
Diag A = History → Outcome A × History

abbrev pub or_error {ℓ} : {A : Type ℓ} → DiagError → Option A → Outcome A
or_error e none = err e
or_error e (some a) = ok a

module _ {ℓ} {A : Type ℓ} where
  unfoldable pub pure : A → Diag A
  pure a h = (ok a, h)

  unfoldable pub fail : DiagError → Diag A
  fail e h = (err e, h)

  -- `ok_or(e)?`, or `map_err(|_| e)?` on what a library computes.
  unfoldable pub require : DiagError → Option A → Diag A
  require e o h = (or_error e o, h)

  -- A call, whose answer is looked at: an error of the API is a value.
  unfoldable pub ask : Call → (History → A) → Diag A
  ask c answer h = (ok (answer (c ∷ h)), c ∷ h)

  -- A call, with `map_err(DiagError::KubeError)?`.
  unfoldable pub get : Call → (History → Option A) → Diag A
  get c answer h = (or_error kube_error (answer (c ∷ h)), c ∷ h)

module _ {ℓ κ} {A : Type ℓ} {B : Type κ} where
  abbrev pub continue : Outcome A → (A → Diag B) → Diag B
  continue (ok a) f h = f a h
  continue (err e) f h = (err e, h)

  infixl 5 ◌>>=◌ ◌>>◌
  unfoldable pub ◌>>=◌ : Diag A → (A → Diag B) → Diag B
  unfolding pure fail require ask get
  ◌>>=◌ m f h = let (r, h') = m h in continue r f h'

  abbrev pub ◌>>◌ : Diag A → Diag B → Diag B
  m >> n = m >>= λ _. n
