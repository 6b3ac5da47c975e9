-- ===== src/Kube.antt =====
-- What the operator asks of the world outside of it, and the actions that ask. Each call of the
-- Kubernetes API, of the OCI registry, of the template and script engines and of the clock is a
-- `Call`; `Cluster` answers it, given all the calls before it. An action returns its result with
-- the history of calls, so what was done before an error or a panic is still seen.
pub mod Keeps
use vynil.Prelude.{ℕ, String, Bool, Option, List, [], ◌∷◌}
use vynil.Prelude.Dict.{Dict}
use vynil.Prelude.Json.{Json}
use vynil.Result.{Error, Result, ok, err, panic}
use vynil.Semver.{SemverCrate}
use vynil.Package.{VynilPackage}
use vynil.JukeBox
use vynil.JukeBox.{JukeBox}
use vynil.Instance.{ApplicationCondition, Instance, StatusField, EventNote}

-- Which credentials a registry call uses.
pub data RegistryAuth : Type 0 where
  anonymous : RegistryAuth
  basic : String → RegistryAuth

pub data Call : Type 0 where
  -- Reads.
  get_crd : String → Call
  get_api_version list_services list_system_instances list_tenant_instances : Call
  get_tenant_namespaces get_tenant_services : Instance → Call
  eval_truth : Instance → String → Call
  eval_map_string : Instance → String → Call
  resolve_registry_auth : String → String → Call
  verify_tag : (registry image tag : String) → RegistryAuth → Call
  get_job : String → Call
  get_cron_job : String → Call
  render : (template : String) → Dict Json → Call
  -- Writes.
  touch_diagnostics : Call
  patch_status : (name : String) → List ApplicationCondition → List StatusField → Call
  publish_event : (warning : Bool) → (reason : String) → EventNote → (action : String) → Call
  patch_box : (name : String) → List JukeBox.ApplicationCondition → List VynilPackage → Call
  remove_annotation : (name key : String) → Call
  apply_job : String → Json → Call
  create_job : Json → Call
  delete_job : String → Call
  wait_job_deleted : String → Call
  wait_job_completed : String → Call
  apply_cron_job : String → Json → Call
  delete_cron_job : String → Call

-- The calls made so far, the latest first.
abbrev pub History : Type 0
History = List Call

-- How a publication of an event ends: an error of the API is told apart.
pub data Published : Type 0 where
  sent api_error other_error : Published

-- A job as the API returns it: whether it is being deleted, and its status' conditions, each a
-- status and a type.
pub record Job : Type 0 where
  pub deleting : Bool
  pub conditions : Option (Option (List (String × String)))

-- The answers. A deletion answers whether the object is still there, being deleted.
pub record Cluster : Type 0 where
  pub semver : SemverCrate
  pub version : String
  pub json_text : Json → Result (List ℕ)
  pub digest : String → String
  pub now : History → ℕ
  pub crd : History → Result Bool
  pub api_version : History → Result (Json × Json)
  pub services : History → Result (List String)
  pub system_instances : History → Result (List Instance)
  pub tenant_instances : History → Result (List Instance)
  pub tenant_namespaces : History → Result (List String)
  pub tenant_services : History → Result (List String)
  pub truth : History → Result Bool
  pub map_string : History → Result String
  pub registry_auth : History → Result RegistryAuth
  pub tag_exists : History → Result Bool
  pub job : History → Result (Option Job)
  pub cron_job : History → Result Bool
  pub rendered : History → Result Json
  pub written : History → Result (Unit {0})
  pub patched : History → Result Instance
  pub box_patched : History → Result JukeBox
  pub published : History → Published
  pub encoded : String → Result String
  -- What `serde_json` and the standard library compute.
  pub as_job : Json → Result (Unit {0})
  pub unquoted : String → Result String
  pub debug_text : String → String
  -- Waits end with `elapsed` or `kube_wait_error` where they fail.
  pub waited : History → Result (Unit {0})
  pub deleted : History → Result Bool

abbrev pub Kube {ℓ} : Type ℓ → Type ℓ
Kube A = History → Result A × History

abbrev pub attempted {ℓ} : {A : Type ℓ} → Result A → Result (Result A)
attempted (ok a) = ok (ok a)
attempted (err e) = ok (err e)
attempted panic = panic

module _ {ℓ} {A : Type ℓ} where
  unfoldable pub pure : A → Kube A
  pure a h = (ok a, h)

  unfoldable pub fail : Error → Kube A
  fail e h = (err e, h)

  unfoldable pub lift : Result A → Kube A
  lift r h = (r, h)

  -- One call: it is written to the history, and answered.
  unfoldable pub call : Call → (History → Result A) → Kube A
  call c answer h = (answer (c ∷ h), c ∷ h)

  -- `match` on the result of a call, with no `?`: an error is a value, a panic is not.
  unfoldable pub attempt : Kube A → Kube (Result A)
  attempt m h = let (r, h') = m h in (attempted r, h')

module _ {ℓ κ} {A : Type ℓ} {B : Type κ} where
  abbrev continue : Result A → (A → Kube B) → Kube B
  continue (ok a) f h = f a h
  continue (err e) f h = (err e, h)
  continue panic f h = (panic, h)

  infixl 5 ◌>>=◌ ◌>>◌
  unfoldable pub ◌>>=◌ : Kube A → (A → Kube B) → Kube B
  unfolding pure fail lift call
  ◌>>=◌ m f h = let (r, h') = m h in continue r f h'

  abbrev pub ◌>>◌ : Kube A → Kube B → Kube B
  m >> n = m >>= λ _. n

-- `ctx.diagnostics.write().await.last_event = Utc::now()`.
unfoldable pub touch : Kube (Unit {0})
touch = call touch_diagnostics (λ h. ok tt)
