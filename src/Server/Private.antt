-- ===== src/Server/Private.antt =====
-- What an answer of the server does not depend on (server/src/auth.rs, server/src/collect/state.rs).
use vynil.Prelude.{
  String, false, Option, none, some, List, ◌∷◌, Bool-cases, ◌≡◌, refl, ap, inl, inr,
}
use vynil.Instance.{Instance, InstanceStatus}
use vynil.Server.{Config, kube_error, valid_kinds}
use vynil.Prelude.Text.{contains}
use vynil.Server.World.{World, History, get_instance, Outcome, or_error, continue, pure, ◌>>=◌, get}
use vynil.Server.Access.{extract_identity}
use vynil.Server.Anonymize.{scrub, collect_secret_values}
use vynil.Server.Instances.{state_document, strip, get_stripped, get_instance_state}
use vynil.Server.Handler.{Request, serve, instance_handler}

-- The headers in front of a request, as anyone may write them.
unfoldable pub claims : Option (Option String) → List (Option String) → Request → Request
claims user groups request = record request {
  headers = record {
    remote_user = user;
    remote_groups = groups;
    authorization = request.headers.authorization;
  };
}

module _ (w : World) (config : Config) where
  -- If the headers of the front proxy are not trusted, then whatever user and groups they claim, the
  -- request is handled alike: with the same answer and the same calls.
  pub instance_handler-claims :
      (user : Option (Option String)) (groups : List (Option String)) (request : Request)
      → config.trust_request_header ≡ false
      → instance_handler w config (claims user groups request) ≡ instance_handler w config request
  unfolding instance_handler serve extract_identity claims
  instance_handler-claims user groups request untrusted = rw untrusted refl

put_status : Option String → Option String → Option InstanceStatus → Option InstanceStatus
put_status tfstate rhaistate none = none
put_status tfstate rhaistate (some status) =
    some (record status { tfstate = tfstate; rhaistate = rhaistate })

put : Option String → Option String → Option Instance → Option Instance
unfolding put_status
put tfstate rhaistate none = none
put tfstate rhaistate (some inst) =
    some (record inst { status = put_status tfstate rhaistate inst.status })

-- A cluster that differs in the states of the tools only.
unfoldable pub with_states : Option String → Option String → World → World
unfolding put
with_states tfstate rhaistate w = record w { instance = λ h. put tfstate rhaistate (w.instance h) }

strip-put_status :
    (tfstate rhaistate : Option String) (inst : Instance) (status : Option InstanceStatus)
    → inst.status ≡ status
    → strip (record inst { status = put_status tfstate rhaistate inst.status }) ≡ strip inst
unfolding strip put_status
strip-put_status tfstate rhaistate inst none e = rw e refl
strip-put_status tfstate rhaistate inst (some status) e = rw e refl

module _ (w : World) (tfstate rhaistate : Option String) where
  -- What a reading of the instance leaves to go on with.
  stripped_as : Option Instance → History → Outcome Instance × History
  unfolding ◌>>=◌ get strip
  stripped_as answer h = continue (or_error kube_error answer) (λ inst. pure (strip inst)) h

  stripped_as-put :
      (answer : Option Instance) (h : History)
      → stripped_as (put tfstate rhaistate answer) h ≡ stripped_as answer h
  unfolding stripped_as put
  stripped_as-put none h = refl
  stripped_as-put (some inst) h =
      ap (λ i. pure i h) (strip-put_status tfstate rhaistate inst inst.status refl)

  get_stripped-with_states :
      (kind namespace name : String) (h : History)
      → get_stripped (with_states tfstate rhaistate w) kind namespace name h
        ≡ get_stripped w kind namespace name h
  unfolding get_stripped with_states stripped_as ◌>>=◌ get
  get_stripped-with_states kind namespace name h = elim (Bool-cases (contains valid_kinds kind)) [
    | inl known ↦ rw known (
        stripped_as-put (w.instance (get_instance kind namespace name ∷ h))
          (get_instance kind namespace name ∷ h))
    | inr other ↦ rw other refl
  ]

  -- The document of an instance, its statistics and the calls made for it are the same whatever states
  -- of OpenTofu and of the scripts the status holds.
  pub get_instance_state-with_states :
      (kind namespace name vynil_namespace : String) (h : History)
      → get_instance_state (with_states tfstate rhaistate w) kind namespace name vynil_namespace h
        ≡ get_instance_state w kind namespace name vynil_namespace h
  unfolding get_instance_state state_document with_states scrub collect_secret_values ◌>>=◌
  get_instance_state-with_states kind namespace name vynil_namespace h =
      ap (λ r. continue r.0 (state_document w namespace vynil_namespace) r.1)
        (get_stripped-with_states kind namespace name h)
