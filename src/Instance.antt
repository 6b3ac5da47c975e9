-- ===== src/Instance.antt =====
-- The instances of packages: common/src/instancetenant.rs, instanceservice.rs, instancesystem.rs
-- and the parts of instance_macros.rs that all three share. The three kinds are one record with the
-- fields of each; a field that a kind lacks is `none` there, and no condition of a kind is used by
-- another.
pub mod Conditions
use vynil.Prelude.{
  ℕ, String, Bool, true, false, not, ◌||◌, ◌&&◌, Option, none, some, List, [], ◌∷◌, is_some,
  is_empty,
}
use vynil.Prelude.Dict.{Dict}
use vynil.Prelude.Text.{concat}
use vynil.Package.{VynilPackageType, tenant, system, service}

pub data ConditionsType : Type 0 where
  ready installed backuped restored agent_started tofu_installed : ConditionsType
  before_applied vital_applied scalable_applied init_from schedule_backup : ConditionsType
  other_applied rhai_applied post_applied crd_applied system_applied : ConditionsType

pub record ApplicationCondition : Type 0 where
  pub last_transition_time : Option ℕ
  pub message : String
  pub condition_type : ConditionsType
  pub status : Bool
  pub generation : ℕ

pub record Children : Type 0 where
  pub kind : String
  pub name : String
  pub namespace : Option String

pub record InstanceStatus : Type 0 where
  pub conditions : List ApplicationCondition
  pub tag : Option String
  pub tfstate : Option String
  pub rhaistate : Option String
  pub befores : Option (List Children)
  pub vitals : Option (List Children)
  pub scalables : Option (List Children)
  pub others : Option (List Children)
  pub posts : Option (List Children)
  pub systems : Option (List Children)
  pub crds : Option (List String)

-- What a patch of the status writes besides the conditions.
pub data StatusField : Type 0 where
  tag digest tfstate rhaistate : String → StatusField
  children : (category : String) → List Children → StatusField
  crds : List String → StatusField

-- The note of an event; a count of objects is kept as a number.
pub data EventNote : Type 0 where
  no_note : EventNote
  text : String → EventNote
  applied : (count : ℕ) → (what : String) → EventNote

-- `metadata`, `spec` and `status`. `options` is the JSON text of the options, as it is digested.
pub record Instance : Type 0 where
  pub kind : VynilPackageType
  pub name : String
  pub namespace : String
  pub generation : Option ℕ
  pub annotations : Dict String
  pub jukebox : String
  pub category : String
  pub package_name : String
  pub init_from : Option (Option String)
  pub options : Option String
  pub status : Option InstanceStatus

-- `T::type_name()`.
unfoldable pub type_name : VynilPackageType → String
type_name tenant = "tenant"
type_name system = "system"
type_name service = "service"

tag_of : Option InstanceStatus → String
tag_of none = ""
tag_of (some st) = elim st.tag [ none ↦ "" | some t ↦ t ]

-- The tag in the status, or an empty text.
unfoldable pub current_tag : Instance → String
unfolding tag_of
current_tag inst = tag_of inst.status

version_of : VynilPackageType → Option (Option String) → Option String
version_of system from = none
version_of kind none = none
version_of kind (some version) = version

-- `spec.init_from.version`; system instances have none.
unfoldable pub init_from_version : Instance → Option String
unfolding version_of
init_from_version inst = version_of inst.kind inst.init_from

abbrev non_empty {ℓ} : {A : Type ℓ} → Option (List A) → Bool
non_empty none = false
non_empty (some l) = not (is_empty l)

status_has_child : VynilPackageType → InstanceStatus → Bool
status_has_child system st =
    is_some st.rhaistate || is_some st.tfstate || non_empty st.systems || non_empty st.crds
status_has_child service st =
    is_some st.rhaistate
    || is_some st.tfstate
    || non_empty st.befores
    || non_empty st.vitals
    || non_empty st.others
    || non_empty st.scalables
    || non_empty st.posts
    || non_empty st.crds
status_has_child tenant st =
    is_some st.rhaistate
    || is_some st.tfstate
    || non_empty st.befores
    || non_empty st.vitals
    || non_empty st.others
    || non_empty st.scalables
    || non_empty st.posts

child_of_status : VynilPackageType → Option InstanceStatus → Bool
child_of_status kind none = false
child_of_status kind (some st) = status_has_child kind st

unfoldable pub have_child : Instance → Bool
unfolding child_of_status status_has_child
have_child inst = child_of_status inst.kind inst.status
