-- ===== src/JukeBox.antt =====
-- common/src/jukebox.rs: the sources of packages, their conditions and their status.
pub mod Merge
pub mod Status
pub mod Failure
use vynil.Prelude.{
  ℕ, String, Bool, true, false, not, Option, none, some, List, [], ◌∷◌, ◌++◌, ◌&&◌, any, keep,
  nat_eq, code, ◌==◌, if◌then◌else◌,
}
use vynil.Prelude.Dict.{Dict}
use vynil.Package.{VynilPackage}

pub data ConditionsType : Type 0 where
  ready updated : ConditionsType

pub record ApplicationCondition : Type 0 where
  pub last_transition_time : Option ℕ
  pub message : String
  pub condition_type : ConditionsType
  pub status : Bool
  pub generation : ℕ

pub record JukeBoxStatus : Type 0 where
  pub conditions : List ApplicationCondition
  pub packages : List VynilPackage

-- `metadata`, the fields of `spec` that the operator reads, and `status`.
pub record JukeBox : Type 0 where
  pub name : String
  pub generation : Option ℕ
  pub annotations : Dict String
  pub pull_secret : Option String
  pub schedule : String
  pub status : Option JukeBoxStatus

new : ℕ → String → Bool → ConditionsType → ℕ → ApplicationCondition
new now message status condition_type generation = record {
  last_transition_time = some now;
  message = message;
  condition_type = condition_type;
  status = status;
  generation = generation;
}

unfoldable pub ready_ok : ℕ → ℕ → ApplicationCondition
unfolding new
ready_ok now generation = new now "Updated succesfully" true ready generation

unfoldable pub ready_ko : ℕ → ℕ → ApplicationCondition
unfolding new
ready_ko now generation = new now "No successful update" false ready generation

unfoldable pub updated_ko : ℕ → String → ℕ → ApplicationCondition
unfolding new
updated_ko now message generation = new now message false updated generation

unfoldable pub updated_ok : ℕ → ℕ → ApplicationCondition
unfolding new
updated_ok now generation = new now "Updated succesfully" true updated generation

unfoldable pub type_eq : ConditionsType → ConditionsType → Bool
type_eq ready ready = true
type_eq updated updated = true
type_eq a b = false

conditions_of : Option JukeBoxStatus → List ApplicationCondition
conditions_of none = []
conditions_of (some st) = st.conditions

unfoldable pub get_conditions_excluding : JukeBox → List ConditionsType → List ApplicationCondition
unfolding type_eq conditions_of
get_conditions_excluding box exclude =
    keep (λ c. not (any (λ exc. type_eq c.condition_type exc) exclude)) (conditions_of box.status)

packages_in : Option JukeBoxStatus → List VynilPackage
packages_in none = []
packages_in (some st) = st.packages

-- `self.status.as_ref().map(|s| s.packages.clone()).unwrap_or_default()`.
unfoldable pub existing_packages : JukeBox → List VynilPackage
unfolding packages_in
existing_packages box = packages_in box.status

-- The filter of a scan at its first slash: a category, and maybe a name.
unfoldable pub split_filter : String → String × Option String
split_filter String.[] = (String.[], none)
split_filter (String.◌∷◌ c s) =
    let rest = split_filter s in
    if nat_eq (code c) b'/' then (String.[], some s) else (String.◌∷◌ c rest.0, rest.1)

unfoldable pub name_match : Option String → VynilPackage → Bool
name_match none p = true
name_match (some n) p = p.metadata.name == n

unfoldable pub is_filtered : String → Option String → VynilPackage → Bool
unfolding name_match
is_filtered filter_category filter_name p =
    p.metadata.category == filter_category && name_match filter_name p

unfoldable pub filter_packages :
    List VynilPackage → String → Option String → List VynilPackage → List VynilPackage
unfolding is_filtered
filter_packages existing filter_category filter_name new_packages =
    keep (λ p. not (is_filtered filter_category filter_name p)) existing ++ new_packages
