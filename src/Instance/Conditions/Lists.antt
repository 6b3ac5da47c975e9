-- ===== src/Instance/Conditions/Lists.antt =====
-- Lists of conditions: which one is there, and which are left out (common/src/instance_macros.rs,
-- `have_condition` and `get_conditions_excluding`).
use vynil.Prelude.{
  ℕ, Bool, true, false, not, ◌&&◌, Option, none, some, List, [], any, keep, nat_eq, ◌==◌,
}
use vynil.Instance.{
  ApplicationCondition, ConditionsType, Instance, InstanceStatus, ready, installed, backuped,
  restored, agent_started, tofu_installed, before_applied, vital_applied, scalable_applied,
  init_from, schedule_backup, other_applied, rhai_applied, post_applied, crd_applied,
  system_applied,
}

-- Each type's place in the declaration.
unfoldable pub rank : ConditionsType → ℕ
rank ready = 0
rank installed = 1
rank backuped = 2
rank restored = 3
rank agent_started = 4
rank tofu_installed = 5
rank before_applied = 6
rank vital_applied = 7
rank scalable_applied = 8
rank init_from = 9
rank schedule_backup = 10
rank other_applied = 11
rank rhai_applied = 12
rank post_applied = 13
rank crd_applied = 14
rank system_applied = 15

-- The `PartialEq` that the compiler derives for `ConditionsType`.
unfoldable pub type_eq : ConditionsType → ConditionsType → Bool
unfolding rank
type_eq a b = nat_eq (rank a) (rank b)

unfoldable pub bool_eq : Bool → Bool → Bool
bool_eq true b = b
bool_eq false b = not b

unfoldable pub same_condition : ApplicationCondition → ApplicationCondition → Bool
unfolding type_eq bool_eq
same_condition cond c =
    type_eq c.condition_type cond.condition_type
    && nat_eq c.generation cond.generation
    && bool_eq c.status cond.status
    && c.message == cond.message

unfoldable pub conditions_of : Option InstanceStatus → List ApplicationCondition
conditions_of none = []
conditions_of (some st) = st.conditions

unfoldable pub have_condition : Instance → ApplicationCondition → Bool
unfolding conditions_of same_condition
have_condition inst cond = any (same_condition cond) (conditions_of inst.status)

unfoldable pub is_of : List ConditionsType → ApplicationCondition → Bool
unfolding type_eq
is_of types c = any (type_eq c.condition_type) types

unfoldable pub excluding :
    List ConditionsType → List ApplicationCondition → List ApplicationCondition
unfolding is_of
excluding types conditions = keep (λ c. not (is_of types c)) conditions

unfoldable pub get_conditions_excluding : Instance → List ConditionsType → List ApplicationCondition
unfolding conditions_of excluding
get_conditions_excluding inst types = excluding types (conditions_of inst.status)
