-- ===== src/Status/Unique.antt =====
-- No status update writes two conditions of one type.
use vynil.Prelude.{
  ℕ, ◌≤◌, String, ◌≡◌, refl, Bool, false, List, [], ◌∷◌, arith, All, any, if◌then◌else◌,
}
use vynil.Instance.{
  ApplicationCondition, ConditionsType, installed, agent_started, Instance, StatusField, EventNote,
}
use vynil.Instance.Conditions.{new, ready_ko, installed_ko}
use vynil.Instance.Conditions.Lists.{conditions_of, get_conditions_excluding, type_eq}
use vynil.Kube.{Call, patch_status, Cluster, Kube}
use vynil.Kube.Keeps.{Keeps, Keeps-call-All, Keeps-pure, Keeps-if, Keeps-bind, keeps_rules}
use vynil.Status.{clock, send_event, send_reason, patch, set_condition, set_applied, set_failed}
use vynil.Status.Counts.{
  IsUnique, count, type_eq_trans, excluding-append-IsUnique, with_ready-IsUnique,
}

abbrev pub IsTidyCall : Call → Type 0
IsTidyCall (patch_status name conditions fields) = IsUnique conditions
IsTidyCall c = Unit

pub event-IsTidy :
    (c : Cluster) (inst : Instance) (warning : Bool) (reason : String) (note : EventNote)
    (action : String)
    → Keeps (All IsTidyCall) (send_event c inst warning reason note action)
unfolding send_event
event-IsTidy c inst warning reason note action = Keeps-call-All IsTidyCall _ _ tt

pub reason-IsTidy :
    (c : Cluster) (inst : Instance) (event reason action : String)
    → Keeps (All IsTidyCall) (send_reason c inst event reason action)
unfolding send_reason
reason-IsTidy c inst event reason action = search (keeps_rules, event-IsTidy)

patch-IsTidy :
    (c : Cluster) (inst : Instance) (conditions : List ApplicationCondition)
    (fields : List StatusField)
    → IsUnique conditions
    → Keeps (All IsTidyCall) (patch c inst conditions fields)
unfolding patch
patch-IsTidy c inst conditions fields u = Keeps-call-All IsTidyCall _ _ u

pub clock-IsTidy : (c : Cluster) (inst : Instance) → Keeps (All IsTidyCall) (clock c inst)
unfolding clock
clock-IsTidy c inst = record { at = λ h p. p }

-- One condition, of the only type that was left out.
pub single :
    (cond : ApplicationCondition) (s t : ConditionsType)
    → cond.condition_type ≡ s
    → count t (cond ∷ []) ≤ (if any (type_eq t) (s ∷ []) then 1 else 0)
unfolding count
single cond s t e = rw e (ground arith)

-- Two conditions, of two types that were left out.
pair :
    (a b : ApplicationCondition) (r s q t : ConditionsType)
    → a.condition_type ≡ s
    → b.condition_type ≡ q
    → type_eq s q ≡ false
    → count t (a ∷ b ∷ []) ≤ (if any (type_eq t) (r ∷ s ∷ q ∷ []) then 1 else 0)
unfolding count
pair a b r s q t ea eb differ = rw (ea, eb) (ground (arith, type_eq_trans t s q, differ))

module _ (c : Cluster) (inst : Instance) (u : IsUnique (conditions_of inst.status)) where
  pub set_condition-IsTidy :
      (cond : ApplicationCondition) (s : ConditionsType) (event : Kube (Unit {0}))
      → cond.condition_type ≡ s
      → Keeps (All IsTidyCall) event
      → Keeps (All IsTidyCall) (set_condition c inst cond (s ∷ []) event)
  unfolding set_condition get_conditions_excluding
  set_condition-IsTidy cond s event e ke =
      Keeps-if _ _ _ (λ _. Keeps-pure inst)
        (λ _.
          Keeps-bind _ _
            (patch-IsTidy c inst _ [] (
              excluding-append-IsUnique (s ∷ []) (conditions_of inst.status) (cond ∷ []) u
                (λ t. single cond s t e)))
            (λ result. Keeps-bind _ _ ke (λ _. Keeps-pure result)))

  pub set_applied-IsTidy :
      (success : ℕ → ℕ → List ApplicationCondition) (types : List ConditionsType)
      (fields : List StatusField) (event : String) (note : EventNote) (action : String)
      → ((now generation : ℕ) (t : ConditionsType)
          → count t (success now generation) ≤ (if any (type_eq t) types then 1 else 0))
      → Keeps (All IsTidyCall) (set_applied c inst success types fields event note action)
  unfolding set_applied get_conditions_excluding
  set_applied-IsTidy success types fields event note action new =
      Keeps-bind _ _ (clock-IsTidy c inst) (λ now.
        Keeps-bind _ _
          (patch-IsTidy c inst _ fields
            (excluding-append-IsUnique types (conditions_of inst.status) _ u (new now _)))
          (λ result.
            Keeps-bind _ _ (event-IsTidy c inst false event note action) (λ _. Keeps-pure result)))

  pub set_failed-IsTidy :
      (ko : ℕ → String → ℕ → ApplicationCondition) (stage : ConditionsType)
      (fields : List StatusField) (event reason action : String)
      → ((now : ℕ) (message : String) (generation : ℕ)
          → (ko now message generation).condition_type ≡ stage)
      → type_eq stage installed ≡ false
      → Keeps (All IsTidyCall) (set_failed c inst ko stage fields event reason action)
  unfolding set_failed get_conditions_excluding ready_ko installed_ko
  set_failed-IsTidy ko stage fields event reason action typed differ =
      Keeps-bind _ _ (clock-IsTidy c inst) (λ now.
        Keeps-bind _ _
          (patch-IsTidy c inst _ fields (
            with_ready-IsUnique _ _ refl (
              excluding-append-IsUnique (agent_started ∷ stage ∷ installed ∷ [])
                (conditions_of inst.status) _ u
                (λ t. pair _ _ agent_started stage installed t (typed now reason _) refl differ))))
          (λ result.
            Keeps-bind _ _ (reason-IsTidy c inst event reason action) (λ _. Keeps-pure result)))
