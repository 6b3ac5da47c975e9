-- ===== src/Status/Tidy.antt =====
-- Every status update of an instance keeps the conditions apart: common/src/instance_macros.rs and
-- instancesystem.rs, all setters together.
use vynil.Prelude.{ℕ, ◌≤◌, refl, [], ◌∷◌, arith, All, any, if◌then◌else◌}
use vynil.Instance.{
  ConditionsType, ready, installed, backuped, restored, agent_started, tofu_installed,
  before_applied, vital_applied, scalable_applied, init_from, schedule_backup, other_applied,
  rhai_applied, post_applied, crd_applied, system_applied, Instance,
}
use vynil.Instance.Conditions.{
  ready_ok, installed_ok, tofu_ok, tofu_ko, rhai_ok, rhai_ko, before_ok, before_ko, vital_ok,
  vital_ko, scalable_ok, scalable_ko, other_ok, other_ko, post_ok, post_ko, init_ko, schedule_ko,
  crd_ok, crd_ko, system_ok, system_ko, missing_requirement, missing_package, missing_box,
  agent_started_ok, init_version_ko,
}
use vynil.Instance.Conditions.Lists.{conditions_of, type_eq}
use vynil.Kube.{History, Cluster}
use vynil.Kube.Keeps.{Keeps, Keeps-lift, Keeps-bind}
use vynil.Status.Counts.{IsUnique, count}
use vynil.Status.Methods
use vynil.Status.Methods.{Update, run}
use vynil.Status.Unique.{
  IsTidyCall, clock-IsTidy, event-IsTidy, reason-IsTidy, single, set_condition-IsTidy,
  set_applied-IsTidy, set_failed-IsTidy,
}

-- The two conditions of a finished installation, of types that were left out.
ready_pair :
    (now generation : ℕ) (t : ConditionsType)
    → count t (ready_ok now generation ∷ installed_ok now generation ∷ [])
      ≤ (if any (type_eq t) (agent_started ∷ ready ∷ installed ∷ []) then 1 else 0)
unfolding count ready_ok installed_ok type_eq
ready_pair now generation ready = omega arith
ready_pair now generation installed = omega arith
ready_pair now generation backuped = omega arith
ready_pair now generation restored = omega arith
ready_pair now generation agent_started = omega arith
ready_pair now generation tofu_installed = omega arith
ready_pair now generation before_applied = omega arith
ready_pair now generation vital_applied = omega arith
ready_pair now generation scalable_applied = omega arith
ready_pair now generation init_from = omega arith
ready_pair now generation schedule_backup = omega arith
ready_pair now generation other_applied = omega arith
ready_pair now generation rhai_applied = omega arith
ready_pair now generation post_applied = omega arith
ready_pair now generation crd_applied = omega arith
ready_pair now generation system_applied = omega arith

ready_pair_more :
    (now generation : ℕ) (t : ConditionsType)
    → count t (ready_ok now generation ∷ installed_ok now generation ∷ []) ≤ (
        if any
          (type_eq t)
          (agent_started ∷ before_applied ∷ ready ∷ installed ∷ init_from ∷ schedule_backup ∷ [])
        then 1
        else 0)
unfolding count ready_ok installed_ok type_eq
ready_pair_more now generation ready = omega arith
ready_pair_more now generation installed = omega arith
ready_pair_more now generation backuped = omega arith
ready_pair_more now generation restored = omega arith
ready_pair_more now generation agent_started = omega arith
ready_pair_more now generation tofu_installed = omega arith
ready_pair_more now generation before_applied = omega arith
ready_pair_more now generation vital_applied = omega arith
ready_pair_more now generation scalable_applied = omega arith
ready_pair_more now generation init_from = omega arith
ready_pair_more now generation schedule_backup = omega arith
ready_pair_more now generation other_applied = omega arith
ready_pair_more now generation rhai_applied = omega arith
ready_pair_more now generation post_applied = omega arith
ready_pair_more now generation crd_applied = omega arith
ready_pair_more now generation system_applied = omega arith

run-Keeps :
    (c : Cluster) (inst : Instance) (update : Update)
    → IsUnique (conditions_of inst.status)
    → Keeps (All IsTidyCall) (run c inst update)
unfolding run
run-Keeps c inst Methods.agent_started u = Keeps-bind _ _ (clock-IsTidy c inst) (λ now.
    unfold agent_started_ok in
    set_condition-IsTidy c inst u _ agent_started _ refl (event-IsTidy c inst _ _ _ _))
run-Keeps c inst (Methods.missing_box a) u = Keeps-bind _ _ (clock-IsTidy c inst) (λ now.
    unfold missing_box in
    set_condition-IsTidy c inst u _ agent_started _ refl (event-IsTidy c inst _ _ _ _))
run-Keeps c inst (Methods.missing_package a b) u = Keeps-bind _ _ (clock-IsTidy c inst) (λ now.
    unfold missing_package in
    set_condition-IsTidy c inst u _ agent_started _ refl (event-IsTidy c inst _ _ _ _))
run-Keeps c inst (Methods.missing_requirement a) u = Keeps-bind _ _ (clock-IsTidy c inst) (λ now.
    unfold missing_requirement in
    set_condition-IsTidy c inst u _ agent_started _ refl (reason-IsTidy c inst _ _ _))
run-Keeps c inst (Methods.missing_init_version a) u = Keeps-bind _ _ (clock-IsTidy c inst) (λ now.
    unfold init_version_ko in
    set_condition-IsTidy c inst u _ init_from _ refl (event-IsTidy c inst _ _ _ _))
run-Keeps c inst (Methods.tfstate a) u = Keeps-bind _ _ (Keeps-lift _) (λ encoded.
    unfold tofu_ok in
    set_applied-IsTidy c inst u (λ now g. tofu_ok now g ∷ []) (tofu_installed ∷ []) _ _ _ _
      (λ now g t. single (tofu_ok now g) tofu_installed t refl))
run-Keeps c inst (Methods.tofu_failed a b) u = Keeps-bind _ _ (Keeps-lift _) (λ encoded.
    unfold tofu_ko type_eq in
    set_failed-IsTidy c inst u tofu_ko tofu_installed _ _ b _ (λ now m g. refl) refl)
run-Keeps c inst (Methods.rhaistate a) u = Keeps-bind _ _ (Keeps-lift _) (λ encoded.
    unfold rhai_ok in
    set_applied-IsTidy c inst u (λ now g. rhai_ok now g ∷ []) (rhai_applied ∷ []) _ _ _ _
      (λ now g t. single (rhai_ok now g) rhai_applied t refl))
run-Keeps c inst (Methods.rhai_failed a b) u = Keeps-bind _ _ (Keeps-lift _) (λ encoded.
    unfold rhai_ko type_eq in
    set_failed-IsTidy c inst u rhai_ko rhai_applied _ _ b _ (λ now m g. refl) refl)
run-Keeps c inst (Methods.ready a) u = set_applied-IsTidy c inst u _ _ _ _ _ _ ready_pair_more
run-Keeps c inst (Methods.ready_system a) u = set_applied-IsTidy c inst u _ _ _ _ _ _ ready_pair
run-Keeps c inst (Methods.befores a) u =
    unfold before_ok in
    set_applied-IsTidy c inst u (λ now g. before_ok now g ∷ []) (before_applied ∷ []) _ _ _ _
      (λ now g t. single (before_ok now g) before_applied t refl)
run-Keeps c inst (Methods.vitals a) u =
    unfold vital_ok in
    set_applied-IsTidy c inst u (λ now g. vital_ok now g ∷ []) (vital_applied ∷ []) _ _ _ _
      (λ now g t. single (vital_ok now g) vital_applied t refl)
run-Keeps c inst (Methods.scalables a) u =
    unfold scalable_ok in
    set_applied-IsTidy c inst u (λ now g. scalable_ok now g ∷ []) (scalable_applied ∷ []) _ _ _ _
      (λ now g t. single (scalable_ok now g) scalable_applied t refl)
run-Keeps c inst (Methods.others a) u =
    unfold other_ok in
    set_applied-IsTidy c inst u (λ now g. other_ok now g ∷ []) (other_applied ∷ []) _ _ _ _
      (λ now g t. single (other_ok now g) other_applied t refl)
run-Keeps c inst (Methods.posts a) u =
    unfold post_ok in
    set_applied-IsTidy c inst u (λ now g. post_ok now g ∷ []) (post_applied ∷ []) _ _ _ _
      (λ now g t. single (post_ok now g) post_applied t refl)
run-Keeps c inst (Methods.systems a) u =
    unfold system_ok in
    set_applied-IsTidy c inst u (λ now g. system_ok now g ∷ []) (system_applied ∷ []) _ _ _ _
      (λ now g t. single (system_ok now g) system_applied t refl)
run-Keeps c inst (Methods.before_failed a) u =
    unfold before_ko type_eq in
    set_failed-IsTidy c inst u before_ko before_applied [] _ a _ (λ now m g. refl) refl
run-Keeps c inst (Methods.vital_failed a) u =
    unfold vital_ko type_eq in
    set_failed-IsTidy c inst u vital_ko vital_applied [] _ a _ (λ now m g. refl) refl
run-Keeps c inst (Methods.scalable_failed a) u =
    unfold scalable_ko type_eq in
    set_failed-IsTidy c inst u scalable_ko scalable_applied [] _ a _ (λ now m g. refl) refl
run-Keeps c inst (Methods.other_failed a) u =
    unfold other_ko type_eq in
    set_failed-IsTidy c inst u other_ko other_applied [] _ a _ (λ now m g. refl) refl
run-Keeps c inst (Methods.post_failed a) u =
    unfold post_ko type_eq in
    set_failed-IsTidy c inst u post_ko post_applied [] _ a _ (λ now m g. refl) refl
run-Keeps c inst (Methods.init_failed a) u =
    unfold init_ko type_eq in
    set_failed-IsTidy c inst u init_ko init_from [] _ a _ (λ now m g. refl) refl
run-Keeps c inst (Methods.schedule_backup_failed a) u =
    unfold schedule_ko type_eq in
    set_failed-IsTidy c inst u schedule_ko schedule_backup [] _ a _ (λ now m g. refl) refl
run-Keeps c inst (Methods.crd_failed a) u =
    unfold crd_ko type_eq in
    set_failed-IsTidy c inst u crd_ko crd_applied [] _ a _ (λ now m g. refl) refl
run-Keeps c inst (Methods.system_failed a) u =
    unfold system_ko type_eq in
    set_failed-IsTidy c inst u system_ko system_applied [] _ a _ (λ now m g. refl) refl
run-Keeps c inst (Methods.crds a) u =
    unfold crd_ok in
    set_applied-IsTidy c inst u (λ now g. crd_ok now g ∷ []) (crd_applied ∷ []) _ _ _ _
      (λ now g t. single (crd_ok now g) crd_applied t refl)

-- From an instance whose conditions have each type at most once, no status update, whatever the
-- API answers and whether it returns, fails or panics, patches the status with two conditions of
-- one type, if no patch before the update does.
pub run-IsTidy :
    (c : Cluster) (inst : Instance) (update : Update) (h : History)
    → IsUnique (conditions_of inst.status)
    → All IsTidyCall h
    → All IsTidyCall (run c inst update h).1
run-IsTidy c inst update h unique tidy = (run-Keeps c inst update unique).at h tidy
