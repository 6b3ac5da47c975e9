-- ===== src/Status/Repeats.antt =====
-- Updates that find their condition already there (common/src/instance_macros.rs, `have_condition`
-- and the setters that ask it), and notes that cannot be cut.
use mathlib.Core.Option.{some-injective}
use vynil.Prelude.{
  or-true, ap, sym, ◌∙◌, ℕ, String, Bool, true, Option, none, some, List, [], ◌∷◌, ◌++◌, ◌≡◌, refl,
  arith, any-append, eq_refl,
}
use vynil.Result.{ok}
use vynil.Instance.{ApplicationCondition, Instance, agent_started, init_from, ConditionsType}
use vynil.Instance.Conditions.{
  agent_started_ok, missing_box, missing_package, missing_requirement, init_version_ko, new,
}
use vynil.Instance.Conditions.Lists.{
  have_condition, conditions_of, same_condition, type_eq, bool_eq,
}
use vynil.Kube
use vynil.Kube.{Cluster, History, Kube, patch_status, pure, call, lift, ◌>>=◌, ◌>>◌}
use vynil.Status.{
  generation_of, clock, set_condition, set_missing_requirement, set_agent_started, set_missing_box,
  set_missing_package, set_missing_init_version,
}
use vynil.Status.Methods
use vynil.Status.Methods.{Update, run}

-- The condition of an update that asks whether it is there, by time and generation.
unfoldable pub recorded : Update → Option (ℕ → ℕ → ApplicationCondition)
recorded Methods.agent_started = some agent_started_ok
recorded (Methods.missing_box jukebox) = some (λ now g. missing_box now jukebox g)
recorded (Methods.missing_package category name) =
    some (λ now g. missing_package now category name g)
recorded (Methods.missing_requirement reason) = some (λ now g. missing_requirement now reason g)
recorded (Methods.missing_init_version version) = some (λ now g. init_version_ko now version g)
recorded update = none

-- The time is no part of the comparison.
same_condition-new :
    (now later generation : ℕ) (message : String) (status : Bool) (t : ConditionsType)
    → same_condition (new later message status t generation) (new now message status t generation)
      ≡ true
unfolding same_condition bool_eq new type_eq
same_condition-new now later generation message status t = ground (arith, eq_refl message)

module _ (c : Cluster) (inst : Instance) (earlier : List ApplicationCondition) where
  already :
      (now later generation : ℕ) (message : String) (status : Bool) (t : ConditionsType)
      (types : List ConditionsType) (event : Kube (Unit {0})) (h : History)
      → conditions_of inst.status ≡ earlier ++ new now message status t generation ∷ []
      → set_condition c inst (new later message status t generation) types event h ≡ (ok inst, h)
  unfolding set_condition have_condition pure
  already now later generation message status t types event h there =
      rw
        (
          there,
          any-append (same_condition (new later message status t generation)) earlier _,
          same_condition-new now later generation message status t,
          or-true _,
        )
        refl

  as_written :
      (written cond : ℕ → ℕ → ApplicationCondition) (now : ℕ)
      → some written ≡ some cond
      → conditions_of inst.status ≡ earlier ++ cond now (generation_of inst) ∷ []
      → conditions_of inst.status ≡ earlier ++ written now (generation_of inst) ∷ []
  as_written written cond now is_cond there =
      there
      ∙ ap (λ f. earlier ++ f now (generation_of inst) ∷ [])
          (sym (some-injective written cond is_cond))

  -- An update that asks whether its condition is there makes no call and returns the instance as it
  -- is, if the last condition of the status is the one that the update wrote at whatever time
  -- before, for the same generation.
  pub run-again :
      (update : Update) (cond : ℕ → ℕ → ApplicationCondition) (now : ℕ) (h : History)
      → recorded update ≡ some cond
      → conditions_of inst.status ≡ earlier ++ cond now (generation_of inst) ∷ []
      → run c inst update h ≡ (ok inst, h)
  unfolding run recorded set_agent_started set_missing_box set_missing_package
      set_missing_requirement set_missing_init_version clock Kube.◌>>=◌ agent_started_ok missing_box
      missing_package missing_requirement init_version_ko
  run-again Methods.agent_started cond now h is_cond there =
      already now (c.now h) (generation_of inst) _ _ _ (agent_started ∷ []) _ h
        (as_written _ cond now is_cond there)
  run-again (Methods.missing_box jukebox) cond now h is_cond there =
      already now (c.now h) (generation_of inst) _ _ _ (agent_started ∷ []) _ h
        (as_written _ cond now is_cond there)
  run-again (Methods.missing_package category name) cond now h is_cond there =
      already now (c.now h) (generation_of inst) _ _ _ (agent_started ∷ []) _ h
        (as_written _ cond now is_cond there)
  run-again (Methods.missing_requirement reason) cond now h is_cond there =
      already now (c.now h) (generation_of inst) _ _ _ (agent_started ∷ []) _ h
        (as_written _ cond now is_cond there)
  run-again (Methods.missing_init_version version) cond now h is_cond there =
      already now (c.now h) (generation_of inst) _ _ _ (init_from ∷ []) _ h
        (as_written _ cond now is_cond there)
  run-again _ cond now h is_cond there = cc
