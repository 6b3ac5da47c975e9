-- ===== src/Status/Notes.antt =====
-- Notes of events that cannot be cut (common/src/instance_macros.rs, `set_missing_requirement`).
use vynil.Prelude.{String, true, false, [], ◌∷◌, ◌++◌, ◌≡◌, refl, leb}
use Prim.Native.String.{len}
use text.Mathlib.Text.{is_char_boundary}
use vynil.Prelude.Text.{truncate}
use vynil.Result.{ok, panic}
use vynil.Instance.{Instance, agent_started}
use vynil.Instance.Conditions.{missing_requirement}
use vynil.Instance.Conditions.Lists.{have_condition, get_conditions_excluding}
use vynil.Kube
use vynil.Kube.{Cluster, History, patch_status, call, lift}
use vynil.Status.{generation_of, clock, patch, set_condition, send_reason, set_missing_requirement}

truncate-panics :
    (s : String)
    → leb 1023 (len s) ≡ true
    → is_char_boundary s 1023 ≡ false
    → truncate 1023 s ≡ panic
unfolding truncate
truncate-panics s long inside = rw (long, inside) refl

-- A requirement's message of at least 1023 bytes, whose byte 1023 is inside of a character, makes
-- `set_missing_requirement` panic when its condition is new: after the status is patched, and
-- without the event.
pub set_missing_requirement-panics :
    (c : Cluster) (inst patched : Instance) (reason : String) (h : History)
    → leb 1023 (len reason) ≡ true
    → is_char_boundary reason 1023 ≡ false
    → have_condition inst (missing_requirement (c.now h) reason (generation_of inst)) ≡ false
    → c.patched (
        patch_status inst.name
          (get_conditions_excluding inst (agent_started ∷ [])
            ++ missing_requirement (c.now h) reason (generation_of inst) ∷ [])
          []
        ∷ h)
      ≡ ok patched
    → set_missing_requirement c inst reason h ≡ (
      panic,
      patch_status inst.name
            (get_conditions_excluding inst (agent_started ∷ [])
              ++ missing_requirement (c.now h) reason (generation_of inst) ∷ [])
            []
          ∷ h,
    )
unfolding set_missing_requirement clock set_condition patch call lift send_reason Kube.◌>>=◌
set_missing_requirement-panics c inst patched reason h long inside new_condition accepted =
    rw (new_condition, accepted, truncate-panics reason long inside) refl
