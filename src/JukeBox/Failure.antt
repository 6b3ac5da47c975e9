-- ===== src/JukeBox/Failure.antt =====
-- What a failed scan leaves of a jukebox (common/src/jukebox.rs, `set_status_failed`).
use vynil.Prelude.{
  All, or-true, String, Bool, true, List, [], ◌∷◌, ◌++◌, ◌≡◌, refl, any, any-append, Bool-cases,
  inl, inr,
}
use vynil.JukeBox.{
  ApplicationCondition, JukeBox, ready, updated, updated_ko, get_conditions_excluding, type_eq,
  ready_ko, existing_packages,
}
use vynil.Instance.{text}
use vynil.Kube.{Cluster, Call, patch_box, publish_event}
use vynil.Kube.Keeps.{Keeps, Keeps-bind, Keeps-lift, Keeps-pure, Keeps-call-All}
use vynil.JukeBox.Status.{
  generation_of, with_ready, set_status_failed, clock, patch_status, send_event,
}

has_ready : List ApplicationCondition → Bool
has_ready = any (λ c. type_eq c.condition_type ready)

with_ready-ready :
    (ko : ApplicationCondition) (conditions : List ApplicationCondition)
    → type_eq ko.condition_type ready ≡ true
    → has_ready (with_ready ko conditions) ≡ true
unfolding with_ready has_ready
with_ready-ready ko conditions is_ready =
    elim (Bool-cases (any (λ c. type_eq c.condition_type ready) conditions)) [
      | inl there ↦ rw (there) there
      | inr missing ↦
          rw
            (
              missing,
              any-append (λ c. type_eq c.condition_type ready) conditions (ko ∷ []),
              is_ready,
            )
            (or-true _)
    ]

-- A patch of the status has the packages that the jukebox has already, and a condition `Ready`.
pub KeepsPackages : JukeBox → Call → Type 0
KeepsPackages box (patch_box name conditions packages) =
    (name ≡ box.name) × (packages ≡ existing_packages box) × (has_ready conditions ≡ true)
KeepsPackages box x = Unit

module _ (c : Cluster) (box : JukeBox) where
  set_status_failed-Keeps :
      (reason : String) → Keeps (All (KeepsPackages box)) (set_status_failed c box reason)
  unfolding set_status_failed KeepsPackages patch_status send_event clock type_eq ready_ko
  set_status_failed-Keeps reason =
      Keeps-bind _ _ (record { at = λ h p. p })
        (λ now.
          Keeps-bind _ _
            (Keeps-call-All (KeepsPackages box)
              (patch_box box.name
                (with_ready (ready_ko now (generation_of box)) (
                  get_conditions_excluding box (updated ∷ [])
                  ++ updated_ko now reason (generation_of box) ∷ []))
                (existing_packages box))
              c.box_patched
              (
                refl,
                refl,
                with_ready-ready (ready_ko now (generation_of box))
                    (get_conditions_excluding box (updated ∷ [])
                      ++ updated_ko now reason (generation_of box) ∷ [])
                    refl,
              ))
            (λ result. Keeps-bind _ _ (Keeps-lift _) (λ note.
              Keeps-bind _ _
                (Keeps-call-All (KeepsPackages box)
                  (publish_event true "ScanFailed" (text note) "Scan") _ tt)
                (λ _. Keeps-pure result))))

  -- A failed scan patches the status of its jukebox only, with the packages that the jukebox has
  -- already and with a condition `Ready` among the conditions, whatever the API answers, from no earlier calls.
  pub set_status_failed-KeepsPackages :
      (reason : String) → All (KeepsPackages box) (set_status_failed c box reason []).1
  set_status_failed-KeepsPackages reason = (set_status_failed-Keeps reason).at [] tt
