-- ===== src/JukeBox/Status.antt =====
-- common/src/jukebox.rs: the status updates of a jukebox, which the scans make.
use vynil.Prelude.{
  ℕ, String, Bool, true, false, none, some, List, [], ◌∷◌, ◌++◌, any, if◌then◌else◌, length,
}
use vynil.Prelude.Decimal.{show}
use vynil.Prelude.Text.{concat, truncate}
use vynil.Result.{Result, ok, err, kube_error}
use vynil.Package.{VynilPackage}
use vynil.Instance.{EventNote, text}
use vynil.JukeBox.{
  ApplicationCondition, JukeBox, ready, updated, ready_ok, ready_ko, updated_ok, updated_ko,
  type_eq, get_conditions_excluding, existing_packages, split_filter, filter_packages,
}
use vynil.Kube.{
  Cluster, Kube, Published, sent, api_error, other_error, patch_box, publish_event, lift, call,
  pure, ◌>>=◌, ◌>>◌,
}

-- `metadata.generation.unwrap_or(1)`.
pub generation_of : JukeBox → ℕ
generation_of box = elim box.generation [ none ↦ 1 | some g ↦ g ]

publish_result : Published → Result (Unit {0})
publish_result sent = ok tt
publish_result api_error = ok tt
publish_result other_error = err kube_error

unfoldable pub with_ready :
    ApplicationCondition → List ApplicationCondition → List ApplicationCondition
with_ready ko conditions =
    if any (λ c. type_eq c.condition_type ready) conditions
    then conditions
    else conditions ++ ko ∷ []

module _ (c : Cluster) (box : JukeBox) where
  -- `Utc::now()`.
  unfoldable pub clock : Kube ℕ
  clock h = (ok (c.now h), h)

  -- An error that the API answers is only logged.
  unfoldable pub send_event : Bool → String → EventNote → String → Kube (Unit {0})
  unfolding publish_result
  send_event warning reason note action =
      call (publish_event warning reason note action) (λ h. publish_result (c.published h))

  unfoldable pub patch_status : List ApplicationCondition → List VynilPackage → Kube JukeBox
  patch_status conditions packages = call (patch_box box.name conditions packages) c.box_patched

  -- The end of a scan that succeeded, whole or partial.
  succeed : List VynilPackage → String → Kube JukeBox
  unfolding clock send_event patch_status generation_of
  succeed packages note = do
    now ← clock
    result ←
        patch_status (updated_ok now (generation_of box) ∷ ready_ok now (generation_of box) ∷ [])
          packages
    send_event false "ScanSucceed" (text note) "Scan"
    pure result

  unfoldable pub set_status_updated : List VynilPackage → Kube JukeBox
  unfolding succeed
  set_status_updated packages =
      succeed packages (concat ("Found " ∷ show (length packages) ∷ " packages" ∷ []))

  unfoldable pub set_status_packages_merge : String → List VynilPackage → Kube JukeBox
  unfolding succeed
  set_status_packages_merge filter packages =
      let parts = split_filter filter in
      succeed (filter_packages (existing_packages box) parts.0 parts.1 packages)
        (concat ("Partial scan updated filter: " ∷ filter ∷ []))

  unfoldable pub set_status_failed : String → Kube JukeBox
  unfolding clock send_event patch_status generation_of with_ready
  set_status_failed reason = do
    now ← clock
    let failed =
        get_conditions_excluding box (updated ∷ [])
        ++ updated_ko now reason (generation_of box) ∷ []
    result ←
        patch_status (with_ready (ready_ko now (generation_of box)) failed) (existing_packages box)
    note ← lift (truncate 1023 reason)
    send_event true "ScanFailed" (text note) "Scan"
    pure result
