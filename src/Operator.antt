-- ===== src/Operator.antt =====
-- operator/src: the reconciliation of instances and of jukeboxes.
pub mod Jobs
pub mod Recommend
pub mod Select
pub mod Choice
pub mod Reconcile
pub mod Cleanup
pub mod Caching
pub mod Scan
pub mod Coherence
pub mod ForceScan
pub mod Quiet
pub mod Safety
pub mod Contexts
pub mod Renders
pub mod Tag
pub mod Removal
pub mod InitVersion
pub mod Release
mod Tests
use vynil.Prelude.{ℕ}

-- `kube::runtime::controller::Action`; a requeue carries its delay in seconds.
pub data Action : Type 0 where
  requeue : ℕ → Action
  await_change : Action
