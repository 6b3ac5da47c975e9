-- ===== src/TtlCache.antt =====
-- common/src/ttl_cache.rs: a value that is computed again when it is too old. Many tasks share the
-- cache; a read lock and then a write lock are held, and the write lock is held while the value is
-- computed, so each of the two parts is one step. Times are in the unit of the clock, which never
-- goes back.
pub mod Single
use vynil.Prelude.{
  ℕ, ◌-◌, ◌≤◌, Bool, true, false, Option, none, some, List, [], ◌∷◌, ltb, if◌then◌else◌,
}
use vynil.Result.{Result, ok, err, panic}

-- When a value was stored, and the value.
abbrev pub Cell {ℓ} : Type ℓ → Type ℓ
Cell A = Option (ℕ × A)

-- What is behind the locks. The second field is no state of the program: it records each assignment
-- to the cell, with the time of the look before it and its own, the latest first.
pub record Guarded {ℓ} (A : Type ℓ) : Type ℓ where
  pub cell : Cell A
  pub stores : List (ℕ × ℕ)

module _ {ℓ} {A : Type ℓ} where
  -- `*guard = Some((Instant::now(), val))`, after a look at `now`.
  unfoldable pub assign : ℕ → ℕ → A → Guarded A → Guarded A
  assign now later val g = record { cell = some (later, val); stores = (now, later) ∷ g.stores }

  -- The end of a computation under the write lock.
  unfoldable pub store : ℕ → ℕ → Result A → Guarded A → Result A × Guarded A
  unfolding assign
  store now later (ok val) g = (ok val, assign now later val g)
  store now later (err e) g = (err e, g)
  store now later panic g = (panic, g)

  -- The end of a task under the write lock, by what it found.
  unfoldable pub settle : ℕ → ℕ → Result A → Guarded A → Option A → Result A × Guarded A
  unfolding store
  settle now later refreshed g none = store now later refreshed g
  settle now later refreshed g (some val) = (ok val, g)

module _ {ℓ} {A : Type ℓ} (ttl : ℕ) where
  -- `ts.elapsed() < ttl` of a stored value.
  unfoldable pub unexpired : ℕ → Cell A → Option A
  unexpired now none = none
  unexpired now (some (ts, val)) = if ltb (now - ts) ttl then some val else none

  -- What a task does under the write lock: it looks at `now`, and stores at `later`.
  unfoldable pub write_locked : ℕ → ℕ → Result A → Guarded A → Result A × Guarded A
  unfolding unexpired settle
  write_locked now later refreshed g = settle now later refreshed g (unexpired now g.cell)

  -- A whole call that no other task interrupts.
  unfoldable pub get_or_refresh : ℕ → ℕ → ℕ → Result A → Guarded A → Result A × Guarded A
  unfolding unexpired write_locked
  get_or_refresh first now later refreshed g = elim (unexpired first g.cell) [
    | some val ↦ (ok val, g)
    | none ↦ write_locked now later refreshed g
  ]

-- The state that any number of tasks share: the clock, and what is behind the locks.
pub record Shared {ℓ} (A : Type ℓ) : Type ℓ where
  pub clock : ℕ
  pub guarded : Guarded A

module _ {ℓ} {A : Type ℓ} (ttl : ℕ) where
  unfoldable pub written : ℕ → ℕ → Result A → Shared A → Shared A
  unfolding write_locked
  written now later refreshed s = record {
    clock = later;
    guarded = (write_locked ttl now later refreshed s.guarded).1;
  }

  pub data Step : Shared A → Shared A → Type ℓ where
    -- A look under the read lock, whatever it finds, changes nothing.
    read : (s : Shared A) (now : ℕ) → s.clock ≤ now → Step s (record s { clock = now })
    write :
        (s : Shared A) (now later : ℕ) (refreshed : Result A)
        → s.clock ≤ now
        → now ≤ later
        → Step s (written now later refreshed s)

  pub data Reaches : Shared A → Type ℓ where
    start :
        (now : ℕ) → Reaches (record { clock = now; guarded = record { cell = none; stores = [] } })
    step : (s t : Shared A) → Reaches s → Step s t → Reaches t
