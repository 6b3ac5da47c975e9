-- ===== src/TtlCache/Single.antt =====
-- A value is computed once in each period (common/src/ttl_cache.rs).
use vynil.Prelude.{ℕ, ◌+◌, ◌≤◌, Option, none, some, List, [], ◌∷◌, ◌≡◌, refl, arith}
use vynil.Result.{Result, ok, err, panic}
use vynil.TtlCache.{
  Cell, Guarded, assign, store, settle, unexpired, write_locked, Shared, written, Step, read, write,
  Reaches, start, step,
}

-- Each look that led to a store came at least `ttl` after the store before it.
pub IsSpaced : ℕ → List (ℕ × ℕ) → Type 0
IsSpaced ttl [] = Unit
IsSpaced ttl ((now, later) ∷ []) = Unit
IsSpaced ttl ((now, later) ∷ (before, stored) ∷ rest) =
    (stored + ttl ≤ now) × IsSpaced ttl ((before, stored) ∷ rest)

module _ {ℓ} {A : Type ℓ} (ttl : ℕ) where
  -- The cell holds the latest store, which is not after the clock.
  Latest : ℕ → Cell A → List (ℕ × ℕ) → Type 0
  Latest clock none [] = Unit
  Latest clock none (s ∷ stores) = ⊥
  Latest clock (some (ts, val)) [] = ⊥
  Latest clock (some (ts, val)) ((now, later) ∷ stores) = (ts ≡ later) × (later ≤ clock)

  IsSound : ℕ → Guarded A → Type 0
  IsSound clock g = Latest clock g.cell g.stores × IsSpaced ttl g.stores

  Latest-le :
      (clock now : ℕ) (cell : Cell A) (stores : List (ℕ × ℕ))
      → clock ≤ now
      → Latest clock cell stores
      → Latest now cell stores
  unfolding Latest
  Latest-le clock now none [] le l = tt
  Latest-le clock now none (s ∷ stores) le l = l
  Latest-le clock now (some c) [] le l = l
  Latest-le clock now (some c) (s ∷ stores) le l = (l.0, omega (arith, le, l.1))

  later-IsSound :
      (clock later : ℕ) (g : Guarded A) → clock ≤ later → IsSound clock g → IsSound later g
  unfolding IsSound
  later-IsSound clock later g le sound = (Latest-le clock later g.cell g.stores le sound.0, sound.1)

  -- An assignment is sound where the look found no value that is fresh.
  assign-IsSound :
      (clock now later : ℕ) (val : A) (cell : Cell A) (stores : List (ℕ × ℕ))
      → clock ≤ now
      → now ≤ later
      → unexpired ttl now cell ≡ none
      → IsSound clock (record { cell = cell; stores = stores })
      → IsSound later (assign now later val (record { cell = cell; stores = stores }))
  unfolding IsSound Latest IsSpaced assign unexpired
  assign-IsSound clock now later val none [] le le' looked sound = ((refl, omega arith), tt)
  assign-IsSound clock now later val none (s ∷ stores) le le' looked sound = elim sound.0 [ ]
  assign-IsSound clock now later val (some c) [] le le' looked sound = elim sound.0 [ ]
  assign-IsSound clock now later val (some (ts, old)) ((b, stored) ∷ stores) le le' looked sound =
      ((refl, omega arith), (ground (arith, looked, sound.0.0, sound.0.1, le), sound.1))

  store-IsSound :
      (clock now later : ℕ) (refreshed : Result A) (g : Guarded A)
      → clock ≤ now
      → now ≤ later
      → unexpired ttl now g.cell ≡ none
      → IsSound clock g
      → IsSound later (store now later refreshed g).1
  unfolding store
  store-IsSound clock now later (ok val) g le le' looked sound =
      assign-IsSound clock now later val g.cell g.stores le le' looked sound
  store-IsSound clock now later (err e) g le le' looked sound =
      later-IsSound clock later g (omega (arith, le, le')) sound
  store-IsSound clock now later panic g le le' looked sound =
      later-IsSound clock later g (omega (arith, le, le')) sound

  settle-IsSound :
      (clock now later : ℕ) (refreshed : Result A) (g : Guarded A) (found : Option A)
      → clock ≤ now
      → now ≤ later
      → unexpired ttl now g.cell ≡ found
      → IsSound clock g
      → IsSound later (settle now later refreshed g found).1
  unfolding settle
  settle-IsSound clock now later refreshed g none le le' looked sound =
      store-IsSound clock now later refreshed g le le' looked sound
  settle-IsSound clock now later refreshed g (some val) le le' looked sound =
      later-IsSound clock later g (omega (arith, le, le')) sound

  Step-IsSound :
      (s t : Shared A) → Step ttl s t → IsSound s.clock s.guarded → IsSound t.clock t.guarded
  unfolding written write_locked
  Step-IsSound _ _ (read s now le) sound = later-IsSound s.clock now s.guarded le sound
  Step-IsSound _ _ (write s now later refreshed le le') sound =
      settle-IsSound s.clock now later refreshed s.guarded (unexpired ttl now s.guarded.cell) le le'
        refl sound

  reached-IsSound : (s : Shared A) → Reaches ttl s → IsSound s.clock s.guarded
  unfolding IsSound Latest IsSpaced
  reached-IsSound _ (start now) = (tt, tt)
  reached-IsSound _ (step s t r moved) = Step-IsSound s t moved (reached-IsSound s r)

  -- However the looks and writes of the tasks interleave, and whichever computations fail, each
  -- assignment to the cell follows a look that came at least `ttl` after the assignment before it.
  pub Reaches-IsSpaced : (s : Shared A) → Reaches ttl s → IsSpaced ttl s.guarded.stores
  unfolding IsSound
  Reaches-IsSpaced s reached = (reached-IsSound s reached).1
