-- ===== src/Semver/Order.antt =====
-- Reading and comparing versions (core/src/semver.rs).
use vynil.Prelude.{Bool-cases, inl, inr, not, ◌||◌, Ordering, false, some, ◌≡◌, arith}
use vynil.Result.{ok}
use vynil.Semver.{SemverCrate, Semver, Version, starts_with_v, parse, display, ge}

-- What the crate documents: it reads back what it prints, and prints a number first.
pub record Prints (crate : SemverCrate) (v : Version) : Type 0 where
  pub reads : crate.version_parse (crate.version_display v) ≡ some v
  pub no_v : starts_with_v (crate.version_display v) ≡ false

-- A version that the crate reads back as it printed it, with a number first, is read back by
-- `parse` as `Display` printed it, with or without its `v`.
pub parse-display :
    (crate : SemverCrate) (s : Semver)
    → Prints crate s.version
    → parse crate (display crate s) ≡ ok s
unfolding parse display
parse-display crate s laws = elim (Bool-cases s.use_v) [
  | inl v ↦ rw (v, laws.reads) (ground (arith, v))
  | inr plain ↦ rw (plain, laws.no_v, laws.reads) (ground (arith, plain))
]

-- Versions that the crate finds equal are ordered by their `v`: with a `v` is the greater.
pub ge-same_version :
    (crate : SemverCrate) (a b : Semver)
    → crate.version_cmp a.version b.version ≡ Ordering.eq
    → ge crate a b ≡ (a.use_v || not b.use_v)
unfolding ge
ge-same_version crate a b same = rw (same, ge) (ground arith)
