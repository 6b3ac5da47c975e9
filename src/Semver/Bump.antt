-- ===== src/Semver/Bump.antt =====
-- What the increments of a version do, over any number of calls (core/src/semver.rs).
use vynil.Prelude.{
  Option-cases, ◌≢◌, inl, inr, ℕ, zero, suc, ◌+◌, ◌%◌, ◌<◌, false, Option, none, some, List, [],
  ◌∷◌, ◌++◌, ◌≡◌, refl, ◌↔◌, arith, is_empty,
}
use vynil.Prelude.Decimal.{u32_mod, u64_mod, parse_u32, print, parse_u32-print}
use vynil.Result.{Result, ok, panic}
use vynil.Semver.{
  SemverCrate, Semver, strip_prefix, set_pre, next_tag, bump_patch, inc_tag, inc_patch,
}

strip_prefix-append : (tag text : List ℕ) → strip_prefix tag (tag ++ text) ≡ some text
unfolding strip_prefix
strip_prefix-append [] text = refl
strip_prefix-append (p ∷ ps) text = ground (arith, strip_prefix-append ps text)

is_empty-append : (tag text : List ℕ) → is_empty tag ≡ false → is_empty (tag ++ text) ≡ false
is_empty-append [] text h = ground arith
is_empty-append (p ∷ ps) text h = refl

strip_prefix-nonempty :
    (tag pre text : List ℕ)
    → is_empty tag ≡ false
    → strip_prefix tag pre ≡ some text
    → is_empty pre ≡ false
unfolding strip_prefix
strip_prefix-nonempty [] pre text h e = ground arith
strip_prefix-nonempty (p ∷ ps) [] text h e = ground arith
strip_prefix-nonempty (p ∷ ps) (c ∷ pre) text h e = refl

set_pre-ne-panic : (pre : Option (List ℕ)) (s : Semver) → (set_pre pre s).0 ≢ panic
unfolding set_pre
set_pre-ne-panic none s = cc
set_pre-ne-panic (some pre) s = cc

next_tag-panic :
    (tag : List ℕ) (prerelease_new : List ℕ → Option (List ℕ)) (text : List ℕ) (s : Semver)
    → (next_tag tag prerelease_new (some text) s).0 ≡ panic
    → parse_u32 text ≡ none
unfolding next_tag
next_tag-panic tag prerelease_new text s h = elim (Option-cases (parse_u32 text)) [
  | inl bad ↦ bad
  | inr (n, e) ↦ absurd (
      set_pre-ne-panic (prerelease_new (tag ++ print ((n + 1) % u32_mod))) s
        (rw (e, next_tag) at h))
]

-- The version with this patch number and this prerelease tag.
abbrev pub with_tag : Semver → ℕ → List ℕ → Semver
with_tag s patch pre = record s { version = record s.version { patch = patch; pre = pre } }

-- The crate takes the tag followed by a counter, unchanged.
abbrev pub Accepts : SemverCrate → List ℕ → Type 0
Accepts crate tag = (n : ℕ) → crate.prerelease_new (tag ++ print n) ≡ some (tag ++ print n)

module _ (crate : SemverCrate) (tag : List ℕ) (named : is_empty tag ≡ false) where
  inc_tag-next :
      (accepts : Accepts crate tag) (s : Semver) (patch n : ℕ)
      → n + 1 < u32_mod
      → inc_tag crate tag (with_tag s patch (tag ++ print n))
        ≡ (ok tt, with_tag s patch (tag ++ print (n + 1)))
  unfolding inc_tag
  inc_tag-next accepts s patch n h =
      let small : (n + 1) % u32_mod ≡ n + 1 = omega arith in
      rw (
        is_empty-append tag (print n) named,
        strip_prefix-append tag (print n),
        next_tag,
        parse_u32-print n (omega arith),
        small,
        set_pre,
        accepts (n + 1),
      )

  inc_tag-first :
      (accepts : Accepts crate tag) (s : Semver)
      → s.version.pre ≡ []
      → s.version.patch + 1 < u64_mod
      → inc_tag crate tag s ≡ (ok tt, with_tag s (s.version.patch + 1) (tag ++ print 1))
  unfolding inc_tag print
  inc_tag-first accepts s h p =
      let small : (s.version.patch + 1) % u64_mod ≡ s.version.patch + 1 = omega arith in
      let written : crate.prerelease_new (tag ++ b'1' ∷ []) ≡ some (tag ++ b'1' ∷ []) =
        unfold print in accepts 1 in
      rw (h, set_pre, written, bump_patch, small)

  -- The state after a number of calls, each on the state that the last one left.
  pub inc_tag_times : ℕ → Semver → Result (Unit {0}) × Semver
  inc_tag_times zero s = (ok tt, s)
  inc_tag_times (suc k) s = inc_tag crate tag (inc_tag_times k s).1

  -- From a version with no prerelease tag, `k + 1` increments move the patch number once and count
  -- the tag up to `k + 1`, with no error and no panic, while the counters fit their machine words.
  pub inc_tag_times_lem :
      (accepts : Accepts crate tag) (s : Semver) (k : ℕ)
      → s.version.pre ≡ []
      → s.version.patch + 1 < u64_mod
      → k + 1 < u32_mod
      → inc_tag_times (suc k) s ≡ (ok tt, with_tag s (s.version.patch + 1) (tag ++ print (k + 1)))
  unfolding inc_tag_times
  inc_tag_times_lem accepts s zero h p q = inc_tag-first accepts s h p
  inc_tag_times_lem accepts s (suc k) h p q =
      let same : suc k + 1 ≡ k + 1 + 1 = omega arith in
      rw (inc_tag_times_lem accepts s k h p (omega arith), same)
        (inc_tag-next accepts s (s.version.patch + 1) (k + 1) (omega arith))

  -- An increment panics exactly when the version carries the tag and what follows it is not the
  -- decimal text of a 32-bit number.
  pub inc_tag-panic_iff :
      (s : Semver)
      → ((inc_tag crate tag s).0 ≡ panic)
        ↔ ((text : List ℕ) × (strip_prefix tag s.version.pre ≡ some text) × (parse_u32 text ≡ none))
  unfolding inc_tag
  inc_tag-panic_iff s = (
    λ h. elim (Option-cases (strip_prefix tag s.version.pre)) [
      | inl plain ↦
          ground (arith, set_pre-ne-panic (crate.prerelease_new (tag ++ b'1' ∷ [])) (bump_patch s))
      | inr (text, e) ↦ (
        text,
        e,
        ground (
          arith,
          strip_prefix-nonempty tag s.version.pre text named,
          set_pre-ne-panic (crate.prerelease_new (tag ++ b'1' ∷ [])) (bump_patch s),
          next_tag-panic tag crate.prerelease_new text s,
        ),
      )
    ],
    λ (text, e, bad). rw (strip_prefix-nonempty tag s.version.pre text named e, e, next_tag, bad),
  )

-- A beta of the next patch release becomes that release: from a version with no prerelease tag,
-- `inc_beta` and then `inc_patch` is `inc_patch`. So it is for `inc_alpha`.
inc_patch-inc_tag :
    (crate : SemverCrate) (tag : List ℕ) (s : Semver)
    → is_empty tag ≡ false
    → Accepts crate tag
    → s.version.pre ≡ []
    → s.version.patch + 1 < u64_mod
    → inc_patch (inc_tag crate tag s).1 ≡ inc_patch s
unfolding inc_patch bump_patch
inc_patch-inc_tag crate tag s named accepts h p =
    let small : (s.version.patch + 1) % u64_mod ≡ s.version.patch + 1 = omega arith in
    rw (inc_tag-first crate tag named accepts s h p, is_empty-append tag (print 1) named, h, small)
