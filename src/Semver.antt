-- ===== src/Semver.antt =====
-- core/src/semver.rs: package versions with an optional `v` in front. The crate `semver` is a
-- parameter: its parser, its printer, its order and its check of a prerelease tag. A prerelease
-- tag is the list of its code points. The counters wrap around, as they do in a release build.
pub mod Bump
pub mod Order
use vynil.Prelude.{
  ℕ, ◌+◌, ◌%◌, ◌^◌, String, Ordering, Bool, true, false, Option, none, some, List, [], ◌∷◌, ◌++◌,
  is_empty, nat_eq, not, ◌||◌, if◌then◌else◌, Char, code, is_some, ◌&&◌,
}
use vynil.Prelude.Decimal.{u32_mod, u64_mod, parse_u32, print}
use vynil.Result
use vynil.Result.{Result, ok, err, panic, ◌>>=◌}

-- `semver::Version`.
pub record Version : Type 0 where
  pub major : ℕ
  pub minor : ℕ
  pub patch : ℕ
  pub pre : List ℕ
  pub build : List ℕ

-- What the crate provides.
pub record SemverCrate : Type 0 where
  pub version_parse : String → Option Version
  pub version_display : Version → String
  pub version_cmp : Version → Version → Ordering
  pub prerelease_new : List ℕ → Option (List ℕ)

pub record Semver : Type 0 where
  pub version : Version
  pub use_v : Bool

-- `str.starts_with("v")`.
unfoldable pub starts_with_v : String → Bool
starts_with_v String.[] = false
starts_with_v (String.◌∷◌ c s) = nat_eq (code c) b'v'

-- `chars.next(); chars.as_str()`.
skip_char : String → String
skip_char String.[] = String.[]
skip_char (String.◌∷◌ c s) = s

-- `map_err(Error::Semver)`.
abbrev or_semver_error {ℓ} : {A : Type ℓ} → Option A → Result A
or_semver_error none = err Result.semver
or_semver_error (some a) = ok a

abbrev less : Bool → Bool → Bool
less a b = not a && b

abbrev v_char : Char
v_char = "v"

abbrev pub beta : List ℕ
beta = b'b' ∷ b'e' ∷ b't' ∷ b'a' ∷ b'.' ∷ []

abbrev pub alpha : List ℕ
alpha = b'a' ∷ b'l' ∷ b'p' ∷ b'h' ∷ b'a' ∷ b'.' ∷ []

-- `str::strip_prefix`; a text starts with a prefix if this is `some`.
unfoldable pub strip_prefix : List ℕ → List ℕ → Option (List ℕ)
strip_prefix [] text = some text
strip_prefix (p ∷ ps) [] = none
strip_prefix (p ∷ ps) (c ∷ text) =
    let rest = strip_prefix ps text in if nat_eq p c then rest else none

-- `self.version.patch += 1`.
bump_patch : Semver → Semver
bump_patch s = record s { version = record s.version { patch = (s.version.patch + 1) % u64_mod } }

-- `self.version.pre = Prerelease::new(..).map_err(Error::Semver)?; Ok(())`.
set_pre : Option (List ℕ) → Semver → Result (Unit {0}) × Semver
set_pre none s = (err Result.semver, s)
set_pre (some pre) s = (ok tt, record s { version = record s.version { pre = pre } })

-- The counter behind the tag, read with `parse::<u32>().unwrap()`, and one more.
next_tag :
    List ℕ → (List ℕ → Option (List ℕ)) → Option (List ℕ) → Semver → Result (Unit {0}) × Semver
unfolding set_pre
next_tag tag prerelease_new none s = (panic, s)
next_tag tag prerelease_new (some text) s = elim (parse_u32 text) [
  | none ↦ (panic, s)
  | some n ↦ set_pre (prerelease_new (tag ++ print ((n + 1) % u32_mod))) s
]

module _ (crate : SemverCrate) where
  open crate use {version_parse, version_display, version_cmp, prerelease_new}

  unfoldable pub parse : String → Result Semver
  unfolding starts_with_v skip_char
  parse str = do
    let use_v = starts_with_v str
    version ← or_semver_error (version_parse (if use_v then skip_char str else str))
    ok (record { version = version; use_v = use_v })

  unfoldable pub display : Semver → String
  display s =
      if s.use_v then String.◌∷◌ v_char (version_display s.version) else version_display s.version

  -- `>=` of the derived `PartialOrd`: the versions first, then the flags.
  unfoldable pub ge : Semver → Semver → Bool
  ge a b = elim (version_cmp a.version b.version) [
    | Ordering.lt ↦ false
    | Ordering.eq ↦ not (less a.use_v b.use_v)
    | Ordering.gt ↦ true
  ]

  -- `inc_beta` and `inc_alpha` differ in their tag only. What was written before an error stays.
  unfoldable pub inc_tag : List ℕ → Semver → Result (Unit {0}) × Semver
  unfolding strip_prefix bump_patch set_pre next_tag
  inc_tag tag s =
      if is_empty s.version.pre || not (is_some (strip_prefix tag s.version.pre))
      then set_pre (prerelease_new (tag ++ b'1' ∷ [])) (bump_patch s)
      else next_tag tag (prerelease_new) (strip_prefix tag s.version.pre) s

  unfoldable pub inc_beta : Semver → Result (Unit {0}) × Semver
  unfolding inc_tag
  inc_beta = inc_tag beta

  unfoldable pub inc_alpha : Semver → Result (Unit {0}) × Semver
  unfolding inc_tag
  inc_alpha = inc_tag alpha

unfoldable pub inc_major : Semver → Semver
inc_major s = record s {
  version = record s.version {
    major = (s.version.major + 1) % u64_mod;
    minor = 0;
    patch = 0;
    pre = [];
  };
}

unfoldable pub inc_minor : Semver → Semver
inc_minor s = record s {
  version = record s.version { minor = (s.version.minor + 1) % u64_mod; patch = 0; pre = [] };
}

unfoldable pub inc_patch : Semver → Semver
unfolding bump_patch
inc_patch s =
    if is_empty s.version.pre
    then bump_patch s
    else record s { version = record s.version { pre = [] } }
