-- ===== src/Lint.antt =====
-- agent/src/linting: the levels and findings of the linter of packages (mod.rs), and its
-- configuration (config.rs). The matching of globs, by the crate `wildmatch`, is a parameter.
pub mod Directives
pub mod Levels
pub mod Blocks
pub mod Rules
pub mod Keys
pub mod Lines
pub mod Manifest
pub mod Verdict
pub mod KeyLines
pub mod KeysFound
pub mod Report
mod Tests
use vynil.Prelude.{
  ℕ, ◌≤◌, String, Bool, true, false, not, Option, none, some, List, [], ◌∷◌, ◌++◌, any, keep,
  length, if◌then◌else◌,
}
use vynil.Prelude.Dict.{Dict, lookup}
use vynil.Prelude.Text.{contains}

pub data LintLevel : Type 0 where
  info warn error : LintLevel

-- The derived order.
unfoldable pub level_ge : LintLevel → LintLevel → Bool
level_ge a info = true
level_ge info warn = false
level_ge a warn = true
level_ge error error = true
level_ge a error = false

unfoldable pub level_eq : LintLevel → LintLevel → Bool
level_eq info info = true
level_eq warn warn = true
level_eq error error = true
level_eq a b = false

pub record LintFinding : Type 0 where
  pub rule : String
  pub level : LintLevel
  pub file : String
  pub line : Option ℕ
  pub message : String

pub record FileRule : Type 0 where
  pub glob : String
  pub disable : List String
  pub override_ : Dict LintLevel

pub record LintConfig : Type 0 where
  pub disable : List String
  pub override_ : Dict LintLevel
  pub files : List FileRule

unfoldable pub or_level : Option LintLevel → LintLevel → LintLevel
or_level none level = level
or_level (some override_level) level = override_level

module _ (glob_matches : String → String → Bool) where
  -- The loop over the rules on files, which ends at the first that matches.
  unfoldable pub file_level : List FileRule → String → String → LintLevel → Option LintLevel
  unfolding contains or_level lookup
  file_level [] rule file level = some level
  file_level (file_rule ∷ files) rule file level =
      let rest = file_level files rule file level in
      if glob_matches file_rule.glob file
      then (if contains file_rule.disable rule
          then none
          else some (or_level (lookup rule file_rule.override_) level))
      else rest

  unfoldable pub resolve_level :
      LintConfig → String → String → LintLevel → List String → Option LintLevel
  unfolding file_level contains or_level lookup
  resolve_level config rule file default_level inline_disabled =
      if contains inline_disabled rule
      then none
      else if contains config.disable rule
      then none
      else file_level config.files rule file (or_level (lookup rule config.override_) default_level)

-- `LintResultCollector`.
pub record LintResultCollector : Type 0 where
  pub findings : List LintFinding

unfoldable pub add : LintResultCollector → LintFinding → LintResultCollector
add collector finding = record { findings = collector.findings ++ finding ∷ [] }

unfoldable pub extend : LintResultCollector → List LintFinding → LintResultCollector
extend collector findings = record { findings = collector.findings ++ findings }

unfoldable pub has_errors : LintResultCollector → Bool
unfolding level_eq
has_errors collector = any (λ f. level_eq f.level error) collector.findings

-- What the reports list, and what they count.
unfoldable pub filtered : LintResultCollector → LintLevel → List LintFinding
unfolding level_ge
filtered collector level_filter = keep (λ f. level_ge f.level level_filter) collector.findings

unfoldable pub level_count : LintResultCollector → LintLevel → ℕ
unfolding level_eq
level_count collector level = length (keep (λ f. level_eq f.level level) collector.findings)
