-- ===== src/Lint/Levels.antt =====
-- The level of a rule on a file, against its order of priorities (agent/src/linting/config.rs).
use vynil.Prelude.{
  String, Bool, false, Option, none, some, List, [], ◌∷◌, ◌≡◌, refl, ◌||◌, find, Bool-cases, inl,
  inr, arith, if◌then◌else◌,
}
use vynil.Prelude.Dict.{lookup}
use vynil.Prelude.Text.{contains}
use vynil.Lint.{LintLevel, FileRule, LintConfig, or_level, file_level, resolve_level}

turned_off : String → Option FileRule → Bool
unfolding contains
turned_off rule none = false
turned_off rule (some file_rule) = contains file_rule.disable rule

override_level : String → Option FileRule → LintLevel → LintLevel
unfolding or_level lookup
override_level rule none level = level
override_level rule (some file_rule) level = or_level (lookup rule file_rule.override_) level

module _ (glob_matches : String → String → Bool) where
  -- The first rule whose glob matches the file.
  unfoldable pub rule_on : List FileRule → String → Option FileRule
  unfolding find
  rule_on files file = find (λ file_rule. glob_matches file_rule.glob file) files

  -- Off by a comment, by the package, or for the file; else the override for the file, then that of
  -- the package, then the default.
  unfoldable pub expected_level :
      LintConfig → String → String → LintLevel → List String → Option LintLevel
  unfolding rule_on turned_off override_level or_level lookup contains
  expected_level config rule file default_level inline_disabled =
      let on = rule_on config.files file in
      if contains inline_disabled rule || contains config.disable rule || turned_off rule on
      then none
      else some (override_level rule on (or_level (lookup rule config.override_) default_level))

  file_level-rule_on :
      (files : List FileRule) (rule file : String) (level : LintLevel)
      → file_level glob_matches files rule file level ≡ (
          if turned_off rule (rule_on files file)
          then none
          else some (override_level rule (rule_on files file) level))
  unfolding file_level rule_on turned_off override_level find
  file_level-rule_on [] rule file level = refl
  file_level-rule_on (file_rule ∷ files) rule file level =
      elim (Bool-cases (glob_matches file_rule.glob file)) [
        | inl here ↦ rw here refl
        | inr other ↦ rw other (file_level-rule_on files rule file level)
      ]

  -- The level that the loop resolves is none where the rule is off by a comment, by the package, or by
  -- the first rule on files whose glob matches; else it is the override of that rule on files, or
  -- that of the package, or the default.
  pub resolve_level-expected_level :
      (config : LintConfig) (rule file : String) (default_level : LintLevel)
      (inline_disabled : List String)
      → resolve_level glob_matches config rule file default_level inline_disabled
        ≡ expected_level config rule file default_level inline_disabled
  unfolding resolve_level expected_level
  resolve_level-expected_level config rule file default_level inline_disabled = ground (
    arith,
    file_level-rule_on config.files rule file
        (or_level (lookup rule config.override_) default_level),
  )
