-- ===== src/Lint/Tests.antt =====
-- Runs of the linter's configuration.
use vynil.Prelude.{
  inl, inr, arith, ℕ, Option, any, String, Bool, true, false, none, some, List, [], ◌∷◌, ◌≡◌, refl,
  all, ◌==◌, ◌||◌,
}
use vynil.Prelude.Dict.{lookup}
use vynil.Prelude.Json.{Json, string, object, end, field}
use vynil.Prelude.Search.{lines}
use vynil.Prelude.Text.{concat}
use vynil.Lint.{
  info, warn, error, LintConfig, LintFinding, LintResultCollector, has_errors, resolve_level,
}
use vynil.Lint.Directives.{read_lines, parse_inline_disables}
use vynil.Lint.Levels.{expected_level, resolve_level-expected_level}
use vynil.Lint.Blocks.{numbers_of, off_numbers, parse_inline_disables-off_numbers}
use vynil.Lint.Lines.{find_image_tag_line, is_prerelease}
use vynil.Lint.Keys.{
  is_skipped, indent_of, key_of, find_section_key_line_numbers, find_option_line_numbers,
}
use vynil.Lint.KeysFound.{find_section_key_line_numbers-found}
use vynil.Lint.KeyLines.{
  IsHeader, IsInside, IsKeyLine, first_indent, find_section_key_line_numbers-IsKeyLine,
}
use vynil.Lint.Manifest.{VynilPackageSource, or_none, check_manifest_fields, is_unexpected_dir}
use vynil.Lint.Report.{to_text, junit_suites, prefix_files, from_str}
use vynil.Lint.Verdict.{misses_field, is_bad_option, check_manifest_fields-has_errors}
use vynil.Package.{tenant, system}

abbrev equal_globs : String → String → Bool
equal_globs glob file = glob == file

abbrev some_config : LintConfig
some_config = record {
  disable = [];
  override_ = [];
  files =
      record { glob = "a.rhai"; disable = []; override_ = ("rhai/x", error) ∷ [] }
      ∷ record { glob = "a.rhai"; disable = "rhai/x" ∷ []; override_ = [] }
      ∷ [];
}

resolve_level-expected_level_example :
    resolve_level equal_globs some_config "rhai/x" "a.rhai" warn []
    ≡ expected_level equal_globs some_config "rhai/x" "a.rhai" warn []
resolve_level-expected_level_example =
    resolve_level-expected_level equal_globs some_config "rhai/x" "a.rhai" warn []

abbrev some_source : String
some_source =
    "let a;\n// vynil-lint-disable rhai/x, why\nlet b; // vynil-lint-disable rhai/y\n# vynil-lint-enable rhai/x\nlet c;"

parse_inline_disables-off_numbers_example :
    numbers_of "rhai/x" (parse_inline_disables some_source)
    ≡ off_numbers "rhai/x" 1 false (read_lines (lines some_source))
parse_inline_disables-off_numbers_example = parse_inline_disables-off_numbers "rhai/x" some_source

first_match : resolve_level equal_globs some_config "rhai/x" "a.rhai" warn [] ≡ some error
unfolding resolve_level
first_match = refl

turned_off_lines : parse_inline_disables some_source ≡ (3, "rhai/x" ∷ "rhai/y" ∷ []) ∷ []
unfolding parse_inline_disables vynil.Prelude.Text.contains
turned_off_lines = refl

-- A manifest with a comment and an image, and an option that is no object.
abbrev some_manifest : String
some_manifest =
    "metadata:\n  name: web\noptions:\n  # shown first\n  host:\n    type: string\n  port: 80\nimages:\n  app:\n    tag: 1.0-rc1"

abbrev no_schema_error : Json → Option String
no_schema_error val = none

abbrev some_package : VynilPackageSource
some_package = record {
  name = "web";
  category = "apps";
  description = "a site";
  api_version = "vinyl.solidite.fr/v1beta1";
  kind = "Package";
  app_version = none;
  images = some (("app", some "1.0-rc1") ∷ []);
  options =
      some (("host", object (field "type" (string "string") end)) ∷ ("port", string "80") ∷ []);
}

abbrev no_findings : LintResultCollector
no_findings = record { findings = [] }

check_manifest_fields-has_errors_example :
    has_errors (check_manifest_fields no_schema_error some_package (some some_manifest) no_findings)
    ≡ (has_errors no_findings
        || misses_field some_package
        || any (λ o. is_bad_option no_schema_error o.1) (or_none some_package.options))
check_manifest_fields-has_errors_example =
    check_manifest_fields-has_errors no_schema_error some_package (some some_manifest) no_findings

find_section_key_line_numbers-IsKeyLine_example : IsKeyLine (lines some_manifest) "options" "port" 7
unfolding find_section_key_line_numbers lookup
find_section_key_line_numbers-IsKeyLine_example =
    find_section_key_line_numbers-IsKeyLine some_manifest "options" "port" 7 refl

options_numbered : find_option_line_numbers (some some_manifest) ≡ ("host", 5) ∷ ("port", 7) ∷ []
unfolding find_option_line_numbers
options_numbered = refl

tag_found : find_image_tag_line (some some_manifest) "app" ≡ some 10
unfolding find_image_tag_line
tag_found = refl

marker_found : (is_prerelease "2.0-RC1" ≡ true) × (is_prerelease "2.0" ≡ false)
unfolding is_prerelease
marker_found = (refl, refl)

one_error :
    has_errors (check_manifest_fields no_schema_error some_package (some some_manifest) no_findings)
    ≡ true
unfolding check_manifest_fields has_errors
one_error = refl

dirs_reported :
    (is_unexpected_dir tenant "systems" ≡ true)
    × (is_unexpected_dir system "systems" ≡ false)
    × (is_unexpected_dir system "docs" ≡ false)
unfolding is_unexpected_dir
dirs_reported = (refl, refl, refl)

abbrev some_finding : LintFinding
some_finding = record {
  rule = "hbs/unused";
  level = warn;
  file = "a.hbs";
  line = some 3;
  message = "unused";
}

abbrev some_findings : LintResultCollector
some_findings = record {
  findings = some_finding ∷ record some_finding { rule = "hbs/x"; level = error; line = none } ∷ [];
}

report_text :
    to_text some_findings warn
    ≡ "[WARN] hbs/unused  a.hbs:3\n        unused\n\n[ERROR] hbs/x  a.hbs\n        unused\n\nRésultat : 1 erreur, 1 warning"
unfolding to_text
report_text = refl

one_suite : junit_suites some_findings ≡ ("hbs", some_findings.findings) ∷ []
unfolding junit_suites
one_suite = refl

files_prefixed :
    prefix_files (record { findings = some_finding ∷ [] }) "/srv/web"
    ≡ record { findings = record some_finding { file = "/srv/web/a.hbs" } ∷ [] }
unfolding prefix_files
files_prefixed = refl

levels_read :
    (from_str "Warn" ≡ some warn) × (from_str "INFO" ≡ some info) × (from_str "all" ≡ none)
unfolding from_str
levels_read = (refl, refl, refl)

-- A manifest that begins with its options.
abbrev options_only : String
options_only = "options:\n  # of the site\n  host: a\n    # deep\n  port: 80\nkind: Package"

port_line : IsKeyLine (lines options_only) "options" "port" 5
unfolding lines IsHeader IsInside is_skipped indent_of key_of first_indent concat
port_line = record {
  earlier = [];
  header = "options:";
  between = "  # of the site" ∷ "  host: a" ∷ "    # deep" ∷ [];
  line = "  port: 80";
  left = "kind: Package" ∷ [];
  is_split = refl;
  is_number = refl;
  opens = inl refl;
  header_written = refl;
  between_inside = (inl refl, (inr (omega arith), (inl refl, tt)));
  line_inside = omega arith;
  is_written = refl;
  is_direct = refl;
  is_key = refl;
}

find_section_key_line_numbers-found_example :
    (n : ℕ) × (lookup "port" (find_section_key_line_numbers (some options_only) "options") ≡ some n)
unfolding port_line
find_section_key_line_numbers-found_example =
    find_section_key_line_numbers-found options_only "options" "port" 5 port_line tt refl
