-- ===== src/Lint/Report.antt =====
-- agent/src/linting/mod.rs: the names of the levels, and the reports of the collector. A text of the
-- JUnit report is made by a third-party crate; its suites are modelled.
use vynil.Prelude.{
  ℕ, code, String, Bool, true, false, Option, none, some, List, [], ◌∷◌, ◌++◌, map, nat_eq, leb,
  ◌&&◌, ◌||◌, ◌+◌, ◌==◌, if◌then◌else◌,
}
use vynil.Prelude.Decimal.{show}
use vynil.Prelude.Dict.{Dict, lookup, insert}
use vynil.Prelude.Search.{begins}
use vynil.Prelude.Text.{concat}
use vynil.Lint.{
  LintLevel, info, warn, error, LintFinding, LintResultCollector, filtered, level_count,
}

-- `Display`, which takes no width into account.
unfoldable pub level_text : LintLevel → String
level_text error = "ERROR"
level_text warn = "WARN"
level_text info = "INFO"

-- The names have no letter that is the lower case of another than an ASCII one.
ascii_lower : String → List ℕ
ascii_lower String.[] = []
ascii_lower (String.◌∷◌ c s) =
    (if leb b'A' (code c) && leb (code c) b'Z' then code c + 32 else code c) ∷ ascii_lower s

codes_eq : List ℕ → List ℕ → Bool
codes_eq [] [] = true
codes_eq (c ∷ s) (d ∷ t) = nat_eq c d && codes_eq s t
codes_eq s t = false

is_level : String → String → Bool
unfolding ascii_lower codes_eq
is_level level s = codes_eq (ascii_lower s) (ascii_lower level)

-- `FromStr`; `none` is the error that names the text.
unfoldable pub from_str : String → Option LintLevel
unfolding is_level
from_str s =
    if is_level "error" s
    then some error
    else if is_level "warn" s
    then some warn
    else if is_level "info" s
    then some info
    else none

location : String → Option ℕ → String
unfolding concat show
location file none = file
location file (some l) = concat (file ∷ ":" ∷ show l ∷ [])

-- One finding of the report.
unfoldable pub finding_text : LintFinding → String
unfolding concat level_text location
finding_text finding = concat (
    "["
    ∷ level_text finding.level
    ∷ "] "
    ∷ finding.rule
    ∷ "  "
    ∷ location finding.file finding.line
    ∷ "\n        "
    ∷ finding.message
    ∷ "\n\n"
    ∷ [])

summary_text : ℕ → ℕ → String
unfolding concat show
summary_text error_count warn_count = concat (
    "Résultat : "
    ∷ show error_count
    ∷ " erreur"
    ∷ (if nat_eq error_count 1 then "" else "s")
    ∷ ", "
    ∷ show warn_count
    ∷ " warning"
    ∷ [])

unfoldable pub to_text : LintResultCollector → LintLevel → String
unfolding concat finding_text summary_text filtered level_count
to_text collector level_filter = concat (
    map finding_text (filtered collector level_filter)
    ++ summary_text (level_count collector error) (level_count collector warn) ∷ [])

-- The part of a rule before its first slash.
unfoldable pub category_of : String → String
category_of String.[] = String.[]
category_of (String.◌∷◌ c s) =
    let rest = category_of s in if nat_eq (code c) b'/' then "" else String.◌∷◌ c rest

or_empty : Option (List LintFinding) → List LintFinding
or_empty none = []
or_empty (some findings) = findings

add_findings : List LintFinding → Dict (List LintFinding) → Dict (List LintFinding)
unfolding category_of or_empty lookup insert
add_findings [] suites = suites
add_findings (finding ∷ findings) suites =
    let category = category_of finding.rule in
    add_findings findings
      (insert category (or_empty (lookup category suites) ++ finding ∷ []) suites)

-- The suites that `to_junit` writes, in no order; each holds its findings in theirs.
unfoldable pub junit_suites : LintResultCollector → Dict (List LintFinding)
unfolding add_findings
junit_suites collector = add_findings collector.findings []

ends_in_slash : String → Bool
ends_in_slash String.[] = false
ends_in_slash (String.◌∷◌ c String.[]) = nat_eq (code c) b'/'
ends_in_slash (String.◌∷◌ c (String.◌∷◌ d s)) = ends_in_slash (String.◌∷◌ d s)

-- `Path::join` of a relative path.
unfoldable pub join_path : String → String → String
unfolding concat ends_in_slash
join_path base file =
    if base == "" || ends_in_slash base
    then concat (base ∷ file ∷ [])
    else concat (base ∷ "/" ∷ file ∷ [])

prefix_file : String → LintFinding → LintFinding
unfolding begins join_path
prefix_file base finding =
    if begins "/" finding.file
    then finding
    else record finding { file = join_path base finding.file }

unfoldable pub prefix_files : LintResultCollector → String → LintResultCollector
unfolding prefix_file
prefix_files collector base = record { findings = map (prefix_file base) collector.findings }
