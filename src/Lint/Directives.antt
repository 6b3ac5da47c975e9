-- ===== src/Lint/Directives.antt =====
-- agent/src/linting/config.rs: the comments of a source that turn rules off and on.
use vynil.Prelude.{
  ℕ, suc, Char, code, String, Bool, true, false, not, Option, none, some, List, [], ◌∷◌, ◌++◌, ◌&&◌,
  ◌||◌, keep, is_empty, leb, nat_eq, ◌==◌, if◌then◌else◌,
}
use vynil.Prelude.Search.{occurs, lines}

-- `char::is_whitespace`.
is_whitespace : ℕ → Bool
is_whitespace c =
    (leb 9 c && leb c 13)
    || nat_eq c 32
    || nat_eq c 133
    || nat_eq c 160
    || nat_eq c 5760
    || (leb 8192 c && leb c 8202)
    || nat_eq c 8232
    || nat_eq c 8233
    || nat_eq c 8239
    || nat_eq c 8287
    || nat_eq c 12288

unfoldable pub trim_start : String → String
unfolding is_whitespace
trim_start String.[] = String.[]
trim_start (String.◌∷◌ c s) =
    let rest = trim_start s in if is_whitespace (code c) then rest else String.◌∷◌ c s

trim_end : String → String
unfolding is_whitespace
trim_end String.[] = String.[]
trim_end (String.◌∷◌ c s) =
    let rest = trim_end s in if is_whitespace (code c) && rest == "" then "" else String.◌∷◌ c rest

unfoldable pub trim : String → String
unfolding trim_start trim_end
trim s = trim_end (trim_start s)

-- The first text up to white space.
up_to_white : String → String
unfolding is_whitespace
up_to_white String.[] = String.[]
up_to_white (String.◌∷◌ c s) =
    let rest = up_to_white s in if is_whitespace (code c) then "" else String.◌∷◌ c rest

-- `split_whitespace().next()`, or an empty text.
first_token : String → String
unfolding up_to_white trim_start
first_token s = up_to_white (trim_start s)

start_part : Char → List String → List String
start_part c [] = String.◌∷◌ c String.[] ∷ []
start_part c (part ∷ parts) = String.◌∷◌ c part ∷ parts

-- `split(',')`.
unfoldable pub split_commas : String → List String
unfolding start_part
split_commas String.[] = "" ∷ []
split_commas (String.◌∷◌ c s) =
    let rest = split_commas s in if nat_eq (code c) b',' then "" ∷ rest else start_part c rest

-- Whether a text is the rest of a copy of a pattern, and more copies of it.
copies : String → String → String → Bool
copies p String.[] String.[] = true
copies p (String.◌∷◌ d q) String.[] = false
copies p (String.◌∷◌ d q) (String.◌∷◌ c s) = nat_eq (code d) (code c) && copies p q s
copies String.[] String.[] (String.◌∷◌ c s) = false
copies (String.◌∷◌ d p) String.[] (String.◌∷◌ c s) =
    nat_eq (code d) (code c) && copies (String.◌∷◌ d p) p s

-- `trim_end_matches`: cut where nothing but copies of the pattern follow.
trim_end_matches : String → String → String
unfolding copies
trim_end_matches p String.[] = String.[]
trim_end_matches p (String.◌∷◌ c s) =
    let rest = trim_end_matches p s in
    if copies p "" (String.◌∷◌ c s) then "" else String.◌∷◌ c rest

unfoldable pub token_of : String → String
unfolding first_token trim_end_matches trim
token_of part = trim (trim_end_matches "*/" (trim_end_matches "--}}" (first_token part)))

-- The parts up to the first that is no rule.
unfoldable pub rules_of : List String → List String
unfolding token_of occurs
rules_of [] = []
rules_of (part ∷ parts) =
    let rest = rules_of parts in
    let token = token_of part in
    if token == "" then rest else if occurs "/" token then token ∷ rest else []

unfoldable pub parse_rules : String → List String
unfolding rules_of split_commas
parse_rules s = rules_of (split_commas s)

-- What follows a prefix, and what follows the first occurrence.
strip_prefix : String → String → Option String
strip_prefix String.[] s = some s
strip_prefix (String.◌∷◌ c p) String.[] = none
strip_prefix (String.◌∷◌ c p) (String.◌∷◌ d s) =
    let rest = strip_prefix p s in if nat_eq (code c) (code d) then rest else none

or_else : Option String → Option String → Option String
or_else none second = second
or_else (some s) second = some s

unfoldable pub after : String → String → Option String
unfolding strip_prefix or_else
after p String.[] = strip_prefix p String.[]
after p (String.◌∷◌ c s) = or_else (strip_prefix p (String.◌∷◌ c s)) (after p s)

unfoldable pub extract_block_disable : String → Option String
unfolding strip_prefix or_else
extract_block_disable trimmed = or_else (strip_prefix "// vynil-lint-disable" trimmed) (
    or_else (strip_prefix "{{!-- vynil-lint-disable" trimmed)
      (strip_prefix "# vynil-lint-disable" trimmed))

unfoldable pub extract_block_enable : String → Option String
unfolding strip_prefix or_else
extract_block_enable trimmed = or_else (strip_prefix "// vynil-lint-enable" trimmed) (
    or_else (strip_prefix "{{!-- vynil-lint-enable" trimmed)
      (strip_prefix "# vynil-lint-enable" trimmed))

unfoldable pub rules_after : String → String → List String
unfolding after parse_rules
rules_after marker line = elim (after marker line) [ none ↦ [] | some rest ↦ parse_rules rest ]

unfoldable pub first_rules : List (List String) → List String
first_rules [] = []
first_rules ([] ∷ rest) = first_rules rest
first_rules ((rule ∷ rules) ∷ rest) = rule ∷ rules

-- The rules of a comment behind code: of the first of the three forms that has any.
unfoldable pub inline_rules : String → List String
unfolding rules_after first_rules
inline_rules line = first_rules (
    rules_after "// vynil-lint-disable" line
    ∷ rules_after "{{!-- vynil-lint-disable" line
    ∷ rules_after "# vynil-lint-disable" line
    ∷ [])

-- What a line is.
pub data Line : Type 0 where
  disables enables : List String → Line
  plain : List String → Line

unfoldable pub of_enable : String → Option String → Line
unfolding inline_rules parse_rules
of_enable line (some rest) = enables (parse_rules rest)
of_enable line none = plain (inline_rules line)

unfoldable pub of_disable : String → Option String → Option String → Line
unfolding of_enable parse_rules
of_disable line (some rest) enable = disables (parse_rules rest)
of_disable line none enable = of_enable line enable

unfoldable pub read_line : String → Line
unfolding of_disable trim extract_block_disable extract_block_enable
read_line line =
    of_disable line (extract_block_disable (trim line)) (extract_block_enable (trim line))

-- `HashSet::remove`, for each rule of a list.
unfoldable pub remove_all : List String → List String → List String
remove_all rules active = keep (λ rule. not (vynil.Prelude.Text.contains rules rule)) active

-- A line gets an entry where it has any rule.
unfoldable pub entry : ℕ → List String → List (ℕ × List String)
entry number rules = if is_empty rules then [] else (number, rules) ∷ []

-- The loop over the lines, with the rules that blocks have turned off.
unfoldable pub scan : ℕ → List String → List Line → List (ℕ × List String)
unfolding entry remove_all
scan number active [] = []
scan number active (disables rules ∷ rest) = scan (suc number) (active ++ rules) rest
scan number active (enables rules ∷ rest) = scan (suc number) (remove_all rules active) rest
scan number active (plain rules ∷ rest) =
    entry number (active ++ rules) ++ scan (suc number) active rest

unfoldable pub read_lines : List String → List Line
unfolding read_line
read_lines [] = []
read_lines (line ∷ rest) = read_line line ∷ read_lines rest

unfoldable pub parse_inline_disables : String → List (ℕ × List String)
unfolding scan read_lines lines
parse_inline_disables source = scan 1 [] (read_lines (lines source))
