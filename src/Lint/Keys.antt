-- ===== src/Lint/Keys.antt =====
-- agent/src/linting/mod.rs: the line numbers of the keys under a section of a manifest.
use Prim.Native.String.{len}
use vynil.Prelude.{
  ℕ, suc, ◌-◌, code, String, Bool, not, Option, none, some, List, [], ◌∷◌, ◌&&◌, ◌||◌, leb, nat_eq,
  ◌==◌, if◌then◌else◌,
}
use vynil.Prelude.Dict.{Dict, insert}
use vynil.Prelude.Search.{begins, lines}
use vynil.Prelude.Text.{concat}
use vynil.Lint.Directives.{trim, trim_start}

-- Blank lines and comments count nowhere.
unfoldable pub is_skipped : String → Bool
unfolding begins
is_skipped trimmed = trimmed == "" || begins "#" trimmed

unfoldable pub indent_of : String → ℕ
unfolding trim_start
indent_of line = len line - len (trim_start line)

-- The part before the first colon.
up_to_colon : String → String
up_to_colon String.[] = String.[]
up_to_colon (String.◌∷◌ c s) =
    let rest = up_to_colon s in if nat_eq (code c) b':' then "" else String.◌∷◌ c rest

unfoldable pub key_of : String → String
unfolding up_to_colon trim trim_start
key_of line = trim (up_to_colon (trim_start line))

unfoldable pub is_header : String → String → Bool
unfolding begins concat
is_header section trimmed =
    trimmed == concat (section ∷ ":" ∷ []) || begins (concat (section ∷ ": " ∷ [])) trimmed

-- Before the section, or inside, with its indent and that of its first key.
pub data Place : Type 0 where
  before : Place
  inside : (section : ℕ) (keys : Option ℕ) → Place

unfoldable pub or_own : Option ℕ → ℕ → ℕ
or_own none indent = indent
or_own (some keys) indent = keys

-- An empty key is not kept.
unfoldable pub insert_key : String → ℕ → Dict ℕ → Dict ℕ
unfolding insert
insert_key key number found = if key == "" then found else insert key number found

unfoldable pub section_keys : String → Place → ℕ → List String → Dict ℕ → Dict ℕ
unfolding is_skipped indent_of is_header or_own insert_key key_of trim_start
section_keys section place number [] found = found
section_keys section before number (line ∷ rest) found =
    section_keys section
      (if not (is_skipped (trim_start line)) && is_header section (trim_start line)
        then inside (indent_of line) none
        else before)
      (suc number) rest found
section_keys section (inside depth keys) number (line ∷ rest) found =
    let own = or_own keys (indent_of line) in
    let skipped = section_keys section (inside depth keys) (suc number) rest found in
    let later =
      section_keys section (inside depth (some own)) (suc number) rest
        (if nat_eq (indent_of line) own then insert_key (key_of line) number found else found) in
    if is_skipped (trim_start line)
    then skipped
    else if leb (indent_of line) depth
    then found
    else later

unfoldable pub find_section_key_line_numbers : Option String → String → Dict ℕ
unfolding section_keys lines
find_section_key_line_numbers none section = []
find_section_key_line_numbers (some content) section =
    section_keys section before 1 (lines content) []

unfoldable pub find_option_line_numbers : Option String → Dict ℕ
unfolding find_section_key_line_numbers
find_option_line_numbers content = find_section_key_line_numbers content "options"
