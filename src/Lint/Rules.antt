-- ===== src/Lint/Rules.antt =====
-- What counts as a rule in a comment (agent/src/linting/config.rs, `parse_rules`).
use vynil.Prelude.{
  ℕ, suc, String, Bool, true, Option, none, some, List, [], ◌∷◌, ◌++◌, ◌≡◌, refl, all, ◌==◌,
  Bool-cases, inl, inr, arith,
}
use vynil.Prelude.Search.{occurs, lines}
use vynil.Lint.Directives.{
  Line, disables, enables, plain, remove_all, entry, scan, read_line, read_lines,
  parse_inline_disables, rules_of, token_of, parse_rules, inline_rules, first_rules, rules_after,
  of_disable, of_enable, after, split_commas,
}

-- A rule has a category and a name.
abbrev pub are_rules : List String → Bool
are_rules = all (occurs "/")

all-append :
    (xs ys : List String) → are_rules xs ≡ true → are_rules ys ≡ true → are_rules (xs ++ ys) ≡ true
all-append [] ys hx hy = hy
all-append (x ∷ xs) ys hx hy = ground (arith, hx, hy, all-append xs ys)

all-remove_all :
    (rules active : List String)
    → are_rules active ≡ true
    → are_rules (remove_all rules active) ≡ true
unfolding remove_all
all-remove_all rules [] h = refl
all-remove_all rules (x ∷ active) h = ground (arith, h, all-remove_all rules active)

rules_of-are_rules : (parts : List String) → are_rules (rules_of parts) ≡ true
unfolding rules_of
rules_of-are_rules [] = refl
rules_of-are_rules (part ∷ parts) = elim (Bool-cases (token_of part == "")) [
  | inl none_here ↦ rw none_here (rules_of-are_rules parts)
  | inr token ↦ elim (Bool-cases (occurs "/" (token_of part))) [
    | inl rule ↦ rw (token, rule, rule) (rules_of-are_rules parts)
    | inr comment ↦ rw (token, comment) refl
  ]
]

parse_rules-are_rules : (s : String) → are_rules (parse_rules s) ≡ true
unfolding parse_rules
parse_rules-are_rules s = rules_of-are_rules (split_commas s)

first_rules-are_rules :
    (l : List (List String)) → all are_rules l ≡ true → are_rules (first_rules l) ≡ true
unfolding first_rules
first_rules-are_rules [] h = refl
first_rules-are_rules ([] ∷ l) h = first_rules-are_rules l h
first_rules-are_rules ((rule ∷ rules) ∷ l) h = ground (arith, h)

rules_after-are_rules : (marker line : String) → are_rules (rules_after marker line) ≡ true
unfolding rules_after
rules_after-are_rules marker line = rules_in (after marker line)
  where
    rules_in :
        (o : Option String) → are_rules (elim o [ none ↦ [] | some rest ↦ parse_rules rest ]) ≡ true
    rules_in none = refl
    rules_in (some rest) = parse_rules-are_rules rest

inline_rules-are_rules : (line : String) → are_rules (inline_rules line) ≡ true
unfolding inline_rules
inline_rules-are_rules line =
    first_rules-are_rules
      (rules_after "// vynil-lint-disable" line
        ∷ rules_after "{{!-- vynil-lint-disable" line
        ∷ rules_after "# vynil-lint-disable" line
        ∷ [])
      (ground (
        arith,
        rules_after-are_rules "// vynil-lint-disable" line,
        rules_after-are_rules "{{!-- vynil-lint-disable" line,
        rules_after-are_rules "# vynil-lint-disable" line,
      ))

rules_in_line : Line → List String
rules_in_line (disables rules) = rules
rules_in_line (enables rules) = rules
rules_in_line (plain rules) = rules

of_disable-are_rules :
    (line : String) (disable enable : Option String)
    → are_rules (rules_in_line (of_disable line disable enable)) ≡ true
unfolding of_disable of_enable rules_in_line
of_disable-are_rules line (some rest) enable = parse_rules-are_rules rest
of_disable-are_rules line none (some rest) = parse_rules-are_rules rest
of_disable-are_rules line none none = inline_rules-are_rules line

read_line-are_rules : (line : String) → are_rules (rules_in_line (read_line line)) ≡ true
unfolding read_line
read_line-are_rules line = of_disable-are_rules line _ _

entry-are_rules :
    (number : ℕ) (rules : List String) (entries : List (ℕ × List String))
    → are_rules rules ≡ true
    → all (λ e. are_rules e.1) entries ≡ true
    → all (λ e. are_rules e.1) (entry number rules ++ entries) ≡ true
unfolding entry
entry-are_rules number [] entries h later = later
entry-are_rules number (r ∷ rules) entries h later = ground (arith, h, later)

scan-are_rules :
    (number : ℕ) (active : List String) (l : List Line)
    → are_rules active ≡ true
    → all (λ line. are_rules (rules_in_line line)) l ≡ true
    → all (λ e. are_rules e.1) (scan number active l) ≡ true
unfolding scan rules_in_line
scan-are_rules number active [] h hl = refl
scan-are_rules number active (disables rules ∷ rest) h hl =
    scan-are_rules (suc number) (active ++ rules) rest
      (all-append active rules h (ground (arith, hl))) (ground (arith, hl))
scan-are_rules number active (enables rules ∷ rest) h hl =
    scan-are_rules (suc number) (remove_all rules active) rest (all-remove_all rules active h)
      (ground (arith, hl))
scan-are_rules number active (plain rules ∷ rest) h hl =
    entry-are_rules number (active ++ rules) _ (all-append active rules h (ground (arith, hl)))
      (scan-are_rules (suc number) active rest h (ground (arith, hl)))

read_lines-are_rules :
    (l : List String) → all (λ line. are_rules (rules_in_line line)) (read_lines l) ≡ true
unfolding read_lines
read_lines-are_rules [] = refl
read_lines-are_rules (line ∷ l) = ground (arith, read_line-are_rules line, read_lines-are_rules l)

-- For any source, each text that its comments turn off on any line has a slash.
parse_inline_disables-are_rules :
    (source : String) → all (λ e. are_rules e.1) (parse_inline_disables source) ≡ true
unfolding parse_inline_disables
parse_inline_disables-are_rules source =
    scan-are_rules 1 [] (read_lines (lines source)) refl (read_lines-are_rules (lines source))
