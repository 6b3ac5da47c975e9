-- ===== src/Lint/Blocks.antt =====
-- Where a rule is turned off, followed for one rule at a time (agent/src/linting/config.rs,
-- `parse_inline_disables`).
use vynil.Prelude.{
  ℕ, suc, String, Bool, false, not, List, [], ◌∷◌, ◌++◌, ◌≡◌, refl, ◌&&◌, ◌||◌, ◌==◌, eq_iff, ◌∙◌,
  ap, Bool-cases, inl, inr, arith, if◌then◌else◌,
}
use vynil.Prelude.Text.{contains}
use vynil.Prelude.Search.{lines}
use vynil.Lint.Directives.{
  Line, disables, enables, plain, remove_all, entry, scan, read_lines, parse_inline_disables,
}

-- The numbers of the lines on which a rule is turned off.
unfoldable pub numbers_of : String → List (ℕ × List String) → List ℕ
unfolding contains
numbers_of rule [] = []
numbers_of rule ((number, rules) ∷ entries) =
    let rest = numbers_of rule entries in if contains rules rule then number ∷ rest else rest

-- One rule alone: a block turns it off or on, and a comment behind code turns it off on its line.
unfoldable pub off_numbers : String → ℕ → Bool → List Line → List ℕ
unfolding contains
off_numbers rule number off [] = []
off_numbers rule number off (disables rules ∷ rest) =
    off_numbers rule (suc number) (off || contains rules rule) rest
off_numbers rule number off (enables rules ∷ rest) =
    off_numbers rule (suc number) (off && not (contains rules rule)) rest
off_numbers rule number off (plain rules ∷ rest) =
    let later = off_numbers rule (suc number) off rest in
    if off || contains rules rule then number ∷ later else later

contains-append :
    (xs ys : List String) (s : String) → contains (xs ++ ys) s ≡ (contains xs s || contains ys s)
unfolding contains
contains-append [] ys s = refl
contains-append (x ∷ xs) ys s = ground (arith, contains-append xs ys s)

contains-remove_all :
    (rules active : List String) (s : String)
    → contains (remove_all rules active) s ≡ (contains active s && not (contains rules s))
unfolding contains remove_all
contains-remove_all rules [] s = refl
contains-remove_all rules (x ∷ active) s = elim (Bool-cases (x == s)) [
  | inl same ↦
      let moved = ap (contains rules) ((eq_iff x s).0 same) in
      ground (arith, same, moved, contains-remove_all rules active s)
  | inr other ↦ ground (arith, other, contains-remove_all rules active s)
]

numbers_of-entry :
    (rule : String) (number : ℕ) (rules : List String) (entries : List (ℕ × List String))
    → numbers_of rule (entry number rules ++ entries)
      ≡ (if contains rules rule then number ∷ numbers_of rule entries else numbers_of rule entries)
unfolding numbers_of entry contains
numbers_of-entry rule number [] entries = refl
numbers_of-entry rule number (r ∷ rules) entries = refl

numbers_of-scan :
    (rule : String) (number : ℕ) (active : List String) (l : List Line)
    → numbers_of rule (scan number active l) ≡ off_numbers rule number (contains active rule) l
unfolding scan off_numbers numbers_of
numbers_of-scan rule number active [] = refl
numbers_of-scan rule number active (disables rules ∷ rest) =
    numbers_of-scan rule (suc number) (active ++ rules) rest
    ∙ ap (λ off. off_numbers rule (suc number) off rest) (contains-append active rules rule)
numbers_of-scan rule number active (enables rules ∷ rest) =
    numbers_of-scan rule (suc number) (remove_all rules active) rest
    ∙ ap (λ off. off_numbers rule (suc number) off rest) (contains-remove_all rules active rule)
numbers_of-scan rule number active (plain rules ∷ rest) =
    numbers_of-entry rule number (active ++ rules) (scan (suc number) active rest)
    ∙ rw (contains-append active rules rule, numbers_of-scan rule (suc number) active rest) refl

-- For any rule, the lines on which the set of turned off rules has it are the lines on which the rule
-- alone is off: it is turned off and on by the block comments that name it, which are in no line of
-- code, and off on a line with a comment that names it.
pub parse_inline_disables-off_numbers :
    (rule source : String)
    → numbers_of rule (parse_inline_disables source)
      ≡ off_numbers rule 1 false (read_lines (lines source))
unfolding parse_inline_disables contains
parse_inline_disables-off_numbers rule source =
    numbers_of-scan rule 1 [] (read_lines (lines source))
