-- ===== src/Lint/KeysFound.antt =====
-- Which keys of a section are found (agent/src/linting/mod.rs).
use vynil.Prelude.{
  ℕ, suc, ◌<◌, String, Bool, true, false, Option, none, some, List, [], ◌∷◌, ◌++◌, ◌&&◌, not, ◌≡◌,
  refl, sym, subst, ◌==◌, eq_iff, eq_refl, if◌then◌else◌, inl, inr, Bool-cases, arith, All, leb,
  nat_eq,
}
use mathlib.Core.Option.{some-injective}
use vynil.Prelude.Dict.{Dict, lookup, insert, lookup-insert}
use vynil.Prelude.Search.{begins, lines}
use vynil.Prelude.Text.{concat}
use vynil.Lint.Directives.{trim_start}
use vynil.Lint.Keys.{
  is_skipped, indent_of, key_of, is_header, or_own, before, inside, insert_key, section_keys,
  find_section_key_line_numbers,
}
use vynil.Lint.KeyLines.{IsHeader, IsInside, IsKeyLine, first_indent, if-cases}

contrary : (b : Bool) → b ≡ true → b ≡ false → ⊥
contrary b holds fails = ground (arith, holds, fails)

-- A test that holds, and one that fails.
if-taken :
    {A : Type 0} (P : A → Type 0) (b : Bool) (x y : A) → b ≡ true → P x → P (if b then x else y)
if-taken P b x y holds p = if-cases P b x y (λ h. p) (λ fails. absurd (contrary b holds fails))

if-left :
    {A : Type 0} (P : A → Type 0) (b : Bool) (x y : A) → b ≡ false → P y → P (if b then x else y)
if-left P b x y fails p = if-cases P b x y (λ holds. absurd (contrary b holds fails)) (λ h. p)

not-IsHeader :
    (section line : String) → ¬ IsHeader section line → is_header section (trim_start line) ≡ false
unfolding IsHeader is_header
not-IsHeader section line other =
    elim (Bool-cases (trim_start line == concat (section ∷ ":" ∷ []))) [
      | inl alone ↦
          absurd (other (inl ((eq_iff (trim_start line) (concat (section ∷ ":" ∷ []))).0 alone)))
      | inr longer ↦ elim (Bool-cases (begins (concat (section ∷ ": " ∷ [])) (trim_start line))) [
        | inl spaced ↦ absurd (other (inr spaced))
        | inr neither ↦ ground (arith, longer, neither)
      ]
    ]

IsHeader-is_header :
    (section line : String) → IsHeader section line → is_header section (trim_start line) ≡ true
unfolding IsHeader is_header
IsHeader-is_header section line (inl alone) =
    ground (arith, (eq_iff (trim_start line) (concat (section ∷ ":" ∷ []))).1 alone)
IsHeader-is_header section line (inr spaced) = ground (arith, spaced)

module _ (section key : String) where
  -- The key has a number.
  IsFound : Dict ℕ → Type 0
  IsFound found = (n : ℕ) × (lookup key found ≡ some n)

  insert-IsFound :
      (asked : String) (number : ℕ) (found : Dict ℕ)
      → IsFound found
      → IsFound (insert asked number found)
  unfolding IsFound
  insert-IsFound asked number found (n, there) = elim (Bool-cases (asked == key)) [
    | inl same ↦ (number, rw (lookup-insert asked key number found, same) refl)
    | inr other ↦ (n, rw (lookup-insert asked key number found, other) there)
  ]

  -- What was found stays.
  inside-IsFound :
      (depth : ℕ) (keys : Option ℕ) (number : ℕ) (left : List String) (found : Dict ℕ)
      → IsFound found
      → IsFound (section_keys section (inside depth keys) number left found)
  unfolding section_keys insert_key
  inside-IsFound depth keys number [] found there = there
  inside-IsFound depth keys number (line ∷ left) found there =
      if-cases IsFound (is_skipped (trim_start line)) _ _
        (λ skip. inside-IsFound depth keys (suc number) left found there)
        (λ written.
          if-cases IsFound (leb (indent_of line) depth) found _ (λ over. there)
            (λ deeper.
              inside-IsFound depth (some (or_own keys (indent_of line))) (suc number) left _ (
                if-cases IsFound (nat_eq (indent_of line) (or_own keys (indent_of line))) _ found
                  (λ same.
                    if-cases IsFound (key_of line == "") found _ (λ empty. there)
                      (λ given. insert-IsFound (key_of line) number found there))
                  (λ other. there))))

  -- The indent that the keys have, once the line is reached.
  IsDirect : Option ℕ → List String → String → Type 0
  IsDirect none between line = first_indent (between ++ line ∷ []) ≡ some (indent_of line)
  IsDirect (some own) between line = own ≡ indent_of line

  IsDirect-skipped :
      (keys : Option ℕ) (between : List String) (skipped line : String)
      → is_skipped (trim_start skipped) ≡ true
      → IsDirect keys (skipped ∷ between) line
      → IsDirect keys between line
  unfolding IsDirect first_indent
  IsDirect-skipped none between skipped line skip direct = rw skip at direct
  IsDirect-skipped (some own) between skipped line skip direct = direct

  IsDirect-written :
      (keys : Option ℕ) (between : List String) (written line : String)
      → is_skipped (trim_start written) ≡ false
      → IsDirect keys (written ∷ between) line
      → IsDirect (some (or_own keys (indent_of written))) between line
  unfolding IsDirect first_indent or_own
  IsDirect-written none between written line own direct = some-injective _ _ (rw own at direct)
  IsDirect-written (some k) between written line own direct = direct

  module _ (line : String) (left : List String) (header : String)
      (line_inside : indent_of header < indent_of line)
      (is_written : is_skipped (trim_start line) ≡ false) (is_key : key_of line ≡ key)
      (given : (key == "") ≡ false) where
    deeper : leb (indent_of line) (indent_of header) ≡ false
    deeper = ground (arith, line_inside)

    own_indent :
        (keys : Option ℕ)
        → IsDirect keys [] line
        → nat_eq (indent_of line) (or_own keys (indent_of line)) ≡ true
    unfolding IsDirect or_own
    own_indent none direct = ground arith
    own_indent (some own) direct = ground (arith, direct)

    line-IsFound :
        (keys : Option ℕ) (number : ℕ) (found : Dict ℕ)
        → IsDirect keys [] line
        → IsFound (section_keys section (inside (indent_of header) keys) number (line ∷ left) found)
    unfolding section_keys insert_key IsFound
    line-IsFound keys number found direct =
        if-left IsFound (is_skipped (trim_start line)) _ _ is_written (
          if-left IsFound (leb (indent_of line) (indent_of header)) found _ deeper (
            inside-IsFound (indent_of header) _ (suc number) left _ (
              if-taken IsFound (nat_eq (indent_of line) (or_own keys (indent_of line))) _ found
                (own_indent keys direct)
                (if-left IsFound (key_of line == "") found _ (rw is_key given)
                  (number, rw (is_key, lookup-insert key key number found, eq_refl key) refl)))))

    between-IsFound :
        (between : List String) (keys : Option ℕ) (number : ℕ) (found : Dict ℕ)
        → All (IsInside header) between
        → IsDirect keys between line
        → IsFound (
            section_keys section
              (inside (indent_of header) keys)
              number
              (between ++ line ∷ left)
              found)
    unfolding section_keys IsInside
    between-IsFound [] keys number found within direct = line-IsFound keys number found direct
    between-IsFound (l ∷ between) keys number found (within, rest) direct =
        if-cases IsFound (is_skipped (trim_start l)) _ _
          (λ skip.
            between-IsFound between keys (suc number) found rest
              (IsDirect-skipped keys between l line skip direct))
          (λ written.
            if-left IsFound (leb (indent_of l) (indent_of header)) found _
              (elim within [
                | inl skip ↦ absurd (contrary (is_skipped (trim_start l)) skip written)
                | inr further ↦ ground (arith, further)
              ])
              (between-IsFound between (some (or_own keys (indent_of l))) (suc number) _ rest
                (IsDirect-written keys between l line written direct)))

    earlier-IsFound :
        (earlier between : List String) (number : ℕ) (found : Dict ℕ)
        → All (λ l. ¬ IsHeader section l) earlier
        → IsHeader section header
        → is_skipped (trim_start header) ≡ false
        → All (IsInside header) between
        → IsDirect none between line
        → IsFound
            (section_keys section before number (earlier ++ header ∷ between ++ line ∷ left) found)
    unfolding section_keys
    earlier-IsFound [] between number found closed opens written within direct =
        if-taken
          (λ place.
            IsFound (section_keys section place (suc number) (between ++ line ∷ left) found))
          (not (is_skipped (trim_start header)) && is_header section (trim_start header))
          (inside (indent_of header) none) before
          (ground (arith, written, IsHeader-is_header section header opens))
          (between-IsFound between none (suc number) found within direct)
    earlier-IsFound (e ∷ earlier) between number found (other, closed) opens written within direct =
        if-left
          (λ place. IsFound (
            section_keys section place (suc number) (earlier ++ header ∷ between ++ line ∷ left)
              found))
          (not (is_skipped (trim_start e)) && is_header section (trim_start e))
          (inside (indent_of e) none) before (ground (arith, not-IsHeader section e other))
          (earlier-IsFound earlier between (suc number) found closed opens written within direct)

-- A key that is not empty, of a line that is a direct key under the first header of the section, is
-- found.
pub find_section_key_line_numbers-found :
    (content section key : String) (number : ℕ) (k : IsKeyLine (lines content) section key number)
    → All (λ l. ¬ IsHeader section l) k.earlier
    → (key == "") ≡ false
    → (n : ℕ) × (lookup key (find_section_key_line_numbers (some content) section) ≡ some n)
unfolding find_section_key_line_numbers IsFound IsDirect
find_section_key_line_numbers-found content section key number k closed given =
    subst (λ all. (n : ℕ) × (lookup key (section_keys section before 1 all []) ≡ some n))
      (sym k.is_split)
      (earlier-IsFound section key k.line k.left k.header k.line_inside k.is_written k.is_key given
        k.earlier k.between 1 [] closed k.opens k.header_written k.between_inside k.is_direct)
