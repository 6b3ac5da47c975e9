-- ===== src/Lint/KeyLines.antt =====
-- What the line numbers of the keys of a section are (agent/src/linting/mod.rs).
use vynil.Prelude.{
  ℕ, suc, ◌+◌, ◌<◌, String, Bool, true, false, not, Option, none, some, List, [], ◌∷◌, ◌++◌, ◌&&◌,
  ◌≡◌, refl, sym, ◌∙◌, ap, subst, ◌==◌, ◌⊎◌, eq_iff, if◌then◌else◌, inl, inr, Bool-cases, arith,
  All, leb, nat_eq, nat_eq_iff, length, append_assoc, length-append,
}
use vynil.Prelude.Dict.{Dict, lookup, insert, lookup-insert}
use mathlib.Core.Option.{none-ne-some}
use vynil.Prelude.Search.{begins, lines}
use vynil.Prelude.Text.{concat}
use vynil.Lint.Directives.{trim_start}
use vynil.Lint.Keys.{
  is_skipped, indent_of, key_of, is_header, or_own, before, inside, insert_key, section_keys,
  find_section_key_line_numbers,
}

-- The line opens the section: its name and a colon, alone or before a space.
unfoldable pub IsHeader : String → String → Type 0
IsHeader section line =
    (trim_start line ≡ concat (section ∷ ":" ∷ []))
    ⊎ (begins (concat (section ∷ ": " ∷ [])) (trim_start line) ≡ true)

-- The line does not end the section of the header: it is blank, a comment, or further in.
unfoldable pub IsInside : String → String → Type 0
IsInside header line = (is_skipped (trim_start line) ≡ true) ⊎ (indent_of header < indent_of line)

-- The indent of the first line that is not blank and no comment.
unfoldable pub first_indent : List String → Option ℕ
first_indent [] = none
first_indent (line ∷ rest) =
    let later = first_indent rest in
    if is_skipped (trim_start line) then later else some (indent_of line)

-- The line of that number, counted from 1, is a direct key of the section: a header of the section
-- comes before it, no line from there on ends the section, and it has the indent of the first line
-- of the section.
pub record IsKeyLine (all : List String) (section key : String) (number : ℕ) : Type 0 where
  pub earlier : List String
  pub header : String
  pub between : List String
  pub line : String
  pub left : List String
  pub is_split : all ≡ earlier ++ header ∷ between ++ line ∷ left
  pub is_number : number ≡ length earlier + length between + 2
  pub opens : IsHeader section header
  pub header_written : is_skipped (trim_start header) ≡ false
  pub between_inside : All (IsInside header) between
  pub line_inside : indent_of header < indent_of line
  pub is_written : is_skipped (trim_start line) ≡ false
  pub is_direct : first_indent (between ++ line ∷ []) ≡ some (indent_of line)
  pub is_key : key_of line ≡ key

pub if-cases :
    {A : Type 0} (P : A → Type 0) (b : Bool) (x y : A)
    → (b ≡ true → P x)
    → (b ≡ false → P y)
    → P (if b then x else y)
if-cases P true x y here there = here refl
if-cases P false x y here there = there refl

All-snoc :
    (P : String → Type 0) (xs : List String) (x : String) → All P xs → P x → All P (xs ++ x ∷ [])
All-snoc P [] x none_yet p = (p, tt)
All-snoc P (y ∷ xs) x (q, rest) p = (q, All-snoc P xs x rest p)

is_header-IsHeader :
    (section line : String) → is_header section (trim_start line) ≡ true → IsHeader section line
unfolding is_header IsHeader
is_header-IsHeader section line test =
    elim (Bool-cases (trim_start line == concat (section ∷ ":" ∷ []))) [
      | inl alone ↦ inl ((eq_iff (trim_start line) (concat (section ∷ ":" ∷ []))).0 alone)
      | inr other ↦ inr (rw other at test)
    ]

first_indent-skipped :
    (seen : List String) (line : String)
    → is_skipped (trim_start line) ≡ true
    → first_indent (seen ++ line ∷ []) ≡ first_indent seen
unfolding first_indent
first_indent-skipped [] line skip = rw skip refl
first_indent-skipped (s ∷ seen) line skip = rw (first_indent-skipped seen line skip) refl

first_indent-written :
    (seen : List String) (line : String)
    → is_skipped (trim_start line) ≡ false
    → first_indent (seen ++ line ∷ []) ≡ some (or_own (first_indent seen) (indent_of line))
unfolding first_indent or_own
first_indent-written [] line written = rw written refl
first_indent-written (s ∷ seen) line written = elim (Bool-cases (is_skipped (trim_start s))) [
  | inl skip ↦ rw skip (first_indent-written seen line written)
  | inr own ↦ rw own refl
]

module _ (all : List String) (section : String) where
  IsSound : Dict ℕ → Type 0
  IsSound found =
      (key : String) (number : ℕ)
      → lookup key found ≡ some number
      → IsKeyLine all section key number

  insert-IsSound :
      (asked : String) (number : ℕ) (found : Dict ℕ)
      → IsKeyLine all section asked number
      → IsSound found
      → IsSound (insert asked number found)
  unfolding IsSound
  insert-IsSound asked number found own sound key n h =
      let read = sym (lookup-insert asked key number found) ∙ h in
      elim (Bool-cases (asked == key)) [
        | inl same ↦
            let number_is : number ≡ n = ground (arith, read, same) in
            subst (λ m. IsKeyLine all section key m) number_is
              (subst (λ k. IsKeyLine all section k number) ((eq_iff asked key).0 same) own)
        | inr other ↦ sound key n (rw other at read)
      ]

  insert_key-IsSound :
      (asked : String) (number : ℕ) (found : Dict ℕ)
      → IsKeyLine all section asked number
      → IsSound found
      → IsSound (insert_key asked number found)
  unfolding insert_key
  insert_key-IsSound asked number found own sound =
      if-cases IsSound (asked == "") found (insert asked number found) (λ empty. sound)
        (λ given. insert-IsSound asked number found own sound)

  -- How far a search inside of a section has come.
  record IsAt (earlier : List String) (header : String) (seen left : List String) (depth : ℕ)
      (keys : Option ℕ) (number : ℕ) : Type 0 where
    is_split : all ≡ earlier ++ header ∷ seen ++ left
    is_number : number ≡ length earlier + length seen + 2
    opens : IsHeader section header
    header_written : is_skipped (trim_start header) ≡ false
    seen_inside : All (IsInside header) seen
    depth_is : indent_of header ≡ depth
    keys_is : first_indent seen ≡ keys

  IsAt-next :
      (earlier seen left : List String) (header line : String) (depth : ℕ) (keys keys' : Option ℕ)
      (number : ℕ)
      → IsAt earlier header seen (line ∷ left) depth keys number
      → IsInside header line
      → first_indent (seen ++ line ∷ []) ≡ keys'
      → IsAt earlier header (seen ++ line ∷ []) left depth keys' (suc number)
  IsAt-next earlier seen left header line depth keys keys' number here inside_it indent = record {
    is_split =
        here.is_split
        ∙ sym (append_assoc (earlier ++ header ∷ seen) (line ∷ []) left)
        ∙ ap (λ l. l ++ left) (append_assoc earlier (header ∷ seen) (line ∷ []));
    is_number = omega (arith, here.is_number, length-append seen (line ∷ []));
    opens = here.opens;
    header_written = here.header_written;
    seen_inside = All-snoc (IsInside header) seen line here.seen_inside inside_it;
    depth_is = here.depth_is;
    keys_is = indent;
  }

  inside-IsSound :
      (earlier seen left : List String) (header : String) (depth : ℕ) (keys : Option ℕ) (number : ℕ)
      (found : Dict ℕ)
      → IsAt earlier header seen left depth keys number
      → IsSound found
      → IsSound (section_keys section (inside depth keys) number left found)
  unfolding section_keys IsInside
  inside-IsSound earlier seen [] header depth keys number found here sound = sound
  inside-IsSound earlier seen (line ∷ left) header depth keys number found here sound =
      let own = or_own keys (indent_of line) in
      if-cases IsSound (is_skipped (trim_start line)) _ _
        (λ skip.
          inside-IsSound earlier (seen ++ line ∷ []) left header depth keys (suc number) found
            (IsAt-next earlier seen left header line depth keys keys number here (inl skip)
              (first_indent-skipped seen line skip ∙ here.keys_is))
            sound)
        (λ written.
          if-cases IsSound (leb (indent_of line) depth) found _ (λ over. sound)
            (λ deeper.
              let further : indent_of header < indent_of line =
                ground (arith, deeper, here.depth_is) in
              let indents : first_indent (seen ++ line ∷ []) ≡ some own =
                first_indent-written seen line written
                ∙ ap (λ k. some (or_own k (indent_of line))) here.keys_is in
              inside-IsSound earlier (seen ++ line ∷ []) left header depth (some own) (suc number) _
                (IsAt-next earlier seen left header line depth keys (some own) number here
                  (inr further) indents)
                (if-cases IsSound (nat_eq (indent_of line) own)
                  (insert_key (key_of line) number found) found
                  (λ same.
                    insert_key-IsSound (key_of line) number found
                      (record {
                        earlier = earlier;
                        header = header;
                        between = seen;
                        line = line;
                        left = left;
                        is_split = here.is_split;
                        is_number = here.is_number;
                        opens = here.opens;
                        header_written = here.header_written;
                        between_inside = here.seen_inside;
                        line_inside = further;
                        is_written = written;
                        is_direct =
                            indents ∙ ap some (sym ((nat_eq_iff (indent_of line) own).0 same));
                        is_key = refl;
                      })
                      sound)
                  (λ other. sound))))

  before-IsSound :
      (earlier left : List String) (number : ℕ) (found : Dict ℕ)
      → all ≡ earlier ++ left
      → number ≡ length earlier + 1
      → IsSound found
      → IsSound (section_keys section before number left found)
  unfolding section_keys first_indent
  before-IsSound earlier [] number found split counted sound = sound
  before-IsSound earlier (line ∷ left) number found split counted sound =
      if-cases (λ place. IsSound (section_keys section place (suc number) left found))
        (not (is_skipped (trim_start line)) && is_header section (trim_start line))
        (inside (indent_of line) none) before
        (λ test.
          inside-IsSound earlier [] left line (indent_of line) none (suc number) found
            (record {
              is_split = split ∙ sym (append_assoc earlier (line ∷ []) left);
              is_number = omega (arith, counted);
              opens = is_header-IsHeader section line (ground (arith, test));
              header_written = ground (arith, test);
              seen_inside = tt;
              depth_is = refl;
              keys_is = refl;
            })
            sound)
        (λ other.
          before-IsSound (earlier ++ line ∷ []) left (suc number) found
            (split ∙ sym (append_assoc earlier (line ∷ []) left))
            (omega (arith, counted, length-append earlier (line ∷ []))) sound)

-- The number that is found for a key under a section is that of a line of the file, counted from 1,
-- which has the key before its first colon, trimmed, and is a direct key of the section: a header of
-- the section comes before it, none of the lines between ends the section, and neither does the
-- line, and its indent is that of the first line of the section.
pub find_section_key_line_numbers-IsKeyLine :
    (content section key : String) (number : ℕ)
    → lookup key (find_section_key_line_numbers (some content) section) ≡ some number
    → IsKeyLine (lines content) section key number
unfolding find_section_key_line_numbers IsSound lookup
find_section_key_line_numbers-IsKeyLine content section key number =
    before-IsSound (lines content) section [] (lines content) 1 [] refl refl
      (λ asked n h. absurd (none-ne-some n h)) key number
