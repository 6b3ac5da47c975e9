-- ===== src/Prelude/Decimal.antt =====
-- Decimal numbers as texts of code points: `u32`'s `Display` and `FromStr` of the standard library.
use Prim.Native.Nat.{ℕ, zero, suc, ◌+◌, ◌-◌, ◌*◌, ◌/◌, ◌%◌, ◌^◌, ◌≤◌, ◌<◌}
use mathlib.Core.Path.{◌≡◌, refl, ◌∙◌, ap}
use mathlib.Core.Logic.{inl, inr}
use mathlib.Core.Bool.{Bool, ◌&&◌}
use mathlib.Core.Option.{Option, none, some}
use mathlib.Core.List.{List, [], ◌∷◌, ◌++◌, append_assoc, append-nil}
use Prim.Native.Char.{Char}
use Prim.Native.String
use Prim.Native.String.{String}
use text.Mathlib.Text.{char_at?}
use native.Mathlib.Omega.{arith}
use vynil.Prelude.Tests.{ltb, leb, nat_eq, if◌then◌else◌, Bool-cases, ltb→lt}

abbrev pub u32_mod : ℕ
u32_mod = 2 ^ 32

abbrev pub u64_mod : ℕ
u64_mod = 2 ^ 64

abbrev is_digit : ℕ → Bool
is_digit c = leb b'0' c && leb c b'9'

-- The digits after an optional sign; a digit that overflows 32 bits is an error.
parse_digits : ℕ → ℕ → List ℕ → Option ℕ
parse_digits limit acc [] = some acc
parse_digits limit acc (c ∷ cs) =
    let next = acc * 10 + (c - b'0') in
    let rest = parse_digits limit next cs in
    if is_digit c then (if ltb next limit then rest else none) else none

parse_unsigned : ℕ → List ℕ → Option ℕ
parse_unsigned limit [] = none
parse_unsigned limit (c ∷ cs) = parse_digits limit 0 (c ∷ cs)

-- `str::parse` to an unsigned integer: a `+` may stand in front, and an empty text is an error.
parse_uint : ℕ → List ℕ → Option ℕ
unfolding parse_unsigned parse_digits
parse_uint limit [] = none
parse_uint limit (c ∷ cs) =
    if nat_eq c b'+' then parse_unsigned limit cs else parse_digits limit 0 (c ∷ cs)

unfoldable pub parse_u32 : List ℕ → Option ℕ
unfolding parse_uint
parse_u32 = parse_uint u32_mod

unfoldable pub parse_u64 : List ℕ → Option ℕ
unfolding parse_uint
parse_u64 = parse_uint u64_mod

-- The recursion takes the number as its fuel: a tenth of a number is below it.
digits : ℕ → ℕ → List ℕ
digits zero n = (b'0' + n % 10) ∷ []
digits (suc f) n =
    let upper = digits f (n / 10) ++ (b'0' + n % 10) ∷ [] in
    if ltb n 10 then (b'0' + n) ∷ [] else upper

unfoldable pub print : ℕ → List ℕ
unfolding digits
print n = digits n n

-- What is printed begins with a digit.
digits_head : (f n : ℕ) → (d : ℕ) × (ds : List ℕ) × (digits f n ≡ d ∷ ds) × (b'0' ≤ d) × (d ≤ b'9')
unfolding digits
digits_head zero n = (b'0' + n % 10, [], refl, omega arith, omega arith)
digits_head (suc f) n = elim (Bool-cases (ltb n 10)) [
  | inl small ↦ (b'0' + n, [], (rw small), omega arith, omega (arith, ltb→lt n 10 small))
  | inr big ↦
      let (d, ds, e, lo, hi) = digits_head f (n / 10) in
      (d, ds ++ (b'0' + n % 10) ∷ [], (rw (big, e)), lo, hi)
]

-- Reading one more digit of a number that fits.
parse_digits-step :
    (limit n : ℕ) (rest : List ℕ)
    → n < limit
    → parse_digits limit (n / 10) ((b'0' + n % 10) ∷ rest) ≡ parse_digits limit n rest
unfolding parse_digits
parse_digits-step limit n rest h =
    let same : n / 10 * 10 + (b'0' + n % 10 - b'0') ≡ n = omega arith in rw same (ground arith)

parse_digits-digits :
    (limit f n : ℕ) (rest : List ℕ)
    → n ≤ f
    → n < limit
    → parse_digits limit 0 (digits f n ++ rest) ≡ parse_digits limit n rest
unfolding digits
parse_digits-digits limit zero n rest enough fits =
    let none_left : 0 ≡ n / 10 = omega arith in
    ap (λ acc. parse_digits limit acc ((b'0' + n % 10) ∷ rest)) none_left
    ∙ parse_digits-step limit n rest fits
parse_digits-digits limit (suc f) n rest enough fits = elim (Bool-cases (ltb n 10)) [
  | inl small ↦
      let digit : n ≡ n % 10 = omega (arith, ltb→lt n 10 small) in
      let none_left : 0 ≡ n / 10 = omega (arith, ltb→lt n 10 small) in
      rw small (
        ap (λ d. parse_digits limit 0 ((b'0' + d) ∷ rest)) digit
        ∙ ap (λ acc. parse_digits limit acc ((b'0' + n % 10) ∷ rest)) none_left
        ∙ parse_digits-step limit n rest fits)
  | inr big ↦
      rw (big, append_assoc)
        (parse_digits-digits limit f (n / 10) ((b'0' + n % 10) ∷ rest) (omega arith) (omega arith)
          ∙ parse_digits-step limit n rest fits)
]

module _ (limit n : ℕ) (fits : n < limit) where
  parse_uint-print : parse_uint limit (print n) ≡ some n
  unfolding parse_uint print
  parse_uint-print =
      let (d, ds, e, lo, hi) = digits_head n n in
      let back : parse_digits limit 0 (digits n n ++ []) ≡ some n =
        parse_digits-digits limit n n [] (omega arith) fits in
      rw e (ground (arith, rw append-nil at back, ap (parse_digits limit 0) e))

-- A number that fits in 32 bits is read back as it was printed.
pub parse_u32-print : (n : ℕ) → n < u32_mod → parse_u32 (print n) ≡ some n
unfolding parse_u32
parse_u32-print n h = parse_uint-print u32_mod n h

-- A text in quotes is no number.
pub parse_u64-quoted : (text : List ℕ) → parse_u64 (b'"' ∷ text) ≡ none
unfolding parse_u64 parse_digits
parse_u64-quoted text = refl

-- A number as a `String`.
digit_text : Option Char → String
digit_text none = String.[]
digit_text (some d) = String.◌∷◌ d String.[]

show_codes : List ℕ → String
unfolding digit_text
show_codes [] = String.[]
show_codes (d ∷ ds) = String.◌++◌ (digit_text (char_at? "0123456789" (d - b'0'))) (show_codes ds)

unfoldable pub show : ℕ → String
unfolding show_codes print
show n = show_codes (print n)

show_test : show 1025 ≡ "1025"
unfolding show
show_test = refl
