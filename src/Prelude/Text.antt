-- ===== src/Prelude/Text.antt =====
-- Texts: equality as a decision, joining, and `String::truncate` of the standard library.
use Prim.Native.Nat.{ℕ}
use Prim.Native.String
use Prim.Native.String.{String, len, slice}
use mathlib.Core.Path.{◌≡◌}
use mathlib.Core.Logic.{inl, inr}
use mathlib.Core.Bool.{Bool, true, false}
use mathlib.Core.List.{List, [], ◌∷◌}
use text.Mathlib.Text.{◌==◌, is_char_boundary}
use text.Mathlib.TextEquality.{eq_iff}
use native.Mathlib.Omega.{arith}
use vynil.Prelude.Tests.{Bool-cases, leb, if◌then◌else◌}
use vynil.Result.{Result, ok, panic}

-- `false ≡ true` is refuted where the texts are equal.
pub ne_of_eq_false : (a b : String) → (a == b) ≡ false → ¬ (a ≡ b)
ne_of_eq_false a b h e = ground (arith, (eq_iff a b).1 e)

unfoldable pub String_discrete : Discrete String
String_discrete a b = elim (Bool-cases (a == b)) [
  | inl same ↦ yes ((eq_iff a b).0 same)
  | inr differ ↦ no (ne_of_eq_false a b differ)
]

-- `format!` of several parts.
unfoldable pub concat : List String → String
concat [] = ""
concat (s ∷ ss) = String.◌++◌ s (concat ss)

-- `[..].join(sep)`.
unfoldable pub join : String → List String → String
join sep [] = ""
join sep (s ∷ []) = s
join sep (s ∷ t ∷ ts) = String.◌++◌ s (String.◌++◌ sep (join sep (t ∷ ts)))

-- `String::truncate(max)`: a longer text is cut at `max` bytes, and it is a panic if that is inside
-- of a character.
unfoldable pub truncate : ℕ → String → Result String
truncate max s =
    if leb max (len s) then (if is_char_boundary s max then ok (slice s 0 max) else panic) else ok s

-- `Iterator::any(|x| x == s)`, `Vec::contains`.
unfoldable pub contains : List String → String → Bool
contains [] s = false
contains (x ∷ xs) s = let rest = contains xs s in if x == s then true else rest
