-- ===== src/Prelude/Search.antt =====
-- Searches in texts, as `str` of the standard library has them: `starts_with`, `contains`,
-- `matches(..).count()`, `replace` and `lines`.
use Prim.Native.Nat.{ℕ, zero, suc, ◌-◌}
use Prim.Native.Char.{Char, code}
use Prim.Native.String.{String, count}
use mathlib.Core.Path.{◌≡◌, refl}
use mathlib.Core.Bool.{Bool, true, false, ◌&&◌, ◌||◌}
use mathlib.Core.List.{List, [], ◌∷◌}
use vynil.Prelude.Tests.{nat_eq, if◌then◌else◌}

unfoldable pub begins : String → String → Bool
begins String.[] s = true
begins (String.◌∷◌ c p) String.[] = false
begins (String.◌∷◌ c p) (String.◌∷◌ d s) = nat_eq (code c) (code d) && begins p s

unfoldable pub occurs : String → String → Bool
unfolding begins
occurs p String.[] = begins p String.[]
occurs p (String.◌∷◌ c s) = begins p (String.◌∷◌ c s) || occurs p s

-- One text after another, by clauses.
unfoldable pub glue : String → String → String
glue String.[] t = t
glue (String.◌∷◌ c s) t = String.◌∷◌ c (glue s t)

-- How many characters of a match are left, after its first.
after_first : Bool → String → ℕ
after_first hit p = if hit then count p - 1 else 0

-- The matches of a pattern that is not empty, from left to right and apart from each other; the
-- number says how many characters the last match still takes.
unfoldable pub matches : String → ℕ → String → ℕ
unfolding begins after_first
matches p skip String.[] = 0
matches p (suc skip) (String.◌∷◌ c s) = matches p skip s
matches p zero (String.◌∷◌ c s) =
    let hit = begins p (String.◌∷◌ c s) in
    let rest = matches p (after_first hit p) s in if hit then suc rest else rest

unfoldable pub replace : String → String → ℕ → String → String
unfolding begins after_first glue
replace p by skip String.[] = String.[]
replace p by (suc skip) (String.◌∷◌ c s) = replace p by skip s
replace p by zero (String.◌∷◌ c s) =
    let hit = begins p (String.◌∷◌ c s) in
    let rest = replace p by (after_first hit p) s in if hit then glue by rest else String.◌∷◌ c rest

add_char : Char → List String → List String
add_char c [] = String.◌∷◌ c String.[] ∷ []
add_char c (line ∷ rest) = String.◌∷◌ c line ∷ rest

-- A carriage return before the end of a line is no part of it, and no line follows the last end.
unfoldable pub lines : String → List String
unfolding begins add_char
lines String.[] = []
lines (String.◌∷◌ c s) =
    let rest = lines s in
    if nat_eq (code c) b'\n'
    then "" ∷ rest
    else if nat_eq (code c) b'\r' && begins "\n" s
    then rest
    else add_char c rest

counted : matches "aa" 0 "xaaaab" ≡ 2
unfolding matches
counted = refl

replaced : replace "aa" "-" 0 "xaaaab" ≡ "x--b"
unfolding replace
replaced = refl

split : lines "a\r\n\nb\n" ≡ "a" ∷ "" ∷ "b" ∷ []
unfolding lines
split = refl
