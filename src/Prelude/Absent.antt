-- ===== src/Prelude/Absent.antt =====
-- Texts that are in no text with marks: what a replacement by a mark in angle brackets leaves out.
use Prim.Native.Nat.{ℕ, zero, suc, ◌-◌}
use Prim.Native.Char.{Char, code}
use Prim.Native.String.{String, count}
use mathlib.Core.Path.{◌≡◌, refl}
use mathlib.Core.Logic.{inl, inr}
use mathlib.Core.Bool.{Bool, true, false, not, ◌&&◌, ◌||◌}
use native.Mathlib.Omega.{arith}
use vynil.Prelude.Tests.{nat_eq, Bool-cases}
use vynil.Prelude.Search.{begins, occurs, matches, replace, glue}

angle_free : String → Bool
angle_free String.[] = true
angle_free (String.◌∷◌ c s) =
    not (nat_eq (code c) b'<') && not (nat_eq (code c) b'>') && angle_free s

-- A text that neither is in `<anonymized>` nor begins or ends in one that stands in another text.
unfoldable pub is_plain : String → Bool
unfolding angle_free occurs
is_plain String.[] = false
is_plain (String.◌∷◌ c s) =
    angle_free (String.◌∷◌ c s) && not (occurs (String.◌∷◌ c s) "anonymized")

-- A plain text that begins before an end of a mark ends before it.
begins-glue :
    (p w rest : String)
    → angle_free p ≡ true
    → begins p (glue w (glue ">" rest)) ≡ true
    → begins p w ≡ true
unfolding begins angle_free glue
begins-glue String.[] w rest free h = refl
begins-glue (String.◌∷◌ c p) String.[] rest free h = ground (arith, free, h)
begins-glue (String.◌∷◌ c p) (String.◌∷◌ d w) rest free h =
    ground (arith, free, h, begins-glue p w rest)

begins_free : (p : String) → is_plain p ≡ true → angle_free p ≡ true
unfolding is_plain
begins_free String.[] plain = cc
begins_free (String.◌∷◌ c p) plain = ground (arith, plain)

occurs-glue :
    (p w rest : String)
    → is_plain p ≡ true
    → occurs p w ≡ false
    → occurs p rest ≡ false
    → occurs p (glue w (glue ">" rest)) ≡ false
unfolding is_plain angle_free occurs glue begins
occurs-glue String.[] w rest plain out out' = cc
occurs-glue (String.◌∷◌ c p) String.[] rest plain out out' = ground (arith, plain, out')
occurs-glue (String.◌∷◌ c p) (String.◌∷◌ d w) rest plain out out' = ground (
  arith,
  out,
  begins-glue (String.◌∷◌ c p) (String.◌∷◌ d w) rest (begins_free (String.◌∷◌ c p) plain),
  occurs-glue (String.◌∷◌ c p) w rest plain,
  out',
)

or_false : (a b : Bool) → a ≡ false → b ≡ false → (a || b) ≡ false
or_false a b off off' = ground (arith, off, off')

-- A plain text that is not in the rest is not in the rest behind a mark.
occurs-mark :
    (p rest : String)
    → is_plain p ≡ true
    → occurs p rest ≡ false
    → occurs p (glue "<anonymized>" rest) ≡ false
unfolding is_plain angle_free occurs glue begins
occurs-mark String.[] rest plain out = cc
occurs-mark (String.◌∷◌ c p) rest plain out =
    or_false (nat_eq (code c) b'<' && begins p (glue "anonymized>" rest))
      (occurs (String.◌∷◌ c p) (glue "anonymized>" rest)) (ground (arith, plain))
      (occurs-glue (String.◌∷◌ c p) "anonymized" rest plain (ground (arith, plain)) out)

module _ (q by : String) (d : Char) (s : String) where
  replace-hit :
      begins q (String.◌∷◌ d s) ≡ true
      → replace q by 0 (String.◌∷◌ d s) ≡ glue by (replace q by (count q - 1) s)
  unfolding replace
  replace-hit hit = rw hit refl

  replace-miss :
      begins q (String.◌∷◌ d s) ≡ false
      → replace q by 0 (String.◌∷◌ d s) ≡ String.◌∷◌ d (replace q by 0 s)
  unfolding replace
  replace-miss miss = rw miss refl

module _ (q by : String) (skip : ℕ) where
  replace-nil : replace q by skip "" ≡ ""
  unfolding replace
  replace-nil = cc

  replace-skip :
      (d : Char) (s : String) → replace q by (suc skip) (String.◌∷◌ d s) ≡ replace q by skip s
  unfolding replace
  replace-skip d s = refl

-- A plain text that begins a replaced text began it before.
begins-replace :
    (p q s : String)
    → angle_free p ≡ true
    → begins p (replace q "<anonymized>" 0 s) ≡ true
    → begins p s ≡ true
unfolding angle_free begins glue replace
begins-replace p q String.[] free h = h
begins-replace String.[] q (String.◌∷◌ d s) free h = refl
begins-replace (String.◌∷◌ c p) q (String.◌∷◌ d s) free h =
    elim (Bool-cases (begins q (String.◌∷◌ d s))) [
      | inl hit ↦
          let h' = rw (replace-hit q "<anonymized>" d s hit) at h in ground (arith, free, h')
      | inr miss ↦
          let h' = rw (replace-miss q "<anonymized>" d s miss) at h in
          ground (arith, free, h', begins-replace p q s)
    ]

head_out :
    (p : String) (d : Char) (s : String)
    → occurs p (String.◌∷◌ d s) ≡ false
    → (begins p (String.◌∷◌ d s) ≡ false) × (occurs p s ≡ false)
unfolding occurs
head_out p d s out = ground (arith, out)

cons_out :
    (p : String) (d : Char) (s : String)
    → begins p (String.◌∷◌ d s) ≡ false
    → occurs p s ≡ false
    → occurs p (String.◌∷◌ d s) ≡ false
unfolding occurs
cons_out p d s first later = or_false _ _ first later

nil_out : (p : String) → is_plain p ≡ true → occurs p "" ≡ false
unfolding occurs begins is_plain
nil_out String.[] plain = cc
nil_out (String.◌∷◌ c p) plain = refl

not_begins :
    (p q s : String)
    → is_plain p ≡ true
    → begins p s ≡ false
    → begins p (replace q "<anonymized>" 0 s) ≡ false
not_begins p q s plain first = elim (Bool-cases (begins p (replace q "<anonymized>" 0 s))) [
  | inl begun ↦ ground (arith, first, begins-replace p q s (begins_free p plain) begun)
  | inr other ↦ other
]

-- A plain text that is not in a text is in no replacement of it.
pub occurs-replace :
    (p q : String) (skip : ℕ) (s : String)
    → is_plain p ≡ true
    → occurs p s ≡ false
    → occurs p (replace q "<anonymized>" skip s) ≡ false
occurs-replace p q skip String.[] plain out = rw (replace-nil q "<anonymized>" skip) out
occurs-replace p q (suc skip) (String.◌∷◌ d s) plain out =
    rw (replace-skip q "<anonymized>" skip d s)
      (occurs-replace p q skip s plain (head_out p d s out).1)
occurs-replace p q zero (String.◌∷◌ d s) plain out = elim (Bool-cases (begins q (String.◌∷◌ d s))) [
  | inl hit ↦
      rw (replace-hit q "<anonymized>" d s hit)
        (occurs-mark p _ plain (occurs-replace p q (count q - 1) s plain (head_out p d s out).1))
  | inr miss ↦ rw (replace-miss q "<anonymized>" d s miss) (
      cons_out p d _
        (rw (replace-miss q "<anonymized>" d s miss) at
          (not_begins p q (String.◌∷◌ d s) plain (head_out p d s out).0))
        (occurs-replace p q 0 s plain (head_out p d s out).1))
]

-- A plain text that was replaced is gone.
pub occurs-replace_self :
    (p : String) (skip : ℕ) (s : String)
    → is_plain p ≡ true
    → occurs p (replace p "<anonymized>" skip s) ≡ false
occurs-replace_self p skip String.[] plain =
    rw (replace-nil p "<anonymized>" skip) (nil_out p plain)
occurs-replace_self p (suc skip) (String.◌∷◌ d s) plain =
    rw (replace-skip p "<anonymized>" skip d s) (occurs-replace_self p skip s plain)
occurs-replace_self p zero (String.◌∷◌ d s) plain = elim (Bool-cases (begins p (String.◌∷◌ d s))) [
  | inl hit ↦
      rw (replace-hit p "<anonymized>" d s hit)
        (occurs-mark p _ plain (occurs-replace_self p (count p - 1) s plain))
  | inr miss ↦ rw (replace-miss p "<anonymized>" d s miss) (
      cons_out p d _
        (rw (replace-miss p "<anonymized>" d s miss) at
          (not_begins p p (String.◌∷◌ d s) plain miss))
        (occurs-replace_self p 0 s plain))
]

-- A text that has no match of a pattern does not have it.
pub occurs-matches : (p s : String) → is_plain p ≡ true → matches p 0 s ≡ 0 → occurs p s ≡ false
unfolding matches
occurs-matches p String.[] plain free = nil_out p plain
occurs-matches p (String.◌∷◌ d s) plain free = elim (Bool-cases (begins p (String.◌∷◌ d s))) [
  | inl hit ↦ ground (arith, rw hit at free)
  | inr miss ↦ cons_out p d s miss (occurs-matches p s plain (rw miss at free))
]
