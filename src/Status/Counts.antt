-- ===== src/Status/Counts.antt =====
-- How often a type of condition stands in a list of conditions.
use vynil.Prelude.{
  ℕ, ◌+◌, ◌≤◌, ◌≡◌, refl, Bool, true, false, List, [], ◌∷◌, ◌++◌, arith, any, if◌then◌else◌,
  Bool-cases, inl, inr,
}
use vynil.Instance.{ApplicationCondition, ConditionsType, ready}
use vynil.Instance.Conditions.Lists.{type_eq, is_of, excluding}
use vynil.Status.{with_ready}

abbrev one_if : Bool → ℕ
one_if true = 1
one_if false = 0

unfoldable pub count : ConditionsType → List ApplicationCondition → ℕ
count t [] = 0
count t (c ∷ cs) = one_if (type_eq t c.condition_type) + count t cs

-- No type of condition stands twice in the list.
abbrev pub IsUnique : List ApplicationCondition → Type 0
IsUnique cs = (t : ConditionsType) → count t cs ≤ 1

count-nil : (t : ConditionsType) → count t [] ≡ 0
unfolding count
count-nil t = refl

count-cons :
    (t : ConditionsType) (c : ApplicationCondition) (cs : List ApplicationCondition)
    → count t (c ∷ cs) ≡ one_if (type_eq t c.condition_type) + count t cs
unfolding count
count-cons t c cs = refl

count-append :
    (t : ConditionsType) (xs ys : List ApplicationCondition)
    → count t (xs ++ ys) ≡ count t xs + count t ys
unfolding count
count-append t [] ys = omega arith
count-append t (x ∷ xs) ys = omega (arith, count-append t xs ys)

type_eq_refl : (t : ConditionsType) → type_eq t t ≡ true
unfolding type_eq
type_eq_refl t = ground arith

type_eq_comm : (a b : ConditionsType) → type_eq a b ≡ type_eq b a
unfolding type_eq
type_eq_comm a b = ground arith

pub type_eq_trans :
    (a b d : ConditionsType) → type_eq a b ≡ true → type_eq a d ≡ true → type_eq b d ≡ true
unfolding type_eq
type_eq_trans a b d p q = ground arith

-- A type that stands in a list is the type of one of its members.
any_trans :
    (t s : ConditionsType) (types : List ConditionsType)
    → type_eq t s ≡ true
    → any (type_eq s) types ≡ any (type_eq t) types
any_trans t s [] h = refl
any_trans t s (u ∷ us) h =
    ground (arith, any_trans t s us h, type_eq_trans t s u h, type_eq_comm t s, type_eq_trans s t u)

excluding-out :
    (types : List ConditionsType) (c : ApplicationCondition) (cs : List ApplicationCondition)
    → is_of types c ≡ true
    → excluding types (c ∷ cs) ≡ excluding types cs
unfolding excluding
excluding-out types c cs h = rw h

excluding-kept :
    (types : List ConditionsType) (c : ApplicationCondition) (cs : List ApplicationCondition)
    → is_of types c ≡ false
    → excluding types (c ∷ cs) ≡ c ∷ excluding types cs
unfolding excluding
excluding-kept types c cs h = rw h

is_of-eq :
    (t : ConditionsType) (types : List ConditionsType) (c : ApplicationCondition)
    → type_eq t c.condition_type ≡ true
    → is_of types c ≡ any (type_eq t) types
unfolding is_of
is_of-eq t types c h = any_trans t c.condition_type types h

count-excluding :
    (t : ConditionsType) (types : List ConditionsType) (cs : List ApplicationCondition)
    → count t (excluding types cs) ≡ (if any (type_eq t) types then 0 else count t cs)
count-excluding t types [] = unfold count excluding in ground arith
count-excluding t types (c ∷ cs) = elim (Bool-cases (is_of types c)) [
  | inl out ↦
      rw (excluding-out types c cs out)
        (ground (arith, out, is_of-eq t types c, count-excluding t types cs, count-cons t c cs))
  | inr kept ↦ rw (excluding-kept types c cs kept) (
      ground (
        arith,
        kept,
        is_of-eq t types c,
        count-excluding t types cs,
        count-cons t c cs,
        count-cons t c (excluding types cs),
      ))
]

-- What is pushed behind the others has types that were left out, each once.
pub excluding-append-IsUnique :
    (types : List ConditionsType) (cs pushed : List ApplicationCondition)
    → IsUnique cs
    → ((t : ConditionsType) → count t pushed ≤ (if any (type_eq t) types then 1 else 0))
    → IsUnique (excluding types cs ++ pushed)
excluding-append-IsUnique types cs pushed unique new t =
    ground (
      arith,
      count-append t (excluding types cs) pushed,
      count-excluding t types cs,
      unique t,
      new t,
    )

count-eq-zero :
    (t s : ConditionsType) (cs : List ApplicationCondition)
    → any (λ c. type_eq c.condition_type s) cs ≡ false
    → type_eq t s ≡ true
    → count t cs ≡ 0
unfolding count
count-eq-zero t s [] h e = refl
count-eq-zero t s (c ∷ cs) h e =
    ground (arith, count-eq-zero t s cs, type_eq_trans t c.condition_type s)

pub with_ready-IsUnique :
    (ko : ApplicationCondition) (cs : List ApplicationCondition)
    → ko.condition_type ≡ ready
    → IsUnique cs
    → IsUnique (with_ready ko cs)
unfolding with_ready
with_ready-IsUnique ko cs e unique t =
    elim (Bool-cases (any (λ c. type_eq c.condition_type ready) cs)) [
      | inl there ↦ rw there (unique t)
      | inr missing ↦
          rw (missing, count-append t cs (ko ∷ []), count-cons t ko [], e)
            (ground (arith, unique t, count-eq-zero t ready cs missing, count-nil t))
    ]
