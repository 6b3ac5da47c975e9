-- ===== src/Prelude/Dict.antt =====
-- Maps keyed by strings: the `BTreeMap` and `serde_json::Map` of the sources, as association
-- lists that hold a key once. No code modelled here depends on the order of the entries.
use Prim.Native.String.{String}
use mathlib.Core.Path.{◌≡◌, refl}
use mathlib.Core.Option.{Option, none, some}
use mathlib.Core.List.{List, [], ◌∷◌}
use native.Mathlib.Omega.{arith}
use text.Mathlib.Text.{◌==◌}
use text.Mathlib.TextEquality.{eq_iff}
use text.Mathlib.TextPositions.{eq_refl}
use vynil.Prelude.Tests.{if◌then◌else◌}

abbrev pub Dict {ℓ} : Type ℓ → Type ℓ
Dict V = List (String × V)

module _ {ℓ} {V : Type ℓ} where
  unfoldable pub lookup : String → Dict V → Option V
  lookup key [] = none
  lookup key ((asked, value) ∷ dict) =
      let rest = lookup key dict in if asked == key then some value else rest

  unfoldable pub insert : String → V → Dict V → Dict V
  insert key value [] = (key, value) ∷ []
  insert key value ((asked, held) ∷ dict) =
      let rest = insert key value dict in
      if asked == key then (key, value) ∷ dict else (asked, held) ∷ rest

  unfoldable pub remove : String → Dict V → Dict V
  remove key [] = []
  remove key ((asked, held) ∷ dict) =
      let rest = remove key dict in if asked == key then rest else (asked, held) ∷ rest

  pub lookup-insert :
      (key asked : String) (value : V) (dict : Dict V)
      → lookup asked (insert key value dict)
        ≡ (if key == asked then some value else lookup asked dict)
  unfolding lookup insert
  lookup-insert key asked value [] = refl
  lookup-insert key asked value ((other, held) ∷ dict) = ground (
    arith,
    eq_iff key asked,
    eq_iff other key,
    eq_iff other asked,
    lookup-insert key asked value dict,
  )

  pub lookup-remove :
      (key asked : String) (dict : Dict V)
      → lookup asked (remove key dict) ≡ (if key == asked then none else lookup asked dict)
  unfolding lookup remove
  lookup-remove key asked [] = ground arith
  lookup-remove key asked ((other, held) ∷ dict) =
      ground (
        arith,
        eq_iff key asked,
        eq_iff other key,
        eq_iff other asked,
        lookup-remove key asked dict,
      )

  pub lookup-insert_self :
      (key : String) (value : V) (dict : Dict V) → lookup key (insert key value dict) ≡ some value
  lookup-insert_self key value dict = simp (lookup-insert, eq_refl)

  pub lookup-remove_self : (key : String) (dict : Dict V) → lookup key (remove key dict) ≡ none
  lookup-remove_self key dict = simp (lookup-remove, eq_refl)
