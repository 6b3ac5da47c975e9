-- ===== src/JukeBox/Merge.antt =====
-- What a partial scan leaves of the packages (common/src/jukebox.rs, `filter_packages` with the
-- filter that `set_status_packages_merge` splits).
use vynil.Prelude.{
  String, Char, code, Bool, true, false, not, Option, none, some, List, [], ◌∷◌, ◌++◌, ◌&&◌, ◌≡◌,
  refl, sym, ap, subst, ◌∙◌, ◌⊎◌, inl, inr, arith, keep, nat_eq, nat_eq_iff, Bool-cases, eq_iff,
  eq_refl,
}
use vynil.Prelude.Search.{glue}
use vynil.Package.{VynilPackage}
use vynil.JukeBox.{split_filter, name_match, is_filtered, filter_packages}

-- No character of the text is a slash.
unfoldable pub has_no_slash : String → Bool
has_no_slash String.[] = true
has_no_slash (String.◌∷◌ c s) = not (nat_eq (code c) b'/') && has_no_slash s

-- The filter is the category of the package, or that, a slash and the name of the package.
pub IsNamedBy : String → VynilPackage → Type 0
IsNamedBy filter p =
    (has_no_slash p.metadata.category ≡ true)
    × ((filter ≡ p.metadata.category)
        ⊎ ((slash : Char) × (code slash ≡ b'/')
            × (filter ≡ glue p.metadata.category (String.◌∷◌ slash p.metadata.name))))

-- The second list is what is left of the first, in its order, without what the filter names.
pub data IsRest (filter : String) : List VynilPackage → List VynilPackage → Type 0 where
  done : IsRest filter [] []
  drop :
      (p : VynilPackage) (packages kept : List VynilPackage)
      → IsNamedBy filter p
      → IsRest filter packages kept
      → IsRest filter (p ∷ packages) kept
  hold :
      (p : VynilPackage) (packages kept : List VynilPackage)
      → ¬ IsNamedBy filter p
      → IsRest filter packages kept
      → IsRest filter (p ∷ packages) (p ∷ kept)

-- How a filter is put together from its parts.
IsSplit : String → String → Option String → Type 0
IsSplit filter category none = filter ≡ category
IsSplit filter category (some name) =
    (slash : Char) × (code slash ≡ b'/') × (filter ≡ glue category (String.◌∷◌ slash name))

IsSplit-cons :
    (c : Char) (filter category : String) (name : Option String)
    → IsSplit filter category name
    → IsSplit (String.◌∷◌ c filter) (String.◌∷◌ c category) name
unfolding IsSplit glue
IsSplit-cons c filter category none same = ap (λ s. String.◌∷◌ c s) same
IsSplit-cons c filter category (some name) (slash, is_slash, same) =
    (slash, is_slash, ap (λ s. String.◌∷◌ c s) same)

split_filter-IsSplit :
    (filter : String) → IsSplit filter (split_filter filter).0 (split_filter filter).1
unfolding IsSplit split_filter glue
split_filter-IsSplit String.[] = refl
split_filter-IsSplit (String.◌∷◌ c s) = elim (Bool-cases (nat_eq (code c) b'/')) [
  | inl slash ↦ rw slash (c, (nat_eq_iff (code c) b'/').0 slash, refl)
  | inr other ↦
      rw other (IsSplit-cons c s (split_filter s).0 (split_filter s).1 (split_filter-IsSplit s))
]

has_no_slash-split_filter : (filter : String) → has_no_slash (split_filter filter).0 ≡ true
unfolding has_no_slash split_filter
has_no_slash-split_filter String.[] = refl
has_no_slash-split_filter (String.◌∷◌ c s) = elim (Bool-cases (nat_eq (code c) b'/')) [
  | inl slash ↦ rw slash refl
  | inr other ↦ rw (other, other) (has_no_slash-split_filter s)
]

not_and : (a b : Bool) → (not a && b) ≡ true → (a ≡ false) × (b ≡ true)
not_and a b h = ground arith

split_filter-category :
    (category : String) → has_no_slash category ≡ true → split_filter category ≡ (category, none)
unfolding has_no_slash split_filter
split_filter-category String.[] plain = refl
split_filter-category (String.◌∷◌ c s) plain =
    let (other, rest) = not_and (nat_eq (code c) b'/') (has_no_slash s) plain in
    rw other (ap (λ r. (String.◌∷◌ c r.0, r.1)) (split_filter-category s rest))

split_filter-glue :
    (category : String) (slash : Char) (name : String)
    → has_no_slash category ≡ true
    → code slash ≡ b'/'
    → split_filter (glue category (String.◌∷◌ slash name)) ≡ (category, some name)
unfolding has_no_slash split_filter glue
split_filter-glue String.[] slash name plain is_slash =
    rw ((nat_eq_iff (code slash) b'/').1 is_slash) refl
split_filter-glue (String.◌∷◌ c s) slash name plain is_slash =
    let (other, rest) = not_and (nat_eq (code c) b'/') (has_no_slash s) plain in
    rw other (ap (λ r. (String.◌∷◌ c r.0, r.1)) (split_filter-glue s slash name rest is_slash))

is_filtered-IsNamedBy :
    (filter category : String) (name : Option String) (p : VynilPackage)
    → IsSplit filter category name
    → has_no_slash category ≡ true
    → is_filtered category name p ≡ true
    → IsNamedBy filter p
unfolding is_filtered name_match IsSplit IsNamedBy
is_filtered-IsNamedBy filter category none p split plain test =
    let same = (eq_iff p.metadata.category category).0 (ground (arith, test)) in
    (subst (λ k. has_no_slash k ≡ true) (sym same) plain, inl (split ∙ sym same))
is_filtered-IsNamedBy filter category (some name) p (slash, is_slash, split) plain test =
    let same = (eq_iff p.metadata.category category).0 (ground (arith, test)) in
    let same_name = (eq_iff p.metadata.name name).0 (ground (arith, test)) in
    (
      subst (λ k. has_no_slash k ≡ true) (sym same) plain,
      inr (
        slash,
        is_slash,
        split
            ∙ ap (λ k. glue k (String.◌∷◌ slash name)) (sym same)
            ∙ ap (λ n. glue p.metadata.category (String.◌∷◌ slash n)) (sym same_name),
      ),
    )

is_split_filtered : String → VynilPackage → Bool
is_split_filtered filter p = is_filtered (split_filter filter).0 (split_filter filter).1 p

IsNamedBy-is_filtered :
    (filter : String) (p : VynilPackage) → IsNamedBy filter p → is_split_filtered filter p ≡ true
unfolding is_filtered name_match IsNamedBy is_split_filtered
IsNamedBy-is_filtered filter p (plain, inl same) =
    rw
      (
        ap split_filter same ∙ split_filter-category p.metadata.category plain,
        eq_refl p.metadata.category,
      )
      refl
IsNamedBy-is_filtered filter p (plain, inr (slash, is_slash, same)) =
    rw
      (
        ap split_filter same
            ∙ split_filter-glue p.metadata.category slash p.metadata.name plain is_slash,
        eq_refl p.metadata.category,
        eq_refl p.metadata.name,
      )
      refl

contrary : (b : Bool) → b ≡ true → b ≡ false → ⊥
contrary b yes_it no_it = ground (arith, yes_it, no_it)

keep-IsRest :
    (filter : String) (packages : List VynilPackage)
    → IsRest filter packages (keep (λ p. not (is_split_filtered filter p)) packages)
unfolding is_split_filtered
keep-IsRest filter [] = done
keep-IsRest filter (p ∷ packages) = elim (Bool-cases (is_split_filtered filter p)) [
  | inl named ↦ rw named (
      drop p packages _
        (is_filtered-IsNamedBy filter (split_filter filter).0 (split_filter filter).1 p
          (split_filter-IsSplit filter) (has_no_slash-split_filter filter) named)
        (keep-IsRest filter packages))
  | inr other ↦ rw other (
      hold p packages _
        (λ named.
          contrary (is_split_filtered filter p) (IsNamedBy-is_filtered filter p named) other)
        (keep-IsRest filter packages))
]

-- After a partial scan the packages are those of the jukebox that its filter does not name, in their
-- order, and then those that the scan found. A filter names the packages of its category, or the one
-- of that name in the category that is before its first slash.
pub filter_packages-IsRest :
    (existing found : List VynilPackage) (filter : String)
    → (kept : List VynilPackage) × (filter_packages existing
          (split_filter filter).0
          (split_filter filter).1
          found
        ≡ kept ++ found)
      × IsRest filter existing kept
unfolding filter_packages is_split_filtered
filter_packages-IsRest existing found filter = (_, refl, keep-IsRest filter existing)
