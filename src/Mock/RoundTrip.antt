-- ===== src/Mock/RoundTrip.antt =====
-- What a script reads after it has written (core/src/k8s_mock.rs, `rhai_apply`, `rhai_get`).
use vynil.Prelude.{
  String, Bool, false, Option, none, some, List, [], ◌∷◌, ◌≡◌, refl, sym, ◌∙◌, ap, ◌&&◌, ◌==◌, find,
  keep, arith,
}
use vynil.Prelude.Json.{Json}
use vynil.Mock.{
  meta_text, kind_of, text_eq, in_namespace, is_target, merge_entry, merge_with_existing,
  upsert_entry, upsert_in_list, Store, K8sGenericMock, new, find_by_name_in, is_live,
  find_by_name_in_live, or_else, rhai_get, write,
}
use vynil.Mock.Named.{
  IsNamed, has_key, find-upsert_entry, find-upsert_entry_other, is_target-has_key, obj-is_map,
}

find-keep :
    (p q : Json → Bool) (list : List Json) → find p (keep q list) ≡ find (λ m. q m && p m) list
unfolding find
find-keep p q [] = refl
find-keep p q (m ∷ list) = ground (arith, find-keep p q list)

find_ext :
    (p q : Json → Bool) (list : List Json) → ((m : Json) → p m ≡ q m) → find p list ≡ find q list
unfolding find
find_ext p q [] same = refl
find_ext p q (m ∷ list) same = ground (arith, same m, find_ext p q list same)

or_else_self : (o : Option Json) → or_else o o ≡ o
unfolding or_else
or_else_self none = refl
or_else_self (some m) = refl

module _ (store : Store) (kind ns name : String) where
  in_snapshot :
      find_by_name_in (new store kind (some ns)).my_mocks name
      ≡ find (has_key kind ns name) store.mocks
  unfolding find_by_name_in new in_namespace has_key
  in_snapshot =
      let named : Json → Bool = λ m. text_eq (meta_text "name" m) (some name) in
      let of_kind : Json → Bool = λ m. text_eq (kind_of m) (some kind) in
      find-keep named (in_namespace (some ns)) (keep of_kind store.mocks)
      ∙ find-keep (λ m. in_namespace (some ns) m && named m) of_kind store.mocks
      ∙ find_ext (λ m. of_kind m && (in_namespace (some ns) m && named m)) (has_key kind ns name)
          store.mocks (λ m. ground arith)

  in_live :
      find_by_name_in_live (new store kind (some ns)) store name
      ≡ find (has_key kind ns name) store.mocks
  unfolding find_by_name_in_live is_live new in_namespace has_key
  in_live = refl

  -- A handle that was just made reads the first object of the key.
  pub rhai_get-new :
      rhai_get (new store kind (some ns)) store name ≡ find (has_key kind ns name) store.mocks
  unfolding rhai_get
  rhai_get-new = rw (in_snapshot, in_live) (or_else_self _)

module _ (mock : K8sGenericMock) (store : Store) (obj : Json) (ns name : String)
    (named : IsNamed obj mock.kind ns name) where
  existing :
      merge_with_existing store.mocks mock.kind obj
      ≡ merge_entry obj (find (has_key mock.kind ns name) store.mocks)
  unfolding merge_with_existing
  existing = rw (obj-is_map obj mock.kind ns name named) (
      ap (merge_entry obj) (
        find_ext (is_target mock.kind obj) (has_key mock.kind ns name) store.mocks
          (is_target-has_key obj mock.kind ns name named)))

  written : (write mock store obj).mocks ≡ upsert_entry store.mocks mock.kind obj
  unfolding write upsert_in_list
  written = rw (obj-is_map obj mock.kind ns name named) refl

  -- A handle made after a write reads what the write merged.
  pub rhai_get-write :
      rhai_get (new (write mock store obj) mock.kind (some ns)) (write mock store obj) name
      ≡ some (merge_with_existing store.mocks mock.kind obj)
  rhai_get-write =
      rhai_get-new (write mock store obj) mock.kind ns name
      ∙ ap (find (has_key mock.kind ns name)) written
      ∙ find-upsert_entry obj mock.kind ns name named store.mocks
      ∙ ap some (sym existing)

  -- Every other key is read as before.
  pub rhai_get-write_other :
      (kind' ns' name' : String)
      → (mock.kind == kind' && ns == ns' && name == name') ≡ false
      → rhai_get (new (write mock store obj) kind' (some ns')) (write mock store obj) name'
        ≡ rhai_get (new store kind' (some ns')) store name'
  rhai_get-write_other kind' ns' name' differ =
      rhai_get-new (write mock store obj) kind' ns' name'
      ∙ ap (find (has_key kind' ns' name')) written
      ∙ find-upsert_entry_other obj mock.kind ns name named kind' ns' name' differ store.mocks
      ∙ sym (rhai_get-new store kind' ns' name')
