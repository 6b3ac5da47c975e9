-- ===== src/Server/LogText.antt =====
-- server/src/collect/logs.rs: how logs are selected, cut and headed.
use Prim.Native.String
use Prim.Native.String.{len, slice}
use text.Mathlib.Text.{is_char_boundary}
use vynil.Prelude.{
  ℕ, zero, suc, String, Option, none, some, List, [], ◌∷◌, keep, leb, ◌==◌, if◌then◌else◌,
}
use vynil.Prelude.Search.{occurs, lines}
use vynil.Prelude.Text.{concat, join}

unfoldable pub kind_camel : String → Option String
kind_camel kind =
    if kind == "tenantinstances"
    then some "TenantInstance"
    else if kind == "serviceinstances"
    then some "ServiceInstance"
    else if kind == "systeminstances"
    then some "SystemInstance"
    else none

unfoldable pub kind_type_label : String → Option String
kind_type_label kind =
    if kind == "tenantinstances"
    then some "tenant"
    else if kind == "serviceinstances"
    then some "service"
    else if kind == "systeminstances"
    then some "system"
    else none

unfoldable pub install_job_selector : String → String → String → Option String
unfolding kind_type_label concat
install_job_selector kind name namespace = elim (kind_type_label kind) [
  | none ↦ none
  | some label ↦
      some (concat ("instance=" ∷ name ∷ ",namespace=" ∷ namespace ∷ ",type=" ∷ label ∷ []))
]

unfoldable pub instance_object_ref : String → String → String → Option String
unfolding kind_camel concat
instance_object_ref kind name namespace = elim (kind_camel kind) [
  | none ↦ none
  | some camel ↦ some (concat (camel ∷ ".v1.vynil.solidite.fr/" ∷ name ∷ "." ∷ namespace ∷ []))
]

unfoldable pub filter_operator_lines : String → String → String
unfolding join lines occurs
filter_operator_lines logs object_ref = join "\n" (keep (occurs object_ref) (lines logs))

-- The last character boundary up to a position.
unfoldable pub floor_boundary : String → ℕ → ℕ
floor_boundary logs zero = zero
floor_boundary logs (suc end) =
    let before = floor_boundary logs end in
    if is_char_boundary logs (suc end) then suc end else before

abbrev pub truncation_mark : String
truncation_mark = "\n... [truncated]"

unfoldable pub cap : String → ℕ → String
unfolding floor_boundary
cap logs max =
    if leb (len logs) max
    then logs
    else String.◌++◌ (slice logs 0 (floor_boundary logs max)) truncation_mark

-- What is written of a log, under its heading.
unfoldable pub headed : List String → String → String
unfolding concat
headed heading logs = concat ("=== " ∷ concat heading ∷ " ===\n" ∷ logs ∷ "\n" ∷ [])

-- An empty log is left out.
unfoldable pub section : List String → String → String
unfolding headed
section heading logs = if logs == "" then "" else headed heading logs

unfoldable pub name_of : Option String → String
name_of none = ""
name_of (some name) = name
