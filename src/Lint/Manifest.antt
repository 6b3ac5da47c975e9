-- ===== src/Lint/Manifest.antt =====
-- agent/src/package/lint.rs: the checks of package.yaml. The text of the
-- file is a parameter, `none` where it cannot be read; so is the error of reading an option as a
-- schema. A check returns what it adds to the collector.
use vynil.Prelude.{
  ℕ, String, Bool, true, false, not, Option, none, some, List, [], ◌∷◌, ◌++◌, ◌&&◌, ◌||◌, is_some,
  ◌==◌, if◌then◌else◌,
}
use vynil.Prelude.Dict.{Dict, lookup}
use vynil.Prelude.Json
use vynil.Prelude.Json.{Json, object, as_string}
use vynil.Prelude.Search.{begins}
use vynil.Prelude.Text.{concat, contains}
use vynil.Package.{VynilPackageType, tenant, system, service}
use vynil.Lint.{LintLevel, info, warn, error, LintFinding, LintResultCollector, extend}
use vynil.Lint.Lines.{is_prerelease, find_line_with_key, find_image_tag_line}
use vynil.Lint.Keys.{find_option_line_numbers}

unfoldable pub expected_dirs : VynilPackageType → List String
expected_dirs system = "systems" ∷ "crds" ∷ "scripts" ∷ "handlebars" ∷ []
expected_dirs service =
    "vitals" ∷ "scalables" ∷ "others" ∷ "befores" ∷ "posts" ∷ "handlebars" ∷ "scripts" ∷ "crds" ∷ []
expected_dirs tenant =
    "vitals" ∷ "scalables" ∷ "others" ∷ "befores" ∷ "posts" ∷ "handlebars" ∷ "scripts" ∷ []

abbrev all_known : List String
all_known =
    "systems" ∷ "crds" ∷ "vitals" ∷ "scalables" ∷ "others" ∷ "befores" ∷ "posts" ∷ "pods"
    ∷ "handlebars" ∷ "scripts" ∷ []

-- Whether a directory of the package is reported.
unfoldable pub is_unexpected_dir : VynilPackageType → String → Bool
unfolding begins contains expected_dirs
is_unexpected_dir usage dir_name =
    not (begins "." dir_name)
    && not (contains (expected_dirs usage) dir_name)
    && contains all_known dir_name

-- What is read of the source of a package: an image by its name and its tag.
pub record VynilPackageSource : Type 0 where
  pub name : String
  pub category : String
  pub description : String
  pub api_version : String
  pub kind : String
  pub app_version : Option String
  pub images : Option (List (String × Option String))
  pub options : Option (List (String × Json))

abbrev finding : String → LintLevel → Option ℕ → String → LintFinding
finding rule level line message = record {
  rule = rule;
  level = level;
  file = "package.yaml";
  line = line;
  message = message;
}

unfoldable pub field_finding : String → String → List LintFinding
unfolding concat
field_finding field value =
    if value == ""
    then finding "package/invalid-manifest" error none
        (concat ("Missing required field: " ∷ field ∷ []))
      ∷ []
    else []

unfoldable pub check_required : VynilPackageSource → List LintFinding
unfolding field_finding
check_required package_source =
    field_finding "name" package_source.name
    ++ field_finding "category" package_source.category
    ++ field_finding "description" package_source.description
    ++ field_finding "apiVersion" package_source.api_version
    ++ field_finding "kind" package_source.kind

unfoldable pub marked : String → Option ℕ → List String → List LintFinding
unfolding is_prerelease concat
marked version line message =
    if is_prerelease version
    then finding "package/prerelease-version" warn line (concat message) ∷ []
    else []

unfoldable pub tag_findings : Option String → (String × Option String) → List LintFinding
unfolding marked find_image_tag_line
tag_findings content (name, none) = []
tag_findings content (name, some tag) =
    marked tag (find_image_tag_line content name)
      ("Image '" ∷ name ∷ "' tag '" ∷ tag ∷ "' contains a pre-release marker (alpha/beta/rc)" ∷ [])

unfoldable pub image_findings : Option String → List (String × Option String) → List LintFinding
unfolding tag_findings
image_findings content [] = []
image_findings content (image ∷ images) =
    tag_findings content image ++ image_findings content images

unfoldable pub app_findings : Option String → Option String → List LintFinding
unfolding marked find_line_with_key
app_findings content none = []
app_findings content (some app_version) =
    marked app_version (find_line_with_key content "app_version")
      ("app_version '" ∷ app_version ∷ "' contains a pre-release marker (alpha/beta/rc)" ∷ [])

unfoldable pub or_none {ℓ} : {A : Type ℓ} → Option (List A) → List A
or_none none = []
or_none (some l) = l

unfoldable pub check_prerelease_versions : VynilPackageSource → Option String → List LintFinding
unfolding app_findings image_findings or_none
check_prerelease_versions package_source content =
    app_findings content package_source.app_version
    ++ image_findings content (or_none package_source.images)

unfoldable pub has_key : Json → String → Bool
unfolding Json.get
has_key val key = is_some (Json.get key val)

unfoldable pub has_type_indicator : Json → Bool
unfolding has_key
has_type_indicator val =
    has_key val "type"
    || has_key val "$ref"
    || has_key val "oneOf"
    || has_key val "anyOf"
    || has_key val "allOf"

unfoldable pub is_object : Json → Bool
is_object (object fields) = true
is_object val = false

unfoldable pub is_text : String → Option String → Bool
is_text expected none = false
is_text expected (some s) = s == expected

unfoldable pub when : Bool → LintFinding → List LintFinding
when test found = if test then found ∷ [] else []

module _ (schema_error : Json → Option String) where
  -- The findings of an option that is read as a schema.
  unfoldable pub schema_findings : Option ℕ → String → Json → List LintFinding
  unfolding when has_type_indicator has_key is_text Json.get as_string concat
  schema_findings line key val =
      when (not (has_type_indicator val)) (
        finding "package/invalid-option-schema" error line
          (concat ("Option '" ∷ key ∷ "': missing 'type' field in OpenAPI schema" ∷ [])))
      ++ when (not (has_key val "description")) (
          finding "package/option-missing-description" info line
            (concat ("Option '" ∷ key ∷ "': no description provided" ∷ [])))
      ++ when (is_text "object" (as_string (Json.get "type" val)) && has_key val "properties") (
          finding "package/object-properties-unsupported" warn line (
            concat (
              "Option '" ∷ key
              ∷ "': nested 'properties' sub-schema is not supported for type:object; use a flat 'default:' map at the option root instead"
              ∷ [])))

  unfoldable pub read_as : Option ℕ → String → Json → Option String → List LintFinding
  unfolding schema_findings concat
  read_as line key val none = schema_findings line key val
  read_as line key val (some e) =
      finding "package/invalid-option-schema" error line
        (concat ("Option '" ∷ key ∷ "': invalid OpenAPI schema: " ∷ e ∷ []))
      ∷ []

  unfoldable pub option_findings : Option ℕ → String → Json → List LintFinding
  unfolding is_object read_as concat
  option_findings line key val =
      if not (is_object val)
      then finding "package/invalid-option-schema" error line
          (concat ("Option '" ∷ key ∷ "': must be an OpenAPI schema object, got scalar value" ∷ []))
        ∷ []
      else read_as line key val (schema_error val)

  unfoldable pub each_option : Dict ℕ → List (String × Json) → List LintFinding
  unfolding option_findings lookup
  each_option line_numbers [] = []
  each_option line_numbers ((key, val) ∷ options) =
      option_findings (lookup key line_numbers) key val ++ each_option line_numbers options

  unfoldable pub check_options : VynilPackageSource → Option String → List LintFinding
  unfolding each_option find_option_line_numbers or_none
  check_options package_source content =
      each_option (find_option_line_numbers content) (or_none package_source.options)

  unfoldable pub check_manifest_fields :
      VynilPackageSource → Option String → LintResultCollector → LintResultCollector
  unfolding check_required check_options check_prerelease_versions extend
  check_manifest_fields package_source content collector = extend collector (
      check_required package_source
      ++ check_options package_source content
      ++ check_prerelease_versions package_source content)
