-- ===== src/Lint/Verdict.antt =====
-- When the checks of package.yaml find an error (agent/src/package/lint.rs).
use vynil.Prelude.{
  ℕ, String, Bool, true, false, not, Option, none, some, List, [], ◌∷◌, ◌++◌, ◌≡◌, refl, ◌&&◌, ◌||◌,
  any, any-append, is_some, ◌==◌, inl, inr, Bool-cases, arith,
}
use vynil.Prelude.Json.{Json}
use vynil.Prelude.Dict.{Dict, lookup}
use vynil.Lint.{error, level_eq, LintFinding, LintResultCollector, extend, has_errors}
use vynil.Lint.Keys.{find_option_line_numbers}
use vynil.Lint.Manifest.{
  VynilPackageSource, field_finding, check_required, marked, tag_findings, image_findings,
  app_findings, or_none, check_prerelease_versions, has_type_indicator, is_object, when,
  schema_findings, read_as, option_findings, each_option, check_options, check_manifest_fields,
}

unfoldable is_error : LintFinding → Bool
unfolding level_eq
is_error f = level_eq f.level error

any_error-field_finding :
    (field value : String) → any is_error (field_finding field value) ≡ (value == "")
unfolding field_finding is_error
any_error-field_finding field value = elim (Bool-cases (value == "")) [
  | inl empty ↦ rw empty refl
  | inr given ↦ rw given refl
]

any_error-marked :
    (version : String) (line : Option ℕ) (message : List String)
    → any is_error (marked version line message) ≡ false
unfolding marked is_error
any_error-marked version line message = ground arith

any_error-app_findings :
    (content app_version : Option String) → any is_error (app_findings content app_version) ≡ false
unfolding app_findings
any_error-app_findings content none = refl
any_error-app_findings content (some v) = search any_error-marked

any_error-tag_findings :
    (content : Option String) (image : String × Option String)
    → any is_error (tag_findings content image) ≡ false
unfolding tag_findings
any_error-tag_findings content (name, none) = refl
any_error-tag_findings content (name, some tag) = search any_error-marked

any_error-image_findings :
    (content : Option String) (images : List (String × Option String))
    → any is_error (image_findings content images) ≡ false
unfolding image_findings
any_error-image_findings content [] = refl
any_error-image_findings content (image ∷ images) =
    rw
      (
        any-append is_error (tag_findings content image) (image_findings content images),
        any_error-tag_findings content image,
        any_error-image_findings content images,
      )
      refl

any_error-check_prerelease_versions :
    (package_source : VynilPackageSource) (content : Option String)
    → any is_error (check_prerelease_versions package_source content) ≡ false
unfolding check_prerelease_versions
any_error-check_prerelease_versions package_source content =
    rw
      (
        any-append,
        any_error-app_findings content package_source.app_version,
        any_error-image_findings content (or_none package_source.images),
      )
      refl

-- A required field that is empty.
unfoldable pub misses_field : VynilPackageSource → Bool
misses_field package_source =
    package_source.name == ""
    || package_source.category == ""
    || package_source.description == ""
    || package_source.api_version == ""
    || package_source.kind == ""

any_error-check_required :
    (package_source : VynilPackageSource)
    → any is_error (check_required package_source) ≡ misses_field package_source
unfolding check_required misses_field
any_error-check_required package_source =
    rw
      (
        any-append,
        any-append,
        any-append,
        any-append,
        any_error-field_finding "name" package_source.name,
        any_error-field_finding "category" package_source.category,
        any_error-field_finding "description" package_source.description,
        any_error-field_finding "apiVersion" package_source.api_version,
        any_error-field_finding "kind" package_source.kind,
      )
      refl

any_error-when :
    (test : Bool) (found : LintFinding) → any is_error (when test found) ≡ (test && is_error found)
unfolding when
any_error-when false found = refl
any_error-when true found = ground arith

module _ (schema_error : Json → Option String) where
  -- An option that is no schema: no object, not read as a schema, or without a type.
  unfoldable pub is_bad_option : Json → Bool
  is_bad_option val =
      not (is_object val) || is_some (schema_error val) || not (has_type_indicator val)

  any_error-schema_findings :
      (line : Option ℕ) (key : String) (val : Json)
      → any is_error (schema_findings schema_error line key val) ≡ not (has_type_indicator val)
  unfolding schema_findings is_error
  any_error-schema_findings line key val =
      rw (any-append, any-append, any_error-when, any_error-when, any_error-when) (ground arith)

  any_error-read_as :
      (line : Option ℕ) (key : String) (val : Json) (e : Option String)
      → any is_error (read_as schema_error line key val e)
        ≡ (is_some e || not (has_type_indicator val))
  unfolding read_as is_error
  any_error-read_as line key val none = any_error-schema_findings line key val
  any_error-read_as line key val (some e) = refl

  any_error-option_findings :
      (line : Option ℕ) (key : String) (val : Json)
      → any is_error (option_findings schema_error line key val) ≡ is_bad_option val
  unfolding option_findings is_bad_option is_error
  any_error-option_findings line key val = elim (Bool-cases (is_object val)) [
    | inl object ↦ rw object (any_error-read_as line key val (schema_error val))
    | inr other ↦ rw other refl
  ]

  any_error-each_option :
      (line_numbers : Dict ℕ) (options : List (String × Json))
      → any is_error (each_option schema_error line_numbers options)
        ≡ any (λ o. is_bad_option o.1) options
  unfolding each_option
  any_error-each_option line_numbers [] = refl
  any_error-each_option line_numbers ((key, val) ∷ options) =
      rw
        (
          any-append,
          any_error-option_findings (lookup key line_numbers) key val,
          any_error-each_option line_numbers options,
        )
        refl

  -- Whatever package.yaml has, the collector has errors after the checks of its fields exactly if it
  -- had some before, or a required field is empty, or some option is no object, is not read as a
  -- schema or has no type; a pre-release version never makes an error.
  pub check_manifest_fields-has_errors :
      (package_source : VynilPackageSource) (content : Option String)
      (collector : LintResultCollector)
      → has_errors (check_manifest_fields schema_error package_source content collector) ≡ (
          has_errors collector
          || misses_field package_source
          || any (λ o. is_bad_option o.1) (or_none package_source.options))
  unfolding check_manifest_fields has_errors extend check_options is_error
  check_manifest_fields-has_errors package_source content collector =
      let required = check_required package_source in
      let options = check_options schema_error package_source content in
      let versions = check_prerelease_versions package_source content in
      ground (
        arith,
        any-append is_error collector.findings (required ++ options ++ versions),
        any-append is_error required (options ++ versions),
        any-append is_error options versions,
        any_error-check_required package_source,
        any_error-each_option (find_option_line_numbers content) (or_none package_source.options),
        any_error-check_prerelease_versions package_source content,
      )
