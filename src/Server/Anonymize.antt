-- ===== src/Server/Anonymize.antt =====
-- server/src/anonymize.rs: what is taken out of a text before it leaves the server.
use Prim.Native.String.{len}
use vynil.Prelude.{
  ℕ, suc, ◌+◌, code, String, Bool, true, false, not, Option, none, some, List, [], ◌∷◌, ◌&&◌, any,
  keep, leb, ltb, nat_eq, ◌==◌, if◌then◌else◌,
}
use vynil.Prelude.Json.{Json}
use vynil.Prelude.Text.{contains}
use vynil.Prelude.Search.{matches, replace}
use vynil.Server.{serialization_error}
use vynil.Server.World.{World, Texts, Secret, list_secrets, Diag, pure, ask, require, ◌>>=◌}

-- server/src/dto.rs.
pub record ScrubStats : Type 0 where
  pub distinct : ℕ
  pub occurrences : ℕ

abbrev pub no_stats : ScrubStats
no_stats = record { distinct = 0; occurrences = 0 }

abbrev pub anonymized_text : String
anonymized_text = "<anonymized>"

abbrev pub common_denylist : List String
common_denylist =
    "true" ∷ "false" ∷ "default" ∷ "vynil" ∷ "system" ∷ "kubernetes" ∷ "cluster" ∷ "enabled"
    ∷ "disabled" ∷ "password" ∷ "username" ∷ []

to_ascii_lowercase : ℕ → ℕ
to_ascii_lowercase c = if leb b'A' c && leb c b'Z' then c + 32 else c

-- Whether the lower case of the first text is the second.
is_lowercase_of : String → String → Bool
unfolding to_ascii_lowercase
is_lowercase_of String.[] String.[] = true
is_lowercase_of (String.◌∷◌ c s) (String.◌∷◌ d t) =
    nat_eq (to_ascii_lowercase (code c)) (code d) && is_lowercase_of s t
is_lowercase_of s t = false

-- Values of less than 8 bytes, and the words of the list, are no secrets.
unfoldable pub is_scrubbable : String → Bool
unfolding is_lowercase_of
is_scrubbable value = leb 8 (len value) && not (any (is_lowercase_of value) common_denylist)

-- `HashSet::insert`.
unfoldable pub add : String → List String → List String
unfolding contains
add value values = if contains values value then values else value ∷ values

add_opt : Option String → List String → List String
unfolding add
add_opt none values = values
add_opt (some value) values = add value values

-- One pass over all secrets, in their order; the statistics are of the texts as they are then.
unfoldable pub scrub_secrets : String → List String → ScrubStats → String × ScrubStats
unfolding matches replace
scrub_secrets text [] stats = (text, stats)
scrub_secrets text (secret ∷ secrets) stats =
    let count = if secret == "" then 0 else matches secret 0 text in
    let found = ltb 0 count in
    scrub_secrets (if found then replace secret anonymized_text 0 text else text) secrets (record {
      distinct = if found then suc stats.distinct else stats.distinct;
      occurrences = stats.occurrences + count;
    })

module _ (t : Texts) where
  add_texts : List (List ℕ) → List String → List String
  unfolding add_opt
  add_texts [] values = values
  add_texts (bytes ∷ rest) values = add_texts rest (add_opt (t.from_utf8 bytes) values)

  add_all : List String → List String → List String
  unfolding add
  add_all [] values = values
  add_all (value ∷ rest) values = add_all rest (add value values)

  decode_text : Option (List ℕ) → Option String
  decode_text none = none
  decode_text (some bytes) = t.from_utf8 bytes

  -- The JSON of a secret has its bytes in base64, and they are read back from it.
  add_decoded : List (List ℕ) → List String → List String
  unfolding add_opt decode_text
  add_decoded [] values = values
  add_decoded (bytes ∷ rest) values =
      add_decoded rest (add_opt (decode_text (t.decoded (t.encoded bytes))) values)

  or_empty {ℓ} : {A : Type ℓ} → Option (List A) → List A
  or_empty none = []
  or_empty (some l) = l

  unfoldable pub extract_secret_values : Secret → List String → List String
  unfolding add_texts add_all add_decoded or_empty
  extract_secret_values secret values =
      add_decoded (or_empty secret.bytes)
        (add_all (or_empty secret.string_data) (add_texts (or_empty secret.bytes) values))

  extract_all : List Secret → List String → List String
  unfolding extract_secret_values
  extract_all [] values = values
  extract_all (secret ∷ secrets) values = extract_all secrets (extract_secret_values secret values)

  -- A list of secrets that cannot be read adds nothing.
  unfoldable pub extract_listed : Option (List Secret) → List String → List String
  unfolding extract_all
  extract_listed none values = values
  extract_listed (some secrets) values = extract_all secrets values

  scrubbable : List String → List String
  unfolding is_scrubbable
  scrubbable values = keep is_scrubbable (t.in_set_order values)

module _ (w : World) where
  unfoldable pub collect_secret_values : String → String → Diag (List String)
  unfolding extract_listed scrubbable
  collect_secret_values namespace vynil_namespace = do
    here ← ask (list_secrets namespace) w.secrets
    let values = extract_listed w.texts here []
    if namespace == vynil_namespace then pure (scrubbable w.texts values) else (do
      there ← ask (list_secrets vynil_namespace) w.secrets
      pure (scrubbable w.texts (extract_listed w.texts there values)))

  unfoldable pub scrub : String → String → String → Diag (String × ScrubStats)
  unfolding collect_secret_values scrub_secrets
  scrub text namespace vynil_namespace = do
    secrets ← collect_secret_values namespace vynil_namespace
    let scrubbed = scrub_secrets text secrets no_stats
    pure (w.texts.apply_patterns scrubbed.0, scrubbed.1)

  unfoldable pub scrub_json : Json → String → String → Diag (Json × ScrubStats)
  unfolding scrub
  scrub_json value namespace vynil_namespace = do
    text ← require serialization_error (w.json_text value)
    scrubbed ← scrub text namespace vynil_namespace
    scrubbed_value ← require serialization_error (w.json_value scrubbed.0)
    pure (scrubbed_value, scrubbed.1)
