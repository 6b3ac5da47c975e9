-- ===== src/Server/Clean.antt =====
-- Which secrets are gone from a scrubbed text (server/src/anonymize.rs, `scrub_secrets`).
use vynil.Prelude.{
  ℕ, suc, ◌+◌, String, Bool, true, false, not, List, [], ◌∷◌, ◌≡◌, refl, ◌||◌, all, ltb, ◌==◌,
  eq_iff, inl, inr, Bool-cases, if◌then◌else◌, arith,
}
use vynil.Prelude.Search.{occurs, matches, replace}
use vynil.Prelude.Absent.{is_plain, occurs-replace, occurs-replace_self, occurs-matches}
use vynil.Server.Anonymize.{ScrubStats, scrub_secrets, anonymized_text}

-- The part of a pass that one secret makes.
abbrev count_of : String → String → ℕ
count_of text secret = if secret == "" then 0 else matches secret 0 text

abbrev after : String → String → String
after text secret =
    if ltb 0 (count_of text secret) then replace secret anonymized_text 0 text else text

abbrev counted : String → String → ScrubStats → ScrubStats
counted text secret stats = record {
  distinct = if ltb 0 (count_of text secret) then suc stats.distinct else stats.distinct;
  occurrences = stats.occurrences + count_of text secret;
}

after-keeps :
    (p text secret : String)
    → is_plain p ≡ true
    → occurs p text ≡ false
    → occurs p (after text secret) ≡ false
after-keeps p text secret plain out = elim (Bool-cases (ltb 0 (count_of text secret))) [
  | inl found ↦ rw found (occurs-replace p secret 0 text plain out)
  | inr missing ↦ rw missing out
]

not_empty : (p : String) → is_plain p ≡ true → (p == "") ≡ false
unfolding is_plain
not_empty p plain = elim (Bool-cases (p == "")) [
  | inl same ↦ ground (arith, rw ((eq_iff p "").0 same) at plain)
  | inr other ↦ other
]

after-clean : (p text : String) → is_plain p ≡ true → occurs p (after text p) ≡ false
after-clean p text plain = elim (Bool-cases (ltb 0 (count_of text p))) [
  | inl found ↦ rw found (occurs-replace_self p 0 text plain)
  | inr missing ↦
      rw missing (occurs-matches p text plain (ground (arith, rw (not_empty p plain) at missing)))
]

keeps :
    (p text : String) (secrets : List String) (stats : ScrubStats)
    → is_plain p ≡ true
    → occurs p text ≡ false
    → occurs p (scrub_secrets text secrets stats).0 ≡ false
unfolding scrub_secrets
keeps p text [] stats plain out = out
keeps p text (secret ∷ secrets) stats plain out =
    keeps p (after text secret) secrets (counted text secret stats) plain
      (after-keeps p text secret plain out)

-- A secret that is plain is in the text no more.
abbrev pub is_gone : String → String → Bool
is_gone text secret = not (is_plain secret) || not (occurs secret text)

is_gone-scrubbed :
    (secret text : String) (secrets : List String) (stats : ScrubStats)
    → is_gone (scrub_secrets (after text secret) secrets stats).0 secret ≡ true
is_gone-scrubbed secret text secrets stats = elim (Bool-cases (is_plain secret)) [
  | inl plain ↦ ground (
    arith,
    plain,
    keeps secret (after text secret) secrets stats plain (after-clean secret text plain),
  )
  | inr other ↦ ground (arith, other)
]

-- After a scrubbing by a list of secrets, whatever the text, their order and their overlaps, no secret
-- of the list is in the text that is not empty, has no angle bracket and is not in `anonymized`.
pub scrub_secrets-is_gone :
    (text : String) (secrets : List String) (stats : ScrubStats)
    → all (is_gone (scrub_secrets text secrets stats).0) secrets ≡ true
unfolding scrub_secrets
scrub_secrets-is_gone text [] stats = refl
scrub_secrets-is_gone text (secret ∷ secrets) stats = ground (
  arith,
  is_gone-scrubbed secret text secrets (counted text secret stats),
  scrub_secrets-is_gone (after text secret) secrets (counted text secret stats),
)
