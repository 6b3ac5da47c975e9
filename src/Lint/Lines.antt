-- ===== src/Lint/Lines.antt =====
-- agent/src/package/lint.rs: the searches in the text of package.yaml that the checks use. The text is
-- `none` where the file cannot be read.
use vynil.Prelude.{
  ℕ, suc, ◌+◌, code, String, Bool, true, false, not, Option, none, some, List, [], ◌∷◌, ◌&&◌, ◌||◌,
  leb, nat_eq, ◌==◌, if◌then◌else◌,
}
use vynil.Prelude.Search.{begins, lines}
use vynil.Prelude.Text.{concat}
use vynil.Lint.Directives.{trim_start}
use vynil.Lint.Keys.{is_skipped, indent_of}

-- The letters of the markers are the lower case of no letter but the ASCII ones.
lower : ℕ → ℕ
lower c = if leb b'A' c && leb c b'Z' then c + 32 else c

begins_lower : String → String → Bool
unfolding lower
begins_lower String.[] s = true
begins_lower (String.◌∷◌ c p) String.[] = false
begins_lower (String.◌∷◌ c p) (String.◌∷◌ d s) =
    nat_eq (code c) (lower (code d)) && begins_lower p s

occurs_lower : String → String → Bool
unfolding begins_lower
occurs_lower p String.[] = begins_lower p String.[]
occurs_lower p (String.◌∷◌ c s) = begins_lower p (String.◌∷◌ c s) || occurs_lower p s

unfoldable pub is_prerelease : String → Bool
unfolding occurs_lower
is_prerelease version =
    occurs_lower "alpha" version || occurs_lower "beta" version || occurs_lower "rc" version

first_line : String → ℕ → List String → Option ℕ
unfolding begins trim_start
first_line search number [] = none
first_line search number (line ∷ rest) =
    let later = first_line search (suc number) rest in
    if begins search (trim_start line) then some number else later

unfoldable pub find_line_with_key : Option String → String → Option ℕ
unfolding first_line lines concat
find_line_with_key none key = none
find_line_with_key (some content) key = first_line (concat (key ∷ ":" ∷ [])) 1 (lines content)

-- How far a search has come: before the images, among them, or at the image.
pub data Seek : Type 0 where
  outside : Seek
  in_images in_image : (indent : ℕ) → Seek

image_tag_line : String → Seek → ℕ → List String → Option ℕ
unfolding is_skipped indent_of begins trim_start
image_tag_line image_key seek number [] = none
image_tag_line image_key outside number (line ∷ rest) =
    image_tag_line image_key
      (if trim_start line == "images:" then in_images (indent_of line) else outside) (suc number)
      rest
image_tag_line image_key (in_images indent) number (line ∷ rest) =
    let later =
      image_tag_line image_key
        (if not (is_skipped (trim_start line)) && begins image_key (trim_start line)
          then in_image (indent_of line)
          else in_images indent)
        (suc number) rest in
    if not (is_skipped (trim_start line)) && leb (indent_of line) indent then none else later
image_tag_line image_key (in_image indent) number (line ∷ rest) =
    let later = image_tag_line image_key (in_image indent) (suc number) rest in
    if is_skipped (trim_start line)
    then later
    else if leb (indent_of line) indent
    then none
    else if begins "tag:" (trim_start line)
    then some number
    else later

unfoldable pub find_image_tag_line : Option String → String → Option ℕ
unfolding image_tag_line lines concat
find_image_tag_line none image_name = none
find_image_tag_line (some content) image_name =
    image_tag_line (concat (image_name ∷ ":" ∷ [])) outside 1 (lines content)
