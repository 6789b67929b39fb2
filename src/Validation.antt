-- ===== src/Validation.antt =====
-- ocg-server/src/validation.rs: the validators of form fields. A string is a list of characters; the
-- parsers of emails and URLs are parameters.
pub mod Slugs
mod Tests
use open_community_groups.Prelude.{
  ℕ, ◌+◌, Bool, true, false, not, ◌&&◌, ◌||◌, Option, none, some, List, [], ◌∷◌, ◌++◌,
  if◌then◌else◌, ltb, leb, nat_beq, nat_eq, list_eq, list_same, is_empty, length, contains,
}
use open_community_groups.Prelude.Text.{Text, codes}
use open_community_groups.Prelude.Text.Slices.{trim}
use open_community_groups.Prelude.Result.{Result, ok, err, ◌>>=◌, ◌>>◌}

-- `garde::Result`
abbrev pub Validity : Type 0
Validity = Result Text (Unit {0})

abbrev max_items : ℕ
max_items = 25

abbrev max_len_group_pretty_slug : ℕ
max_len_group_pretty_slug = 50

abbrev max_len_l : ℕ
max_len_l = 2000

abbrev max_len_link_label : ℕ
max_len_link_label = 80

abbrev max_len_m : ℕ
max_len_m = 250

abbrev max_len_tag : ℕ
max_len_tag = 50

-- `str::len`, in bytes of UTF-8.
abbrev pub utf8_len : Text → ℕ
utf8_len [] = 0
utf8_len (c ∷ s) =
    let rest = utf8_len s in
    (if ltb c 128 then 1 else if ltb c 2048 then 2 else if ltb c 65536 then 3 else 4) + rest

abbrev pub unless : Bool → Text → Validity
unless true message = ok tt
unless false message = err message

-- A loop that ends with the first error.
check_each : {A : Type 0} → (A → Validity) → List A → Validity
check_each check [] = ok tt
check_each check (x ∷ xs) = check x >> check_each check xs

check_items : {A : Type 0} → (A → Validity) → List A → Validity
unfolding check_each
check_items check xs =
    unless (leb (length xs) max_items) (codes "value exceeds max items of 25")
    >> check_each check xs

abbrev optional : {A : Type 0} → (A → Validity) → Option A → Validity
optional check none = ok tt
optional check (some x) = check x

trimmed_non_empty : Text → Validity
trimmed_non_empty value =
    unless (not (is_empty (trim value))) (codes "value cannot be empty or whitespace-only")

trimmed_non_empty_opt : Option Text → Validity
unfolding trimmed_non_empty
trimmed_non_empty_opt value = optional trimmed_non_empty value

validate_trimmed_non_empty_vec : ℕ → Text → Option (List Text) → Validity
unfolding check_items trimmed_non_empty
validate_trimmed_non_empty_vec max_len shown value =
    optional
      (check_items λ s.
        trimmed_non_empty s
        >> unless (leb (utf8_len s) max_len) (codes "value exceeds max length of " ++ shown))
      value

trimmed_non_empty_tag_vec : Option (List Text) → Validity
unfolding validate_trimmed_non_empty_vec
trimmed_non_empty_tag_vec value = validate_trimmed_non_empty_vec max_len_tag (codes "50") value

trimmed_non_empty_vec : Option (List Text) → Validity
unfolding validate_trimmed_non_empty_vec
trimmed_non_empty_vec value = validate_trimmed_non_empty_vec max_len_m (codes "250") value

-- The errors of an email, and whether a text is a URL.
module _ (parse_email : Text → Option Text) (is_url : Text → Bool) where
  check_parsed : Option Text → Validity
  check_parsed none = ok tt
  check_parsed (some e) = err (codes "invalid email: " ++ e)

  email_vec : Option (List Text) → Validity
  unfolding check_each check_parsed
  email_vec value =
      optional
        (check_each λ email.
          unless (leb (utf8_len email) max_len_m) (codes "email exceeds max length of 250")
          >> check_parsed (parse_email email))
        value

  starts_with_slash : Text → Bool
  starts_with_slash [] = false
  starts_with_slash (c ∷ s) = nat_beq c b'/'

  validate_image_url : Text → Validity
  unfolding starts_with_slash
  validate_image_url url = do
    unless (not (is_empty (trim url))) (codes "image URL cannot be empty")
    unless (leb (utf8_len url) max_len_l) (codes "image URL exceeds max length of 2000")
    unless (starts_with_slash url || is_url url) (codes "invalid image URL: " ++ url)

  image_url : Text → Validity
  unfolding validate_image_url
  image_url value = validate_image_url value

  image_url_opt : Option Text → Validity
  unfolding validate_image_url
  image_url_opt value = optional validate_image_url value

  image_url_vec : Option (List Text) → Validity
  unfolding validate_image_url check_each
  image_url_vec value = optional (check_each validate_image_url) value

  -- The entries of the map, by their keys.
  url_map_values : Option (List (Text × Text)) → Validity
  unfolding check_items
  url_map_values value =
      optional
        (check_items λ (key, url). do
          unless (leb (utf8_len key) max_len_link_label)
              (codes "key '" ++ (key ++ codes "' exceeds max length of 80"))
          unless (not (is_empty (trim url)))
              (codes "URL for '" ++ (key ++ codes "' cannot be empty"))
          unless (leb (utf8_len url) max_len_l)
              (codes "URL for '" ++ (key ++ codes "' exceeds max length of 2000"))
          unless (is_url url) (codes "invalid URL for '" ++ (key ++ (codes "': " ++ url))))
        value

abbrev cfs_label_colors : List Text
cfs_label_colors =
    codes "#FFD866"
    ∷ codes "#FC9867"
    ∷ codes "#FF6188"
    ∷ codes "#AB9DF2"
    ∷ codes "#78DCE8"
    ∷ codes "#A9DC76"
    ∷ codes "#A88F6A"
    ∷ codes "#9DA5B4"
    ∷ codes "#FF9EBB"
    ∷ codes "#6272A4"
    ∷ []

valid_cfs_label_color : Text → Validity
valid_cfs_label_color value =
    unless (contains cfs_label_colors value) (codes "invalid cfs label color")

-- `is_ascii_lowercase` or `is_ascii_digit`
abbrev pub is_slug_alphanumeric : ℕ → Bool
is_slug_alphanumeric c = (leb b'a' c && leb c b'z') || (leb b'0' c && leb c b'9')

-- All characters are those of a slug; no byte of another character is.
abbrev pub has_slug_chars : Text → Bool
has_slug_chars [] = true
has_slug_chars (c ∷ s) = (is_slug_alphanumeric c || nat_beq c b'-') && has_slug_chars s

abbrev pub starts_alphanumeric : Text → Bool
starts_alphanumeric [] = false
starts_alphanumeric (c ∷ s) = is_slug_alphanumeric c

abbrev pub ends_alphanumeric : Text → Bool
ends_alphanumeric [] = false
ends_alphanumeric (c ∷ s) =
    let rest = ends_alphanumeric s in if is_empty s then is_slug_alphanumeric c else rest

abbrev pub starts_with_hyphen : Text → Bool
starts_with_hyphen [] = false
starts_with_hyphen (c ∷ s) = nat_beq c b'-'

-- `contains("--")`
abbrev pub has_double_hyphen : Text → Bool
has_double_hyphen [] = false
has_double_hyphen (c ∷ s) = (nat_beq c b'-' && starts_with_hyphen s) || has_double_hyphen s

unfoldable pub check_slug : Text → Validity
check_slug [] = ok tt
check_slug (c ∷ s) = do
  unless (leb (utf8_len (c ∷ s)) max_len_group_pretty_slug)
      (codes "Pretty slug must be 50 characters or fewer")
  unless (has_slug_chars (c ∷ s))
      (codes "Pretty slug must use lowercase ASCII letters, numbers, and hyphens only")
  unless (starts_alphanumeric (c ∷ s) && ends_alphanumeric (c ∷ s))
      (codes "Pretty slug must start and end with a lowercase ASCII letter or number")
  unless (not (has_double_hyphen (c ∷ s))) (codes "Pretty slug cannot contain consecutive hyphens")

unfoldable pub valid_group_pretty_slug : Option Text → Validity
unfolding check_slug
valid_group_pretty_slug none = ok tt
valid_group_pretty_slug (some value) = check_slug (trim value)

-- `blank_string_as_none`, of a field that was read.
blank_string_as_none : Option Text → Option Text
blank_string_as_none none = none
blank_string_as_none (some value) = if is_empty (trim value) then none else some value
