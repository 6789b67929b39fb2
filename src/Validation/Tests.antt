-- ===== src/Validation/Tests.antt =====
-- Slugs of groups.
use open_community_groups.Prelude.{◌≡◌, ◌≤◌, ◌↔◌, ◌⊎◌, refl, some, []}
use open_community_groups.Prelude.Text.{codes}
use open_community_groups.Prelude.Text.Slices.{trim}
use open_community_groups.Prelude.Result.{ok, err}
use open_community_groups.Validation.{utf8_len, valid_group_pretty_slug}
use open_community_groups.Validation.Slugs.{Slug, valid_group_pretty_slug_iff}

slug_valid : valid_group_pretty_slug (some (codes " go-1-bridge ")) ≡ ok tt
unfolding valid_group_pretty_slug trim
slug_valid = refl

hyphens_invalid :
    valid_group_pretty_slug (some (codes "go--bridge"))
    ≡ err (codes "Pretty slug cannot contain consecutive hyphens")
unfolding valid_group_pretty_slug trim
hyphens_invalid = refl

valid_group_pretty_slug_iff_example :
    (valid_group_pretty_slug (some (codes " go-1-bridge ")) ≡ ok tt) ↔ (
      (trim (codes " go-1-bridge ") ≡ [])
      ⊎ ((utf8_len (trim (codes " go-1-bridge ")) ≤ 50) × Slug (trim (codes " go-1-bridge "))))
valid_group_pretty_slug_iff_example = valid_group_pretty_slug_iff (codes " go-1-bridge ")
