-- ===== src/Validation/Slugs.antt =====
-- Which slugs a group may have.
use mathlib.Core.Path.{subst}
use open_community_groups.Prelude.{
  ℕ, ◌≡◌, ◌≤◌, ◌↔◌, ◌⊎◌, inl, inr, refl, sym, ◌∙◌, Bool, true, false, not, ◌&&◌, ◌||◌, some, [],
  ◌∷◌, if◌then◌else◌, is_empty, nat_beq, leb, arith, Bool-cases,
}
use open_community_groups.Prelude.Text.{Text}
use open_community_groups.Prelude.Text.Slices.{trim}
use open_community_groups.Prelude.Result.{ok, ◌>>◌}
use open_community_groups.Validation.{
  unless, utf8_len, is_slug_alphanumeric, has_slug_chars, starts_alphanumeric, ends_alphanumeric,
  has_double_hyphen, check_slug, valid_group_pretty_slug,
}

-- Lowercase letters and digits, with single hyphens between them.
pub data Slug : Text → Type 0 where
  one : {c : ℕ} → is_slug_alphanumeric c ≡ true → Slug (c ∷ [])
  more : {c : ℕ} {s : Text} → is_slug_alphanumeric c ≡ true → Slug s → Slug (c ∷ s)
  hyphen : {c : ℕ} {s : Text} → is_slug_alphanumeric c ≡ true → Slug s → Slug (c ∷ (b'-' ∷ s))

-- The slugs as an automaton, which knows whether a word may end here.
slug_from : Bool → Text → Bool
slug_from in_word [] = in_word
slug_from in_word (c ∷ s) =
    let word = slug_from true s in
    let gap = slug_from false s in
    if is_slug_alphanumeric c then word else (in_word && nat_beq c b'-') && gap

is_accepted : Bool → Text → Bool
is_accepted in_word s =
    has_slug_chars s
    && ((in_word || starts_alphanumeric s)
        && ((if is_empty s then in_word else ends_alphanumeric s) && not (has_double_hyphen s)))

accepted-slug_from : (in_word : Bool) (s : Text) → is_accepted in_word s ≡ slug_from in_word s
unfolding is_accepted slug_from
accepted-slug_from true [] = refl
accepted-slug_from false [] = refl
accepted-slug_from in_word (c ∷ []) = ground arith
accepted-slug_from in_word (c ∷ (d ∷ s)) =
    ground (arith, accepted-slug_from true (d ∷ s), accepted-slug_from false (d ∷ s))

Slug-slug_from : {s : Text} → (in_word : Bool) → Slug s → slug_from in_word s ≡ true
unfolding slug_from
Slug-slug_from in_word (Slug.one e) = ground (arith, e)
Slug-slug_from in_word (Slug.more e r) = ground (arith, e, Slug-slug_from true r)
Slug-slug_from in_word (Slug.hyphen e r) = ground (arith, e, Slug-slug_from false r)

slug_from-Slug : (s : Text) → slug_from false s ≡ true → Slug s
unfolding slug_from
slug_from-Slug [] h = absurd cc
slug_from-Slug (c ∷ []) h = Slug.one (ground (arith, h))
slug_from-Slug (c ∷ (d ∷ s)) h = elim (Bool-cases (is_slug_alphanumeric d)) [
  | inl e ↦ Slug.more (ground (arith, h)) (slug_from-Slug (d ∷ s) (ground (arith, h, e)))
  | inr e ↦
      let same : d ≡ b'-' = ground (arith, h, e) in
      subst (λ z. Slug (c ∷ (z ∷ s))) (sym same)
        (Slug.hyphen (ground (arith, h)) (slug_from-Slug s (ground (arith, h, e))))
]

unless_all :
    (a b c d : Bool) (m n o p : Text)
    → ((unless a m >> (unless b n >> (unless c o >> unless d p))) ≡ ok tt)
      ↔ ((a && (b && (c && d))) ≡ true)
unless_all false b c d m n o p = (λ e. cc, λ e. cc)
unless_all true false c d m n o p = (λ e. cc, λ e. cc)
unless_all true true false d m n o p = (λ e. cc, λ e. cc)
unless_all true true true false m n o p = (λ e. cc, λ e. cc)
unless_all true true true true m n o p = (λ e. refl, λ e. refl)

-- What a slug that is not empty is asked.
passes : Text → Bool
passes s =
    leb (utf8_len s) 50
    && (has_slug_chars s
        && ((starts_alphanumeric s && ends_alphanumeric s) && not (has_double_hyphen s)))

passes_iff : (c : ℕ) (s : Text) → (passes (c ∷ s) ≡ true) ↔ ((utf8_len (c ∷ s) ≤ 50) × Slug (c ∷ s))
unfolding passes is_accepted
passes_iff c s = (
  λ e. (
    ground (arith, e),
    slug_from-Slug (c ∷ s) (sym (accepted-slug_from false (c ∷ s)) ∙ ground (arith, e)),
  ),
  λ (short, slug).
      ground (arith, short, accepted-slug_from false (c ∷ s) ∙ Slug-slug_from false slug),
)

check_slug_iff : (s : Text) → (check_slug s ≡ ok tt) ↔ ((s ≡ []) ⊎ ((utf8_len s ≤ 50) × Slug s))
unfolding check_slug passes
check_slug_iff [] = (λ e. inl refl, λ h. refl)
check_slug_iff (c ∷ s) =
    let guards =
      unless_all (leb (utf8_len (c ∷ s)) 50) (has_slug_chars (c ∷ s))
        (starts_alphanumeric (c ∷ s) && ends_alphanumeric (c ∷ s)) (not (has_double_hyphen (c ∷ s)))
        _ _ _ _ in
    (
      λ e. inr ((passes_iff c s).0 (guards.0 e)),
      λ h. elim h [ inl n ↦ absurd cc | inr slug ↦ guards.1 ((passes_iff c s).1 slug) ],
    )

-- A given slug is valid exactly if, without the white space around it, it is empty, or at most 50 bytes
-- long and made of lowercase ASCII letters and digits with single hyphens between them.
pub valid_group_pretty_slug_iff :
    (value : Text)
    → (valid_group_pretty_slug (some value) ≡ ok tt)
      ↔ ((trim value ≡ []) ⊎ ((utf8_len (trim value) ≤ 50) × Slug (trim value)))
unfolding valid_group_pretty_slug
valid_group_pretty_slug_iff value = check_slug_iff (trim value)
