-- ===== src/Redirector/Router/Hosts.antt =====
-- The community that a host names.
use open_community_groups.Prelude.{
  ℕ, ◌≡◌, ◌↔◌, refl, sym, ap, ◌∙◌, Bool, false, not, ◌&&◌, Option, none, some, ◌∷◌, ◌++◌, is_empty,
  nat_beq, nat_eq, contains, arith, Option-cases, inl, inr, Bool-cases, any,
}
use open_community_groups.Prelude.Text.{Text, codes}
use open_community_groups.Prelude.Text.Slices.{
  NoneOf, NoneOf-append, any-NoneOf, is_whitespace, trim-NoneOf, trim_end_matches, rsplit_once-none,
  rsplit_once-append, to_ascii_lowercase, strip_suffix, strip_suffix_iff,
}
use open_community_groups.Redirector.Router.{
  is_dot, without_port, normalize_host, valid_label, name_of, community_name_from_host,
}
use mathlib.Core.List.{append_assoc}

abbrev pub is_colon : ℕ → Bool
is_colon c = nat_beq c b':'

-- The name stands before the suffix, is not empty and has no dot.
abbrev pub Names : Text → Text → Text → Type 0
Names host suffix name =
    (host ≡ name ++ b'.' ∷ suffix) × (is_empty name ≡ false) × (contains name b'.' ≡ false)

valid_label_iff :
    (found : Option Text) (name : Text)
    → (valid_label found ≡ some name)
      ↔ ((found ≡ some name) × (is_empty name ≡ false) × (contains name b'.' ≡ false))
unfolding valid_label
valid_label_iff none name = (λ e. cc, λ h. cc)
valid_label_iff (some s) name = elim (Bool-cases (not (is_empty s) && not (contains s b'.'))) [
  | inl e ↦ (λ p. ground (arith, e), λ p. ground (arith, e))
  | inr e ↦ (λ p. absurd (ground (arith, e, p)), λ p. absurd (ground (arith, e, p)))
]

name_of_iff :
    (suffix host name : Text)
    → (name_of (strip_suffix suffix host) ≡ some name) ↔ Names host suffix name
unfolding name_of
name_of_iff suffix host name = (
  λ e. elim (Option-cases (strip_suffix suffix host)) [
    | inl nothing ↦ absurd (ground (arith, nothing, e))
    | inr (u, found) ↦
        let (label, some_name, no_dot) =
          (valid_label_iff (strip_suffix (codes ".") u) name).0 (ground (arith, found, e)) in
        (
          (strip_suffix_iff suffix host u).0 found
              ∙ ap (λ t. t ++ suffix) ((strip_suffix_iff (codes ".") u name).0 label)
              ∙ append_assoc name (codes ".") suffix,
          some_name,
          no_dot,
        )
  ],
  λ (shape, some_name, no_dot).
      let found =
        (strip_suffix_iff suffix host (name ++ codes ".")).1
          (shape ∙ sym (append_assoc name (codes ".") suffix)) in
      let label = (strip_suffix_iff (codes ".") (name ++ codes ".") name).1 refl in
      ap name_of found
      ∙ (valid_label_iff (strip_suffix (codes ".") (name ++ codes ".")) name).1
          (label, some_name, no_dot),
)

normalize_host-port :
    (host port : Text)
    → NoneOf is_colon port
    → NoneOf is_whitespace (host ++ b':' ∷ port)
    → trim_end_matches is_dot host ≡ host
    → normalize_host (host ++ b':' ∷ port) ≡ to_ascii_lowercase host
unfolding normalize_host without_port
normalize_host-port host port p q r =
    ground (arith, trim-NoneOf (host ++ b':' ∷ port) q, rsplit_once-append b':' host port p, r)

normalize_host_lem :
    (host : Text)
    → NoneOf is_colon host
    → NoneOf is_whitespace host
    → trim_end_matches is_dot host ≡ host
    → normalize_host host ≡ to_ascii_lowercase host
unfolding normalize_host without_port
normalize_host_lem host p q r = ground (arith, trim-NoneOf host q, rsplit_once-none b':' host p, r)

-- A host names a community exactly if, in lower case, it is the name and a dot before the suffix,
-- and the name is not empty and has no dot. A port after the host makes no difference. That is for
-- hosts without white space or a colon that do not end with a dot, and ports without white space or
-- a colon.
pub community_name_from_host-Names :
    (host port suffix name : Text)
    → any is_colon host ≡ false
    → any is_colon port ≡ false
    → any is_whitespace host ≡ false
    → any is_whitespace port ≡ false
    → trim_end_matches is_dot host ≡ host
    → ((community_name_from_host host suffix ≡ some name)
        ↔ Names (to_ascii_lowercase host) suffix name)
      × (community_name_from_host (host ++ b':' ∷ port) suffix
          ≡ community_name_from_host host suffix)
unfolding community_name_from_host
community_name_from_host-Names host port suffix name p q r s no_dot =
    let ws = any-NoneOf is_whitespace host r in
    let plain = normalize_host_lem host (any-NoneOf is_colon host p) ws no_dot in
    let ported =
      normalize_host-port host port (any-NoneOf is_colon port q)
        (NoneOf-append is_whitespace host (b':' ∷ port) ws (refl, any-NoneOf is_whitespace port s))
        no_dot in
    let names = name_of_iff suffix (to_ascii_lowercase host) name in
    let found = ap (λ h. name_of (strip_suffix suffix h)) plain in
    (
      (λ e. names.0 (sym found ∙ e), λ h. found ∙ names.1 h),
      ap (λ h. name_of (strip_suffix suffix h)) (ported ∙ sym plain),
    )
