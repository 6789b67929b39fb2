-- ===== src/Enqueue/Groups/Once.antt =====
-- Each recipient of a series is in one group, that of its events.
use open_community_groups.Prelude.{
  ℕ, ◌+◌, ◌≡◌, refl, sym, ◌∙◌, ap, Bool, true, false, not, ◌&&◌, ◌||◌, List, [], ◌∷◌, ◌++◌, map,
  if◌then◌else◌, nat_beq, nat_eq, list_same, list_same_exact, contains, count, any, arith,
  Bool-cases, inl, inr,
}
use open_community_groups.Enqueue.Calls.{
  Uuid, EventSeriesNotificationItem, RecipientEvents, EventSeriesNotificationGroup, World,
}
use open_community_groups.Enqueue.Recipients.{contains-dedup}
use open_community_groups.Enqueue.Groups.{
  ids_of, Keyed, add_to_group, group_all, values, normalized, insert_group, sort_groups,
  group_recipients_by_events,
}

-- The list is only put in another order.
abbrev pub Reorders : {A : Type 0} → (List A → List A) → Type 0
Reorders {A} f = (test : A → Bool) (l : List A) → count test (f l) ≡ count test l

module _ (k : List Uuid) (u : Uuid) where
  -- The group has these events and the recipient.
  abbrev pub is_in_group : EventSeriesNotificationGroup → Bool
  is_in_group g = list_same (ids_of g.events) k && contains g.recipients u

  -- The recipient is concerned by these events.
  abbrev pub is_entry : Uuid × List EventSeriesNotificationItem → Bool
  is_entry (v, events) = list_same (ids_of events) k && nat_beq v u

has : List Uuid → Keyed → Bool
has k [] = false
has k ((k', g) ∷ gs) = list_same k' k || has k gs

-- Each group stands under the ids of its events, no two under the same.
IsGrouped : Keyed → Type 0
unfolding has
IsGrouped [] = Unit
IsGrouped ((k, g) ∷ gs) = (k ≡ ids_of g.events) × (has k gs ≡ false) × IsGrouped gs

hits : List Uuid → Uuid → Keyed → ℕ
hits k u [] = 0
hits k u ((k', g) ∷ gs) =
    let rest = hits k u gs in if list_same k' k && contains g.recipients u then 1 + rest else rest

same_key : (k k' : List Uuid) → list_same k k' ≡ true → k ≡ k'
same_key k k' e = (list_same_exact k k').1 e

pub same_refl : (k : List Uuid) → list_same k k ≡ true
same_refl k = (list_same_exact k k).0 refl

differ : (k k' : List Uuid) → list_same k' k ≡ false → list_same k k' ≡ false
differ k k' e = elim (Bool-cases (list_same k k')) [
  | inl p ↦ absurd (ground (arith, e, same_key k k' p, same_refl k))
  | inr p ↦ p
]

hits-has : (k : List Uuid) (u : Uuid) (gs : Keyed) → has k gs ≡ false → hits k u gs ≡ 0
unfolding hits has
hits-has k u [] e = refl
hits-has k u ((k', g) ∷ gs) e = elim (Bool-cases (list_same k' k)) [
  | inl p ↦ absurd (ground (arith, p, e))
  | inr p ↦ ground (arith, p, e, hits-has k u gs)
]

has-add :
    (k key : List Uuid) (u : Uuid) (events : List EventSeriesNotificationItem) (gs : Keyed)
    → has k (add_to_group key u events gs) ≡ (list_same key k || has k gs)
unfolding has add_to_group
has-add k key u events [] = refl
has-add k key u events ((k', g) ∷ gs) = elim (Bool-cases (list_same k' key)) [
  | inl p ↦ ground (arith, p, same_key k' key p)
  | inr p ↦ ground (arith, p, has-add k key u events gs)
]

add_to_group-IsGrouped :
    (u : Uuid) (events : List EventSeriesNotificationItem) (gs : Keyed)
    → IsGrouped gs
    → IsGrouped (add_to_group (ids_of events) u events gs)
unfolding IsGrouped add_to_group
add_to_group-IsGrouped u events [] s = (refl, refl, tt)
add_to_group-IsGrouped u events ((k, g) ∷ gs) (a, b, c) =
    elim (Bool-cases (list_same k (ids_of events))) [
      | inl p ↦ rw p (a, b, c)
      | inr p ↦ rw p (
        a,
        (has-add k (ids_of events) u events gs ∙ (ground (arith, b, differ (ids_of events) k p))),
        add_to_group-IsGrouped u events gs c,
      )
    ]

pub contains-push :
    (u v : Uuid) (us : List Uuid) → contains (us ++ (v ∷ [])) u ≡ (contains us u || nat_beq v u)
contains-push u v [] = ground arith
contains-push u v (x ∷ us) = ground (arith, contains-push u v us)

hits-add :
    (k key : List Uuid) (u v : Uuid) (events : List EventSeriesNotificationItem) (gs : Keyed)
    → IsGrouped gs
    → hits k u (add_to_group key v events gs)
      ≡ (if list_same key k && nat_beq v u then 1 else hits k u gs)
unfolding hits IsGrouped add_to_group
hits-add k key u v events [] s = ground arith
hits-add k key u v events ((k', g) ∷ gs) (a, b, c) = elim (Bool-cases (list_same k' key)) [
  | inl p ↦ elim (Bool-cases (list_same k' k)) [
    | inl q ↦ rw p (
        rw (sym (ap (λ z. list_same z k) (same_key k' key p))) (
          ground (
            arith,
            p,
            q,
            hits-has k u gs (sym (ap (λ z. has z gs) (same_key k' k q)) ∙ b),
            contains-push u v g.recipients,
          )))
    | inr q ↦ rw p (rw (sym (ap (λ z. list_same z k) (same_key k' key p))) (ground (arith, p, q)))
  ]
  | inr p ↦ elim (Bool-cases (list_same key k)) [
    | inl q ↦ rw p (
        ground (
          arith,
          q,
          sym (ap (list_same k') (same_key key k q)) ∙ p,
          hits-add k key u v events gs c,
        ))
    | inr q ↦ rw p (ground (arith, q, hits-add k key u v events gs c))
  ]
]

group_all-hits :
    (k : List Uuid) (u : Uuid) (m : RecipientEvents) (gs : Keyed)
    → IsGrouped gs
    → hits k u (group_all m gs) ≡ (if any (is_entry k u) m then 1 else hits k u gs)
unfolding group_all
group_all-hits k u [] gs s = refl
group_all-hits k u ((v, events) ∷ m) gs s =
    group_all-hits k u m (add_to_group (ids_of events) v events gs)
      (add_to_group-IsGrouped v events gs s)
    ∙ ground (arith, hits-add k (ids_of events) u v events gs s)

group_all-IsGrouped : (m : RecipientEvents) (gs : Keyed) → IsGrouped gs → IsGrouped (group_all m gs)
unfolding group_all
group_all-IsGrouped [] gs s = s
group_all-IsGrouped ((v, events) ∷ m) gs s =
    group_all-IsGrouped m (add_to_group (ids_of events) v events gs)
      (add_to_group-IsGrouped v events gs s)

count-values :
    (k : List Uuid) (u : Uuid) (gs : Keyed)
    → IsGrouped gs
    → count (is_in_group k u) (values gs) ≡ hits k u gs
unfolding values hits IsGrouped
count-values k u [] s = refl
count-values k u ((k', g) ∷ gs) (a, b, c) =
    ground (arith, ap (λ z. list_same z k) a, count-values k u gs c)

pub count-normalized :
    (k : List Uuid) (u : Uuid) (gs : List EventSeriesNotificationGroup)
    → count (is_in_group k u) (map normalized gs) ≡ count (is_in_group k u) gs
count-normalized k u [] = refl
count-normalized k u (g ∷ gs) =
    ground (arith, contains-dedup u g.recipients, count-normalized k u gs)

module _ (test : EventSeriesNotificationGroup → Bool) where
  count-insert :
      (g : EventSeriesNotificationGroup) (gs : List EventSeriesNotificationGroup)
      → count test (insert_group g gs) ≡ count test (g ∷ gs)
  unfolding insert_group
  count-insert g [] = refl
  count-insert g (h ∷ hs) = ground (arith, count-insert g hs)

  pub count-sort :
      (gs : List EventSeriesNotificationGroup) → count test (sort_groups gs) ≡ count test gs
  unfolding sort_groups
  count-sort [] = refl
  count-sort (g ∷ gs) = ground (arith, count-insert g (sort_groups gs), count-sort gs)

any-count :
    {A : Type 0} (test : A → Bool) (l : List A) → any test l ≡ not (nat_beq (count test l) 0)
any-count test [] = refl
any-count test (x ∷ l) = ground (arith, any-count test l)

any-Reorders :
    {A : Type 0} (f : List A → List A)
    → Reorders f
    → (test : A → Bool) (l : List A) → any test (f l) ≡ any test l
any-Reorders f r test l = ground (arith, any-count test (f l), any-count test l, r test l)

-- Whatever the orders of the hash maps, a recipient is in one of the groups with a list of event
-- ids if the map gives the recipient events of these ids, and else in none.
pub group_recipients_by_events-once :
    (w : World)
    → Reorders w.map_order
    → Reorders w.group_order
    → (m : RecipientEvents) (k : List Uuid) (u : Uuid)
    → count (is_in_group k u) (group_recipients_by_events w m)
      ≡ (if any (is_entry k u) m then 1 else 0)
unfolding group_recipients_by_events IsGrouped hits
group_recipients_by_events-once w mo go m k u =
    let gs = group_all (w.map_order m) [] in
    count-sort (is_in_group k u) (map normalized (w.group_order (values gs)))
    ∙ (count-normalized k u (w.group_order (values gs))
        ∙ (go (is_in_group k u) (values gs)
            ∙ (count-values k u gs (group_all-IsGrouped (w.map_order m) [] tt)
                ∙ (group_all-hits k u (w.map_order m) [] tt
                    ∙ ap (λ b. if b then 1 else 0)
                        (any-Reorders w.map_order mo (is_entry k u) m)))))
