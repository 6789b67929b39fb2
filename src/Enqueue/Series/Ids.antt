-- ===== src/Enqueue/Series/Ids.antt =====
-- The ids of the events that concern a user, in the maps of the events of a series.
use open_community_groups.Prelude.{
  ◌≡◌, ◌≤◌, refl, sym, ◌∙◌, ap, Bool, true, false, not, ◌&&◌, List, [], ◌∷◌, ◌++◌, if◌then◌else◌,
  nat_beq, nat_eq, contains, count, any, arith, Bool-cases, inl, inr,
}
use mathlib.Core.List.{append-nil, append_assoc}
use open_community_groups.Enqueue.Calls.{
  Uuid, EventFull, EventSeriesNotificationItem, RecipientEvents, World,
}
use open_community_groups.Enqueue.Recipients.{times, contains-times}
use open_community_groups.Enqueue.Groups.{push_event, push_all, ids_of}
use open_community_groups.Enqueue.Groups.Once.{is_entry, same_refl}
use open_community_groups.Enqueue.Series.{event_series_notification_item}
use open_community_groups.Enqueue.Series.Told.{is_user, has_none}
use open_community_groups.Enqueue.Series.Maps.{added, collected}

-- The ids of the events that a map gives a user.
unfoldable pub ids_in : Uuid → RecipientEvents → List Uuid
ids_in u [] = []
ids_in u ((v, events) ∷ m) = let rest = ids_in u m in if nat_beq v u then ids_of events else rest

pub any-is_entry :
    (k : List Uuid) (u : Uuid) (m : RecipientEvents)
    → ids_in u m ≡ k
    → count (is_user u) m ≡ 1
    → any (is_entry k u) m ≡ true
unfolding ids_in
any-is_entry k u [] e h = absurd (omega arith)
any-is_entry k u ((v, events) ∷ m) e h = elim (Bool-cases (nat_beq v u)) [
  | inl p ↦ ground (arith, p, e, h, same_refl k)
  | inr p ↦ ground (arith, p, any-is_entry k u m (ground (arith, p, e)) (ground (arith, p, h)))
]

pub ids_in-nil :
    (u : Uuid) (m : RecipientEvents)
    → count has_none m ≡ 0
    → ids_in u m ≡ []
    → count (is_user u) m ≡ 0
unfolding ids_in
ids_in-nil u [] f e = refl
ids_in-nil u ((v, []) ∷ m) f e = absurd (omega (arith, f))
ids_in-nil u ((v, item ∷ items) ∷ m) f e = elim (Bool-cases (nat_beq v u)) [
  | inl p ↦ absurd (ground (arith, p, e))
  | inr p ↦ ground (arith, p, ids_in-nil u m (ground (arith, f)) (ground (arith, p, e)))
]

pub ids_in-cons :
    (x : Uuid) (xs : List Uuid) (u : Uuid) (m : RecipientEvents)
    → ids_in u m ≡ x ∷ xs
    → 1 ≤ count (is_user u) m
unfolding ids_in
ids_in-cons x xs u [] e = absurd (cc)
ids_in-cons x xs u ((v, events) ∷ m) e = elim (Bool-cases (nat_beq v u)) [
  | inl p ↦ ground (arith, p)
  | inr p ↦ ground (arith, p, ids_in-cons x xs u m (ground (arith, p, e)))
]

ids_of-append :
    (item : EventSeriesNotificationItem) (l : List EventSeriesNotificationItem)
    → ids_of (l ++ (item ∷ [])) ≡ ids_of l ++ (item.event.event_id ∷ [])
ids_of-append item [] = refl
ids_of-append item (x ∷ l) = ap (λ r. x.event.event_id ∷ r) (ids_of-append item l)

module _ (u : Uuid) (item : EventSeriesNotificationItem) where
  -- One more event, for a user that it concerns.
  abbrev more : Bool → List Uuid → List Uuid
  more b ids = if b then ids ++ (item.event.event_id ∷ []) else ids

  ids_in-push_event :
      (v : Uuid) (m : RecipientEvents)
      → ids_in u (push_event item v m) ≡ more (nat_beq v u) (ids_in u m)
  unfolding ids_in push_event
  ids_in-push_event v [] = ground arith
  ids_in-push_event v ((x, events) ∷ m) =
      ground (arith, ids_of-append item events, ids_in-push_event v m)

  ids_in-push_all :
      (us : List Uuid) (m : RecipientEvents)
      → times u us ≤ 1
      → ids_in u (push_all item us m) ≡ more (contains us u) (ids_in u m)
  unfolding push_all
  ids_in-push_all [] m h = refl
  ids_in-push_all (v ∷ us) m h = ground (
    arith,
    h,
    contains-times u us,
    ids_in-push_event v m,
    ids_in-push_all us (push_event item v m),
  )

  ids_in-added :
      (test : Bool) (us : List Uuid) (m : RecipientEvents)
      → times u us ≤ 1
      → ids_in u (added test item us m) ≡ more (not test && contains us u) (ids_in u m)
  ids_in-added true us m h = refl
  ids_in-added false us m h = ids_in-push_all us m h

module _ (w : World) (events : Uuid → EventFull) (concerns : Uuid → Bool) where
  -- The ids of those of the events that concern the user, in their order.
  abbrev pub concerned_ids : List Uuid → List Uuid
  concerned_ids [] = []
  concerned_ids (e ∷ es) =
      let rest = concerned_ids es in if concerns e then (events e).summary.event_id ∷ rest else rest

  module _ (recipients_of : Uuid → List Uuid) (u : Uuid)
      (same : (e : Uuid) → (not (events e).test_event && contains (recipients_of e) u) ≡ concerns e)
      (once : (e : Uuid) → times u (recipients_of e) ≤ 1) where
    pub ids_in-collected :
        (es : List Uuid) (m : RecipientEvents)
        → ids_in u (collected w events recipients_of es m) ≡ ids_in u m ++ concerned_ids es
    unfolding collected
    ids_in-collected [] m = sym (append-nil (ids_in u m))
    ids_in-collected (e ∷ es) m =
        let item = event_series_notification_item w (events e) in
        let m' = added (events e).test_event item (recipients_of e) m in
        let step =
          ids_in-added u item (events e).test_event (recipients_of e) m (once e)
          ∙ ap (λ b. more u item b (ids_in u m)) (same e) in
        ids_in-collected es m'
        ∙ (ap (λ l. l ++ concerned_ids es) step ∙ by_case (concerns e) (concerned_ids es) item m)
      where
        by_case :
            (b : Bool) (rest : List Uuid) (item : EventSeriesNotificationItem) (m : RecipientEvents)
            → more u item b (ids_in u m) ++ rest
              ≡ ids_in u m ++ (if b then item.event.event_id ∷ rest else rest)
        by_case true rest item m = append_assoc (ids_in u m) (item.event.event_id ∷ []) rest
        by_case false rest item m = refl
