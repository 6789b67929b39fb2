-- ===== src/Enqueue/Series/Named.antt =====
-- Which events the notifications of a series name to a user.
use open_community_groups.Prelude.{
  ℕ, ◌+◌, ◌≡◌, ◌≤◌, refl, sym, ◌∙◌, ap, Bool, true, not, ◌&&◌, String, Option, some, List, [], ◌∷◌,
  map, if◌then◌else◌, nat_eq, is_empty, list_same, count, arith, Bool-cases, inl, inr,
}
use open_community_groups.Prelude.Result.{Result, ok, Result-cases}
use open_community_groups.Prelude.Exec.{continue_inv}
use open_community_groups.Notifications.Types.{NotificationKind}
use open_community_groups.Enqueue.Calls.{
  Uuid, EventSeriesNotificationItem, RecipientEvents, EventSeriesNotificationGroup, SeriesData,
  Call, World,
}
use open_community_groups.Enqueue.Recipients.{times, times-dedup}
use open_community_groups.Enqueue.Groups.{
  group_all, values, normalized, insert_group, sort_groups, ids_of, group_recipients_by_events,
}
use open_community_groups.Enqueue.Groups.Once.{
  Reorders, is_in_group, count-normalized, count-sort, group_recipients_by_events-once,
}
use open_community_groups.Enqueue.Series.{series_data, notify_group, notify_groups}
use open_community_groups.Enqueue.Series.Told.{is_user, has_none}
use open_community_groups.Enqueue.Series.Ids.{ids_in, any-is_entry, ids_in-nil, ids_in-cons}

-- How often a user is a recipient of a notification of the kind that names these events.
abbrev pub asked_for :
    (Option String → List Uuid) → (NotificationKind → Bool) → List Uuid → Uuid → List Call → ℕ
asked_for read kind k u [] = 0
asked_for read kind k u (Call.enqueue_notification n ∷ s) =
    let rest = asked_for read kind k u s in
    if kind n.kind && list_same (read n.template_data) k then times u n.recipients + rest else rest
asked_for read kind k u (_ ∷ s) = asked_for read kind k u s

-- The template data of a series, as a JSON value, can be read for the events that it was made of.
abbrev pub Reads : World → (Option String → List Uuid) → Type 0
Reads w read = (d : SeriesData) (v : String) → w.to_value d ≡ ok v → read (some v) ≡ ids_of d.events

-- How often the groups of these events have the user.
pub named : List Uuid → Uuid → List EventSeriesNotificationGroup → ℕ
named k u [] = 0
named k u (g ∷ gs) =
    (if is_empty g.events
      then 0
      else if list_same (ids_of g.events) k
      then times u g.recipients
      else 0)
    + named k u gs

module _ (k : List Uuid) (u : Uuid) where
  named-insert :
      (g : EventSeriesNotificationGroup) (gs : List EventSeriesNotificationGroup)
      → named k u (insert_group g gs) ≡ named k u (g ∷ gs)
  unfolding named insert_group
  named-insert g [] = refl
  named-insert g (h ∷ hs) = ground (arith, named-insert g hs)

  named-sort : (gs : List EventSeriesNotificationGroup) → named k u (sort_groups gs) ≡ named k u gs
  unfolding named sort_groups
  named-sort [] = refl
  named-sort (g ∷ gs) = ground (arith, named-insert g (sort_groups gs), named-sort gs)

ids_of-cons :
    (x : Uuid) (xs : List Uuid) (events : List EventSeriesNotificationItem)
    → list_same (ids_of events) (x ∷ xs)
      ≡ (not (is_empty events) && list_same (ids_of events) (x ∷ xs))
unfolding list_same
ids_of-cons x xs [] = refl
ids_of-cons x xs (item ∷ items) = refl

ids_of-nil :
    (events : List EventSeriesNotificationItem) → list_same (ids_of events) [] ≡ is_empty events
unfolding list_same
ids_of-nil [] = refl
ids_of-nil (item ∷ items) = refl

named-normalized :
    (x : Uuid) (xs : List Uuid) (u : Uuid) (gs : List EventSeriesNotificationGroup)
    → named (x ∷ xs) u (map normalized gs) ≡ count (is_in_group (x ∷ xs) u) gs
unfolding named
named-normalized x xs u [] = refl
named-normalized x xs u (g ∷ gs) =
    let event_ids = ids_of-cons x xs g.events in
    let rest = named-normalized x xs u gs in
    elim (Bool-cases (list_same (ids_of g.events) (x ∷ xs))) [
      | inl p ↦ elim (Bool-cases (is_empty g.events)) [
        | inl q ↦ absurd (ground (arith, event_ids, p, q))
        | inr q ↦ rw (p, q) (ground (arith, p, q, times-dedup u g.recipients, rest))
      ]
      | inr p ↦ elim (Bool-cases (is_empty g.events)) [
        | inl q ↦ rw (p, q) (ground (arith, p, q, rest))
        | inr q ↦ rw (p, q) (ground (arith, p, q, rest))
      ]
    ]

named-nil : (u : Uuid) (gs : List EventSeriesNotificationGroup) → named [] u gs ≡ 0
unfolding named
named-nil u [] = refl
named-nil u (g ∷ gs) = rw (ids_of-nil g.events) (elim (Bool-cases (is_empty g.events)) [
  | inl q ↦ rw q (omega (arith, named-nil u gs))
  | inr q ↦ rw q (omega (arith, named-nil u gs))
])

module _ (w : World) (read : Option String → List Uuid) (reads : Reads w read)
    (kind : NotificationKind → Bool) (k : List Uuid) (u : Uuid) where
  asked_for-notify_group :
      (given : NotificationKind) (settings : String) (g : EventSeriesNotificationGroup)
      (s : List Call)
      → kind given ≡ true
      → (notify_group w given settings g.recipients g.events s).0 ≡ ok tt
      → asked_for read kind k u (notify_group w given settings g.recipients g.events s).1
        ≡ asked_for read kind k u s + named k u (g ∷ [])
  unfolding notify_group named
  asked_for-notify_group given settings g s is_kind e = by_events g.events e
    where
      by_events :
          (events : List EventSeriesNotificationItem)
          → (notify_group w given settings g.recipients events s).0 ≡ ok tt
          → asked_for read kind k u (notify_group w given settings g.recipients events s).1
            ≡ asked_for read kind k u s
              + named k u (record { events = events; recipients = g.recipients } ∷ [])
      by_events [] e = ground arith
      by_events (item ∷ items) e =
          let d = series_data given item.event (item ∷ items) (w.theme settings) in
          elim (Result-cases (w.to_value d)) [
            | inr (x, p) ↦ absurd (ground (arith, p, e))
            | inl (v, p) ↦ ground (arith, p, is_kind, reads d v p)
          ]

  pub asked_for-notify_groups :
      (given : NotificationKind) (settings : String) (groups : List EventSeriesNotificationGroup)
      (s : List Call)
      → kind given ≡ true
      → (notify_groups w given settings groups s).0 ≡ ok tt
      → asked_for read kind k u (notify_groups w given settings groups s).1
        ≡ asked_for read kind k u s + named k u groups
  unfolding notify_groups named
  asked_for-notify_groups given settings [] s is_kind e = ground arith
  asked_for-notify_groups given settings (g ∷ groups) s is_kind e =
      let x = notify_group w given settings g.recipients g.events s in
      let (done, first, last) =
        continue_inv x (λ (_ : Unit {0}). notify_groups w given settings groups) tt e in
      let one = asked_for-notify_group given settings g s is_kind first in
      let two =
        asked_for-notify_groups given settings groups x.1 is_kind
          (sym (ap (λ (r : Result String (Unit {0}) × List Call). r.0) last) ∙ e) in
      ap (λ (r : Result String (Unit {0}) × List Call). asked_for read kind k u r.1) last
      ∙ (two ∙ omega (arith, one))

module _ (w : World) (map_order : Reorders w.map_order) (group_order : Reorders w.group_order)
    (u : Uuid) (m : RecipientEvents) (full : count has_none m ≡ 0)
    (one : count (is_user u) m ≤ 1) where
  -- The groups name to a user that the map has its events, and once.
  pub named-grouped :
      (k : List Uuid)
      → ids_in u m ≡ k
      → named k u (group_recipients_by_events w m) ≡ count (is_user u) m
  unfolding group_recipients_by_events
  named-grouped [] e = named-nil u (group_recipients_by_events w m) ∙ sym (ids_in-nil u m full e)
  named-grouped (x ∷ xs) e =
      let gs = w.group_order (values (group_all (w.map_order m) [])) in
      let is_one : count (is_user u) m ≡ 1 = omega (arith, ids_in-cons x xs u m e, one) in
      named-sort (x ∷ xs) u (map normalized gs)
      ∙ (named-normalized x xs u gs
          ∙ (sym (count-normalized (x ∷ xs) u gs)
              ∙ (sym (count-sort (is_in_group (x ∷ xs) u) (map normalized gs))
                  ∙ (group_recipients_by_events-once w map_order group_order m (x ∷ xs) u
                      ∙ (ap (λ b. if b then 1 else 0) (any-is_entry (x ∷ xs) u m e is_one)
                          ∙ sym is_one)))))
