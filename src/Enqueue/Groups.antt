-- ===== src/Enqueue/Groups.antt =====
-- ocg-server/src/services/notifications/enqueue.rs: the recipients of the notifications of a series,
-- grouped by the events that concern them. The order in which a hash map gives its entries is a
-- parameter.
pub mod Once
use open_community_groups.Prelude.{
  ℕ, Bool, true, false, Option, none, some, List, [], ◌∷◌, ◌++◌, map, if◌then◌else◌, leb, nat_beq,
  nat_eq, list_same,
}
use open_community_groups.Enqueue.Calls.{
  Uuid, EventSeriesNotificationItem, RecipientEvents, EventSeriesNotificationGroup, World,
}
use open_community_groups.Enqueue.Recipients.{sort_ids, dedup}

-- `recipient_events.entry(recipient).or_default().push(event)`
unfoldable pub push_event : EventSeriesNotificationItem → Uuid → RecipientEvents → RecipientEvents
push_event event u [] = (u, event ∷ []) ∷ []
push_event event u ((v, events) ∷ m) =
    let rest = (v, events) ∷ push_event event u m in
    if nat_beq u v then (v, events ++ (event ∷ [])) ∷ m else rest

unfoldable pub push_all :
    EventSeriesNotificationItem → List Uuid → RecipientEvents → RecipientEvents
unfolding push_event
push_all event [] m = m
push_all event (u ∷ us) m = push_all event us (push_event event u m)

abbrev pub ids_of : List EventSeriesNotificationItem → List Uuid
ids_of [] = []
ids_of (item ∷ items) = item.event.event_id ∷ ids_of items

abbrev pub Keyed : Type 0
Keyed = List (List Uuid × EventSeriesNotificationGroup)

-- `groups.entry(key).or_insert_with(...).recipients.push(recipient)`
unfoldable pub add_to_group : List Uuid → Uuid → List EventSeriesNotificationItem → Keyed → Keyed
add_to_group key u events [] = (key, record { events = events; recipients = u ∷ [] }) ∷ []
add_to_group key u events ((k, g) ∷ gs) =
    let rest = (k, g) ∷ add_to_group key u events gs in
    if list_same k key then (k, record g { recipients = g.recipients ++ (u ∷ []) }) ∷ gs else rest

unfoldable pub group_all : RecipientEvents → Keyed → Keyed
unfolding add_to_group
group_all [] gs = gs
group_all ((u, events) ∷ m) gs = group_all m (add_to_group (ids_of events) u events gs)

unfoldable pub values : Keyed → List EventSeriesNotificationGroup
values [] = []
values ((k, g) ∷ gs) = g ∷ values gs

abbrev pub normalized : EventSeriesNotificationGroup → EventSeriesNotificationGroup
normalized g = record g { recipients = dedup (sort_ids g.recipients) }

abbrev pub first_id : EventSeriesNotificationGroup → Option Uuid
first_id g = elim g.events [ [] ↦ none | item ∷ items ↦ some item.event.event_id ]

-- `cmp` on optional ids is not greater.
abbrev pub first_leb : Option Uuid → Option Uuid → Bool
first_leb none y = true
first_leb (some a) none = false
first_leb (some a) (some b) = leb a b

unfoldable pub insert_group :
    EventSeriesNotificationGroup
    → List EventSeriesNotificationGroup
    → List EventSeriesNotificationGroup
insert_group g [] = g ∷ []
insert_group g (h ∷ hs) =
    let rest = h ∷ insert_group g hs in
    if first_leb (first_id g) (first_id h) then g ∷ (h ∷ hs) else rest

unfoldable pub sort_groups : List EventSeriesNotificationGroup → List EventSeriesNotificationGroup
unfolding insert_group
sort_groups [] = []
sort_groups (g ∷ gs) = insert_group g (sort_groups gs)

unfoldable pub group_recipients_by_events :
    World → RecipientEvents → List EventSeriesNotificationGroup
unfolding group_all values sort_groups dedup sort_ids
group_recipients_by_events w m =
    sort_groups (map normalized (w.group_order (values (group_all (w.map_order m) []))))
