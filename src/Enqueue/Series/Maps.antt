-- ===== src/Enqueue/Series/Maps.antt =====
-- The maps from users to events that the loops over the events of a series make.
use open_community_groups.Prelude.{
  ℕ, ◌≡◌, refl, ◌∙◌, ap, Bool, true, false, not, ◌&&◌, ◌||◌, List, [], ◌∷◌, ◌++◌, if◌then◌else◌,
  nat_beq, nat_eq, is_empty, contains, count, any, arith,
}
use open_community_groups.Enqueue.Calls.{
  Uuid, EventFull, EventSeriesNotificationItem, RecipientEvents, World,
}
use open_community_groups.Enqueue.Groups.{push_event, push_all}
use open_community_groups.Enqueue.Series.Told.{is_user, has_none}
use open_community_groups.Enqueue.Series.{event_series_notification_item}

is_empty-push :
    (item : EventSeriesNotificationItem) (l : List EventSeriesNotificationItem)
    → is_empty (l ++ (item ∷ [])) ≡ false
is_empty-push item [] = refl
is_empty-push item (x ∷ l) = refl

push_event-has_none :
    (item : EventSeriesNotificationItem) (v : Uuid) (m : RecipientEvents)
    → count has_none m ≡ 0
    → count has_none (push_event item v m) ≡ 0
unfolding push_event
push_event-has_none item v [] e = refl
push_event-has_none item v ((x, events) ∷ m) e =
    ground (arith, e, is_empty-push item events, push_event-has_none item v m)

push_all-has_none :
    (item : EventSeriesNotificationItem) (us : List Uuid) (m : RecipientEvents)
    → count has_none m ≡ 0
    → count has_none (push_all item us m) ≡ 0
unfolding push_all
push_all-has_none item [] m e = e
push_all-has_none item (v ∷ us) m e =
    push_all-has_none item us (push_event item v m) (push_event-has_none item v m e)

-- A user that is concerned is put in the map.
abbrev pub put : Bool → ℕ → ℕ
put b n = if b && nat_beq n 0 then 1 else n

count-push_event :
    (u : Uuid) (item : EventSeriesNotificationItem) (v : Uuid) (m : RecipientEvents)
    → count (is_user u) (push_event item v m) ≡ put (nat_beq v u) (count (is_user u) m)
unfolding push_event
count-push_event u item v [] = ground arith
count-push_event u item v ((x, events) ∷ m) = ground (arith, count-push_event u item v m)

count-push_all :
    (u : Uuid) (item : EventSeriesNotificationItem) (us : List Uuid) (m : RecipientEvents)
    → count (is_user u) (push_all item us m) ≡ put (contains us u) (count (is_user u) m)
unfolding push_all
count-push_all u item [] m = refl
count-push_all u item (v ∷ us) m =
    ground (arith, count-push_all u item us (push_event item v m), count-push_event u item v m)

abbrev pub added :
    Bool → EventSeriesNotificationItem → List Uuid → RecipientEvents → RecipientEvents
added test item us m = if test then m else push_all item us m

added-has_none :
    (test : Bool) (item : EventSeriesNotificationItem) (us : List Uuid) (m : RecipientEvents)
    → count has_none m ≡ 0
    → count has_none (added test item us m) ≡ 0
added-has_none true item us m h = h
added-has_none false item us m h = push_all-has_none item us m h

count-added :
    (u : Uuid) (test : Bool) (item : EventSeriesNotificationItem) (us : List Uuid)
    (m : RecipientEvents)
    → count (is_user u) (added test item us m)
      ≡ put (not test && contains us u) (count (is_user u) m)
count-added u true item us m = refl
count-added u false item us m = count-push_all u item us m

put-put : (a b : Bool) (n : ℕ) → put b (put a n) ≡ put (a || b) n
put-put a b n = ground arith

-- The map that the loop over the events makes: `recipients_of` an event are given it, unless it is a test.
module _ (w : World) (events : Uuid → EventFull) (recipients_of : Uuid → List Uuid) where
  unfoldable pub collected : List Uuid → RecipientEvents → RecipientEvents
  collected [] m = m
  collected (e ∷ es) m = collected es (
      added (events e).test_event (event_series_notification_item w (events e)) (recipients_of e) m)

  pub collected-has_none :
      (es : List Uuid) (m : RecipientEvents)
      → count has_none m ≡ 0
      → count has_none (collected es m) ≡ 0
  unfolding collected
  collected-has_none [] m h = h
  collected-has_none (e ∷ es) m h =
      let item = event_series_notification_item w (events e) in
      collected-has_none es (added (events e).test_event item (recipients_of e) m)
        (added-has_none (events e).test_event item (recipients_of e) m h)

  module _ (u : Uuid) (concerns : Uuid → Bool)
      (same : (e : Uuid)
        → (not (events e).test_event && contains (recipients_of e) u) ≡ concerns e) where
    pub count-collected :
        (es : List Uuid) (m : RecipientEvents)
        → count (is_user u) (collected es m) ≡ put (any concerns es) (count (is_user u) m)
    unfolding collected
    count-collected [] m = refl
    count-collected (e ∷ es) m =
        let item = event_series_notification_item w (events e) in
        count-collected es (added (events e).test_event item (recipients_of e) m)
        ∙ (ap (put (any concerns es)) (
              count-added u (events e).test_event item (recipients_of e) m
              ∙ ap (λ b. put b (count (is_user u) m)) (same e))
            ∙ put-put (concerns e) (any concerns es) (count (is_user u) m))
