-- ===== src/Enqueue/Series/Canceled.antt =====
-- Who is told that events of a series were canceled.
use open_community_groups.Prelude.{
  ◌+◌, ◌≡◌, ◌≤◌, refl, sym, ◌∙◌, ap, Bool, true, false, not, ◌&&◌, ◌||◌, String, Option, List, [],
  ◌∷◌, ◌++◌, if◌then◌else◌, nat_eq, contains, count, any, arith,
}
use open_community_groups.Prelude.Result.{Result, ok}
use open_community_groups.Prelude.Exec.{continue_inv, bind_ok}
use open_community_groups.Notifications.Types.{NotificationKind, event_series_canceled}
use open_community_groups.Enqueue.Calls.{Uuid, EventFull, RecipientEvents, Call, World}
use open_community_groups.Enqueue.Recipients.{speakers_ids, times, contains-times}
use open_community_groups.Enqueue.Groups.{group_recipients_by_events}
use open_community_groups.Enqueue.Groups.Once.{Reorders}
use open_community_groups.Enqueue.Series.Maps.{
  added, collected, collected-has_none, count-collected,
}
use open_community_groups.Enqueue.Series.Told.{is_user, has_none, asked-grouped}
use open_community_groups.Enqueue.Series.Ids.{ids_in, concerned_ids, ids_in-collected}
use open_community_groups.Enqueue.Series.Named.{
  asked_for, Reads, named-grouped, asked_for-notify_groups,
}
use open_community_groups.Enqueue.Published.{asked, speaks, contains-speakers_ids}
use open_community_groups.Enqueue.Series.{
  event_series_notification_item, notify_groups, canceled_events, tell_canceled,
  enqueue_event_series_canceled_notifications,
}

abbrev pub is_series_canceled : NotificationKind → Bool
is_series_canceled event_series_canceled = true
is_series_canceled _ = false

module _ (w : World) (map_order : Reorders w.map_order) (group_order : Reorders w.group_order)
    (u : Uuid) where
  asked-tell_canceled :
      (m : RecipientEvents) (s : List Call)
      → count has_none m ≡ 0
      → count (is_user u) m ≤ 1
      → (tell_canceled w m s).0 ≡ ok tt
      → asked is_series_canceled u (tell_canceled w m s).1
        ≡ asked is_series_canceled u s + count (is_user u) m
  unfolding tell_canceled
  asked-tell_canceled [] s f h e = omega arith
  asked-tell_canceled (x ∷ m) s f h e =
      let (settings, read, rest) =
        continue_inv (w.get_site_settings s, Call.get_site_settings ∷ s)
          (λ settings.
            notify_groups w event_series_canceled settings (group_recipients_by_events w (x ∷ m)))
          tt e in
      ap (λ (r : Result String (Unit {0}) × List Call). asked is_series_canceled u r.1) rest
      ∙ asked-grouped w map_order group_order u is_series_canceled event_series_canceled settings
          (x ∷ m) (Call.get_site_settings ∷ s) f h
          (sym (ap (λ (r : Result String (Unit {0}) × List Call). r.0) rest) ∙ e)

module _ (w : World) (map_order : Reorders w.map_order) (group_order : Reorders w.group_order)
    (read : Option String → List Uuid) (reads : Reads w read) (u : Uuid) where
  asked_for-tell_canceled :
      (k : List Uuid) (m : RecipientEvents) (s : List Call)
      → ids_in u m ≡ k
      → count has_none m ≡ 0
      → count (is_user u) m ≤ 1
      → (tell_canceled w m s).0 ≡ ok tt
      → asked_for read is_series_canceled k u (tell_canceled w m s).1
        ≡ asked_for read is_series_canceled k u s + count (is_user u) m
  unfolding tell_canceled
  asked_for-tell_canceled k [] s i f h e = omega arith
  asked_for-tell_canceled k (x ∷ m) s i f h e =
      let (settings, found, rest) =
        continue_inv (w.get_site_settings s, Call.get_site_settings ∷ s)
          (λ settings.
            notify_groups w event_series_canceled settings (group_recipients_by_events w (x ∷ m)))
          tt e in
      ap (λ (r : Result String (Unit {0}) × List Call). asked_for read is_series_canceled k u r.1)
        rest
      ∙ (asked_for-notify_groups w read reads is_series_canceled k u event_series_canceled settings
            (group_recipients_by_events w (x ∷ m)) (Call.get_site_settings ∷ s) refl
            (sym (ap (λ (r : Result String (Unit {0}) × List Call). r.0) rest) ∙ e)
          ∙ ap (λ n. asked_for read is_series_canceled k u s + n)
              (named-grouped w map_order group_order u (x ∷ m) f h k i))

contains-append :
    (u : Uuid) (l m : List Uuid) → contains (l ++ m) u ≡ (contains l u || contains m u)
contains-append u [] m = refl
contains-append u (x ∷ l) m = ground (arith, contains-append u l m)

module _ (w : World) (c g : Uuid) (events : Uuid → EventFull) (attending waiting : Uuid → List Uuid)
    (u : Uuid) where
  -- The database answers the same throughout.
  abbrev pub IsSteady : Type 0
  IsSteady =
      (e : Uuid) (s : List Call)
      → (w.get_event_full c g e s ≡ ok (events e))
        × (w.list_event_attendees_ids g e s ≡ ok (attending e))
        × (w.list_event_waitlist_ids g e s ≡ ok (waiting e))

  -- The event is no test, and the user attends it, waits for a place or speaks there.
  abbrev pub concerns : Uuid → Bool
  concerns e =
      not (events e).test_event
      && (contains (attending e) u || (contains (waiting e) u || speaks u (events e)))

  recipients_of : Uuid → List Uuid
  recipients_of e = w.set_order (attending e ++ (waiting e ++ speakers_ids (events e)))

  module _ (steady : IsSteady) (kind : NotificationKind → Bool) where
    canceled_events-collected :
        (es : List Uuid) (m : RecipientEvents) (s : List Call)
        → ((canceled_events w c g es m s).0 ≡ ok (collected w events recipients_of es m))
          × (asked kind u (canceled_events w c g es m s).1 ≡ asked kind u s)
          × ((read : Option String → List Uuid) (k : List Uuid)
              → asked_for read kind k u (canceled_events w c g es m s).1
                ≡ asked_for read kind k u s)
    unfolding canceled_events collected recipients_of
    canceled_events-collected [] m s = (refl, refl, λ read k. refl)
    canceled_events-collected (e ∷ es) m s =
        let s1 = Call.get_event_full c g e ∷ s in
        let s2 = Call.list_event_attendees_ids g e ∷ s1 in
        let (full, _, _) = steady e s in
        let (_, attendees, _) = steady e s1 in
        let (_, _, waitlist) = steady e s2 in
        rw (full, attendees, waitlist)
          (canceled_events-collected es
            (added (events e).test_event (event_series_notification_item w (events e))
              (recipients_of e) m)
            (Call.list_event_waitlist_ids g e ∷ s2))

  module _
      (set_order : (v : Uuid) (l : List Uuid)
        → times v (w.set_order l) ≡ (if contains l v then 1 else 0)) where
    contains-set_order : (v : Uuid) (l : List Uuid) → contains (w.set_order l) v ≡ contains l v
    contains-set_order v l = ground (arith, contains-times v (w.set_order l), set_order v l)

    recipients_of-once : (e : Uuid) → times u (recipients_of e) ≤ 1
    unfolding recipients_of
    recipients_of-once e =
        ground (arith, set_order u (attending e ++ (waiting e ++ speakers_ids (events e))))

    contains-recipients_of :
        (e : Uuid)
        → contains (recipients_of e) u
          ≡ (contains (attending e) u || (contains (waiting e) u || speaks u (events e)))
    unfolding recipients_of
    contains-recipients_of e =
        contains-set_order u (attending e ++ (waiting e ++ speakers_ids (events e)))
        ∙ (contains-append u (attending e) (waiting e ++ speakers_ids (events e))
            ∙ ap (λ b. contains (attending e) u || b)
                (contains-append u (waiting e) (speakers_ids (events e))
                  ∙ ap (λ b. contains (waiting e) u || b) (contains-speakers_ids u (events e))))

    concerned :
        (e : Uuid) → (not (events e).test_event && contains (recipients_of e) u) ≡ concerns e
    concerned e = ap (λ b. not (events e).test_event && b) (contains-recipients_of e)

  -- While the database answers the same, and whatever the orders of the hash maps, a successful
  -- call for a series asks for one notification of the cancellation for each user that attends,
  -- awaits or speaks at one or more of the events that are no tests, and for none for others;
  -- and for each such user, and no other, it asks for one that names exactly these of the
  -- events, in the order given. A hash set is assumed to have each of its users once, and the
  -- template data, as JSON, to be readable for its events.
  pub enqueue_event_series_canceled_notifications-once :
      IsSteady
      → Reorders w.map_order
      → Reorders w.group_order
      → ((v : Uuid) (l : List Uuid) → times v (w.set_order l) ≡ (if contains l v then 1 else 0))
      → (read : Option String → List Uuid) → Reads w read
      → (es : List Uuid) (s : List Call)
      → (enqueue_event_series_canceled_notifications w c g es s).0 ≡ ok tt
      → (asked is_series_canceled u (enqueue_event_series_canceled_notifications w c g es s).1
          ≡ asked is_series_canceled u s + (if any concerns es then 1 else 0))
        × (asked_for read is_series_canceled
              (concerned_ids w events concerns es)
              u
              (enqueue_event_series_canceled_notifications w c g es s).1
            ≡ asked_for read is_series_canceled (concerned_ids w events concerns es) u s
              + (if any concerns es then 1 else 0))
  unfolding enqueue_event_series_canceled_notifications ids_in
  enqueue_event_series_canceled_notifications-once steady map_order group_order set_order read reads
        es s e =
      let (found, same, same_for) = canceled_events-collected steady is_series_canceled es [] s in
      let s1 = (canceled_events w c g es [] s).1 in
      let m = collected w events recipients_of es [] in
      let k = concerned_ids w events concerns es in
      let run = bind_ok (canceled_events w c g es []) (tell_canceled w) s m found in
      let told = sym (ap (λ (r : Result String (Unit {0}) × List Call). r.0) run) ∙ e in
      let counted = count-collected w events recipients_of u concerns (concerned set_order) es [] in
      let full = collected-has_none w events recipients_of es [] refl in
      let one : count (is_user u) m ≤ 1 = ground (arith, counted) in
      let ids =
        ids_in-collected w events concerns recipients_of u (concerned set_order)
          (recipients_of-once set_order) es [] in
      (
        ap (λ (r : Result String (Unit {0}) × List Call). asked is_series_canceled u r.1) run
            ∙ (asked-tell_canceled w map_order group_order u m s1 full one told
                ∙ ground (arith, same, counted)),
        ap (λ (r : Result String (Unit {0}) × List Call). asked_for read is_series_canceled k u r.1)
              run
            ∙ (asked_for-tell_canceled w map_order group_order read reads u k m s1 ids full one told
                ∙ ground (arith, same_for read k, counted)),
      )
