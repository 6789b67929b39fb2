-- ===== src/Enqueue/Series.antt =====
-- ocg-server/src/services/notifications/enqueue.rs: notifications of the events of a series.
pub mod Told
pub mod Maps
pub mod Ids
pub mod Named
pub mod Announced
pub mod Canceled
use open_community_groups.Prelude.{String, none, some, List, [], ◌∷◌, ◌++◌, length, if◌then◌else◌}
use open_community_groups.Prelude.Exec.{◌>>=◌, ◌>>◌, pure}
use open_community_groups.Notifications.Types.{
  NotificationKind, event_series_canceled, event_series_published, speaker_series_welcome,
}
use open_community_groups.Enqueue.Calls.{
  Uuid, EventSummary, EventFull, EventSeriesNotificationItem, RecipientEvents,
  EventSeriesNotificationGroup, SeriesData, World,
}
use open_community_groups.Enqueue.Recipients.{sort_ids, dedup, speakers_ids}
use open_community_groups.Enqueue.Groups.{push_all, group_recipients_by_events}
use open_community_groups.Enqueue.{
  Enqueue, event_full, site_settings, attendees, waitlist, members, team_members, enqueue, returned,
  without,
}

-- The template data of a group, which starts with the given event.
abbrev pub series_data :
    NotificationKind → EventSummary → List EventSeriesNotificationItem → String → SeriesData
series_data kind first events theme = record {
  community_display_name = elim kind [
    | event_series_published ↦ some first.community_display_name
    | _ ↦ none
  ];
  event_count = length events;
  events = events;
  group_name = first.group_name;
  theme = theme;
}

module _ (w : World) where
  abbrev pub event_series_notification_item : EventFull → EventSeriesNotificationItem
  event_series_notification_item event = record {
    event = event.summary;
    link = w.build_event_page_link event.summary;
  }

  -- One notification for the group, unless it has no events.
  unfoldable pub notify_group :
      NotificationKind → String → List Uuid → List EventSeriesNotificationItem → Enqueue (Unit {0})
  notify_group kind settings recipients [] = pure tt
  notify_group kind settings recipients (item ∷ items) = do
    template_data ←
        returned w (w.to_value (series_data kind item.event (item ∷ items) (w.theme settings)))
    enqueue w (record { kind = kind; recipients = recipients; template_data = some template_data })

  unfoldable pub notify_groups :
      NotificationKind → String → List EventSeriesNotificationGroup → Enqueue (Unit {0})
  unfolding notify_group
  notify_groups kind settings [] = pure tt
  notify_groups kind settings (group ∷ groups) =
      notify_group kind settings group.recipients group.events >> notify_groups kind settings groups

  -- The canceled occurrences of each user that they concern.
  unfoldable pub canceled_events :
      Uuid → Uuid → List Uuid → RecipientEvents → Enqueue RecipientEvents
  unfolding push_all speakers_ids
  canceled_events c g [] m = pure m
  canceled_events c g (e ∷ es) m = do
    event ← event_full w c g e
    attendee_ids ← attendees w g e
    waitlist_ids ← waitlist w g e
    let recipients = w.set_order (attendee_ids ++ (waitlist_ids ++ speakers_ids event))
    canceled_events c g es (
        if event.test_event
        then m
        else push_all (event_series_notification_item event) recipients m)

  unfoldable pub tell_canceled : RecipientEvents → Enqueue (Unit {0})
  unfolding notify_groups group_recipients_by_events
  tell_canceled [] = pure tt
  tell_canceled (x ∷ m) = do
    settings ← site_settings w
    notify_groups event_series_canceled settings (group_recipients_by_events w (x ∷ m))

  unfoldable pub enqueue_event_series_canceled_notifications :
      Uuid → Uuid → List Uuid → Enqueue (Unit {0})
  unfolding canceled_events tell_canceled
  enqueue_event_series_canceled_notifications c g event_ids = do
    recipient_events ← canceled_events c g event_ids []
    tell_canceled recipient_events

  -- The published occurrences of each member that does not speak there, and of each speaker.
  unfoldable pub published_events :
      Uuid
      → Uuid
      → List Uuid
      → List Uuid
      → RecipientEvents × RecipientEvents
      → Enqueue (RecipientEvents × RecipientEvents)
  unfolding push_all speakers_ids
  published_events c g member_ids [] maps = pure maps
  published_events c g member_ids (e ∷ es) (member_events, speaker_events) = do
    event ← event_full w c g e
    let item = event_series_notification_item event
    let speakers = speakers_ids event
    published_events c g member_ids es (
        if event.test_event then (member_events, speaker_events) else (
          push_all item (without speakers member_ids) member_events,
          push_all item speakers speaker_events,
        ))

  unfoldable pub tell_both : RecipientEvents → RecipientEvents → Enqueue (Unit {0})
  unfolding notify_groups group_recipients_by_events
  tell_both member_events speaker_events = do
    settings ← site_settings w
    notify_groups event_series_published settings (group_recipients_by_events w member_events)
    notify_groups speaker_series_welcome settings (group_recipients_by_events w speaker_events)

  unfoldable pub tell_published : RecipientEvents × RecipientEvents → Enqueue (Unit {0})
  unfolding tell_both
  tell_published ([], []) = pure tt
  tell_published (member_events, speaker_events) = tell_both member_events speaker_events

  unfoldable pub enqueue_event_series_published_notifications :
      Uuid → Uuid → List Uuid → Enqueue (Unit {0})
  unfolding published_events tell_published dedup sort_ids
  enqueue_event_series_published_notifications c g event_ids = do
    group_member_ids ← members w g
    team_member_ids ← team_members w g
    maps ←
        published_events c g (dedup (sort_ids (group_member_ids ++ team_member_ids))) event_ids
          ([], [])
    tell_published maps
