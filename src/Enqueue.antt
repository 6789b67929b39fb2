-- ===== src/Enqueue.antt =====
-- ocg-server/src/services/notifications/enqueue.rs: who is notified of what happens to an event. The
-- reads of one `try_join!` are made in their order, and the first error ends them.
pub mod Calls
pub mod Recipients
pub mod Published
pub mod Groups
pub mod Series
mod Tests
use open_community_groups.Prelude.{
  ℕ, ◌+◌, ◌-◌, ◌*◌, String, Bool, true, false, not, ◌&&◌, ◌||◌, Option, none, some, List, [], ◌∷◌,
  ◌++◌, is_empty, ltb, leb, contains, nat_eq, if◌then◌else◌, unwrap_or,
}
use open_community_groups.Prelude.Result.{Result, ok, err}
use open_community_groups.Prelude.Exec.{Exec, ◌>>=◌, ◌>>◌, pure, fail, call}
use open_community_groups.Notifications.Types.{NotificationKind}
use open_community_groups.Enqueue.Calls.{
  Uuid, EventSummary, EventFull, NewNotification, Call, World,
}
use open_community_groups.Enqueue.Recipients.{sort_ids, dedup, speakers_ids}

abbrev pub Enqueue : Type 0 → Type 0
Enqueue = Exec Call String

-- `MIN_RESCHEDULE_SHIFT`; times are in nanoseconds.
abbrev min_reschedule_shift : ℕ
min_reschedule_shift = 15 * 60 * 1000000000

-- The users that are no speakers.
abbrev pub without : List Uuid → List Uuid → List Uuid
without speakers [] = []
without speakers (u ∷ us) =
    let rest = without speakers us in if contains speakers u then rest else u ∷ rest

-- `should_send_waitlist_promoted_notification`
should_send_waitlist_promoted_notification : EventSummary → List Uuid → Bool
should_send_waitlist_promoted_notification event recipients =
    not (is_empty recipients) && not event.test_event

is_moved : ℕ → Bool → Option ℕ → Option ℕ → Bool
is_moved now true (some before) (some after) =
    ltb now after && leb min_reschedule_shift ((after - before) + (before - after))
is_moved now published before after = false

module _ (w : World) where
  -- The calls of the database.
  abbrev pub event_full : Uuid → Uuid → Uuid → Enqueue EventFull
  event_full c g e = call (Call.get_event_full c g e) (w.get_event_full c g e)

  abbrev pub event_summary : Uuid → Uuid → Uuid → Enqueue EventSummary
  event_summary c g e = call (Call.get_event_summary c g e) (w.get_event_summary c g e)

  abbrev pub site_settings : Enqueue String
  site_settings = call Call.get_site_settings w.get_site_settings

  abbrev pub attendees : Uuid → Uuid → Enqueue (List Uuid)
  attendees g e = call (Call.list_event_attendees_ids g e) (w.list_event_attendees_ids g e)

  abbrev pub waitlist : Uuid → Uuid → Enqueue (List Uuid)
  waitlist g e = call (Call.list_event_waitlist_ids g e) (w.list_event_waitlist_ids g e)

  abbrev pub members : Uuid → Enqueue (List Uuid)
  members g = call (Call.list_group_members_ids g) (w.list_group_members_ids g)

  abbrev pub team_members : Uuid → Enqueue (List Uuid)
  team_members g = call (Call.list_group_team_members_ids g) (w.list_group_team_members_ids g)

  abbrev pub enqueue : NewNotification → Enqueue (Unit {0})
  enqueue n = call (Call.enqueue_notification n) (w.enqueue_notification n)

  abbrev pub returned : {A : Type 0} → Result String A → Enqueue A
  returned (ok a) = pure a
  returned (err e) = fail e

  -- A notification is built for the recipients and enqueued.
  unfoldable pub notify : NotificationKind → EventSummary → List Uuid → String → Enqueue (Unit {0})
  notify kind event recipients settings = do
    notification ← returned (w.build kind event recipients settings)
    enqueue notification

  -- `load_event_notification_context`
  load_event_notification_context : Uuid → Uuid → Enqueue (EventSummary × String)
  load_event_notification_context c e = do
    settings ← site_settings
    event ← call (Call.get_event_summary_by_id c e) (w.get_event_summary_by_id c e)
    pure (event, settings)

  enqueue_event_attendance_cancellation_notifications :
      Uuid → Uuid → Uuid → List Uuid → Enqueue (Unit {0})
  unfolding load_event_notification_context notify should_send_waitlist_promoted_notification
  enqueue_event_attendance_cancellation_notifications c e canceled_user_id promoted = do
    (event, settings) ← load_event_notification_context c e
    notify NotificationKind.event_attendance_canceled event (canceled_user_id ∷ []) settings
    if is_empty promoted || not (should_send_waitlist_promoted_notification event promoted)
        then pure tt
        else notify NotificationKind.event_waitlist_promoted event promoted settings

  -- The event to the recipients, unless there are none.
  notify_all : NotificationKind → EventFull → List Uuid → Enqueue (Unit {0})
  unfolding notify
  notify_all kind event [] = pure tt
  notify_all kind event (u ∷ us) = do
    settings ← site_settings
    notify kind event.summary (u ∷ us) settings

  enqueue_event_canceled_notification : Uuid → Uuid → Uuid → Enqueue (Unit {0})
  unfolding notify_all speakers_ids
  enqueue_event_canceled_notification c g e = do
    event ← event_full c g e
    attendee_ids ← attendees g e
    waitlist_ids ← waitlist g e
    if event.test_event
        then pure tt
        else notify_all NotificationKind.event_canceled event
            (w.set_order (attendee_ids ++ (waitlist_ids ++ speakers_ids event)))

  -- Users are told something, if there are any.
  unfoldable pub notify_some :
      NotificationKind → EventSummary → List Uuid → String → Enqueue (Unit {0})
  unfolding notify
  notify_some kind event [] settings = pure tt
  notify_some kind event (u ∷ us) settings = notify kind event (u ∷ us) settings

  unfoldable pub announce : EventFull → List Uuid → List Uuid → Enqueue (Unit {0})
  unfolding notify_some
  announce event recipients speakers = do
    settings ← site_settings
    notify_some NotificationKind.event_published event.summary recipients settings
    notify_some NotificationKind.speaker_welcome event.summary speakers settings

  unfoldable pub publish : EventFull → List Uuid → List Uuid → Enqueue (Unit {0})
  unfolding announce
  publish event [] [] = pure tt
  publish event recipients speakers = announce event recipients speakers

  pub enqueue_event_published_notifications : Uuid → Uuid → Uuid → Enqueue (Unit {0})
  unfolding publish speakers_ids
  enqueue_event_published_notifications c g e = do
    event ← event_full c g e
    group_member_ids ← members g
    team_member_ids ← team_members g
    let speakers = speakers_ids event
    if event.test_event
        then pure tt
        else publish event
            (without speakers (dedup (sort_ids (group_member_ids ++ team_member_ids)))) speakers

  is_past : List Call → EventSummary → Bool
  is_past s event = elim event.ends_at [
    | some time ↦ ltb time (w.now s)
    | none ↦ elim event.starts_at [ none ↦ false | some time ↦ ltb time (w.now s) ]
  ]

  -- A move that was noticed.
  tell_moved : Uuid → Uuid → Uuid → Enqueue (Unit {0})
  unfolding notify_all speakers_ids
  tell_moved c g e = do
    event ← event_full c g e
    attendee_ids ← attendees g e
    notify_all NotificationKind.event_rescheduled event
        (w.set_order (attendee_ids ++ speakers_ids event))

  tell_if_moved : Uuid → Uuid → Uuid → EventSummary → EventSummary → Enqueue (Unit {0})
  unfolding tell_moved is_moved
  tell_if_moved c g e before after s =
      if is_moved (w.now s) before.published before.starts_at after.starts_at
      then tell_moved c g e s
      else (ok tt, s)

  enqueue_event_rescheduled_notification : Uuid → Uuid → Uuid → EventSummary → Enqueue (Unit {0})
  unfolding tell_if_moved is_past
  enqueue_event_rescheduled_notification c g e before s =
      if is_past s before || before.test_event
      then (ok tt, s)
      else (do after ← event_summary c g e; tell_if_moved c g e before after) s

  enqueue_event_waitlist_promoted_notification :
      Uuid → Uuid → Uuid → EventSummary → List Uuid → Enqueue (Unit {0})
  unfolding notify should_send_waitlist_promoted_notification
  enqueue_event_waitlist_promoted_notification c g e before promoted =
      if is_empty promoted || before.test_event then pure tt else do
        settings ← site_settings
        event ← event_summary c g e
        if should_send_waitlist_promoted_notification event promoted
            then notify NotificationKind.event_waitlist_promoted event promoted settings
            else pure tt

  -- Only a welcome depends on `include_dashboard_link`, which the builder receives.
  enqueue_event_welcome_notification : Uuid → Uuid → Uuid → Bool → Enqueue (Unit {0})
  unfolding load_event_notification_context
  enqueue_event_welcome_notification c e user_id include_dashboard_link = do
    (event, settings) ← load_event_notification_context c e
    notification ← returned (w.build_event_welcome event user_id settings include_dashboard_link)
    enqueue notification
