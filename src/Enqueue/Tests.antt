-- ===== src/Enqueue/Tests.antt =====
-- Runs of the enqueue workflows on a group of two members and an event with two speakers.
use open_community_groups.Prelude.{
  ◌≡◌, refl, sym, ap, String, false, none, List, [], ◌∷◌, list_same, list_same_exact, list_eq,
  if◌then◌else◌, nat_eq, Bool-cases, inl, inr, arith,
}
use open_community_groups.Prelude.Result.{Result, ok, err}
use open_community_groups.Notifications.Types.{NotificationKind, event_published}
use open_community_groups.Enqueue.Calls.{Uuid, EventSummary, EventFull, NewNotification, World}
use open_community_groups.Enqueue.Published.{
  is_published, is_speaker_welcome, asked, enqueue_event_published_notifications-once,
}
use open_community_groups.Enqueue.Series.{
  enqueue_event_series_published_notifications, enqueue_event_series_canceled_notifications,
}
use open_community_groups.Enqueue.Series.Announced.{
  is_series_published, is_series_welcome, enqueue_event_series_published_notifications-once,
}
use open_community_groups.Enqueue.Recipients.{dedup, sort_ids, times-dedup}
use open_community_groups.Enqueue.Groups.{ids_of}
use open_community_groups.Enqueue.Series.Named.{asked_for, Reads}
use open_community_groups.Enqueue.Series.Canceled.{
  is_series_canceled, enqueue_event_series_canceled_notifications-once,
}
use open_community_groups.Enqueue.{enqueue_event_published_notifications}

abbrev summary : Uuid → EventSummary
summary event_id = record {
  community_display_name = "CNCF";
  event_id = event_id;
  group_name = "Gophers";
  published = false;
  starts_at = none;
  ends_at = none;
  test_event = false;
}

abbrev meetup : EventFull
meetup = record {
  summary = summary 7;
  test_event = false;
  speakers = 3 ∷ [];
  sessions = ((4 ∷ 3 ∷ []) ∷ []) ∷ [];
}

abbrev built : NotificationKind → List Uuid → Result String NewNotification
built kind recipients = ok (record { kind = kind; recipients = recipients; template_data = none })

abbrev world : World
world = record {
  get_event_full = λ c g e s. ok meetup;
  get_event_summary = λ c g e s. ok (summary e);
  get_event_summary_by_id = λ c e s. ok (summary e);
  get_site_settings = λ s. ok "settings";
  list_event_attendees_ids = λ g e s. ok [];
  list_event_waitlist_ids = λ g e s. ok [];
  list_group_members_ids = λ g s. ok (2 ∷ 1 ∷ []);
  list_group_team_members_ids = λ g s. ok (3 ∷ 2 ∷ []);
  enqueue_notification = λ n s. ok tt;
  build = λ kind event recipients settings. built kind recipients;
  build_event_welcome = λ event user settings link.
      ok (record { kind = event_published; recipients = user ∷ []; template_data = none });
  build_event_page_link = λ event. "link";
  to_value = λ template. ok "value";
  theme = λ settings. settings;
  now = λ s. 0;
  set_order = λ l. l;
  map_order = λ l. l;
  group_order = λ l. l;
}

published : (enqueue_event_published_notifications world 5 6 7 []).0 ≡ ok tt
unfolding enqueue_event_published_notifications
published = refl

kind_of : NotificationKind → Result String NewNotification → NotificationKind
kind_of kind (ok n) = n.kind
kind_of kind (err e) = kind

recipients_of : List Uuid → Result String NewNotification → List Uuid
recipients_of recipients (ok n) = n.recipients
recipients_of recipients (err e) = recipients

picked :
    (kind : NotificationKind) (recipients : List Uuid) (n : NewNotification)
    → built kind recipients ≡ ok n
    → (n.kind ≡ kind) × (n.recipients ≡ recipients)
unfolding kind_of recipients_of
picked kind recipients n e = (ap (kind_of kind) (sym e), ap (recipients_of recipients) (sym e))

-- The team member 2 is also a member, and is told once.
enqueue_event_published_notifications-once_example :
    (asked is_published 2 (enqueue_event_published_notifications world 5 6 7 []).1 ≡ 1)
    × (asked is_speaker_welcome 2 (enqueue_event_published_notifications world 5 6 7 []).1 ≡ 0)
enqueue_event_published_notifications-once_example =
    enqueue_event_published_notifications-once world
      (λ kind event recipients settings n e. (picked kind recipients n e)) 5 6 7 2 [] meetup
      (2 ∷ 1 ∷ []) (3 ∷ 2 ∷ []) refl refl refl published

-- A set is sorted, and the data of the two canceled events, which have one id, is all that there is.
abbrev told_ids : List Uuid
told_ids = 7 ∷ 7 ∷ []

abbrev canceling : World
canceling = record world {
  to_value = λ d. if list_same (ids_of d.events) told_ids then ok "7,7" else err "other events";
  set_order = λ l. dedup (sort_ids l);
}

canceling-Reads : Reads canceling (λ v. told_ids)
canceling-Reads d v e = elim (Bool-cases (list_same (ids_of d.events) told_ids)) [
  | inl p ↦ sym ((list_same_exact (ids_of d.events) told_ids).1 p)
  | inr p ↦ absurd (ground (arith, p, e))
]

canceled : (enqueue_event_series_canceled_notifications canceling 5 6 (7 ∷ 8 ∷ []) []).0 ≡ ok tt
unfolding enqueue_event_series_canceled_notifications list_same dedup sort_ids
canceled = refl

-- The speaker 4 of two canceled events is told once, of both.
enqueue_event_series_canceled_notifications-once_example :
    (asked is_series_canceled 4
        (enqueue_event_series_canceled_notifications canceling 5 6 (7 ∷ 8 ∷ []) []).1
      ≡ 1)
    × (asked_for
          (λ v. told_ids)
          is_series_canceled
          told_ids
          4
          (enqueue_event_series_canceled_notifications canceling 5 6 (7 ∷ 8 ∷ []) []).1
        ≡ 1)
enqueue_event_series_canceled_notifications-once_example =
    enqueue_event_series_canceled_notifications-once canceling 5 6 (λ e. meetup) (λ e. []) (λ e. [])
      4 (λ e s. (refl, refl, refl)) (λ test l. refl) (λ test l. refl) times-dedup (λ v. told_ids)
      canceling-Reads (7 ∷ 8 ∷ []) [] canceled

series_published :
    (enqueue_event_series_published_notifications world 5 6 (7 ∷ 8 ∷ []) []).0 ≡ ok tt
unfolding enqueue_event_series_published_notifications list_same
series_published = refl

-- The member 3 speaks at both events, and is only welcomed.
enqueue_event_series_published_notifications-once_example :
    (asked is_series_published 3
        (enqueue_event_series_published_notifications world 5 6 (7 ∷ 8 ∷ []) []).1
      ≡ 0)
    × (asked is_series_welcome 3
          (enqueue_event_series_published_notifications world 5 6 (7 ∷ 8 ∷ []) []).1
        ≡ 1)
enqueue_event_series_published_notifications-once_example =
    enqueue_event_series_published_notifications-once world 5 6 (λ e. meetup) 3 (λ e s. refl)
      (λ test l. refl) (λ test l. refl) (7 ∷ 8 ∷ []) (2 ∷ 1 ∷ []) (3 ∷ 2 ∷ []) [] refl refl
      series_published
