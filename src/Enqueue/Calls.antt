-- ===== src/Enqueue/Calls.antt =====
-- What the enqueue workflows read and call: the database (`DBOperations`), the builders of
-- notifications (payloads.rs), conversions of event types (types/event.rs), the clock and the order of
-- hash maps. Attachments are left out, since only the builders make them.
use open_community_groups.Prelude.{ℕ, String, Bool, Option, List}
use open_community_groups.Prelude.Result.{Result}
use open_community_groups.Notifications.Types.{NotificationKind}

abbrev pub Uuid : Type 0
Uuid = ℕ

pub record EventSummary : Type 0 where
  pub community_display_name : String
  pub event_id : Uuid
  pub group_name : String
  pub published : Bool
  pub starts_at : Option ℕ
  pub ends_at : Option ℕ
  pub test_event : Bool

-- `sessions` are the speakers of the sessions of each day.
pub record EventFull : Type 0 where
  pub summary : EventSummary
  pub test_event : Bool
  pub speakers : List Uuid
  pub sessions : List (List (List Uuid))

pub record EventSeriesNotificationItem : Type 0 where
  pub event : EventSummary
  pub link : String

-- A `HashMap<Uuid, Vec<EventSeriesNotificationItem>>` by its entries.
abbrev pub RecipientEvents : Type 0
RecipientEvents = List (Uuid × List EventSeriesNotificationItem)

pub record EventSeriesNotificationGroup : Type 0 where
  pub events : List EventSeriesNotificationItem
  pub recipients : List Uuid

-- The template data of a notification of a series. `community_display_name` is that of a publication.
pub record SeriesData : Type 0 where
  pub community_display_name : Option String
  pub event_count : ℕ
  pub events : List EventSeriesNotificationItem
  pub group_name : String
  pub theme : String

pub record NewNotification : Type 0 where
  pub kind : NotificationKind
  pub recipients : List Uuid
  pub template_data : Option String

pub data Call : Type 0 where
  get_event_full get_event_summary : Uuid → Uuid → Uuid → Call
  get_event_summary_by_id : Uuid → Uuid → Call
  get_site_settings : Call
  list_event_attendees_ids list_event_waitlist_ids : Uuid → Uuid → Call
  list_group_members_ids list_group_team_members_ids : Uuid → Call
  enqueue_notification : NewNotification → Call

abbrev pub Answer : Type 0 → Type 0
Answer A = List Call → Result String A

pub record World : Type 0 where
  pub get_event_full : Uuid → Uuid → Uuid → Answer EventFull
  pub get_event_summary : Uuid → Uuid → Uuid → Answer EventSummary
  pub get_event_summary_by_id : Uuid → Uuid → Answer EventSummary
  pub get_site_settings : Answer String
  pub list_event_attendees_ids : Uuid → Uuid → Answer (List Uuid)
  pub list_event_waitlist_ids : Uuid → Uuid → Answer (List Uuid)
  pub list_group_members_ids : Uuid → Answer (List Uuid)
  pub list_group_team_members_ids : Uuid → Answer (List Uuid)
  pub enqueue_notification : NewNotification → Answer (Unit {0})
  pub build : NotificationKind → EventSummary → List Uuid → String → Result String NewNotification
  pub build_event_welcome : EventSummary → Uuid → String → Bool → Result String NewNotification
  pub build_event_page_link : EventSummary → String
  pub to_value : SeriesData → Result String String
  pub theme : String → String
  pub now : List Call → ℕ
  pub set_order : List Uuid → List Uuid
  pub map_order : RecipientEvents → RecipientEvents
  pub group_order : List EventSeriesNotificationGroup → List EventSeriesNotificationGroup
