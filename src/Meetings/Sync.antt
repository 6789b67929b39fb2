-- ===== src/Meetings/Sync.antt =====
-- `MeetingsSyncWorker`: one round claims a meeting that is out of sync, applies its change at the
-- provider, and records the outcome.
pub mod Claims
pub mod Calls
use open_community_groups.Prelude.{String, Bool, true, false, Option, none, some, if◌then◌else◌}
use open_community_groups.Prelude.Exec.{Exec, pure, fail, or_fail, ◌>>=◌, ◌>>◌, handle, map_err}
use open_community_groups.Meetings.Types.{
  Meeting, MeetingProvider, MeetingProviderError, client, not_found, no_slots_available, zoom,
  SyncError, provider, provider_not_configured, other, SyncAction, create, delete, update,
  sync_action, ends_at, is_non_retryable, to_string,
}
use open_community_groups.Meetings.Calls.{Call, MeetingsProvider, World}
use open_community_groups.Meetings.Db
use open_community_groups.Meetings.Provider

abbrev pub Sync : Type 0 → Type 0
Sync = Exec Call SyncError

with_host : Meeting → Option String → Sync Meeting
with_host meeting none = fail (provider no_slots_available)
with_host meeting (some host) = pure (record meeting { provider_host_user_id = some host })

module _ (w : World) where
  pub assign_zoom_host_user : Meeting → Sync Meeting
  unfolding with_host ends_at
  assign_zoom_host_user meeting = elim meeting.provider_host_user_id [
    | some host ↦ pure meeting
    | none ↦ do
      zoom_cfg ← or_fail w.zoom_cfg (provider_not_configured zoom)
      starts_at ← or_fail meeting.starts_at (provider (client "missing meeting starts_at"))
      ends_at ←
          or_fail (ends_at w.checked_add meeting) (provider (client "missing meeting duration"))
      host ← map_err other (
          Db.assign_zoom_host_user w meeting zoom_cfg.host_pool_users
            zoom_cfg.max_simultaneous_meetings_per_host starts_at ends_at)
      with_host meeting host
  ]

  assign_for : MeetingProvider → Meeting → Sync Meeting
  assign_for zoom meeting = assign_zoom_host_user meeting

  pub assign_provider_host_user : Meeting → Sync Meeting
  unfolding assign_for assign_zoom_host_user
  assign_provider_host_user meeting = assign_for meeting.provider meeting

  pub create_meeting : Meeting → MeetingsProvider → Sync (Unit {0})
  unfolding assign_provider_host_user
  create_meeting meeting p = do
    meeting ← assign_provider_host_user meeting
    details ← map_err provider (Provider.create_meeting p meeting)
    map_err other (
        Db.add_meeting w (record meeting {
          join_url = some details.join_url;
          password = details.password;
          provider_meeting_id = some details.id;
        }))

  -- A meeting that the provider no longer has counts as deleted.
  gone_or_fail : MeetingProviderError → Sync (Unit {0})
  gone_or_fail not_found = pure tt
  gone_or_fail e = fail (provider e)

  deleted_at_provider : MeetingsProvider → Option String → Sync (Unit {0})
  deleted_at_provider p none = pure tt
  deleted_at_provider p (some id) = λ s. handle (Provider.delete_meeting p id s) pure gone_or_fail

  pub delete_meeting : Meeting → MeetingsProvider → Sync (Unit {0})
  unfolding deleted_at_provider gone_or_fail
  delete_meeting meeting p = do
    deleted_at_provider p meeting.provider_meeting_id
    map_err other (Db.delete_meeting w meeting)

  pub update_meeting : Meeting → MeetingsProvider → Sync (Unit {0})
  update_meeting meeting p = do
    id ← or_fail meeting.provider_meeting_id (other "missing provider_meeting_id for update")
    map_err provider (Provider.update_meeting p id meeting)
    details ← map_err provider (Provider.get_meeting p id)
    map_err other (
        Db.update_meeting w
          (record meeting { join_url = some details.join_url; password = details.password }))

  apply_action : SyncAction → Meeting → MeetingsProvider → Sync (Unit {0})
  unfolding create_meeting delete_meeting update_meeting
  apply_action create = create_meeting
  apply_action delete = delete_meeting
  apply_action update = update_meeting

  with_provider : Option MeetingsProvider → Meeting → Sync (Unit {0})
  unfolding apply_action sync_action
  with_provider none meeting = fail (provider_not_configured meeting.provider)
  with_provider (some p) meeting = apply_action (sync_action meeting) meeting p

  -- The change of a claimed meeting at the provider and in the database.
  unfoldable pub sync_result : Meeting → Sync (Unit {0})
  unfolding with_provider
  sync_result meeting = with_provider (w.providers meeting.provider) meeting

  -- An error that another attempt cannot mend is recorded; otherwise the claim is released.
  unfoldable pub settle_error : Meeting → SyncError → Sync Bool
  unfolding is_non_retryable to_string
  settle_error meeting e =
      if is_non_retryable e
      then (do map_err other (Db.set_meeting_error w meeting (to_string e)); pure true)
      else (do map_err other (Db.release_meeting_sync_claim w meeting); fail e)

  unfoldable pub sync_claimed : Meeting → Sync Bool
  unfolding sync_result settle_error
  sync_claimed meeting s = handle (sync_result meeting s) (λ _. pure true) (settle_error meeting)

  sync_option : Option Meeting → Sync Bool
  unfolding sync_claimed
  sync_option none = pure false
  sync_option (some meeting) = sync_claimed meeting

  -- `true` when a meeting was claimed and settled, `false` when there is none to claim.
  unfoldable pub sync_meeting : Sync Bool
  unfolding sync_option
  sync_meeting = do claimed ← map_err other (Db.claim_meeting_out_of_sync w); sync_option claimed
