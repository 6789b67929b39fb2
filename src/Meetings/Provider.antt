-- ===== src/Meetings/Provider.antt =====
-- The provider operations as actions: each records its call and gives the provider's answer.
use open_community_groups.Prelude.{String}
use open_community_groups.Prelude.Exec.{Exec, call}
use open_community_groups.Meetings.Types.{
  Meeting, MeetingEndResult, MeetingProviderError, MeetingProviderMeeting,
}
use open_community_groups.Meetings.Calls.{ProviderCall, Call, MeetingsProvider}

module _ (p : MeetingsProvider) where
  abbrev pub create_meeting : Meeting → Exec Call MeetingProviderError MeetingProviderMeeting
  create_meeting a = call (Call.provider (ProviderCall.create_meeting a)) (p.create_meeting a)

  abbrev pub delete_meeting : String → Exec Call MeetingProviderError (Unit {0})
  delete_meeting a = call (Call.provider (ProviderCall.delete_meeting a)) (p.delete_meeting a)

  abbrev pub end_meeting : String → Exec Call MeetingProviderError MeetingEndResult
  end_meeting a = call (Call.provider (ProviderCall.end_meeting a)) (p.end_meeting a)

  abbrev pub get_meeting : String → Exec Call MeetingProviderError MeetingProviderMeeting
  get_meeting a = call (Call.provider (ProviderCall.get_meeting a)) (p.get_meeting a)

  abbrev pub update_meeting : String → Meeting → Exec Call MeetingProviderError (Unit {0})
  update_meeting a b = call (Call.provider (ProviderCall.update_meeting a b)) (p.update_meeting a b)
