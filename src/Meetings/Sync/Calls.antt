-- ===== src/Meetings/Sync/Calls.antt =====
-- Which calls `sync_meeting` makes, and with what arguments.
use open_community_groups.Prelude.{
  ◌≡◌, ◌≢◌, refl, String, true, Option, none, some, List, [], ◌∷◌, inl, inr, arith,
}
use open_community_groups.Prelude.Result.{Result, ok, err, Result-cases}
use open_community_groups.Meetings.Types.{
  Meeting, MeetingProviderMeeting, MeetingProviderError, not_found, SyncError, SyncAction, create,
  delete, update, sync_action,
}
use open_community_groups.Meetings.Calls.{DbCall, ProviderCall, Call, MeetingsProvider, World}
use open_community_groups.Meetings.Sync.{
  create_meeting, delete_meeting, update_meeting, apply_action, with_provider, sync_result,
  settle_error, sync_claimed, sync_meeting, sync_option,
}
use open_community_groups.Meetings.Sync.Claims.{sync_claimed_cases}

-- The call succeeded, and this holds of its answer.
abbrev pub Succeeds : {E A : Type 0} → (A → Type 0) → Result E A → Type 0
Succeeds P (ok a) = P a
Succeeds P (err e) = ⊥

-- There is a value, and this holds of it.
abbrev pub Has : {A : Type 0} → (A → Type 0) → Option A → Type 0
Has P none = ⊥
Has P (some a) = P a

-- The provider deleted a meeting, or did not find it.
abbrev pub IsGone : Result MeetingProviderError (Unit {0}) → Type 0
IsGone (ok a) = Unit
IsGone (err not_found) = Unit
IsGone (err e) = ⊥

-- What is kept of a meeting is what its provider gave.
abbrev pub Keeps : Meeting → String → MeetingProviderMeeting → Type 0
Keeps n id d =
    (n.provider_meeting_id ≡ some id) × (n.join_url ≡ some d.join_url) × (n.password ≡ d.password)

module _ (w : World) where
  -- The newest call claimed a meeting of which this holds.
  abbrev pub ClaimedSuch : (Meeting → Type 0) → List Call → Type 0
  ClaimedSuch P (Call.db DbCall.claim_meeting_out_of_sync ∷ s) =
      Succeeds (Has P) (w.db.claim_meeting_out_of_sync s)
  ClaimedSuch P _ = ⊥

  -- The meeting's provider created it in answer to the newest call, and `n` has what it gave.
  abbrev pub Created : Meeting → List Call → Type 0
  Created n (Call.provider (ProviderCall.create_meeting m) ∷ s) =
      Has (λ p. Succeeds (λ d. Keeps n d.id d) (p.create_meeting m s)) (w.providers n.provider)
  Created n _ = ⊥

  -- The meeting's provider gave it in answer to the newest call, under its own identifier, and `n`
  -- has what it gave.
  abbrev pub Fetched : Meeting → List Call → Type 0
  Fetched n (Call.provider (ProviderCall.get_meeting id) ∷ s) =
      Has (λ p. Succeeds (Keeps n id) (p.get_meeting id s)) (w.providers n.provider)
  Fetched n _ = ⊥

  -- In answer to the newest call, the meeting's provider deleted it, under its own identifier, or did
  -- not find it; or it has no identifier.
  abbrev pub Gone : Meeting → List Call → Type 0
  Gone n (Call.provider (ProviderCall.delete_meeting id) ∷ s) =
      (n.provider_meeting_id ≡ some id)
      × Has (λ p. IsGone (p.delete_meeting id s)) (w.providers n.provider)
  Gone n _ = n.provider_meeting_id ≡ none

  -- What a call may be after a trace. A provider meeting is created only for a meeting that has a
  -- host, has no provider meeting yet and is not to be deleted. It is updated and deleted under the
  -- identifier of the meeting that was claimed just before, if that is not to be deleted, or is. The
  -- database is told to add or update a meeting with what the provider gave for it just before, and
  -- to delete one that is to be deleted and that the provider does not have any more.
  abbrev pub IsAllowed : Call → List Call → Type 0
  IsAllowed (Call.provider (ProviderCall.create_meeting n)) s =
      (n.provider_host_user_id ≢ none) × (n.provider_meeting_id ≡ none) × (n.delete ≢ some true)
  IsAllowed (Call.provider (ProviderCall.update_meeting id n)) s =
      ClaimedSuch (λ m. m ≡ n) s × (n.provider_meeting_id ≡ some id) × (n.delete ≢ some true)
  IsAllowed (Call.provider (ProviderCall.delete_meeting id)) s =
      ClaimedSuch (λ n. (n.provider_meeting_id ≡ some id) × (n.delete ≡ some true)) s
  IsAllowed (Call.db (DbCall.add_meeting n)) s = (n.provider_host_user_id ≢ none) × Created n s
  IsAllowed (Call.db (DbCall.update_meeting n)) s = Fetched n s
  IsAllowed (Call.db (DbCall.delete_meeting n)) s = (n.delete ≡ some true) × Gone n s
  IsAllowed _ s = Unit

  -- Every call of the trace was allowed after those before it.
  abbrev pub AreAllowed : List Call → Type 0
  AreAllowed [] = Unit
  AreAllowed (c ∷ s) = IsAllowed c s × AreAllowed s

-- The calls for a meeting that was claimed just before.
module _ (w : World) (m : Meeting) (s : List Call)
    (claimed : w.db.claim_meeting_out_of_sync s ≡ ok (some m)) (h : AreAllowed w s) where
  abbrev after_claim : List Call
  after_claim = Call.db DbCall.claim_meeting_out_of_sync ∷ s

  create_meeting-AreAllowed :
      (p : MeetingsProvider)
      → w.providers m.provider ≡ some p
      → m.provider_meeting_id ≡ none
      → m.delete ≢ some true
      → AreAllowed w (create_meeting w m p after_claim).1
  unfolding create_meeting
  create_meeting-AreAllowed p is_p no_id keep = ground arith

  delete_meeting-AreAllowed :
      (p : MeetingsProvider)
      → w.providers m.provider ≡ some p
      → m.delete ≡ some true
      → AreAllowed w (delete_meeting w m p after_claim).1
  unfolding delete_meeting
  delete_meeting-AreAllowed p is_p d = ground arith

  update_meeting-AreAllowed :
      (p : MeetingsProvider)
      → w.providers m.provider ≡ some p
      → m.provider_meeting_id ≢ none
      → m.delete ≢ some true
      → AreAllowed w (update_meeting w m p after_claim).1
  unfolding update_meeting
  update_meeting-AreAllowed p is_p has_id keep = ground arith

  apply_action-AreAllowed :
      (a : SyncAction) (p : MeetingsProvider)
      → w.providers m.provider ≡ some p
      → sync_action m ≡ a
      → AreAllowed w (apply_action w a m p after_claim).1
  unfolding apply_action sync_action
  apply_action-AreAllowed create p is_p e =
      create_meeting-AreAllowed p is_p (ground arith) (ground arith)
  apply_action-AreAllowed delete p is_p e = delete_meeting-AreAllowed p is_p (ground arith)
  apply_action-AreAllowed update p is_p e =
      update_meeting-AreAllowed p is_p (ground arith) (ground arith)

  with_provider-AreAllowed :
      (o : Option MeetingsProvider)
      → w.providers m.provider ≡ o
      → AreAllowed w (with_provider w o m after_claim).1
  unfolding with_provider
  with_provider-AreAllowed none is_o = (tt, h)
  with_provider-AreAllowed (some p) is_o = apply_action-AreAllowed (sync_action m) p is_o refl

  settle_error-AreAllowed :
      (e : SyncError) (t : List Call) → AreAllowed w t → AreAllowed w (settle_error w m e t).1
  unfolding settle_error
  settle_error-AreAllowed e t k = ground arith

  sync_claimed-AreAllowed : AreAllowed w (sync_claimed w m after_claim).1
  unfolding sync_result
  sync_claimed-AreAllowed =
      let applied = with_provider-AreAllowed (w.providers m.provider) refl in
      sync_claimed_cases w m (λ x. AreAllowed w x.1) after_claim (λ _. applied)
        (λ e _. settle_error-AreAllowed e (sync_result w m after_claim).1 applied)

-- If the calls made so far were allowed, so are those of one more round of the sync worker, whatever
-- the database and the provider answer.
pub sync_meeting-AreAllowed :
    (w : World) (s : List Call) → AreAllowed w s → AreAllowed w (sync_meeting w s).1
unfolding sync_meeting sync_option
sync_meeting-AreAllowed w s h = elim (Result-cases (w.db.claim_meeting_out_of_sync s)) [
  | inr (e, c) ↦ rw c (tt, h)
  | inl (none, c) ↦ rw c (tt, h)
  | inl (some m, c) ↦ rw c (sync_claimed-AreAllowed w m s c h)
]
