-- ===== src/Meetings/Sync/Claims.antt =====
-- What becomes of the claim on a meeting that `sync_meeting` took.
use open_community_groups.Prelude.{◌≡◌, Bool, true, false, Option, none, some, List, ◌∷◌, arith}
use open_community_groups.Prelude.Result.{Result, ok, err}
use open_community_groups.Prelude.Exec.{handle_cases}
use open_community_groups.Meetings.Types.{
  Meeting, SyncError, SyncAction, create, delete, update, sync_action, is_non_retryable,
}
use open_community_groups.Meetings.Calls.{DbCall, Call, MeetingsProvider, World}
use open_community_groups.Meetings.Sync.{
  create_meeting, delete_meeting, update_meeting, apply_action, with_provider, sync_result,
  settle_error, sync_claimed, sync_meeting, sync_option,
}

-- The fields by which the database recognises a claim and the row that it is for.
pub record SameClaim (m n : Meeting) : Type 0 where
  pub meeting_id : n.meeting_id ≡ m.meeting_id
  pub event_id : n.event_id ≡ m.event_id
  pub session_id : n.session_id ≡ m.session_id
  pub sync_claimed_at : n.sync_claimed_at ≡ m.sync_claimed_at
  pub sync_state_hash : n.sync_state_hash ≡ m.sync_state_hash

-- The newest call of a trace ends the claim on `m`: by completing it or by giving it back.
abbrev pub Settles : Meeting → List Call → Type 0
Settles m (Call.db (DbCall.add_meeting n) ∷ s) = SameClaim m n
Settles m (Call.db (DbCall.delete_meeting n) ∷ s) = SameClaim m n
Settles m (Call.db (DbCall.update_meeting n) ∷ s) = SameClaim m n
Settles m (Call.db (DbCall.set_meeting_error n e) ∷ s) = SameClaim m n
Settles m (Call.db (DbCall.release_meeting_sync_claim n) ∷ s) = SameClaim m n
Settles m _ = ⊥

-- The database accepted the newest call, which completes a claim.
abbrev pub Completed : World → List Call → Type 0
Completed w (Call.db (DbCall.add_meeting n) ∷ s) = w.db.add_meeting n s ≡ ok tt
Completed w (Call.db (DbCall.delete_meeting n) ∷ s) = w.db.delete_meeting n s ≡ ok tt
Completed w (Call.db (DbCall.update_meeting n) ∷ s) = w.db.update_meeting n s ≡ ok tt
Completed w (Call.db (DbCall.set_meeting_error n e) ∷ s) = w.db.set_meeting_error n e s ≡ ok tt
Completed w _ = ⊥

module _ (w : World) (m : Meeting) where
  create_meeting-Settles :
      (p : MeetingsProvider) (s : List Call)
      → (create_meeting w m p s).0 ≡ ok tt
      → Settles m (create_meeting w m p s).1 × Completed w (create_meeting w m p s).1
  unfolding create_meeting
  create_meeting-Settles p s h = ground arith

  delete_meeting-Settles :
      (p : MeetingsProvider) (s : List Call)
      → (delete_meeting w m p s).0 ≡ ok tt
      → Settles m (delete_meeting w m p s).1 × Completed w (delete_meeting w m p s).1
  unfolding delete_meeting
  delete_meeting-Settles p s h = ground arith

  update_meeting-Settles :
      (p : MeetingsProvider) (s : List Call)
      → (update_meeting w m p s).0 ≡ ok tt
      → Settles m (update_meeting w m p s).1 × Completed w (update_meeting w m p s).1
  unfolding update_meeting
  update_meeting-Settles p s h = ground arith

  apply_action-Settles :
      (a : SyncAction) (p : MeetingsProvider) (s : List Call)
      → (apply_action w a m p s).0 ≡ ok tt
      → Settles m (apply_action w a m p s).1 × Completed w (apply_action w a m p s).1
  unfolding apply_action
  apply_action-Settles create p s h = create_meeting-Settles p s h
  apply_action-Settles delete p s h = delete_meeting-Settles p s h
  apply_action-Settles update p s h = update_meeting-Settles p s h

  with_provider-Settles :
      (o : Option MeetingsProvider) (s : List Call)
      → (with_provider w o m s).0 ≡ ok tt
      → Settles m (with_provider w o m s).1 × Completed w (with_provider w o m s).1
  unfolding with_provider
  with_provider-Settles none s h = absurd (cc)
  with_provider-Settles (some p) s h = apply_action-Settles (sync_action m) p s h

  sync_result-Settles :
      (s : List Call)
      → (sync_result w m s).0 ≡ ok tt
      → Settles m (sync_result w m s).1 × Completed w (sync_result w m s).1
  unfolding sync_result
  sync_result-Settles s h = with_provider-Settles (w.providers m.provider) s h

  settle_error-Settles : (e : SyncError) (s : List Call) → Settles m (settle_error w m e s).1
  unfolding settle_error
  settle_error-Settles e s = ground arith

  settle_error-Completed :
      (e : SyncError) (s : List Call) (b : Bool)
      → (settle_error w m e s).0 ≡ ok b
      → (b ≡ true) × Completed w (settle_error w m e s).1
  unfolding settle_error
  settle_error-Completed e s b h = ground arith

  settle_error-retryable :
      (e f : SyncError) (s : List Call)
      → (settle_error w m e s).0 ≡ err f
      → is_non_retryable f ≡ false
  unfolding settle_error is_non_retryable
  settle_error-retryable e f s h = ground arith

  pub sync_claimed_cases {κ} :
      (P : Result SyncError Bool × List Call → Type κ) (s : List Call)
      → ((sync_result w m s).0 ≡ ok tt → P (ok true, (sync_result w m s).1))
      → ((e : SyncError)
          → (sync_result w m s).0 ≡ err e
          → P (settle_error w m e (sync_result w m s).1))
      → P (sync_claimed w m s)
  unfolding sync_claimed
  sync_claimed_cases P s on_ok on_err =
      handle_cases P (sync_result w m s) _ _ (λ a e. on_ok e) on_err

  -- However a claimed meeting is processed, the last call made ends its claim, for the row and the
  -- claim token that were claimed.
  pub sync_claimed-Settles : (s : List Call) → Settles m (sync_claimed w m s).1
  sync_claimed-Settles s =
      sync_claimed_cases (λ x. Settles m x.1) s (λ h. (sync_result-Settles s h).0)
        (λ e _. settle_error-Settles e (sync_result w m s).1)

  -- When a claimed meeting is reported as processed, the last call made completes the claim and the
  -- database has accepted it.
  pub sync_claimed-Completed :
      (s : List Call) (b : Bool)
      → (sync_claimed w m s).0 ≡ ok b
      → (b ≡ true) × Completed w (sync_claimed w m s).1
  sync_claimed-Completed s b =
      sync_claimed_cases (λ x. x.0 ≡ ok b → (b ≡ true) × Completed w x.1) s
        (λ h e. (cc, (sync_result-Settles s h).1))
        (λ e _. settle_error-Completed e (sync_result w m s).1 b)

  sync_claimed-retryable :
      (s : List Call) (f : SyncError) → (sync_claimed w m s).0 ≡ err f → is_non_retryable f ≡ false
  sync_claimed-retryable s f =
      sync_claimed_cases (λ x. x.0 ≡ err f → is_non_retryable f ≡ false) s (λ h e. absurd (cc))
        (λ e _. settle_error-retryable e f (sync_result w m s).1)

module _ (w : World) where
  sync_option-retryable :
      (o : Option Meeting) (s : List Call) (f : SyncError)
      → (sync_option w o s).0 ≡ err f
      → is_non_retryable f ≡ false
  unfolding sync_option
  sync_option-retryable none s f h = absurd (cc)
  sync_option-retryable (some m) s f h = sync_claimed-retryable w m s f h

  -- A round of the sync worker fails with errors only that another attempt may mend.
  sync_meeting-retryable :
      (s : List Call) (f : SyncError) → (sync_meeting w s).0 ≡ err f → is_non_retryable f ≡ false
  unfolding sync_meeting is_non_retryable
  sync_meeting-retryable s f h = grind (arith, sync_option-retryable)
