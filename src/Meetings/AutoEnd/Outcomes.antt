-- ===== src/Meetings/AutoEnd/Outcomes.antt =====
-- What becomes of the claim on an overdue meeting, and the outcome that is recorded.
use open_community_groups.Prelude.{◌≡◌, Bool, true, Option, none, some, List, ◌∷◌, arith}
use open_community_groups.Prelude.Result.{Result, ok, err}
use open_community_groups.Prelude.Exec.{handle_cases}
use open_community_groups.Meetings.Types.{
  MeetingAutoEndCandidate, MeetingAutoEndCheckOutcome, MeetingEndResult, MeetingProviderError,
  SyncError, is_retryable,
}
use open_community_groups.Meetings.Calls.{DbCall, ProviderCall, Call, MeetingsProvider, World}
use open_community_groups.Meetings.AutoEnd.{
  end_outcome, end_failed, end_at, record_outcome, end_claimed,
}

-- The outcome that an answer of the provider stands for; none where the answer settles nothing.
abbrev pub outcome_of :
    Result MeetingProviderError MeetingEndResult → Option MeetingAutoEndCheckOutcome
outcome_of (ok MeetingEndResult.ended) = some MeetingAutoEndCheckOutcome.auto_ended
outcome_of (ok MeetingEndResult.already_not_running) =
    some MeetingAutoEndCheckOutcome.already_not_running
outcome_of (err MeetingProviderError.not_found) = some MeetingAutoEndCheckOutcome.not_found
outcome_of (err (MeetingProviderError.client e)) = some MeetingAutoEndCheckOutcome.error
outcome_of (err MeetingProviderError.no_slots_available) = some MeetingAutoEndCheckOutcome.error
outcome_of (err _) = none

-- The calls that settle a claim for which the provider gave the answer `a` after the trace `s`: the
-- outcome of a settled answer is recorded, and any other answer gives the claim back.
abbrev pub settled :
    MeetingAutoEndCandidate → Option MeetingAutoEndCheckOutcome → List Call → List Call
settled c none s = Call.db (DbCall.release_meeting_auto_end_check_claim c) ∷ s
settled c (some o) s = Call.db (DbCall.set_meeting_auto_end_check_outcome c o) ∷ s

abbrev pub end_call : MeetingAutoEndCandidate → Call
end_call c = Call.provider (ProviderCall.end_meeting c.provider_meeting_id)

module _ (w : World) (c : MeetingAutoEndCandidate) where
  abbrev Recorded : List Call → Type 0
  Recorded (Call.db (DbCall.set_meeting_auto_end_check_outcome d o) ∷ s) =
      (d ≡ c) × (w.db.set_meeting_auto_end_check_outcome d o s ≡ ok tt)
  Recorded _ = ⊥

  end_failed-settled :
      (e : MeetingProviderError) (s : List Call)
      → (end_failed w c e s).1 ≡ settled c (outcome_of (err e)) s
  unfolding end_failed is_retryable
  end_failed-settled e s = ground arith

  end_at-settled :
      (p : MeetingsProvider) (s : List Call)
      → (end_at w (some p) c s).1
        ≡ settled c (outcome_of (p.end_meeting c.provider_meeting_id s)) (end_call c ∷ s)
  unfolding end_at record_outcome end_outcome
  end_at-settled p s = grind (arith, end_failed-settled)

  -- A configured provider is asked once to end the meeting, and then the claim is settled by one
  -- more call: the outcome that the provider's answer stands for is recorded, or, where the answer is
  -- a retryable error, the claim is given back.
  pub end_claimed-settled :
      (p : MeetingsProvider) (s : List Call)
      → w.providers c.provider ≡ some p
      → (end_claimed w c s).1
        ≡ settled c (outcome_of (p.end_meeting c.provider_meeting_id s)) (end_call c ∷ s)
  unfolding end_claimed
  end_claimed-settled p s e = rw e (end_at-settled p s)

  end_failed-Recorded :
      (e : MeetingProviderError) (s : List Call) (b : Bool)
      → (end_failed w c e s).0 ≡ ok b
      → (b ≡ true) × Recorded (end_failed w c e s).1
  unfolding end_failed
  end_failed-Recorded e s b h = ground arith

  end_at-Recorded :
      (o : Option MeetingsProvider) (s : List Call) (b : Bool)
      → (end_at w o c s).0 ≡ ok b
      → (b ≡ true) × Recorded (end_at w o c s).1
  unfolding end_at record_outcome
  end_at-Recorded none s b = λ h. ground arith
  end_at-Recorded (some p) s b =
      handle_cases
        (λ (x : Result SyncError Bool × List Call). x.0 ≡ ok b → (b ≡ true) × Recorded x.1)
        (p.end_meeting c.provider_meeting_id s, end_call c ∷ s) _ _ (λ a _ h. ground arith)
        (λ e _. end_failed-Recorded e (end_call c ∷ s) b)

  -- Where a claimed candidate is reported as processed, an outcome for it was recorded last, and the
  -- database has accepted it.
  end_claimed-Recorded :
      (s : List Call) (b : Bool)
      → (end_claimed w c s).0 ≡ ok b
      → (b ≡ true) × Recorded (end_claimed w c s).1
  unfolding end_claimed
  end_claimed-Recorded s b h = end_at-Recorded (w.providers c.provider) s b h
