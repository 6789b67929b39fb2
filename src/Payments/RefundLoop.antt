-- ===== src/Payments/RefundLoop.antt =====
-- The loops of the refund workers. What each round finds of the cancellation token is an input: a
-- list of polls is as much of a run as is looked at.
pub mod Runs
use Prim.Native.Nat.{min}
use open_community_groups.Prelude.{
  ℕ, ◌-◌, String, Bool, true, false, ◌&&◌, ◌||◌, Option, none, some, List, [], ◌∷◌, if◌then◌else◌,
  length, drop, is_some,
}
use open_community_groups.Prelude.Result.{Result, ok, err}
use open_community_groups.Payments.Calls.{Call, World}
use open_community_groups.Payments.Db
use open_community_groups.Payments.RefundWorker.{process_next_refund}

-- Whether the token is cancelled before the round; during it, and then how many of its calls are
-- not made; during the pause, if it has one; and at its end.
pub record Poll : Type 0 where
  pub at_start : Bool
  pub during : Option ℕ
  pub in_pause : Bool
  pub at_end : Bool

-- The trace of a round that is dropped before its last `n` calls.
pub dropped : ℕ → List Call → List Call → List Call
dropped n s t = drop (min n (length t - length s)) t

-- A pause follows a round that found no job or failed.
pauses : Result String Bool → Bool
pauses (ok true) = false
pauses (ok false) = true
pauses (err e) = true

leaves : Result String Bool → Poll → Bool
unfolding pauses
leaves r poll = (pauses r && poll.in_pause) || poll.at_end

-- `RefundWorker::run`
pub run_refunds : World → List Poll → List Call → List Call
unfolding dropped leaves
run_refunds w [] s = s
run_refunds w (poll ∷ polls) s =
    let (r, t) = process_next_refund w s in
    let rest = run_refunds w polls t in
    if poll.at_start
    then s
    else elim poll.during [ some n ↦ dropped n s t | none ↦ if leaves r poll then t else rest ]

-- `RefundRecoveryWorker::run`: a round that is interrupted may have made its one call.
pub run_recovery : World → List Poll → List Call → List Call
unfolding dropped
run_recovery w [] s = s
run_recovery w (poll ∷ polls) s =
    let (r, t) = Db.requeue_stale_event_purchase_refund_claims w s in
    let rest = run_recovery w polls t in
    if poll.at_start
    then s
    else elim poll.during [ some n ↦ dropped n s t | none ↦ if poll.in_pause then t else rest ]

-- The worker finds its token cancelled in this round, whatever the round gives.
abbrev pub is_cancelled : Poll → Bool
is_cancelled poll = poll.at_start || (is_some poll.during || poll.at_end)
