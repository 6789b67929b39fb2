-- ===== src/Payments/RefundLoop/Runs.antt =====
-- Whole runs of the refund worker.
use Prim.Native.Nat.{min}
use open_community_groups.Prelude.{
  ℕ, zero, suc, ◌+◌, ◌-◌, ◌≤◌, ◌≡◌, Bool, true, List, [], ◌∷◌, ◌++◌, arith, length, drop, count,
  Option-cases, inl, inr,
}
use open_community_groups.Payments.Calls.{Call, World}
use open_community_groups.Payments.RefundWorker.{process_next_refund}
use open_community_groups.Payments.RefundWorker.Money.{is_refund_payment, process_next_refund_once}
use open_community_groups.Payments.RefundLoop.{Poll, run_refunds, dropped, is_cancelled}

count-drop-le : (test : Call → Bool) (n : ℕ) (t : List Call) → count test (drop n t) ≤ count test t
count-drop-le test zero t = omega arith
count-drop-le test (suc n) [] = omega arith
count-drop-le test (suc n) (c ∷ t) = ground (arith, count-drop-le test n t)

module _ (w : World) where
  -- A cancelled worker makes no further call: what the run would have met after the round in which
  -- it finds its token cancelled does not matter.
  run_refunds-append_cancelled :
      (before after : List Poll) (poll : Poll) (s : List Call)
      → is_cancelled poll ≡ true
      → run_refunds w (before ++ (poll ∷ after)) s ≡ run_refunds w (before ++ (poll ∷ [])) s
  unfolding run_refunds
  run_refunds-append_cancelled [] after poll s h = ground arith
  run_refunds-append_cancelled (p ∷ before) after poll s h =
      ground (arith, run_refunds-append_cancelled before after poll (process_next_refund w s).1 h)

  dropped-le :
      (n : ℕ) (s t : List Call)
      → count is_refund_payment (dropped n s t) ≤ count is_refund_payment t
  unfolding dropped
  dropped-le n s t = count-drop-le is_refund_payment (min n (length t - length s)) t

  -- A run of the refund worker, interrupted or not, asks the provider for new refunds no more often
  -- than it goes round.
  pub run_refunds-le :
      (polls : List Poll) (s : List Call)
      → count is_refund_payment (run_refunds w polls s) ≤ count is_refund_payment s + length polls
  unfolding run_refunds
  run_refunds-le [] s = omega arith
  run_refunds-le (poll ∷ polls) s =
      let t = (process_next_refund w s).1 in
      let once = process_next_refund_once w s in
      let rest = run_refunds-le polls t in
      elim (Option-cases poll.during) [
        | inl e ↦ ground (arith, e, once, rest)
        | inr (n, e) ↦ ground (arith, e, once, dropped-le n s t)
      ]
