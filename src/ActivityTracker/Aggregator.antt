-- ===== src/ActivityTracker/Aggregator.antt =====
-- The worker that turns queued activities into batches. What `select!` finds in each round is an
-- input, as is the flusher's acceptance of a batch: `send` fails when the flusher is gone.
use open_community_groups.Prelude.{Bool, not, ◌&&◌, List, [], ◌∷◌, if◌then◌else◌}
use open_community_groups.ActivityTracker.Batches.{
  Day, Activity, Batches, aggregate_activity, clear, drain_queued_activities, has_no_data,
}

-- A round that does not end the loop: a tick, and whether the flusher takes a batch, or an activity
-- and the day on which it is received.
pub data Found : Type 0 where
  tick : Bool → Found
  received : Activity → Day → Found

-- What the cancellation finds: the activities still queued, with their days, and whether the flusher
-- takes the last batch.
pub record Stop : Type 0 where
  pub queued : List (Activity × Day)
  pub accepted : Bool

unfoldable pub stop : Stop → Batches → List Batches
unfolding drain_queued_activities has_no_data
stop end b =
    let b = drain_queued_activities end.queued b in
    if not (has_no_data b) && end.accepted then b ∷ [] else []

-- `Aggregator::run`: the batches that the flusher is sent, the first one first.
unfoldable pub aggregate : List Found → Stop → Batches → List Batches
unfolding clear has_no_data aggregate_activity stop
aggregate [] end b = stop end b
aggregate (tick accepted ∷ rounds) end b =
    let sent = b ∷ aggregate rounds end (clear b) in
    let kept = aggregate rounds end b in if not (has_no_data b) && accepted then sent else kept
aggregate (received a day ∷ rounds) end b = aggregate rounds end (aggregate_activity day a b)
