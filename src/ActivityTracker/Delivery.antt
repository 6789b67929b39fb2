-- ===== src/ActivityTracker/Delivery.antt =====
-- What becomes of a tracked activity.
use open_community_groups.Prelude.{ℕ, ◌+◌, ◌<◌, ◌^◌, ◌≡◌, refl, Bool, true, List, [], ◌∷◌, arith}
use open_community_groups.ActivityTracker.Batches.{
  Day, Activity, community_view, event_view, group_view, Batches, new, aggregate_activity, clear,
  drain_queued_activities,
}
use open_community_groups.ActivityTracker.Batches.Counts.{
  held, tracked, held-aggregate, held-drain, held-empty,
}
use open_community_groups.ActivityTracker.Aggregator.{Found, tick, received, Stop, stop, aggregate}
use open_community_groups.ActivityTracker.Flusher.{Row, Call, DbActivityTracker, flush_batch, flush}
use open_community_groups.ActivityTracker.Flusher.Rows.{asked_all, asked_all-flush}

-- The activities that the rounds receive.
abbrev pub activities : List Found → List (Activity × Day)
activities [] = []
activities (tick accepted ∷ rounds) = activities rounds
activities (received a day ∷ rounds) = (a, day) ∷ activities rounds

abbrev held_all : Activity → Day → List Batches → ℕ
held_all a d [] = 0
held_all a d (b ∷ bs) = held a d b + held_all a d bs

held-clear : (a : Activity) (d : Day) (b : Batches) → held a d (clear b) ≡ 0
unfolding clear
held-clear (community_view i) d b = refl
held-clear (event_view i) d b = refl
held-clear (group_view i) d b = refl

module _ (a : Activity) (d : Day) where
  held_all-stop :
      (end : Stop) (b : Batches)
      → end.accepted ≡ true
      → held a d b + tracked a d end.queued < 2 ^ 32
      → held_all a d (stop end b) ≡ held a d b + tracked a d end.queued
  unfolding stop
  held_all-stop end b h bound = ground (
    arith,
    h,
    held-drain a d end.queued b bound,
    held-empty a d (drain_queued_activities end.queued b),
  )

  held_all-aggregate :
      (rounds : List Found) (end : Stop) (b : Batches)
      → end.accepted ≡ true
      → held a d b + tracked a d (activities rounds) + tracked a d end.queued < 2 ^ 32
      → held_all a d (aggregate rounds end b)
        ≡ held a d b + tracked a d (activities rounds) + tracked a d end.queued
  unfolding aggregate
  held_all-aggregate [] end b h bound = ground (arith, held_all-stop end b h)
  held_all-aggregate (tick accepted ∷ rounds) end b h bound = ground (
    arith,
    held_all-aggregate rounds end b h,
    held_all-aggregate rounds end (clear b) h,
    held-clear a d b,
  )
  held_all-aggregate (received x day ∷ rounds) end b h bound = ground (
    arith,
    held_all-aggregate rounds end (aggregate_activity day x b) h,
    held-aggregate a d x day b,
  )

  asked_all-flush_all :
      (le : Row → Row → Bool) (db : DbActivityTracker) (bs : List Batches) (s : List Call)
      → asked_all a d (flush le db bs s) ≡ held_all a d bs + asked_all a d s
  unfolding flush
  asked_all-flush_all le db [] s = omega arith
  asked_all-flush_all le db (b ∷ bs) s =
      ground
        (arith, asked_all-flush_all le db bs (flush_batch le db b s), asked_all-flush le db a d b s)

  -- When fewer than 2^32 views of an entity are tracked on a day, and the flusher takes the last
  -- batch, the database is asked to add exactly those views, however they are spread over batches,
  -- whichever batches the flusher refuses before, and whatever the database answers.
  pub flush-aggregate :
      (le : Row → Row → Bool) (db : DbActivityTracker) (rounds : List Found) (end : Stop)
      → end.accepted ≡ true
      → tracked a d (activities rounds) + tracked a d end.queued < 2 ^ 32
      → asked_all a d (flush le db (aggregate rounds end new) [])
        ≡ tracked a d (activities rounds) + tracked a d end.queued
  flush-aggregate le db rounds end h bound = ground (
    arith,
    asked_all-flush_all le db (aggregate rounds end new) [],
    held_all-aggregate rounds end new h,
    held-clear a d new,
  )
