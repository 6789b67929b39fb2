-- ===== src/ActivityTracker/Flusher/Rows.antt =====
-- What the database is asked to add, and the order of the rows.
use open_community_groups.Prelude.{
  ℕ, ◌+◌, ◌≡◌, refl, Bool, List, [], ◌∷◌, if◌then◌else◌, arith, ◌==◌, nat_eq, string_eq, pair_eq,
}
use open_community_groups.ActivityTracker.Batches.{
  Day, Key, Totals, Activity, community_view, event_view, group_view, Batches,
}
use open_community_groups.ActivityTracker.Batches.Counts.{total_at, held}
use open_community_groups.ActivityTracker.Flusher.{
  Row, Call, update_community_views, update_event_views, update_group_views, DbActivityTracker,
  rows, insert, sort, prepare_batch_data, flush_totals, flush_batch,
}

-- The sum of the rows of an entity and a day.
abbrev pub asked_at : Key → List Row → ℕ
asked_at k [] = 0
asked_at k ((id, day, n) ∷ rs) =
    let rest = asked_at k rs in if k == (id, day) then n + rest else rest

-- What a call asks to add to the views that are the activity on the day.
abbrev pub asked : Activity → Day → Call → ℕ
asked (community_view i) d (update_community_views rs) = asked_at (i, d) rs
asked (event_view i) d (update_event_views rs) = asked_at (i, d) rs
asked (group_view i) d (update_group_views rs) = asked_at (i, d) rs
asked _ d _ = 0

abbrev pub asked_all : Activity → Day → List Call → ℕ
asked_all a d [] = 0
asked_all a d (c ∷ s) = asked a d c + asked_all a d s

asked_at-rows : (k : Key) (m : Totals) → asked_at k (rows m) ≡ total_at k m
asked_at-rows k [] = refl
asked_at-rows k (((id, day), n) ∷ m) = ground (arith, asked_at-rows k m)

module _ (le : Row → Row → Bool) where
  asked_at-insert :
      (k : Key) (r : Row) (rs : List Row) → asked_at k (insert le r rs) ≡ asked_at k (r ∷ rs)
  asked_at-insert k r [] = refl
  asked_at-insert k (i, d, n) ((j, e, m) ∷ rs) = ground (arith, asked_at-insert k (i, d, n) rs)

  asked_at-sort : (k : Key) (rs : List Row) → asked_at k (sort le rs) ≡ asked_at k rs
  asked_at-sort k [] = refl
  asked_at-sort k ((i, d, n) ∷ rs) =
      ground (arith, asked_at-insert k (i, d, n) (sort le rs), asked_at-sort k rs)

  asked_at-prepare : (k : Key) (m : Totals) → asked_at k (prepare_batch_data le m) ≡ total_at k m
  unfolding prepare_batch_data
  asked_at-prepare k m = ground (arith, asked_at-sort k (rows m), asked_at-rows k m)

  -- A flushed batch asks for what it holds.
  pub asked_all-flush :
      (db : DbActivityTracker) (a : Activity) (d : Day) (b : Batches) (s : List Call)
      → asked_all a d (flush_batch le db b s) ≡ held a d b + asked_all a d s
  unfolding flush_batch flush_totals
  asked_all-flush db (community_view i) d b s =
      ground (arith, asked_at-prepare (i, d) b.community_views)
  asked_all-flush db (event_view i) d b s = ground (arith, asked_at-prepare (i, d) b.event_views)
  asked_all-flush db (group_view i) d b s = ground (arith, asked_at-prepare (i, d) b.group_views)
