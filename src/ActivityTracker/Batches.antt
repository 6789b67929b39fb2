-- ===== src/ActivityTracker/Batches.antt =====
-- The in-memory batches of activity_tracker.rs. A `Uuid` is its 128 bits as a number, a day its text,
-- a `u32` wraps, and a `HashMap` is the list of its entries in whatever order.
pub mod Counts
use open_community_groups.Prelude.{
  ℕ, ◌+◌, ◌%◌, ◌^◌, String, Bool, ◌&&◌, List, [], ◌∷◌, if◌then◌else◌, is_empty, ◌==◌, nat_eq,
  string_eq, pair_eq,
}

abbrev pub Uuid : Type 0
Uuid = ℕ

abbrev pub Day : Type 0
Day = String

-- An entity and a day.
abbrev pub Key : Type 0
Key = Uuid × Day

-- `HashMap<(EntityId, Day), Total>`
abbrev pub Totals : Type 0
Totals = List (Key × ℕ)

pub data Activity : Type 0 where
  community_view event_view group_view : Uuid → Activity

pub record Batches : Type 0 where
  pub community_views : Totals
  pub event_views : Totals
  pub group_views : Totals

-- `*m.entry(k).or_default() += 1`
pub increment : Key → Totals → Totals
increment k [] = (k, 1) ∷ []
increment k ((k', n) ∷ m) =
    let rest = increment k m in if k == k' then (k', (n + 1) % 2 ^ 32) ∷ m else (k', n) ∷ rest

-- `Batches::new`
abbrev pub new : Batches
new = record { community_views = []; event_views = []; group_views = [] }

-- `Batches::aggregate_activity`, with the day on which it runs.
unfoldable pub aggregate_activity : Day → Activity → Batches → Batches
unfolding increment
aggregate_activity day (community_view id) b = record b {
  community_views = increment (id, day) b.community_views;
}
aggregate_activity day (event_view id) b = record b {
  event_views = increment (id, day) b.event_views;
}
aggregate_activity day (group_view id) b = record b {
  group_views = increment (id, day) b.group_views;
}

-- `Batches::clear`
unfoldable pub clear : Batches → Batches
clear b = record { community_views = []; event_views = []; group_views = [] }

-- `Batches::drain_queued_activities`, on what the channel still holds, each with its day.
unfoldable pub drain_queued_activities : List (Activity × Day) → Batches → Batches
unfolding aggregate_activity
drain_queued_activities [] b = b
drain_queued_activities ((a, day) ∷ queue) b =
    drain_queued_activities queue (aggregate_activity day a b)

-- `Batches::is_empty`
unfoldable pub has_no_data : Batches → Bool
has_no_data b = is_empty b.community_views && is_empty b.event_views && is_empty b.group_views
