-- ===== src/ActivityTracker/Batches/Counts.antt =====
-- How many views batches hold, and how the operations on batches change that.
use open_community_groups.Prelude.{
  ℕ, ◌+◌, ◌<◌, ◌^◌, ◌≡◌, Bool, true, false, List, [], ◌∷◌, if◌then◌else◌, count, arith, ◌==◌,
  nat_eq, string_eq, pair_eq, Bool-cases, inl, inr,
}
use open_community_groups.ActivityTracker.Batches.{
  Uuid, Day, Key, Totals, Activity, community_view, event_view, group_view, Batches, increment,
  aggregate_activity, drain_queued_activities, has_no_data,
}

-- The views of an entity on a day.
abbrev pub total_at : Key → Totals → ℕ
total_at k [] = 0
total_at k ((k', n) ∷ m) = let rest = total_at k m in if k == k' then n + rest else rest

-- What an activity counts as: the entity, and the entries of its kind.
abbrev pub entity : Activity → Uuid
entity (community_view id) = id
entity (event_view id) = id
entity (group_view id) = id

abbrev pub views : Activity → Batches → Totals
views (community_view id) b = b.community_views
views (event_view id) b = b.event_views
views (group_view id) b = b.group_views

-- The views in a batch that are the activity on the day.
abbrev pub held : Activity → Day → Batches → ℕ
held a d b = total_at (entity a, d) (views a b)

abbrev same_key : Key → Key → Bool
same_key k k' = k == k'

abbrev pub is_view : Activity → Day → Activity × Day → Bool
is_view (community_view i) d (community_view j, d') = same_key (i, d) (j, d')
is_view (event_view i) d (event_view j, d') = same_key (i, d) (j, d')
is_view (group_view i) d (group_view j, d') = same_key (i, d) (j, d')
is_view _ d (_, d') = false

-- How often the activity was tracked on the day.
abbrev pub tracked : Activity → Day → List (Activity × Day) → ℕ
tracked a d = count (is_view a d)

abbrev pub one_if : Bool → ℕ
one_if b = if b then 1 else 0

key_eq : (x y : Key) → (x == y) ≡ true → x ≡ y
key_eq x y h = ((pair_eq).same_exact x y).1 h

total_at-increment :
    (k k' : Key) (m : Totals)
    → total_at k m + one_if (k == k') < 2 ^ 32
    → total_at k (increment k' m) ≡ total_at k m + one_if (k == k')
unfolding increment
total_at-increment k k' [] h = ground arith
total_at-increment k k' ((c, n) ∷ m) h =
    let ih = total_at-increment k k' m in
    elim (Bool-cases (k' == c)) [
      | inl e ↦ ground (arith, e, key_eq k' c e, ih)
      | inr e ↦ ground (arith, e, ih)
    ]

pub held-aggregate :
    (a : Activity) (d : Day) (x : Activity) (day : Day) (b : Batches)
    → held a d b + one_if (is_view a d (x, day)) < 2 ^ 32
    → held a d (aggregate_activity day x b) ≡ held a d b + one_if (is_view a d (x, day))
unfolding aggregate_activity
held-aggregate a d x day b h = grind (arith, total_at-increment)

pub held-drain :
    (a : Activity) (d : Day) (queue : List (Activity × Day)) (b : Batches)
    → held a d b + tracked a d queue < 2 ^ 32
    → held a d (drain_queued_activities queue b) ≡ held a d b + tracked a d queue
unfolding drain_queued_activities
held-drain a d [] b h = omega arith
held-drain a d ((x, day) ∷ queue) b h =
    ground (arith, held-aggregate a d x day b, held-drain a d queue (aggregate_activity day x b))

pub held-empty : (a : Activity) (d : Day) (b : Batches) → has_no_data b ≡ true → held a d b ≡ 0
unfolding has_no_data
held-empty (community_view i) d b h = ground arith
held-empty (event_view i) d b h = ground arith
held-empty (group_view i) d b h = ground arith
