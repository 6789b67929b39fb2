-- ===== src/ActivityTracker/Flusher.antt =====
-- The worker that writes batches to the database. The order of the rows (`Ord` of the `uuid` crate,
-- then of the day and the total) is a test of two rows; the database (`DBActivityTracker`,
-- ocg-server/src/db/activity_tracker.rs) is what it answers after the calls made before.
pub mod Rows
pub mod Order
use open_community_groups.Prelude.{ℕ, String, Bool, List, [], ◌∷◌, if◌then◌else◌, is_empty}
use open_community_groups.Prelude.Result.{Result}
use open_community_groups.Prelude.Exec.{Exec, call}
use open_community_groups.ActivityTracker.Batches.{Uuid, Day, Totals, Batches}

abbrev pub Row : Type 0
Row = Uuid × Day × ℕ

pub data Call : Type 0 where
  update_community_views update_event_views update_group_views : List Row → Call

pub record DbActivityTracker : Type 0 where
  pub update_community_views : List Row → List Call → Result String (Unit {0})
  pub update_event_views : List Row → List Call → Result String (Unit {0})
  pub update_group_views : List Row → List Call → Result String (Unit {0})

-- The entries of a map as rows.
abbrev pub rows : Totals → List Row
rows [] = []
rows (((id, day), total) ∷ m) = (id, day, total) ∷ rows m

module _ (le : Row → Row → Bool) where
  abbrev pub insert : Row → List Row → List Row
  insert r [] = r ∷ []
  insert r (x ∷ xs) = let rest = insert r xs in if le r x then r ∷ x ∷ xs else x ∷ rest

  -- `sort`
  abbrev pub sort : List Row → List Row
  sort [] = []
  sort (r ∷ rs) = insert r (sort rs)

  pub prepare_batch_data : Totals → List Row
  prepare_batch_data m = sort (rows m)

  module _ (db : DbActivityTracker) where
    -- The calls made after `s`; an error of the database is only logged.
    flush_totals :
        (List Row → Call)
        → (List Row → List Call → Result String (Unit {0}))
        → Totals
        → List Call
        → List Call
    unfolding prepare_batch_data
    flush_totals c update m s =
        let prepared = prepare_batch_data m in
        if is_empty m then s else (call (c prepared) (update prepared) s).1

    pub flush_batch : Batches → List Call → List Call
    unfolding flush_totals
    flush_batch b s =
        let s = flush_totals update_community_views db.update_community_views b.community_views s in
        let s = flush_totals update_event_views db.update_event_views b.event_views s in
        flush_totals update_group_views db.update_group_views b.group_views s

    -- `Flusher::run`, on the batches that it receives until the channel closes.
    unfoldable pub flush : List Batches → List Call → List Call
    unfolding flush_batch
    flush [] s = s
    flush (b ∷ bs) s = flush bs (flush_batch b s)
