-- ===== src/ActivityTracker/Tests.antt =====
-- A run of the tracker against a database that fails for events.
use open_community_groups.Prelude.{◌≡◌, refl, arith, Bool, true, false, List, [], ◌∷◌, leb}
use open_community_groups.Prelude.Result.{ok, err}
use open_community_groups.ActivityTracker.Batches.{event_view, group_view, new}
use open_community_groups.ActivityTracker.Aggregator.{Found, tick, received, Stop, aggregate}
use open_community_groups.ActivityTracker.Flusher.{
  Row, update_event_views, update_group_views, DbActivityTracker, flush,
}
use open_community_groups.ActivityTracker.Flusher.Rows.{asked_all}
use open_community_groups.ActivityTracker.Delivery.{flush-aggregate}

abbrev by_entity : Row → Row → Bool
by_entity (a, _, _) (b, _, _) = leb a b

abbrev database : DbActivityTracker
database = record {
  update_community_views = λ rs s. ok tt;
  update_event_views = λ rs s. err "unavailable";
  update_group_views = λ rs s. ok tt;
}

-- Two views of event 7 on the first day, one in each batch, and one on the second.
abbrev rounds : List Found
rounds =
    received (event_view 7) "2026-01-01"
    ∷ tick false
    ∷ received (group_view 3) "2026-01-01"
    ∷ tick true
    ∷ received (event_view 7) "2026-01-01"
    ∷ received (event_view 2) "2026-01-01"
    ∷ []

abbrev end : Stop
end = record { queued = (event_view 7, "2026-01-02") ∷ []; accepted = true }

flush-aggregate_example :
    asked_all (event_view 7) "2026-01-01" (flush by_entity database (aggregate rounds end new) [])
    ≡ 2
flush-aggregate_example =
    flush-aggregate (event_view 7) "2026-01-01" by_entity database rounds end refl (omega arith)

flush_test :
    flush by_entity database (aggregate rounds end new) []
    ≡ update_event_views ((2, "2026-01-01", 1) ∷ (7, "2026-01-01", 1) ∷ (7, "2026-01-02", 1) ∷ [])
      ∷ update_group_views ((3, "2026-01-01", 1) ∷ [])
      ∷ update_event_views ((7, "2026-01-01", 1) ∷ [])
      ∷ []
unfolding flush aggregate
flush_test = refl
