-- ===== src/Analytics/Examples.antt =====
-- The theorems on the counts of scans (internal/analytics), applied to two scans of one code.
use qurator.Common.{
  ℕ, zero, suc, lookup, text_beq, sort_by, bump, insert, text_ltb, at, replace, copies, total,
  length, ◌≤◌, ◌<◌, ◌-◌, none, some, arith, ◌+◌, ◌≡◌, refl, Bool, true, false, List, [], ◌∷◌, Text,
  bytes, Result, ok, err, ◌*◌, sum_where, text_eq,
}
use qurator.Domain.{
  Time, ScanEvent, device_mobile, device_desktop, dim_ua_family, dim_device_category,
  dim_referrer_host, dim_is_bot, AnalyticsQuery, AnalyticsResult, bucket_day,
}
use qurator.Domain.Samples.{draft}
use qurator.Store.State.{MemStore, StoreError, live, new_mem_store, has}
use qurator.Store.Scans.{
  check_events, check_rollups, truncate_hour, append_events, add_rollups, insert_scan_batch,
  prune_scan_events, query_analytics, delta_key, hour_ns, day_ns,
}
use qurator.Analytics.Rollup.{build_rollups, rollup_less}
use qurator.Analytics.Recorder.{
  Options, Recorder, new_recorder, unflushed, Turn, receives, counts, ticks, settles, finishes,
  flushes, Action, records, closes, works, act, close, record_event, work,
}
use qurator.Analytics.Recorder.Runs.{Run, start, later}
use qurator.Analytics.Recorder.Accounting.{held, counted, offered}
use qurator.Analytics.Balance.{stored}
use qurator.Analytics.Recorder.Kept.{in_hand, events_offered, matching, Run-balance}
use qurator.Analytics.Recorder.Draining.{turns, turns_left, Run-terminates}
use qurator.Analytics.Recorder.Drained.{Run-drained}
use qurator.Domain.{Time}
use qurator.Analytics.Retention.{run_once}
use qurator.Common.{In}
use qurator.Store.State.{ScanRow}
use qurator.Analytics.Retention.Counting.{is_old}
use qurator.Analytics.Retention.Keeping.{prune_scan_events-keeps}
use qurator.Analytics.Retention.Pruning.{Pruned, run_once-Pruned, run_once-overflow}
use qurator.Analytics.Balance.{
  slice, scans, referrer_host, build_rollups_exact, IsExact, IsBalanced, batch_of,
  insert_scan_batch-IsExact, IsExact→IsBalanced,
}
use qurator.Analytics.Query.{sum_points, sum_counts, breakdown_of, query_analytics_balanced}

abbrev visits : List ScanEvent
visits =
    record {
      code_id = bytes "cod_1";
      occurred_at = hour_ns + 5;
      ua_family = bytes "Firefox";
      device_category = device_desktop;
      referrer_host = [];
      is_bot = false;
    }
    ∷ record {
      code_id = bytes "cod_1";
      occurred_at = hour_ns + 7;
      ua_family = bytes "Safari";
      device_category = device_mobile;
      referrer_host = bytes "b.example";
      is_bot = false;
    }
    ∷ []

abbrev everything : Text → Time → Bool
everything c t = true

build_rollups_exact_example :
    sum_where
      (λ r. slice everything dim_referrer_host (delta_key r))
      (λ r. r.count)
      (build_rollups visits)
    ≡ scans everything visits
build_rollups_exact_example = build_rollups_exact everything referrer_host visits

-- a store that has the row of the scanned code
abbrev stocked : MemStore
stocked = record new_mem_store {
  codes = (bytes "cod_1", draft (bytes "cod_1") (bytes "menu")) ∷ [];
}

stocked-IsExact : IsExact stocked
unfolding new_mem_store sum_where
stocked-IsExact q b = refl

insert_scan_batch-IsExact_example : IsExact (insert_scan_batch live (batch_of visits) stocked).1
insert_scan_batch-IsExact_example = insert_scan_batch-IsExact live visits stocked stocked-IsExact

abbrev visited : MemStore
visited = (insert_scan_batch live (batch_of visits) stocked).1

visited-IsBalanced : IsBalanced visited
visited-IsBalanced =
    IsExact→IsBalanced visited (insert_scan_batch-IsExact live visits stocked stocked-IsExact)

abbrev whole : AnalyticsQuery
whole = record { code_id = bytes "cod_1"; from = 0; to = 100 * hour_ns; bucket = bucket_day }

abbrev answered : Result StoreError AnalyticsResult → AnalyticsResult
answered (ok r) = r
answered (err e) = record { total = 0; series = []; breakdowns = [] }

abbrev report : AnalyticsResult
report = answered (query_analytics live whole visited).0

report_lem : query_analytics live whole visited ≡ (ok report, visited)
unfolding query_analytics
report_lem = refl

query_analytics_balanced_example :
    (sum_points report.series ≡ report.total)
    × (sum_counts (breakdown_of dim_ua_family report) ≡ report.total)
    × (sum_counts (breakdown_of dim_device_category report) ≡ report.total)
    × (sum_counts (breakdown_of dim_referrer_host report) ≡ report.total)
    × (sum_counts (breakdown_of dim_is_bot report) ≡ report.total)
query_analytics_balanced_example =
    query_analytics_balanced whole visited report visited-IsBalanced report_lem

-- one worker, batches of one event
abbrev single : Options
single = record { buffer_size = 4; batch_size = 1; workers = 1 }

abbrev scanned : ScanEvent
scanned = record {
  code_id = bytes "cod_1";
  occurred_at = hour_ns + 5;
  ua_family = bytes "Firefox";
  device_category = device_desktop;
  referrer_host = [];
  is_bot = false;
}

abbrev after : Action → Recorder → Recorder
after a r = elim (act single a r) [ some r' ↦ r' | none ↦ r ]

abbrev recorded : Recorder
recorded =
    after (works 0 receives) (after closes (after (records scanned) (new_recorder single stocked)))

abbrev drained : Recorder
drained =
    after (works 0 finishes)
      (after (works 0 settles) (after (works 0 (flushes live)) (after (works 0 counts) recorded)))

abbrev actions : List Action
actions =
    works 0 finishes
    ∷ works 0 settles
    ∷ works 0 (flushes live)
    ∷ works 0 counts
    ∷ works 0 receives
    ∷ closes
    ∷ records scanned
    ∷ []

drained-Run : Run single (new_recorder single stocked) actions drained
unfolding act new_recorder at replace copies close record_event work insert_scan_batch check_events
    has lookup text_beq check_rollups build_rollups sort_by bump insert truncate_hour rollup_less
    text_ltb append_events add_rollups
drained-Run =
    later (later (later (later (later (later (later start refl) refl) refl) refl) refl) refl) refl

drained_stuck : (i : ℕ) (t : Turn) → act single (works i t) drained ≡ none
unfolding act new_recorder at replace copies close record_event work insert_scan_batch check_events
    has lookup text_beq check_rollups build_rollups sort_by bump insert truncate_hour rollup_less
    text_ltb append_events add_rollups
drained_stuck zero receives = refl
drained_stuck zero counts = refl
drained_stuck zero ticks = refl
drained_stuck zero settles = refl
drained_stuck zero finishes = refl
drained_stuck zero (flushes ctx) = refl
drained_stuck (suc i) t = refl

drained_closed : drained.closed ≡ true
unfolding act new_recorder at replace copies close record_event work insert_scan_batch check_events
    has lookup text_beq check_rollups build_rollups sort_by bump insert truncate_hour rollup_less
    text_ltb append_events add_rollups
drained_closed = refl

Run-balance_example :
    (length drained.store.events
        + drained.dropped
        + length drained.channel
        + total held drained.workers
      ≡ length stocked.events + offered actions)
    × ((p : ScanEvent → Bool)
        → matching p (stored drained.store.events)
            + matching p drained.channel
            + total (λ w. matching p (in_hand w)) drained.workers
          ≤ matching p (stored stocked.events) + matching p (events_offered actions))
    × (unflushed drained ≡ length drained.channel + total counted drained.workers)
Run-balance_example = Run-balance single stocked drained-Run

Run-drained_example :
    (unflushed drained ≡ 0)
    × (length drained.store.events + drained.dropped ≡ length stocked.events + offered actions)
    × ((p : ScanEvent → Bool)
        → matching p (stored drained.store.events)
          ≤ matching p (stored stocked.events) + matching p (events_offered actions))
Run-drained_example =
    Run-drained single stocked (omega arith) drained-Run drained_closed drained_stuck

-- from the moment of Close on
abbrev closing : Recorder
closing = after closes (after (records scanned) (new_recorder single stocked))

recorded-Run : Run single closing (works 0 receives ∷ []) recorded
unfolding act new_recorder at replace copies close record_event work insert_scan_batch check_events
    has lookup text_beq check_rollups build_rollups sort_by bump insert truncate_hour rollup_less
    text_ltb append_events add_rollups
recorded-Run = later start refl

closing_closed : closing.closed ≡ true
unfolding act new_recorder at replace copies close record_event work insert_scan_batch check_events
    has lookup text_beq check_rollups build_rollups sort_by bump insert truncate_hour rollup_less
    text_ltb append_events add_rollups
closing_closed = refl

Run-terminates_example :
    (recorded.closed ≡ true)
    × (turns (works 0 receives ∷ []) + turns_left recorded ≤ turns_left closing)
Run-terminates_example = Run-terminates single closing closing_closed recorded-Run

visited_length : length visited.events < 5
unfolding insert_scan_batch check_events has lookup text_beq check_rollups build_rollups sort_by
    bump insert truncate_hour rollup_less text_ltb append_events add_rollups new_mem_store
visited_length = omega arith

run_once-Pruned_example :
    Pruned (400 * day_ns - 1 * day_ns) 0 visited (run_once 5 (λ i. live) (400 * day_ns) 1 1 visited)
run_once-Pruned_example =
    run_once-Pruned 5 (λ i. live) (400 * day_ns) 1 1 visited (omega arith) (omega arith)
      visited_length

run_once-overflow_example :
    (before : Time) × (200 < before)
    × Pruned before 0 visited (run_once 5 (λ i. live) 200 106752 1 visited)
run_once-overflow_example =
    run_once-overflow 5 (λ i. live) 200 106752 1 visited (omega arith) (omega arith) visited_length

prune_scan_events-keeps_example :
    ((q : AnalyticsQuery)
      → (query_analytics live q (prune_scan_events live (hour_ns + 6) 10 visited).1).0
        ≡ (query_analytics live q visited).0)
    × ((r : ScanRow)
        → In r visited.events
        → is_old (hour_ns + 6) r ≡ false
        → In r (prune_scan_events live (hour_ns + 6) 10 visited).1.events)
prune_scan_events-keeps_example = prune_scan_events-keeps live (hour_ns + 6) 10 visited
