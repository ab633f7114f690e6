-- ===== src/Store/Scans.antt =====
-- memstore.go, analytics: scan events and their hourly counts. Counts are unbounded numbers: an
-- int64 that counts scans one by one does not reach its end. (`bucketStart` is that of
-- storetest/contract.go: Go's zero time is a Monday at midnight, UTC.)
use qurator.Common.{
  ℕ, ◌+◌, ◌-◌, ◌%◌, Bool, true, false, not, ◌&&◌, ◌||◌, Option, none, some, List, [], ◌∷◌, ◌++◌,
  map, Text, Dict, lookup, insert, bump, length, take, filter, any, sort_by, text_ltb, ok, err,
  ◌==◌, nat_eq, text_eq, ltb, if◌then◌else◌,
}
use qurator.Domain.{
  Time, ScanEvent, RollupDelta, ScanBatch, Dimension, dim_unset, dim_total, dim_ua_family,
  dim_device_category, dim_referrer_host, dim_is_bot, dim_eq, Bucket, bucket_unset, bucket_hour,
  bucket_day, bucket_week, AnalyticsQuery, SeriesPoint, BreakdownValue, AnalyticsResult,
  is_zero_time,
}
use qurator.Store.State.{
  MemStore, Op, Ctx, live, done, has, StoreError, not_found, invalid, cancelled, ScanRow, RollupKey,
  rollup_key_eq,
}

abbrev pub hour_ns : ℕ
hour_ns = 3600000000000

abbrev pub day_ns : ℕ
day_ns = 86400000000000

abbrev pub week_ns : ℕ
week_ns = 604800000000000

-- t.Truncate(time.Hour)
unfoldable pub truncate_hour : Time → Time
truncate_hour t = t - t % hour_ns

unfoldable pub bucket_start : Time → Bucket → Time
bucket_start t bucket_hour = t - t % hour_ns
bucket_start t bucket_week = t - t % week_ns
bucket_start t _ = t - t % day_ns

abbrev is_unset : Dimension → Bool
is_unset dim_unset = true
is_unset _ = false

unfoldable pub check_events : MemStore → List ScanEvent → Option StoreError
check_events m [] = none
check_events m (ev ∷ evs) =
    let rest = check_events m evs in
    if not (has ev.code_id m.codes)
    then some not_found
    else if is_zero_time ev.occurred_at
    then some invalid
    else rest

unfoldable pub check_rollups : MemStore → List RollupDelta → Option StoreError
check_rollups m [] = none
check_rollups m (r ∷ rs) =
    let rest = check_rollups m rs in
    if not (has r.code_id m.codes)
    then some not_found
    else if is_unset r.dimension || is_zero_time r.hour_bucket
    then some invalid
    else rest

unfoldable pub append_events : MemStore → List ScanEvent → MemStore
append_events m [] = m
append_events m (ev ∷ evs) =
    append_events
      (record m {
        next_seq = m.next_seq + 1;
        events = m.events ++ (record { seq = m.next_seq + 1; ev = ev } ∷ []);
      })
      evs

abbrev pub delta_key : RollupDelta → RollupKey
delta_key r = record {
  code_id = r.code_id;
  hour = truncate_hour r.hour_bucket;
  dim = r.dimension;
  value = r.value;
}

unfoldable pub add_rollups : Dict RollupKey ℕ → List RollupDelta → Dict RollupKey ℕ
add_rollups m [] = m
add_rollups m (r ∷ rs) = add_rollups (bump (delta_key r) r.count m) rs

unfoldable pub insert_scan_batch : Ctx → ScanBatch → Op (Unit {0})
insert_scan_batch done b m = (err cancelled, m)
insert_scan_batch live b m = elim (check_events m b.events) [
  | some e ↦ (err e, m)
  | none ↦ elim (check_rollups m b.rollups) [
    | some e ↦ (err e, m)
    | none ↦
        (ok tt, record (append_events m b.events) { rollups = add_rollups m.rollups b.rollups })
  ]
]

-- the variables of the loop of QueryAnalytics
pub record Tally : Type 0 where
  pub total : ℕ
  pub series : Dict Time ℕ
  pub breakdown : Dict Dimension (Dict Text ℕ)

abbrev pub empty_tally : Tally
empty_tally = record { total = 0; series = []; breakdown = [] }

abbrev pub values_of : Dimension → Dict Dimension (Dict Text ℕ) → Dict Text ℕ
values_of d b = elim (lookup d b) [ none ↦ [] | some v ↦ v ]

abbrev pub in_query : AnalyticsQuery → RollupKey → Bool
in_query q k = k.code_id == q.code_id && not (ltb k.hour q.from) && ltb k.hour q.to

-- one round of the loop
unfoldable pub tally_one : AnalyticsQuery → RollupKey → ℕ → Tally → Tally
tally_one q k n t =
    if not (in_query q k)
    then t
    else if k.dim == dim_total
    then record t { total = t.total + n; series = bump (bucket_start k.hour q.bucket) n t.series }
    else record t {
      breakdown = insert k.dim (bump k.value n (values_of k.dim t.breakdown)) t.breakdown;
    }

unfoldable pub tally : AnalyticsQuery → Dict RollupKey ℕ → Tally → Tally
tally q [] t = t
tally q ((k, n) ∷ m) t = tally q m (tally_one q k n t)

abbrev earlier : SeriesPoint → SeriesPoint → Bool
earlier a b = ltb a.start b.start

-- most frequent first
abbrev more_frequent : BreakdownValue → BreakdownValue → Bool
more_frequent a b =
    if not (a.count == b.count) then ltb b.count a.count else text_ltb a.value b.value

unfoldable pub series_list : Dict Time ℕ → List SeriesPoint
series_list s = sort_by earlier (map (λ p. record { start = p.0; count = p.1 }) s)

unfoldable pub breakdown_list : Dict Text ℕ → List BreakdownValue
breakdown_list v = sort_by more_frequent (map (λ p. record { value = p.0; count = p.1 }) v)

unfoldable pub breakdown_lists :
    Dict Dimension (Dict Text ℕ)
    → Dict Dimension (List BreakdownValue)
    → Dict Dimension (List BreakdownValue)
breakdown_lists [] out = out
breakdown_lists ((d, v) ∷ b) out = breakdown_lists b (insert d (breakdown_list v) out)

abbrev pub empty_breakdowns : Dict Dimension (List BreakdownValue)
empty_breakdowns =
    (dim_ua_family, [])
    ∷ (dim_device_category, [])
    ∷ (dim_referrer_host, [])
    ∷ (dim_is_bot, [])
    ∷ []

abbrev pub default_bucket : Bucket → Bucket
default_bucket bucket_unset = bucket_day
default_bucket b = b

unfoldable pub query_analytics : Ctx → AnalyticsQuery → Op AnalyticsResult
query_analytics done q m = (err cancelled, m)
query_analytics live q m =
    let t = tally (record q { bucket = default_bucket q.bucket }) m.rollups empty_tally in
    (
      ok (record {
        total = t.total;
        series = series_list t.series;
        breakdowns = breakdown_lists t.breakdown empty_breakdowns;
      }),
      m,
    )

-- rows with their index in m.events
unfoldable pub indexed : ℕ → List ScanRow → List (ℕ × ScanRow)
indexed i [] = []
indexed i (r ∷ rs) = (i, r) ∷ indexed (i + 1) rs

abbrev pub older_row : ℕ × ScanRow → ℕ × ScanRow → Bool
older_row a b =
    if not (a.1.ev.occurred_at == b.1.ev.occurred_at)
    then ltb a.1.ev.occurred_at b.1.ev.occurred_at
    else ltb a.1.seq b.1.seq

unfoldable pub victims : Time → ℕ → List ScanRow → List (ℕ × ScanRow)
victims before limit rows =
    take limit (sort_by older_row (filter (λ r. ltb r.1.ev.occurred_at before) (indexed 0 rows)))

-- `for i, row := range m.events { if !drop[i] { kept = append(kept, row) } }`
unfoldable pub keep_rows : List (ℕ × ScanRow) → ℕ → List ScanRow → List ScanRow
keep_rows drop i [] = []
keep_rows drop i (r ∷ rs) =
    let rest = keep_rows drop (i + 1) rs in if any (λ v. v.0 == i) drop then rest else r ∷ rest

unfoldable pub prune_scan_events : Ctx → Time → ℕ → Op ℕ
prune_scan_events done before limit m = (err cancelled, m)
prune_scan_events live before limit m =
    if limit == 0
    then (ok 0, m)
    else let drop = victims before limit m.events in
      (ok (length drop), record m { events = keep_rows drop 0 m.events })
