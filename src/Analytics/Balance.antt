-- ===== src/Analytics/Balance.antt =====
-- The counts that BuildRollups and InsertScanBatch keep are exact in every dimension.
use mathlib.Core.List.{append-nil, append_assoc, map-append}
use qurator.Common.{
  ◌≡◌, refl, ap, ◌∙◌, sym, ℕ, ◌+◌, Bool, ◌&&◌, List, [], ◌∷◌, ◌++◌, map, Text, bytes, Dict, bump,
  mass, mass-bump, sum_where, sum_where-append, sum_where-sort_by, sum_where_congr, Option-cases,
  inl, inr, ◌==◌, nat_eq, text_eq, if◌then◌else◌, arith,
}
use qurator.Domain.{
  Time, ScanEvent, RollupDelta, ScanBatch, Dimension, dim_total, dim_ua_family, dim_device_category,
  dim_referrer_host, dim_is_bot, dim_eq,
}
use qurator.Store.State.{MemStore, RollupKey, rollup_key_eq, ScanRow, Ctx, live, done}
use qurator.Store.Scans.{
  truncate_hour, delta_key, add_rollups, append_events, check_events, check_rollups,
  insert_scan_batch,
}
use qurator.Analytics.Rollup.{
  event_key, device_text, count_event, count_events, to_delta, rollup_less, build_rollups,
}

-- one dimension, at the codes and hours that a test selects
abbrev pub slice : (Text → Time → Bool) → Dimension → RollupKey → Bool
slice q d k = q k.code_id k.hour && k.dim == d

-- the scans at the codes and hours that a test selects
abbrev pub scans : (Text → Time → Bool) → List ScanEvent → ℕ
scans q = sum_where (λ ev. q ev.code_id (truncate_hour ev.occurred_at)) (λ ev. 1)

-- the five dimensions that are counted
pub data Counted : Type 0 where
  total ua_family device_category referrer_host is_bot : Counted

abbrev pub dim_of : Counted → Dimension
dim_of total = dim_total
dim_of ua_family = dim_ua_family
dim_of device_category = dim_device_category
dim_of referrer_host = dim_referrer_host
dim_of is_bot = dim_is_bot

truncate_hour_idem : (t : Time) → truncate_hour (truncate_hour t) ≡ truncate_hour t
unfolding truncate_hour
truncate_hour_idem t = omega arith

mass-count_event_keys :
    (p : RollupKey → Bool) (ev : ScanEvent) (m : Dict RollupKey ℕ)
    → mass p (count_event ev m)
      ≡ mass p m
        + (if p (event_key ev dim_total []) then 1 else 0)
        + (if p (event_key ev dim_ua_family ev.ua_family) then 1 else 0)
        + (if p (event_key ev dim_device_category (device_text ev.device_category)) then 1 else 0)
        + (if p (event_key ev dim_referrer_host ev.referrer_host) then 1 else 0)
        + (if p (event_key ev dim_is_bot (if ev.is_bot then bytes "true" else bytes "false"))
            then 1
            else 0)
unfolding count_event
mass-count_event_keys p ev m =
    let k₁ = event_key ev dim_total [] in
    let k₂ = event_key ev dim_ua_family ev.ua_family in
    let k₃ = event_key ev dim_device_category (device_text ev.device_category) in
    let k₄ = event_key ev dim_referrer_host ev.referrer_host in
    let k₅ = event_key ev dim_is_bot (if ev.is_bot then bytes "true" else bytes "false") in
    let m₁ = bump k₁ 1 m in
    let m₂ = bump k₂ 1 m₁ in
    let m₃ = bump k₃ 1 m₂ in
    let m₄ = bump k₄ 1 m₃ in
    omega (
      arith,
      mass-bump p k₁ 1 m,
      mass-bump p k₂ 1 m₁,
      mass-bump p k₃ 1 m₂,
      mass-bump p k₄ 1 m₃,
      mass-bump p k₅ 1 m₄,
    )

mass-count_event :
    (q : Text → Time → Bool) (b : Counted) (ev : ScanEvent) (m : Dict RollupKey ℕ)
    → mass (slice q (dim_of b)) (count_event ev m)
      ≡ mass (slice q (dim_of b)) m + (if q ev.code_id (truncate_hour ev.occurred_at) then 1 else 0)
mass-count_event q total ev m = ground (arith, mass-count_event_keys (slice q dim_total) ev m)
mass-count_event q b ev m = ground (arith, mass-count_event_keys (slice q (dim_of b)) ev m)

mass-count_events :
    (q : Text → Time → Bool) (b : Counted) (evs : List ScanEvent) (m : Dict RollupKey ℕ)
    → mass (slice q (dim_of b)) (count_events evs m) ≡ mass (slice q (dim_of b)) m + scans q evs
unfolding count_events sum_where
mass-count_events q b [] m = omega arith
mass-count_events q b (ev ∷ evs) m =
    ground (arith, mass-count_event q b ev m, mass-count_events q b evs (count_event ev m))

sum_where-to_delta :
    (q : Text → Time → Bool) (d : Dimension) (m : Dict RollupKey ℕ)
    → sum_where (λ r. slice q d (delta_key r)) (λ r. r.count) (map to_delta m)
      ≡ mass (slice (λ c t. q c (truncate_hour t)) d) m
unfolding sum_where
sum_where-to_delta q d [] = refl
sum_where-to_delta q d ((k, n) ∷ m) = ground (arith, sum_where-to_delta q d m)

scans-truncate_hour :
    (q : Text → Time → Bool) (evs : List ScanEvent)
    → scans (λ c t. q c (truncate_hour t)) evs ≡ scans q evs
scans-truncate_hour q =
    sum_where_congr _ _ (λ ev. 1) (λ ev. ap (q ev.code_id) (truncate_hour_idem ev.occurred_at))

-- In each of the five dimensions, the deltas that BuildRollups makes of a batch add up to the
-- number of its scans, at any codes and hours.
pub build_rollups_exact :
    (q : Text → Time → Bool) (b : Counted) (evs : List ScanEvent)
    → sum_where (λ r. slice q (dim_of b) (delta_key r)) (λ r. r.count) (build_rollups evs)
      ≡ scans q evs
unfolding build_rollups sum_where
build_rollups_exact q b evs =
    let counts = count_events evs [] in
    let p : RollupDelta → Bool = λ r. slice q (dim_of b) (delta_key r) in
    omega (
      arith,
      sum_where-sort_by rollup_less p (λ r. r.count) (map to_delta counts),
      sum_where-to_delta q (dim_of b) counts,
      mass-count_events (λ c t. q c (truncate_hour t)) b evs [],
      scans-truncate_hour q evs,
    )

mass-add_rollups :
    (p : RollupKey → Bool) (rs : List RollupDelta) (m : Dict RollupKey ℕ)
    → mass p (add_rollups m rs) ≡ mass p m + sum_where (λ r. p (delta_key r)) (λ r. r.count) rs
unfolding add_rollups sum_where
mass-add_rollups p [] m = omega arith
mass-add_rollups p (r ∷ rs) m = ground (
  arith,
  mass-bump p (delta_key r) r.count m,
  mass-add_rollups p rs (bump (delta_key r) r.count m),
)

append_events-rollups :
    (m : MemStore) (evs : List ScanEvent) → (append_events m evs).rollups ≡ m.rollups
unfolding append_events
append_events-rollups m [] = refl
append_events-rollups m (ev ∷ evs) =
    append_events-rollups
      (record m {
        next_seq = m.next_seq + 1;
        events = m.events ++ (record { seq = m.next_seq + 1; ev = ev } ∷ []);
      })
      evs

-- the events of the stored rows
abbrev pub stored : List ScanRow → List ScanEvent
stored rows = map (λ r. r.ev) rows

pub append_events-events :
    (m : MemStore) (evs : List ScanEvent)
    → stored (append_events m evs).events ≡ stored m.events ++ evs
unfolding append_events
append_events-events m [] = sym (append-nil (stored m.events))
append_events-events m (ev ∷ evs) =
    let m' = record m {
      next_seq = m.next_seq + 1;
      events = m.events ++ (record { seq = m.next_seq + 1; ev = ev } ∷ []);
    } in
    append_events-events m' evs
    ∙ ap (λ (s : List ScanEvent). s ++ evs) (map-append (λ (r : ScanRow). r.ev) m.events _)
    ∙ append_assoc (stored m.events) (ev ∷ []) evs

scans-append :
    (q : Text → Time → Bool) (xs ys : List ScanEvent) → scans q (xs ++ ys) ≡ scans q xs + scans q ys
scans-append q xs ys = sum_where-append _ (λ ev. 1) xs ys

-- Every count of the store counts what is stored: in each dimension, at any codes and hours, the
-- counts add up to the number of stored scan events.
abbrev pub IsExact : MemStore → Type 0
IsExact m =
    (q : Text → Time → Bool) (b : Counted)
    → mass (slice q (dim_of b)) m.rollups ≡ scans q (stored m.events)

-- In each dimension the counts add up to the same.
abbrev pub IsBalanced : MemStore → Type 0
IsBalanced m =
    (q : Text → Time → Bool) (b : Counted)
    → mass (slice q (dim_of b)) m.rollups ≡ mass (slice q dim_total) m.rollups

-- the batch that the Recorder hands to the store
abbrev pub batch_of : List ScanEvent → ScanBatch
batch_of evs = record { events = evs; rollups = build_rollups evs }

-- Whether the store takes a batch of the Recorder or refuses it, all its counts stay exact.
pub insert_scan_batch-IsExact :
    (ctx : Ctx) (evs : List ScanEvent) (m : MemStore)
    → IsExact m
    → IsExact (insert_scan_batch ctx (batch_of evs) m).1
unfolding insert_scan_batch
insert_scan_batch-IsExact done evs m h = h
insert_scan_batch-IsExact live evs m h = elim (Option-cases (check_events m evs)) [
  | inr (e, p) ↦ rw (p, insert_scan_batch) h
  | inl n ↦
      rw (n, insert_scan_batch)
        (elim (Option-cases (check_rollups m (build_rollups evs))) [
          | inr (e, p) ↦ rw (p, insert_scan_batch) h
          | inl n' ↦
              rw (n', insert_scan_batch)
                (λ q b. rw (append_events-events m evs) (
                  omega (
                    arith,
                    h q b,
                    mass-add_rollups (slice q (dim_of b)) (build_rollups evs) m.rollups,
                    build_rollups_exact q b evs,
                    scans-append q (stored m.events) evs,
                  )))
        ])
]

pub IsExact→IsBalanced : (m : MemStore) → IsExact m → IsBalanced m
IsExact→IsBalanced m h q b = h q b ∙ sym (h q total)
