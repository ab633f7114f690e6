-- ===== src/Analytics/Retention.antt =====
-- internal/analytics/retention.go: the pruning of raw scan events. The timer loop of Run is not
-- modelled: it calls RunOnce again and again.
pub mod Counting
pub mod Keeping
pub mod Pruning
use qurator.Common.{
  ℕ, zero, suc, ◌+◌, ◌-◌, ◌*◌, ◌%◌, ◌^◌, leb, Option, none, some, Result, ok, err, ◌==◌, nat_eq,
  Bool, true, false, if◌then◌else◌,
}
use qurator.Domain.{Time}
use qurator.Store.State.{MemStore, Ctx, live, done, StoreError, cancelled}
use qurator.Store.Scans.{prune_scan_events, day_ns}

-- NewRetention: the number of rows of one call
unfoldable pub prune_batch : ℕ → ℕ
prune_batch batch = if batch == 0 then 1000 else batch

-- The loop of RunOnce: the total so far, with the error that ended it if there was one. `ctx i` is
-- what the i-th look at the context finds, that of the loop and that of the store in turn. The
-- store returns 0 beside an error.
unfoldable pub prune_loop :
    ℕ → (ℕ → Ctx) → Time → ℕ → ℕ → MemStore → Option (ℕ × Option StoreError) × MemStore
prune_loop zero ctx before batch sum m = (none, m)
prune_loop (suc fuel) ctx before batch sum m = elim (ctx 0) [
  | done ↦ (some (sum, some cancelled), m)
  | live ↦
      let (r, m') = prune_scan_events (ctx 1) before batch m in
      elim r [
        | err e ↦ (some (sum, some e), m')
        | ok n ↦ elim (n == 0) [
          | true ↦ (some (sum, none), m')
          | false ↦ prune_loop fuel (λ i. ctx (i + 2)) before batch (sum + n) m'
        ]
      ]
]

-- now.Add(-time.Duration(days) * 24 * time.Hour). The product is an int64 number of nanoseconds, which
-- wraps around; it is read as negative up to 2 ^ 63 below 2 ^ 64, and as positive else. Where the
-- result lies before the zero time, which no event does, it is 0.
unfoldable pub cutoff : Time → ℕ → Time
cutoff now days =
    let back = (days * day_ns) % 2 ^ 64 in
    if leb back (2 ^ 63) then now - back else now + (2 ^ 64 - back)

-- RunOnce; `days` is 0 where retention is disabled
unfoldable pub run_once :
    ℕ → (ℕ → Ctx) → Time → ℕ → ℕ → MemStore → Option (ℕ × Option StoreError) × MemStore
unfolding prune_loop cutoff
run_once fuel ctx now days batch m =
    if days == 0
    then (some (0, none), m)
    else prune_loop fuel ctx (cutoff now days) (prune_batch batch) 0 m
