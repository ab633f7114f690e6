-- ===== src/Analytics/Retention/Pruning.antt =====
-- RunOnce comes to an end, and then no event is older than the window.
use qurator.Common.{
  ◌≡◌, ◌⊎◌, refl, ap, sym, inl, inr, ℕ, zero, suc, ◌+◌, ◌-◌, ◌*◌, ◌^◌, ◌≤◌, ◌<◌, false, Option,
  none, some, length, ok, err, Bool-cases, ◌==◌, nat_eq, arith,
}
use mathlib.Core.Path.{subst}
use qurator.Domain.{Time}
use qurator.Store.State.{MemStore, Ctx, Ctx-cases, live, done, StoreError, cancelled}
use qurator.Store.Scans.{victims, keep_rows, prune_scan_events, day_ns}
use qurator.Analytics.Retention.{prune_batch, prune_loop, cutoff, run_once}
use qurator.Analytics.Retention.Counting.{
  count, is_old, length-victims, no_victims, count-keep_rows-le,
}

-- The end of a pruning: the total is the number of rows that went away, and either no row is older
-- than the window, or the context ended.
pub record Pruned (before : Time) (sum : ℕ) (m : MemStore)
    (p : Option (ℕ × Option StoreError) × MemStore) : Type 0 where
  pub total : ℕ
  pub error : Option StoreError
  pub result : p.0 ≡ some (total, error)
  pub removed : total + length p.1.events ≡ sum + length m.events
  pub complete :
      ((error ≡ none) × (count (is_old before) p.1.events ≡ 0)) ⊎ (error ≡ some cancelled)

prune-cases :
    (ctx : Ctx) (before : Time) (batch : ℕ) (m : MemStore)
    → 0 < batch
    → (prune_scan_events ctx before batch m ≡ (err cancelled, m))
      ⊎ (prune_scan_events ctx before batch m ≡ (
        ok (length (victims before batch m.events)),
        record m { events = keep_rows (victims before batch m.events) 0 m.events },
      ))
unfolding prune_scan_events
prune-cases done before batch m l = inl refl
prune-cases live before batch m l = inr (ground arith)

cancelled-Pruned :
    (before : Time) (sum : ℕ) (m : MemStore) → Pruned before sum m (some (sum, some cancelled), m)
cancelled-Pruned before sum m = record {
  total = sum;
  error = some cancelled;
  result = refl;
  removed = refl;
  complete = inr refl;
}

module _ (before : Time) (batch : ℕ) (l : 0 < batch) where
  abbrev pruned : MemStore → MemStore
  pruned m = record m { events = keep_rows (victims before batch m.events) 0 m.events }

  nothing_left :
      (sum : ℕ) (m : MemStore)
      → length (victims before batch m.events) ≡ 0
      → Pruned before sum m (some (sum, none), pruned m)
  nothing_left sum m z = record {
    total = sum;
    error = none;
    result = refl;
    removed = omega (arith, length-victims before batch m.events, z);
    complete = inl (
      refl,
      omega (
        arith,
        no_victims before batch m.events l z,
        count-keep_rows-le (is_old before) (victims before batch m.events) 0 m.events,
      ),
    );
  }

  -- a round that took out n rows, and then the rest
  Pruned-more :
      (sum : ℕ) (m : MemStore) (p : Option (ℕ × Option StoreError) × MemStore)
      → Pruned before (sum + length (victims before batch m.events)) (pruned m) p
      → Pruned before sum m p
  Pruned-more sum m p v = record {
    total = v.total;
    error = v.error;
    result = v.result;
    removed = omega (arith, v.removed, length-victims before batch m.events);
    complete = v.complete;
  }

  prune_loop-Pruned :
      (fuel : ℕ) (ctx : ℕ → Ctx) (sum : ℕ) (m : MemStore)
      → length m.events < fuel
      → Pruned before sum m (prune_loop fuel ctx before batch sum m)
  unfolding prune_loop
  prune_loop-Pruned zero ctx sum m f = absurd (omega arith)
  prune_loop-Pruned (suc fuel) ctx sum m f = elim (Ctx-cases (ctx 0)) [
    | inr d ↦ rw (d, prune_loop) (cancelled-Pruned before sum m)
    | inl a ↦ elim (prune-cases (ctx 1) before batch m l) [
      | inl c ↦
          let c0 : (prune_scan_events (ctx 1) before batch m).0 ≡ err cancelled = ap (λ y. y.0) c in
          let c1 : (prune_scan_events (ctx 1) before batch m).1 ≡ m = ap (λ y. y.1) c in
          rw (a, c0, c1, prune_loop) (cancelled-Pruned before sum m)
      | inr r ↦
          let r0 : (prune_scan_events (ctx 1) before batch m).0
              ≡ ok (length (victims before batch m.events)) =
            ap (λ y. y.0) r in
          let r1 : (prune_scan_events (ctx 1) before batch m).1 ≡ pruned m = ap (λ y. y.1) r in
          elim (Bool-cases (length (victims before batch m.events) == 0)) [
            | inl z ↦
                let e : prune_loop (suc fuel) ctx before batch sum m
                    ≡ (some (sum, none), pruned m) =
                  ground arith in
                subst (Pruned before sum m) (sym e) (nothing_left sum m (ground arith))
            | inr n ↦
                let e : prune_loop (suc fuel) ctx before batch sum m
                    ≡ prune_loop fuel (λ i. ctx (i + 2)) before batch
                        (sum + length (victims before batch m.events)) (pruned m) =
                  ground arith in
                subst (Pruned before sum m) (sym e) (
                  Pruned-more sum m _ (
                    prune_loop-Pruned fuel (λ i. ctx (i + 2))
                      (sum + length (victims before batch m.events)) (pruned m)
                      (ground (arith, length-victims before batch m.events))))
          ]
    ]
  ]

run_once-cutoff :
    (fuel : ℕ) (ctx : ℕ → Ctx) (now : Time) (days batch : ℕ) (m : MemStore)
    → 0 < days
    → length m.events < fuel
    → Pruned (cutoff now days) 0 m (run_once fuel ctx now days batch m)
unfolding run_once
run_once-cutoff fuel ctx now days batch m d f =
    let k : (days == 0) ≡ false = ground arith in
    rw (k, run_once)
      (prune_loop-Pruned (cutoff now days) (prune_batch batch) (unfold prune_batch in ground arith)
        fuel ctx 0 m f)

cutoff-window : (now : Time) (days : ℕ) → days ≤ 106751 → cutoff now days ≡ now - days * day_ns
unfolding cutoff
cutoff-window now days l = ground arith

cutoff-wrapped :
    (now : Time) (days : ℕ)
    → 106751 < days
    → days < 213504
    → cutoff now days ≡ now + (2 ^ 64 - days * day_ns)
unfolding cutoff
cutoff-wrapped now days l h = ground arith

-- Where retention is enabled, with a window of at most 106751 days, RunOnce comes to an end: as many
-- rounds as there are stored events, and one more, are enough. Its total is the number of events that
-- went away, and unless the context ended on the way, no stored event is older than the window
-- afterwards.
pub run_once-Pruned :
    (fuel : ℕ) (ctx : ℕ → Ctx) (now : Time) (days batch : ℕ) (m : MemStore)
    → 0 < days
    → days ≤ 106751
    → length m.events < fuel
    → Pruned (now - days * day_ns) 0 m (run_once fuel ctx now days batch m)
run_once-Pruned fuel ctx now days batch m d l f =
    subst (λ (before : Time). Pruned before 0 m (run_once fuel ctx now days batch m))
      (cutoff-window now days l) (run_once-cutoff fuel ctx now days batch m d f)

-- With a window of 106752 to 213503 days RunOnce comes to an end, with the events before some time
-- later than now removed, unless the context ended on the way: the product of days and nanoseconds
-- wraps around.
pub run_once-overflow :
    (fuel : ℕ) (ctx : ℕ → Ctx) (now : Time) (days batch : ℕ) (m : MemStore)
    → 106751 < days
    → days < 213504
    → length m.events < fuel
    → (before : Time) × (now < before) × Pruned before 0 m (run_once fuel ctx now days batch m)
run_once-overflow fuel ctx now days batch m l h f = (
  cutoff now days,
  omega (arith, cutoff-wrapped now days l h),
  run_once-cutoff fuel ctx now days batch m (omega arith) f,
)
