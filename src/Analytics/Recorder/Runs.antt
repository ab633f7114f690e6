-- ===== src/Analytics/Recorder/Runs.antt =====
-- Executions of the pipeline, and what a flush does to the store.
use qurator.Common.{
  ◌≡◌, ◌⊎◌, inl, inr, refl, ◌+◌, some, List, [], ◌∷◌, ◌++◌, ok, err, length, length-append,
  Option-cases, arith,
}
use qurator.Domain.{ScanEvent}
use qurator.Store.State.{MemStore, Ctx, live, done, StoreError}
use qurator.Store.Scans.{insert_scan_batch, append_events, check_events, check_rollups}
use qurator.Analytics.Rollup.{build_rollups}
use qurator.Analytics.Balance.{batch_of}
use qurator.Analytics.Recorder.{Options, Recorder, Action, act, flush}

-- An execution, the last action first.
pub data Run (o : Options) (s : Recorder) : List Action → Recorder → Type 0 where
  start : Run o s [] s
  later :
      {acts : List Action} {r r' : Recorder} {a : Action}
      → Run o s acts r
      → act o a r ≡ some r'
      → Run o s (a ∷ acts) r'

length-append_events :
    (m : MemStore) (evs : List ScanEvent)
    → length (append_events m evs).events ≡ length m.events + length evs
unfolding append_events
length-append_events m [] = omega arith
length-append_events m (ev ∷ evs) = omega (
  arith,
  length-append m.events (record { seq = m.next_seq + 1; ev = ev } ∷ []),
  length-append_events
      (record m {
        next_seq = m.next_seq + 1;
        events = m.events ++ (record { seq = m.next_seq + 1; ev = ev } ∷ []);
      })
      evs,
)

-- The store takes a whole batch or refuses it whole.
insert_scan_batch-length :
    (ctx : Ctx) (batch : List ScanEvent) (m : MemStore)
    → (((insert_scan_batch ctx (batch_of batch) m).0 ≡ ok tt)
        × (length (insert_scan_batch ctx (batch_of batch) m).1.events
            ≡ length m.events + length batch))
      ⊎ ((e : StoreError) × ((insert_scan_batch ctx (batch_of batch) m).0 ≡ err e)
          × ((insert_scan_batch ctx (batch_of batch) m).1 ≡ m))
unfolding insert_scan_batch
insert_scan_batch-length done batch m = inr (_, refl, refl)
insert_scan_batch-length live batch m = elim (Option-cases (check_events m batch)) [
  | inr (e, p) ↦ inr (e, ground arith, rw (p, insert_scan_batch) refl)
  | inl n ↦ elim (Option-cases (check_rollups m (build_rollups batch))) [
    | inr (e, p) ↦ inr (e, ground arith, rw (n, p, insert_scan_batch) refl)
    | inl n' ↦ inl (ground arith, rw (n, n', insert_scan_batch) (length-append_events m batch))
  ]
]

-- A flush stores its batch or counts it as dropped; all else stays.
pub flush-length :
    (ctx : Ctx) (batch : List ScanEvent) (r : Recorder)
    → (length (flush ctx batch r).store.events + (flush ctx batch r).dropped
        ≡ length r.store.events + r.dropped + length batch)
      × ((flush ctx batch r).channel ≡ r.channel)
      × ((flush ctx batch r).closed ≡ r.closed)
      × ((flush ctx batch r).workers ≡ r.workers)
      × ((flush ctx batch r).inflight ≡ r.inflight)
unfolding flush
flush-length ctx batch r = elim (insert_scan_batch-length ctx batch r.store) [
  | inl (p, q) ↦ rw (p, flush) (omega (arith, q), refl, refl, refl, refl)
  | inr (e, p, q) ↦ rw (p, flush, q) (omega arith, refl, refl, refl, refl)
]
