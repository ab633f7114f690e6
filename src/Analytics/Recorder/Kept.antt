-- ===== src/Analytics/Recorder/Kept.antt =====
-- The pipeline makes up no event and duplicates none: what it holds is what was handed to it.
use qurator.Common.{
  ◌≡◌, ◌⊎◌, refl, ap, inl, inr, ℕ, ◌+◌, ◌≤◌, Bool, true, false, List, [], ◌∷◌, ◌++◌, ok, err,
  length, at, sum_where, sum_where-append, total, total-replace, total-copies, IfSome, IfSome-elim,
  Option-cases, nat_eq, arith,
}
use qurator.Domain.{ScanEvent}
use qurator.Store.State.{MemStore, Ctx, live, done, StoreError}
use qurator.Store.Scans.{insert_scan_batch, check_events, check_rollups}
use qurator.Analytics.Rollup.{build_rollups}
use qurator.Analytics.Balance.{batch_of, stored, append_events-events}
use qurator.Analytics.Recorder.{
  Options, Recorder, Worker, waiting, received, flushing, settling, returned, new_recorder,
  record_event, close, unflushed, Turn, receives, counts, ticks, settles, finishes, flushes,
  batched, receive, finish, settle, flush, work, Action, records, closes, works, act,
}
use qurator.Analytics.Recorder.Runs.{Run, start, later, flush-length}
use qurator.Analytics.Recorder.Accounting.{held, counted, offered, Run-counts}

-- the events that an execution offered to Record
abbrev pub events_offered : List Action → List ScanEvent
events_offered [] = []
events_offered (records ev ∷ acts) = ev ∷ events_offered acts
events_offered (a ∷ acts) = events_offered acts

-- the events that a worker holds
abbrev pub in_hand : Worker → List ScanEvent
in_hand (waiting batch) = batch
in_hand (received ev batch) = ev ∷ batch
in_hand (flushing last batch) = batch
in_hand (settling last n) = []
in_hand returned = []

-- how many events of a list pass a test
abbrev pub matching : (ScanEvent → Bool) → List ScanEvent → ℕ
matching p = sum_where p (λ ev. 1)

stored_cases :
    (ctx : Ctx) (batch : List ScanEvent) (m : MemStore)
    → (((insert_scan_batch ctx (batch_of batch) m).0 ≡ ok tt)
        × (stored (insert_scan_batch ctx (batch_of batch) m).1.events ≡ stored m.events ++ batch))
      ⊎ ((e : StoreError) × ((insert_scan_batch ctx (batch_of batch) m).0 ≡ err e)
          × ((insert_scan_batch ctx (batch_of batch) m).1 ≡ m))
unfolding insert_scan_batch
stored_cases done batch m = inr (_, refl, refl)
stored_cases live batch m = elim (Option-cases (check_events m batch)) [
  | inr (e, p) ↦ inr (e, ground arith, rw (p, insert_scan_batch) refl)
  | inl n ↦ elim (Option-cases (check_rollups m (build_rollups batch))) [
    | inr (e, p) ↦ inr (e, ground arith, rw (n, p, insert_scan_batch) refl)
    | inl n' ↦ inl (ground arith, rw (n, n', insert_scan_batch) (append_events-events m batch))
  ]
]

module _ (p : ScanEvent → Bool) where
  abbrev kept : Recorder → ℕ
  kept r = matching p (stored r.store.events) + matching p r.channel

  abbrev with_worker : Worker → ℕ
  with_worker w = matching p (in_hand w)

  flush-stored :
      (ctx : Ctx) (batch : List ScanEvent) (r : Recorder)
      → matching p (stored (flush ctx batch r).store.events)
        ≤ matching p (stored r.store.events) + matching p batch
  unfolding flush
  flush-stored ctx batch r = elim (stored_cases ctx batch r.store) [
    | inl (o, q) ↦
        rw (o, flush, q) (omega (arith, sum_where-append p (λ ev. 1) (stored r.store.events) batch))
    | inr (e, o, q) ↦ rw (o, flush, q) (omega arith)
  ]

  -- what a turn does
  record Carries (w w' : Worker) (r r' : Recorder) : Type 0 where
    bound : kept r' + with_worker w' ≤ kept r + with_worker w
    workers : r'.workers ≡ r.workers

  with_worker-batched :
      (o : Options) (batch : List ScanEvent) → with_worker (batched o batch) ≡ matching p batch
  unfolding batched
  with_worker-batched o batch = ground arith

  receive-Carries :
      (batch channel : List ScanEvent) (r : Recorder)
      → channel ≡ r.channel
      → IfSome (λ x. Carries (waiting batch) x.0 r x.1) (receive batch channel r)
  unfolding receive sum_where
  receive-Carries batch [] r e = tt
  receive-Carries batch (ev ∷ rest) r e = record {
    bound = ground (arith, ap (matching p) e);
    workers = refl;
  }

  finish-Carries :
      (batch channel : List ScanEvent) (closed : Bool) (r : Recorder)
      → IfSome (λ x. Carries (waiting batch) x.0 r x.1) (finish batch channel closed r)
  unfolding finish
  finish-Carries [] [] true r = record { bound = omega arith; workers = refl }
  finish-Carries (ev ∷ batch) [] true r = record { bound = omega arith; workers = refl }
  finish-Carries batch channel closed r = tt

  work-Carries :
      (o : Options) (t : Turn) (w : Worker) (r : Recorder)
      → IfSome (λ x. Carries w x.0 r x.1) (work o t w r)
  unfolding work settle sum_where
  work-Carries o receives (waiting batch) r = receive-Carries batch r.channel r refl
  work-Carries o counts (received ev batch) r = record {
    bound = ground (
      arith,
      with_worker-batched o (batch ++ (ev ∷ [])),
      sum_where-append p (λ x. 1) batch (ev ∷ []),
    );
    workers = refl;
  }
  work-Carries o ticks (waiting (ev ∷ batch)) r = record { bound = omega arith; workers = refl }
  work-Carries o (flushes ctx) (flushing last batch) r =
      let (b, ch, cl, ws, i) = flush-length ctx batch r in
      record { bound = omega (arith, flush-stored ctx batch r, ap (matching p) ch); workers = ws }
  work-Carries o settles (settling true n) r = record { bound = omega arith; workers = refl }
  work-Carries o settles (settling false n) r = record { bound = omega arith; workers = refl }
  work-Carries o finishes (waiting batch) r = finish-Carries batch r.channel r.closed r
  work-Carries o t w r = tt

  -- all that is held was in the store at first or was offered
  abbrev Kept : Recorder → List Action → Recorder → Type 0
  Kept s acts r =
      kept r + total with_worker r.workers
      ≤ kept s + total with_worker s.workers + matching p (events_offered acts)

  record_event-kept :
      (o : Options) (ev : ScanEvent) (r : Recorder)
      → (kept (record_event o ev r) ≤ kept r + matching p (ev ∷ []))
        × ((record_event o ev r).workers ≡ r.workers)
  unfolding record_event
  record_event-kept o ev r =
      (ground (arith, sum_where-append p (λ x. 1) r.channel (ev ∷ [])), ground arith)

  act-Kept :
      (o : Options) (s : Recorder) (acts : List Action) (r : Recorder) (a : Action)
      → Kept s acts r
      → IfSome (λ r'. Kept s (a ∷ acts) r') (act o a r)
  unfolding act
  act-Kept o s acts r (records ev) h =
      let (b, ws) = record_event-kept o ev r in
      rw ws (omega (arith, h, b, sum_where-append p (λ x. 1) (ev ∷ []) (events_offered acts)))
  act-Kept o s acts r closes h = unfold close in h
  act-Kept o s acts r (works i t) h = elim (Option-cases (at i r.workers)) [
    | inl n ↦ rw (n, act) tt
    | inr (w, e) ↦ elim (Option-cases (work o t w r)) [
      | inl n ↦ rw (e, n, act) tt
      | inr (x, q) ↦
          let v =
            IfSome-elim (λ y. Carries w y.0 r y.1) (work o t w r) x (work-Carries o t w r) q in
          rw (e, q, act, v.workers)
            (omega (arith, h, v.bound, total-replace with_worker i w x.0 r.workers e))
    ]
  ]

  Run-Kept :
      {o : Options} {s : Recorder} {acts : List Action} {r : Recorder}
      → Run o s acts r
      → Kept s acts r
  unfolding sum_where
  Run-Kept start = omega arith
  Run-Kept {o} {s} (later {acts} {r} {r'} {a} run e) =
      IfSome-elim (λ x. Kept s (a ∷ acts) x) (act o a r) r' (act-Kept o s acts r a (Run-Kept run)) e

-- In any execution, whatever the order in which the callers and the workers act and whatever the store
-- answers. By number, the events in the store, those counted as dropped, those in the channel and
-- those with the workers are the events of the store at the start and those offered to Record. By
-- content, the events in the store, in the channel and with the workers are among these: of the events
-- with any property there are no more than were there at the start or offered. Unflushed is the number
-- of those in the channel and those that the workers have in flight.
pub Run-balance :
    (o : Options) (m : MemStore) {acts : List Action} {r : Recorder}
    → Run o (new_recorder o m) acts r
    → (length r.store.events + r.dropped + length r.channel + total held r.workers
        ≡ length m.events + offered acts)
      × ((p : ScanEvent → Bool)
          → matching p (stored r.store.events)
              + matching p r.channel
              + total (λ w. matching p (in_hand w)) r.workers
            ≤ matching p (stored m.events) + matching p (events_offered acts))
      × (unflushed r ≡ length r.channel + total counted r.workers)
Run-balance o m {acts} {r} run =
    let (number, flight) = Run-counts o m run in
    (
      number,
      λ p.
          unfold new_recorder sum_where in
          omega (
            arith,
            Run-Kept p run,
            total-copies (λ w. matching p (in_hand w)) o.workers (waiting []) refl,
          ),
      flight,
    )
