-- ===== src/Analytics/Recorder/Accounting.antt =====
-- The pipeline keeps count of its events: as many as were handed to it are stored, dropped or held.
use qurator.Common.{
  ◌≡◌, refl, ap, sym, inl, inr, ℕ, suc, ◌+◌, ◌≤◌, Bool, true, false, some, List, [], ◌∷◌, ◌++◌,
  length, length-append, at, replace, total, total-replace, total-le, total-copies, IfSome,
  IfSome-elim, Option-cases, nat_eq, arith,
}
use qurator.Domain.{ScanEvent}
use qurator.Store.State.{MemStore}
use qurator.Analytics.Recorder.{
  Options, Recorder, Worker, waiting, received, flushing, settling, returned, new_recorder,
  record_event, close, unflushed, Turn, receives, counts, ticks, settles, finishes, flushes,
  batched, receive, finish, settle, work, Action, records, closes, works, act,
}
use qurator.Analytics.Recorder.Runs.{Run, start, later, flush-length}

-- the events that a worker holds, and those of them that are counted as in flight
abbrev pub held : Worker → ℕ
held (waiting batch) = length batch
held (received ev batch) = length batch + 1
held (flushing last batch) = length batch
held (settling last n) = 0
held returned = 0

abbrev pub counted : Worker → ℕ
counted (waiting batch) = length batch
counted (received ev batch) = length batch
counted (flushing last batch) = length batch
counted (settling last n) = n
counted returned = 0

-- the number of events that an execution offered to Record
abbrev pub offered : List Action → ℕ
offered [] = 0
offered (records ev ∷ acts) = suc (offered acts)
offered (a ∷ acts) = offered acts

-- what stands in the store, the counter of dropped events and the channel
abbrev pub placed : Recorder → ℕ
placed r = length r.store.events + r.dropped + length r.channel

-- A turn moves the events of one worker, and loses none.
record Moves (w w' : Worker) (r r' : Recorder) : Type 0 where
  balance : placed r' + held w' ≡ placed r + held w
  inflight : r'.inflight + counted w ≡ r.inflight + counted w'
  workers : r'.workers ≡ r.workers

held-batched : (o : Options) (batch : List ScanEvent) → held (batched o batch) ≡ length batch
unfolding batched
held-batched o batch = ground arith

counted-batched : (o : Options) (batch : List ScanEvent) → counted (batched o batch) ≡ length batch
unfolding batched
counted-batched o batch = ground arith

receive-Moves :
    (batch channel : List ScanEvent) (r : Recorder)
    → channel ≡ r.channel
    → IfSome (λ p. Moves (waiting batch) p.0 r p.1) (receive batch channel r)
unfolding receive
receive-Moves batch [] r e = tt
receive-Moves batch (ev ∷ rest) r e = record {
  balance = omega (arith, ap length e);
  inflight = refl;
  workers = refl;
}

settle-Moves :
    (last : Bool) (n : ℕ) (r : Recorder)
    → n ≤ r.inflight
    → IfSome (λ p. Moves (settling last n) p.0 r p.1) (settle last n r)
unfolding settle
settle-Moves true n r c = record { balance = refl; inflight = omega arith; workers = refl }
settle-Moves false n r c = record { balance = refl; inflight = omega arith; workers = refl }

finish-Moves :
    (batch channel : List ScanEvent) (closed : Bool) (r : Recorder)
    → IfSome (λ p. Moves (waiting batch) p.0 r p.1) (finish batch channel closed r)
unfolding finish
finish-Moves [] [] true r = record { balance = refl; inflight = refl; workers = refl }
finish-Moves (ev ∷ batch) [] true r = record { balance = refl; inflight = refl; workers = refl }
finish-Moves batch channel closed r = tt

work-Moves :
    (o : Options) (t : Turn) (w : Worker) (r : Recorder)
    → counted w ≤ r.inflight
    → IfSome (λ p. Moves w p.0 r p.1) (work o t w r)
unfolding work
work-Moves o receives (waiting batch) r c = receive-Moves batch r.channel r refl
work-Moves o counts (received ev batch) r c = record {
  balance = omega (arith, held-batched o (batch ++ (ev ∷ [])), length-append batch (ev ∷ []));
  inflight = omega (arith, counted-batched o (batch ++ (ev ∷ [])), length-append batch (ev ∷ []));
  workers = refl;
}
work-Moves o ticks (waiting (ev ∷ batch)) r c = record {
  balance = refl;
  inflight = refl;
  workers = refl;
}
work-Moves o (flushes ctx) (flushing last batch) r c =
    let (b, ch, cl, ws, i) = flush-length ctx batch r in
    record { balance = omega (arith, b, ap length ch); inflight = omega (arith, i); workers = ws }
work-Moves o settles (settling last n) r c = settle-Moves last n r c
work-Moves o finishes (waiting batch) r c = finish-Moves batch r.channel r.closed r
work-Moves o t w r c = tt

-- What is balanced: all that was offered, and the counter of events in flight.
pub record Accounted (s : Recorder) (acts : List Action) (r : Recorder) : Type 0 where
  pub balance : placed r + total held r.workers ≡ placed s + total held s.workers + offered acts
  pub inflight : r.inflight ≡ total counted r.workers

record_event-placed :
    (o : Options) (ev : ScanEvent) (r : Recorder) → placed (record_event o ev r) ≡ suc (placed r)
unfolding record_event
record_event-placed o ev r = ground (arith, length-append r.channel (ev ∷ []))

record_event-keeps :
    (o : Options) (ev : ScanEvent) (r : Recorder)
    → ((record_event o ev r).workers ≡ r.workers) × ((record_event o ev r).inflight ≡ r.inflight)
unfolding record_event
record_event-keeps o ev r = ground arith

-- the replacement of a worker by what its turn made of it
Moves-Accounted :
    {s : Recorder} {acts : List Action} {r r' : Recorder} (i : ℕ) (t : Turn) (w w' : Worker)
    → Accounted s acts r
    → at i r.workers ≡ some w
    → Moves w w' r r'
    → Accounted s (works i t ∷ acts) (record r' { workers = replace i w' r'.workers })
Moves-Accounted {r = r} i t w w' a e v = record {
  balance =
      rw v.workers (omega (arith, a.balance, v.balance, total-replace held i w w' r.workers e));
  inflight =
      rw v.workers
        (omega (arith, a.inflight, v.inflight, total-replace counted i w w' r.workers e));
}

act-Accounted :
    (o : Options) {s : Recorder} {acts : List Action} {r : Recorder} (a : Action)
    → Accounted s acts r
    → IfSome (λ r'. Accounted s (a ∷ acts) r') (act o a r)
unfolding act
act-Accounted o {r = r} (records ev) a =
    let (ws, i) = record_event-keeps o ev r in
    record {
      balance = rw ws (omega (arith, a.balance, record_event-placed o ev r));
      inflight = rw (ws, i) a.inflight;
    }
act-Accounted o closes a = unfold close in record { balance = a.balance; inflight = a.inflight }
act-Accounted o {s} {acts} {r} (works i t) a = elim (Option-cases (at i r.workers)) [
  | inl n ↦ rw (n, act) tt
  | inr (w, e) ↦ elim (Option-cases (work o t w r)) [
    | inl n ↦ rw (e, n, act) tt
    | inr (p, q) ↦
        rw (e, q, act)
          (Moves-Accounted i t w p.0 a e (
            IfSome-elim (λ x. Moves w x.0 r x.1) (work o t w r) p
              (work-Moves o t w r (omega (arith, a.inflight, total-le counted i w r.workers e))) q))
  ]
]

Run-Accounted :
    {o : Options} {s : Recorder} {acts : List Action} {r : Recorder}
    → Accounted s [] s
    → Run o s acts r
    → Accounted s acts r
Run-Accounted b start = b
Run-Accounted {o} {s} b (later {acts} {r} {r'} {a} run e) =
    IfSome-elim (λ x. Accounted s (a ∷ acts) x) (act o a r) r'
      (act-Accounted o a (Run-Accounted b run)) e

new_recorder-Accounted :
    (o : Options) (m : MemStore) → Accounted (new_recorder o m) [] (new_recorder o m)
unfolding new_recorder
new_recorder-Accounted o m = record {
  balance = omega arith;
  inflight = sym (total-copies counted o.workers (waiting []) refl);
}

-- The numbers of events, and the counter of those in flight.
pub Run-counts :
    (o : Options) (m : MemStore) {acts : List Action} {r : Recorder}
    → Run o (new_recorder o m) acts r
    → (length r.store.events + r.dropped + length r.channel + total held r.workers
        ≡ length m.events + offered acts)
      × (unflushed r ≡ length r.channel + total counted r.workers)
unfolding unflushed
Run-counts o m {r = r} run =
    let a = Run-Accounted (new_recorder-Accounted o m) run in
    (
      unfold new_recorder in
          omega (arith, a.balance, total-copies held o.workers (waiting []) refl),
      omega (arith, a.inflight),
    )
