-- ===== src/Analytics/Recorder/Draining.antt =====
-- After Close the workers come to an end, and then nothing is left in the pipeline.
use qurator.Common.{
  ◌≡◌, refl, ap, ◌∙◌, inl, inr, ℕ, suc, ◌+◌, ◌*◌, ◌≤◌, ◌<◌, Bool, true, false, List, [], ◌∷◌, ◌++◌,
  length, length-append, at, total, total-replace, IfSome, IfSome-elim, Option-cases, nat_eq, arith,
}
use qurator.Domain.{ScanEvent}
use qurator.Analytics.Recorder.{
  Options, Recorder, Worker, waiting, received, flushing, settling, returned, record_event, close,
  Turn, receives, counts, ticks, settles, finishes, flushes, batched, receive, finish, settle, work,
  Action, records, closes, works, act,
}
use qurator.Analytics.Recorder.Runs.{Run, start, later, flush-length}

-- how many turns a worker has left at most, without the events of the channel
abbrev effort : Worker → ℕ
effort (waiting batch) = 1 + 3 * length batch
effort (received ev batch) = 5 + 3 * length batch
effort (flushing last batch) = 3
effort (settling last n) = 2
effort returned = 0

-- the number of turns that are left at most once the channel is closed
abbrev pub turns_left : Recorder → ℕ
turns_left r = 5 * length r.channel + total effort r.workers

-- the number of turns of workers in an execution
abbrev pub turns : List Action → ℕ
turns [] = 0
turns (works i t ∷ acts) = suc (turns acts)
turns (a ∷ acts) = turns acts

pub record Ends (w w' : Worker) (r r' : Recorder) : Type 0 where
  pub fewer : 5 * length r'.channel + effort w' < 5 * length r.channel + effort w
  pub workers : r'.workers ≡ r.workers
  pub closed : r'.closed ≡ r.closed

effort-batched :
    (o : Options) (batch : List ScanEvent) (ev : ScanEvent)
    → effort (batched o (batch ++ (ev ∷ []))) < 5 + 3 * length batch
unfolding batched
effort-batched o batch ev = ground (arith, length-append batch (ev ∷ []))

receive-Ends :
    (batch channel : List ScanEvent) (r : Recorder)
    → channel ≡ r.channel
    → IfSome (λ p. Ends (waiting batch) p.0 r p.1) (receive batch channel r)
unfolding receive
receive-Ends batch [] r e = tt
receive-Ends batch (ev ∷ rest) r e = record {
  fewer = omega (arith, ap length e);
  workers = refl;
  closed = refl;
}

settle-Ends :
    (last : Bool) (n : ℕ) (r : Recorder)
    → IfSome (λ p. Ends (settling last n) p.0 r p.1) (settle last n r)
unfolding settle
settle-Ends true n r = record { fewer = omega arith; workers = refl; closed = refl }
settle-Ends false n r = record { fewer = omega arith; workers = refl; closed = refl }

finish-Ends :
    (batch channel : List ScanEvent) (closed : Bool) (r : Recorder)
    → IfSome (λ p. Ends (waiting batch) p.0 r p.1) (finish batch channel closed r)
unfolding finish
finish-Ends [] [] true r = record { fewer = omega arith; workers = refl; closed = refl }
finish-Ends (ev ∷ batch) [] true r = record { fewer = omega arith; workers = refl; closed = refl }
finish-Ends batch channel closed r = tt

pub work-Ends :
    (o : Options) (t : Turn) (w : Worker) (r : Recorder)
    → IfSome (λ p. Ends w p.0 r p.1) (work o t w r)
unfolding work
work-Ends o receives (waiting batch) r = receive-Ends batch r.channel r refl
work-Ends o counts (received ev batch) r = record {
  fewer = omega (arith, effort-batched o batch ev);
  workers = refl;
  closed = refl;
}
work-Ends o ticks (waiting (ev ∷ batch)) r = record {
  fewer = omega arith;
  workers = refl;
  closed = refl;
}
work-Ends o (flushes ctx) (flushing last batch) r =
    let (b, ch, cl, ws, i) = flush-length ctx batch r in
    record { fewer = omega (arith, ap length ch); workers = ws; closed = cl }
work-Ends o settles (settling last n) r = settle-Ends last n r
work-Ends o finishes (waiting batch) r = finish-Ends batch r.channel r.closed r
work-Ends o t w r = tt

-- One action on a closed channel: a turn of a worker, or one that changes nothing but a counter.
record Quieter (a : Action) (r r' : Recorder) : Type 0 where
  closed : r'.closed ≡ true
  fewer : turns_left r' + turns (a ∷ []) ≤ turns_left r

act-Quieter :
    (o : Options) (a : Action) (r : Recorder) → r.closed ≡ true → IfSome (Quieter a r) (act o a r)
unfolding act record_event close
act-Quieter o (records ev) r c = record { closed = ground (arith, c); fewer = ground (arith, c) }
act-Quieter o closes r c = record { closed = refl; fewer = omega arith }
act-Quieter o (works i t) r c = elim (Option-cases (at i r.workers)) [
  | inl n ↦ rw (n, act) tt
  | inr (w, e) ↦ elim (Option-cases (work o t w r)) [
    | inl n ↦ rw (e, n, act) tt
    | inr (p, q) ↦
        let v : Ends w p.0 r p.1 =
          IfSome-elim (λ x. Ends w x.0 r x.1) (work o t w r) p (work-Ends o t w r) q in
        rw (e, q, act)
          (record {
            closed = v.closed ∙ c;
            fewer = rw v.workers (omega (arith, v.fewer, total-replace effort i w p.0 r.workers e));
          })
  ]
]

-- Once the channel is closed, the workers take no more turns than `turns_left` allows, whatever else
-- happens: each of them comes to an end.
pub Run-terminates :
    (o : Options) (s : Recorder) {acts : List Action} {r : Recorder}
    → s.closed ≡ true
    → Run o s acts r
    → (r.closed ≡ true) × (turns acts + turns_left r ≤ turns_left s)
Run-terminates o s c start = (c, omega arith)
Run-terminates o s c (later {acts} {r} {r'} {a} run e) =
    let (d, h) = Run-terminates o s c run in
    let q : Quieter a r r' = IfSome-elim (Quieter a r) (act o a r) r' (act-Quieter o a r d) e in
    (q.closed, ground (arith, q.fewer, h))
