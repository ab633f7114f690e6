-- ===== src/Analytics/Recorder/Shutdown.antt =====
-- A clean shutdown: when no worker can go on, every event is stored or counted as dropped.
use qurator.Common.{
  ◌≡◌, ◌⊎◌, refl, ap, sym, ◌∙◌, inl, inr, ℕ, zero, suc, Bool, true, false, some, List, [], ◌∷◌,
  length, any, at, replace, length-replace, IfSome, IfSome-elim, Option-cases, nat_eq, arith,
}
use qurator.Domain.{ScanEvent}
use qurator.Analytics.Recorder.{
  Options, Recorder, Worker, waiting, received, flushing, settling, returned, record_event, close,
  Turn, receives, counts, ticks, settles, finishes, flushes, batched, receive, finish, settle, work,
  Action, records, closes, works, act,
}
use qurator.Analytics.Recorder.Runs.{Run, start, later, flush-length}
use qurator.Analytics.Recorder.Draining.{Ends, work-Ends}

-- a worker that has seen the end of the channel
abbrev pub leaving : Worker → Bool
leaving (flushing last batch) = last
leaving (settling last n) = last
leaving returned = true
leaving w = false

any-replace :
    (p : Worker → Bool) (i : ℕ) (w : Worker) (ws : List Worker)
    → any p ws ≡ false
    → p w ≡ false
    → any p (replace i w ws) ≡ false
unfolding replace
any-replace p i w [] h f = refl
any-replace p zero w (x ∷ ws) h f = ground arith
any-replace p (suc i) w (x ∷ ws) h f = ground (arith, any-replace p i w ws)

pub any-at :
    (p : Worker → Bool) (i : ℕ) (w : Worker) (ws : List Worker)
    → any p ws ≡ false
    → at i ws ≡ some w
    → p w ≡ false
unfolding at
any-at p i w [] h e = absurd (ground arith)
any-at p zero w (x ∷ ws) h e = ground arith
any-at p (suc i) w (x ∷ ws) h e = any-at p i w ws (ground arith) e

-- the channel is closed and empty
pub record Ended (r : Recorder) : Type 0 where
  pub closed : r.closed ≡ true
  pub empty : r.channel ≡ []

-- As long as the channel has not come to its end, no worker leaves.
abbrev pub Waits : Recorder → Type 0
Waits r = (any leaving r.workers ≡ false) ⊎ Ended r

abbrev Leaves : Worker × Recorder → Type 0
Leaves p = (leaving p.0 ≡ false) ⊎ Ended p.1

finish-Leaves :
    (batch channel : List ScanEvent) (closed : Bool) (r : Recorder)
    → channel ≡ r.channel
    → closed ≡ r.closed
    → IfSome Leaves (finish batch channel closed r)
unfolding finish
finish-Leaves batch [] true r e c = inr (record { closed = sym c; empty = sym e })
finish-Leaves batch channel closed r e c = tt

receive-Leaves :
    (batch channel : List ScanEvent) (r : Recorder) → IfSome Leaves (receive batch channel r)
unfolding receive
receive-Leaves batch [] r = tt
receive-Leaves batch (ev ∷ rest) r = inl refl

work-Leaves :
    (o : Options) (t : Turn) (w : Worker) (r : Recorder)
    → leaving w ≡ false
    → IfSome Leaves (work o t w r)
unfolding work settle batched
work-Leaves o receives (waiting batch) r f = receive-Leaves batch r.channel r
work-Leaves o counts (received ev batch) r f = inl (ground arith)
work-Leaves o ticks (waiting (ev ∷ batch)) r f = inl refl
work-Leaves o (flushes ctx) (flushing last batch) r f = inl f
work-Leaves o settles (settling true n) r f = absurd (ground arith)
work-Leaves o settles (settling false n) r f = inl refl
work-Leaves o finishes (waiting batch) r f = finish-Leaves batch r.channel r.closed r refl refl
work-Leaves o t w r f = tt

finish-Ended :
    (batch channel : List ScanEvent) (closed : Bool) (r : Recorder)
    → Ended r
    → IfSome (λ p. Ended p.1) (finish batch channel closed r)
unfolding finish
finish-Ended batch [] true r d = d
finish-Ended batch channel closed r d = tt

work-Ended :
    (o : Options) (t : Turn) (w : Worker) (r : Recorder)
    → Ended r
    → IfSome (λ p. Ended p.1) (work o t w r)
unfolding work settle receive
work-Ended o receives (waiting batch) r d = rw (d.empty, receive) tt
work-Ended o counts (received ev batch) r d = record { closed = d.closed; empty = d.empty }
work-Ended o ticks (waiting (ev ∷ batch)) r d = d
work-Ended o (flushes ctx) (flushing last batch) r d =
    let (b, ch, cl, ws, i) = flush-length ctx batch r in
    record { closed = cl ∙ d.closed; empty = ch ∙ d.empty }
work-Ended o settles (settling true n) r d = record { closed = d.closed; empty = d.empty }
work-Ended o settles (settling false n) r d = record { closed = d.closed; empty = d.empty }
work-Ended o finishes (waiting batch) r d = finish-Ended batch r.channel r.closed r d
work-Ended o t w r d = tt

-- a worker and what its turn made of it, in the list of workers
put-Waits :
    (r : Recorder) (p : Worker × Recorder) (i : ℕ)
    → any leaving r.workers ≡ false
    → p.1.workers ≡ r.workers
    → Leaves p
    → Waits (record (p.1) { workers = replace i p.0 p.1.workers })
put-Waits r p i f e (inl q) = inl (rw e (any-replace leaving i p.0 r.workers f q))
put-Waits r p i f e (inr d) = inr (record { closed = d.closed; empty = d.empty })

record_event-Waits :
    (o : Options) (ev : ScanEvent) (r : Recorder) → Waits r → Waits (record_event o ev r)
unfolding record_event
record_event-Waits o ev r (inl f) = inl (ground arith)
record_event-Waits o ev r (inr d) =
    inr (record { closed = ground (arith, d.closed); empty = ground (arith, d.closed, d.empty) })

turn-Waits :
    (o : Options) (i : ℕ) (t : Turn) (w : Worker) (r : Recorder) (p : Worker × Recorder)
    → Waits r
    → at i r.workers ≡ some w
    → work o t w r ≡ some p
    → Waits (record (p.1) { workers = replace i p.0 p.1.workers })
turn-Waits o i t w r p (inl f) e q =
    put-Waits r p i f
      (IfSome-elim (λ x. Ends w x.0 r x.1) (work o t w r) p (work-Ends o t w r) q).workers
      (IfSome-elim Leaves (work o t w r) p (work-Leaves o t w r (any-at leaving i w r.workers f e))
        q)
turn-Waits o i t w r p (inr d) e q =
    let d' : Ended p.1 = IfSome-elim (λ x. Ended x.1) (work o t w r) p (work-Ended o t w r d) q in
    inr (record { closed = d'.closed; empty = d'.empty })

-- what each action keeps
pub record Keeps (r r' : Recorder) : Type 0 where
  pub waits : Waits r'
  pub size : length r'.workers ≡ length r.workers

act-Keeps : (o : Options) (a : Action) (r : Recorder) → Waits r → IfSome (Keeps r) (act o a r)
unfolding act
act-Keeps o (records ev) r h = record {
  waits = record_event-Waits o ev r h;
  size = unfold record_event in ground arith;
}
act-Keeps o closes r (inl f) = unfold close in record { waits = inl f; size = refl }
act-Keeps o closes r (inr d) =
    unfold close in record { waits = inr (record { closed = refl; empty = d.empty }); size = refl }
act-Keeps o (works i t) r h = elim (Option-cases (at i r.workers)) [
  | inl n ↦ rw (n, act) tt
  | inr (w, e) ↦ elim (Option-cases (work o t w r)) [
    | inl n ↦ rw (e, n, act) tt
    | inr (p, q) ↦
        rw (e, q, act)
          (record {
            waits = turn-Waits o i t w r p h e q;
            size =
                length-replace i p.0 p.1.workers
                ∙ ap length
                    (IfSome-elim (λ x. Ends w x.0 r x.1) (work o t w r) p (work-Ends o t w r)
                      q).workers;
          })
  ]
]

pub Run-Keeps :
    {o : Options} {s : Recorder} {acts : List Action} {r : Recorder}
    → any leaving s.workers ≡ false
    → Run o s acts r
    → Keeps s r
Run-Keeps f start = record { waits = inl f; size = refl }
Run-Keeps {o} {s} f (later {acts} {r} {r'} {a} run e) =
    let k = Run-Keeps f run in
    let k' : Keeps r r' = IfSome-elim (Keeps r) (act o a r) r' (act-Keeps o a r k.waits) e in
    record { waits = k'.waits; size = k'.size ∙ k.size }
