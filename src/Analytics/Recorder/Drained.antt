-- ===== src/Analytics/Recorder/Drained.antt =====
-- What is left when no worker can go on after Close.
use qurator.Common.{
  ◌≡◌, refl, ap, sym, ◌∙◌, inl, inr, ℕ, Bool, ◌≤◌, zero, suc, ◌+◌, ◌<◌, true, false, none, some,
  List, [], ◌∷◌, length, any, at, copies, total, total-eq-zero, length-copies, Option-cases, arith,
}
use qurator.Domain.{ScanEvent}
use qurator.Store.State.{MemStore, live}
use qurator.Analytics.Recorder.{
  Options, Recorder, Worker, waiting, received, flushing, settling, returned, new_recorder,
  unflushed, Turn, receives, counts, settles, finishes, flushes, receive, finish, settle, work,
  Action, works, act,
}
use qurator.Analytics.Recorder.Runs.{Run}
use qurator.Analytics.Recorder.Accounting.{held, counted, offered}
use qurator.Analytics.Balance.{stored}
use qurator.Analytics.Recorder.Kept.{events_offered, matching, Run-balance}
use qurator.Analytics.Recorder.Shutdown.{leaving, any-at, Waits, Keeps, Run-Keeps}

-- On a closed channel a waiting worker can receive, or see the end.
waiting_goes_on :
    (batch channel : List ScanEvent) (r : Recorder)
    → receive batch channel r ≡ none
    → finish batch channel true r ≡ none
    → ⊥
unfolding receive finish
waiting_goes_on batch [] r p q = ground arith
waiting_goes_on batch (ev ∷ rest) r p q = ground arith

returned_of_stuck :
    (o : Options) (w : Worker) (r : Recorder)
    → r.closed ≡ true
    → ((t : Turn) → work o t w r ≡ none)
    → w ≡ returned
unfolding work settle
returned_of_stuck o (waiting batch) r c h = absurd (
    waiting_goes_on batch r.channel r (h receives)
      (ap (λ b. finish batch r.channel b r) (sym c) ∙ h finishes))
returned_of_stuck o (received ev batch) r c h = absurd (ground (arith, h counts))
returned_of_stuck o (flushing last batch) r c h = absurd (ground (arith, h (flushes live)))
returned_of_stuck o (settling true n) r c h = absurd (ground (arith, h settles))
returned_of_stuck o (settling false n) r c h = absurd (ground (arith, h settles))
returned_of_stuck o returned r c h = refl

no_worker : (ws : List Worker) → 0 < length ws → at 0 ws ≡ none → ⊥
unfolding at
no_worker [] l n = omega arith
no_worker (w ∷ ws) l n = ground arith

new_recorder-leaving : (n : ℕ) → any leaving (copies n (waiting [])) ≡ false
unfolding copies
new_recorder-leaving zero = refl
new_recorder-leaving (suc n) = new_recorder-leaving n

module _ (o : Options) (r : Recorder) (c : r.closed ≡ true)
    (h : (i : ℕ) (t : Turn) → act o (works i t) r ≡ none) where
  stuck_worker : (i : ℕ) (w : Worker) (e : at i r.workers ≡ some w) (t : Turn) → work o t w r ≡ none
  unfolding act
  stuck_worker i w e t = elim (Option-cases (work o t w r)) [
    | inl n ↦ n
    | inr (p, q) ↦ absurd (ground (arith, h i t, e, q))
  ]

  all_returned : (i : ℕ) (w : Worker) → at i r.workers ≡ some w → w ≡ returned
  all_returned i w e = returned_of_stuck o w r c (stuck_worker i w e)

  nothing_counted : total counted r.workers ≡ 0
  nothing_counted = total-eq-zero counted r.workers (λ i w e. ap counted (all_returned i w e))

  nothing_held : total held r.workers ≡ 0
  nothing_held = total-eq-zero held r.workers (λ i w e. ap held (all_returned i w e))

  -- if there is a worker at all, it has seen the end of the channel
  channel_ended : 0 < length r.workers → Waits r → r.channel ≡ []
  channel_ended some_worker (inr d) = d.empty
  channel_ended some_worker (inl f) = elim (Option-cases (at 0 r.workers)) [
    | inl n ↦ absurd (no_worker r.workers some_worker n)
    | inr (w, e) ↦ absurd (ground (arith, any-at leaving 0 w r.workers f e, all_returned 0 w e))
  ]

-- After Close, once no worker has a turn left, where there is a worker: Unflushed is 0, by number the
-- events in the store and those counted as dropped are the events of the store at the start and those
-- offered to Record, and by content those in the store are among these: of the events with any
-- property there are no more than were there at the start or offered.
pub Run-drained :
    (o : Options) (m : MemStore) {acts : List Action} {r : Recorder}
    → 0 < o.workers
    → Run o (new_recorder o m) acts r
    → r.closed ≡ true
    → ((i : ℕ) (t : Turn) → act o (works i t) r ≡ none)
    → (unflushed r ≡ 0)
      × (length r.store.events + r.dropped ≡ length m.events + offered acts)
      × ((p : ScanEvent → Bool)
          → matching p (stored r.store.events)
            ≤ matching p (stored m.events) + matching p (events_offered acts))
Run-drained o m {acts} {r} some_worker run c h =
    let k : Keeps (new_recorder o m) r =
      Run-Keeps (unfold new_recorder in new_recorder-leaving o.workers) run in
    let size : length r.workers ≡ o.workers =
      k.size ∙ unfold new_recorder in length-copies o.workers (waiting []) in
    let empty : r.channel ≡ [] = channel_ended o r c h (omega (arith, size, some_worker)) k.waits in
    let (balance, within, left) = Run-balance o m run in
    (
      omega (arith, left, nothing_counted o r c h, ap length empty),
      omega (arith, balance, nothing_held o r c h, ap length empty),
      λ p. omega (arith, within p),
    )
