-- ===== src/Analytics/Recorder.antt =====
-- internal/analytics/recorder.go: the pipeline of scan events, a bounded channel that Record fills
-- and that some workers drain in batches.
--
-- A worker is at one of the places of its loop where another party can act. What it does between
-- two of them is one step, so an execution is a list of actions. When the ticker fires, when a
-- context ends and which worker runs is the choice of the list. The counters do not wrap around.
pub mod Runs
pub mod Accounting
pub mod Kept
pub mod Draining
pub mod Shutdown
pub mod Drained
use qurator.Common.{
  ℕ, zero, suc, ◌+◌, ◌-◌, Bool, true, false, ◌&&◌, Option, none, some, List, [], ◌∷◌, ◌++◌, Result,
  ok, err, length, at, replace, copies, leb, ltb, ◌==◌, nat_eq, if◌then◌else◌,
}
use qurator.Domain.{ScanEvent, ScanBatch}
use qurator.Store.State.{MemStore, Ctx}
use qurator.Store.Scans.{insert_scan_batch}
use qurator.Analytics.Rollup.{build_rollups}

-- the fields of Options that the pipeline reads; a configured number is 0 or more
pub record Options : Type 0 where
  pub buffer_size : ℕ
  pub batch_size : ℕ
  pub workers : ℕ

abbrev or_default : ℕ → ℕ → ℕ
or_default n d = if n == 0 then d else n

unfoldable pub with_defaults : Options → Options
with_defaults o = record {
  buffer_size = or_default o.buffer_size 10000;
  batch_size = or_default o.batch_size 200;
  workers = or_default o.workers 2;
}

-- The places of a worker. The Boolean of a flush tells whether the worker returns after it.
pub data Worker : Type 0 where
  -- at the select, with a batch
  waiting : List ScanEvent → Worker
  -- it has received an event, and not yet counted it
  received : ScanEvent → List ScanEvent → Worker
  flushing : Bool → List ScanEvent → Worker
  -- the store has answered for so many events, which are still counted as in flight
  settling : Bool → ℕ → Worker
  returned : Worker

pub record Recorder : Type 0 where
  pub store : MemStore
  pub channel : List ScanEvent
  pub closed : Bool
  pub workers : List Worker
  pub inflight : ℕ
  pub dropped : ℕ

-- NewRecorder, with options that have their defaults
unfoldable pub new_recorder : Options → MemStore → Recorder
new_recorder o m = record {
  store = m;
  channel = [];
  closed = false;
  workers = copies o.workers (waiting []);
  inflight = 0;
  dropped = 0;
}

-- Record
unfoldable pub record_event : Options → ScanEvent → Recorder → Recorder
record_event o ev r =
    if r.closed
    then record r { dropped = r.dropped + 1 }
    else if ltb (length r.channel) o.buffer_size
    then record r { channel = r.channel ++ (ev ∷ []) }
    else record r { dropped = r.dropped + 1 }

-- the first part of Close
unfoldable pub close : Recorder → Recorder
close r = record r { closed = true }

unfoldable pub unflushed : Recorder → ℕ
unflushed r = length r.channel + r.inflight

-- what a worker can do next
pub data Turn : Type 0 where
  receives counts ticks settles finishes : Turn
  flushes : Ctx → Turn

-- the batch is full, or the worker goes on waiting
unfoldable pub batched : Options → List ScanEvent → Worker
batched o batch = if leb o.batch_size (length batch) then flushing false batch else waiting batch

-- flush, up to its deferred statement
unfoldable pub flush : Ctx → List ScanEvent → Recorder → Recorder
flush ctx batch r =
    let (res, m) =
      insert_scan_batch ctx (record { events = batch; rollups = build_rollups batch }) r.store in
    elim res [
      | ok _ ↦ record r { store = m }
      | err _ ↦ record r { store = m; dropped = r.dropped + length batch }
    ]

-- the batch is [] where the channel is closed and empty: flush returns at once
abbrev last_flush : List ScanEvent → Worker
last_flush [] = returned
last_flush (ev ∷ evs) = flushing true (ev ∷ evs)

-- `ev, ok := <-r.ch`, by what the channel holds: it blocks where it is empty, and where it is empty
-- and closed as well, `ok` is false.
unfoldable pub receive : List ScanEvent → List ScanEvent → Recorder → Option (Worker × Recorder)
receive batch [] r = none
receive batch (ev ∷ rest) r = some (received ev batch, record r { channel = rest })

unfoldable pub finish :
    List ScanEvent → List ScanEvent → Bool → Recorder → Option (Worker × Recorder)
finish batch [] true r = some (last_flush batch, r)
finish batch [] false r = none
finish batch (ev ∷ rest) closed r = none

unfoldable pub settle : Bool → ℕ → Recorder → Option (Worker × Recorder)
settle true n r = some (returned, record r { inflight = r.inflight - n })
settle false n r = some (waiting [], record r { inflight = r.inflight - n })

-- A turn of a worker, none where the worker is not at that place or the channel blocks it.
unfoldable pub work : Options → Turn → Worker → Recorder → Option (Worker × Recorder)
unfolding receive finish settle batched flush
work o receives (waiting batch) r = receive batch r.channel r
work o counts (received ev batch) r =
    some (batched o (batch ++ (ev ∷ [])), record r { inflight = r.inflight + 1 })
work o ticks (waiting (ev ∷ batch)) r = some (flushing false (ev ∷ batch), r)
work o (flushes ctx) (flushing last batch) r =
    some (settling last (length batch), flush ctx batch r)
work o settles (settling last n) r = settle last n r
work o finishes (waiting batch) r = finish batch r.channel r.closed r
work o t w r = none

pub data Action : Type 0 where
  records : ScanEvent → Action
  closes : Action
  works : ℕ → Turn → Action

unfoldable pub act : Options → Action → Recorder → Option Recorder
unfolding work
act o (records ev) r = some (record_event o ev r)
act o closes r = some (close r)
act o (works i t) r = elim (at i r.workers) [
  | none ↦ none
  | some w ↦ elim (work o t w r) [
    | none ↦ none
    | some (w', r') ↦ some (record r' { workers = replace i w' r'.workers })
  ]
]
