-- ===== src/Pen/Threads.antt =====
-- src/stylusmonitor.cpp: the thread of the monitor and the thread that stops it, which share two
-- atomic variables and the descriptor. A turn is one atomic access or one call of the kernel, and the
-- turns of the two threads come in any order.
pub mod Closing
pub mod Stopping
mod Tests
use stylus_popup.Prelude.{
  ℕ, suc, Bool, true, false, Option, none, some, List, [], ◌∷◌, leb, if◌then◌else◌,
}
use stylus_popup.Pen.{
  StylusState, Idtp9418Event, ReadResult, interrupted, failed, received, state_of, event_of,
}

-- Where `run` stands.
pub data RunPc : Type 0 where
  opening storing testing reading : RunPc
  emitting : StylusState → RunPc
  swapping : RunPc
  closing : Bool → RunPc  -- whether the exchange gave a descriptor
  ended : RunPc

-- Where `stop` stands.
pub data StopPc : Type 0 where
  clearing swapping : StopPc
  closing : Bool → StopPc
  ended : StopPc

-- `opened` and `closed` count the calls of `open` that succeed and those of `close`; `stale_reads`
-- counts the reads of a descriptor that is closed.
pub record Threads : Type 0 where
  pub running : Bool  -- m_running
  pub stored : Bool  -- m_fd holds the descriptor
  pub opened : ℕ
  pub closed : ℕ
  pub stale_reads : ℕ
  pub emitted : List StylusState
  pub run : RunPc
  pub stop : StopPc

abbrev pub begun : Threads
begun = record {
  running = true;
  stored = false;
  opened = 0;
  closed = 0;
  stale_reads = 0;
  emitted = [];
  run = opening;
  stop = clearing;
}

-- What the kernel answers to the calls of `run`: whether the device opens, and what a read gives.
pub record Answer : Type 0 where
  pub opens : Bool
  pub read : ReadResult

-- Where a read leads to: `readState` tries again, fails, or has a state.
unfoldable pub after_read : ReadResult → RunPc
after_read interrupted = reading
after_read failed = swapping
after_read (received bytes) = elim (event_of bytes) [
  | none ↦ swapping
  | some evt ↦ emitting (state_of evt)
]

unfoldable pub run_from : RunPc → Answer → Threads → Threads
unfolding after_read
run_from opening a t =
    if a.opens then record t { opened = suc t.opened; run = storing } else record t { run = ended }
run_from storing a t = record t { stored = true; run = testing }
run_from testing a t = record t { run = if t.running then reading else swapping }
run_from reading a t = record t {
  stale_reads = if leb t.opened t.closed then suc t.stale_reads else t.stale_reads;
  run = after_read a.read;
}
run_from (emitting s) a t = record t { emitted = s ∷ t.emitted; run = testing }
run_from swapping a t = record t { stored = false; run = closing t.stored }
run_from (closing true) a t = record t { closed = suc t.closed; run = ended }
run_from (closing false) a t = record t { run = ended }
run_from ended a t = t

-- A second call of `stop` begins anew.
unfoldable pub stop_from : StopPc → Threads → Threads
stop_from clearing t = record t { running = false; stop = swapping }
stop_from swapping t = record t { stored = false; stop = closing t.stored }
stop_from (closing true) t = record t { closed = suc t.closed; stop = ended }
stop_from (closing false) t = record t { stop = ended }
stop_from ended t = record t { stop = clearing }

pub data Turn : Type 0 where
  run_turn : Answer → Turn
  stop_turn : Turn

unfoldable pub take : Turn → Threads → Threads
take (run_turn a) t = run_from t.run a t
take stop_turn t = stop_from t.stop t

-- A schedule, from its first turn on.
unfoldable pub take_all : List Turn → Threads → Threads
take_all [] t = t
take_all (turn ∷ turns) t = take_all turns (take turn t)
