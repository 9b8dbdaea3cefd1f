-- ===== src/Buttons/Threads.antt =====
-- src/stylusbuttons.cpp: the monitor's thread and `stop`, which share an atomic flag and the counter of
-- an eventfd. A turn is one access of either, and the turns come in any order. What the thread does
-- with its nodes between two polls is in `Buttons.Loop`.
pub mod Waking
pub mod Ending
mod Tests
use stylus_popup.Prelude.{
  ℕ, zero, suc, ◌+◌, ◌<◌, Bool, true, false, not, ◌&&◌, ◌||◌, List, [], ◌∷◌, ◌≡◌, ◌≢◌, refl, arith,
  ltb, if◌then◌else◌,
}

-- Where `run` stands. `polled` is after a poll; it holds whether the eventfd was reported.
pub data RunPc : Type 0 where
  testing polling : RunPc
  polled : Bool → RunPc
  ended : RunPc

pub data StopPc : Type 0 where
  clearing writing ended : StopPc

-- `has_wake` is whether the constructor got an eventfd, and `wake` its counter.
pub record Threads : Type 0 where
  pub has_wake : Bool
  pub running : Bool
  pub wake : ℕ
  pub run : RunPc
  pub stop : StopPc

abbrev pub begun : Bool → Threads
begun has_wake = record {
  has_wake = has_wake;
  running = true;
  wake = 0;
  run = testing;
  stop = clearing;
}

-- What a poll comes to beside the eventfd: that nothing else is there, that something else is or its
-- time is up, that it is interrupted, or that it fails.
pub data Polled : Type 0 where
  nothing something interrupted failed : Polled

-- A poll that has nothing to report blocks: the turn leaves everything as it is.
unfoldable pub run_from : RunPc → Polled → Threads → Threads
run_from testing p t = record t { run = if t.running then polling else ended }
run_from polling nothing t =
    if t.has_wake && ltb 0 t.wake then record t { run = polled true } else t
run_from polling something t = record t { run = polled (t.has_wake && ltb 0 t.wake) }
run_from polling interrupted t = record t { run = testing }
run_from polling failed t = record t { run = ended }
run_from (polled true) p t = record t { wake = 0; run = testing }
run_from (polled false) p t = record t { run = testing }
run_from ended p t = t

-- A second call of `stop` begins anew.
unfoldable pub stop_from : StopPc → Threads → Threads
stop_from clearing t = record t { running = false; stop = writing }
stop_from writing t =
    if t.has_wake then record t { wake = t.wake + 1; stop = ended } else record t { stop = ended }
stop_from ended t = record t { stop = clearing }

pub data Turn : Type 0 where
  run_turn : Polled → Turn
  stop_turn : Turn

unfoldable pub take : Turn → Threads → Threads
take (run_turn p) t = run_from t.run p t
take stop_turn t = stop_from t.stop t

unfoldable pub take_all : List Turn → Threads → Threads
take_all [] t = t
take_all (turn ∷ turns) t = take_all turns (take turn t)
