-- ===== src/Pen/Threads/Stopping.antt =====
-- src/stylusmonitor.cpp: what the thread still does once it is told to stop.
use stylus_popup.Prelude.{length, ℕ, suc, ◌+◌, ◌≤◌, true, false, List, [], ◌∷◌, ◌≡◌, refl, arith}
use stylus_popup.Pen.{ReadResult, interrupted, failed, received}
use stylus_popup.Pen.Threads.{
  RunPc, StopPc, Threads, Answer, after_read, run_from, stop_from, Turn, run_turn, stop_turn, take,
  take_all,
}

-- The states that `run` may still emit before it tests `m_running`.
abbrev pub due : RunPc → ℕ
due RunPc.reading = 1
due (RunPc.emitting s) = 1
due _ = 0

due-after_read : (r : ReadResult) → due (after_read r) ≤ 1
unfolding after_read
due-after_read interrupted = ground arith
due-after_read failed = ground arith
due-after_read (received bytes) = ground arith

-- The states emitted and due, and whether the thread is told to stop.
run_from-due :
    (pc : RunPc) (a : Answer) (t : Threads)
    → t.run ≡ pc
    → t.running ≡ false
    → let u = run_from pc a t in
      (u.running ≡ false) × (length u.emitted + due u.run ≤ length t.emitted + due pc)
unfolding run_from
run_from-due RunPc.opening a t e off = ground (arith, e, off)
run_from-due RunPc.storing a t e off = ground (arith, e, off)
run_from-due RunPc.testing a t e off = ground (arith, e, off)
run_from-due RunPc.reading a t e off = ground (arith, e, off, due-after_read a.read)
run_from-due (RunPc.emitting s) a t e off = ground (arith, e, off)
run_from-due RunPc.swapping a t e off = ground (arith, e, off)
run_from-due (RunPc.closing true) a t e off = ground (arith, e, off)
run_from-due (RunPc.closing false) a t e off = ground (arith, e, off)
run_from-due RunPc.ended a t e off = ground (arith, e, off)

stop_from-due :
    (pc : StopPc) (t : Threads)
    → t.running ≡ false
    → let u = stop_from pc t in (u.running ≡ false) × (u.emitted ≡ t.emitted) × (u.run ≡ t.run)
unfolding stop_from
stop_from-due StopPc.clearing t off = ground (arith, off)
stop_from-due StopPc.swapping t off = ground (arith, off)
stop_from-due (StopPc.closing true) t off = ground (arith, off)
stop_from-due (StopPc.closing false) t off = ground (arith, off)
stop_from-due StopPc.ended t off = ground (arith, off)

take-due :
    (turn : Turn) (t : Threads)
    → t.running ≡ false
    → let u = take turn t in
      (u.running ≡ false) × (length u.emitted + due u.run ≤ length t.emitted + due t.run)
unfolding take
take-due (run_turn a) t off = run_from-due t.run a t refl off
take-due stop_turn t off = ground (arith, stop_from-due t.stop t off)

-- From the moment that the monitor is told to stop, whatever the order of the turns and the answers:
-- it emits one state more at most, and none where the thread is not between a read and its signal.
take_all-emits :
    (turns : List Turn) (t : Threads)
    → t.running ≡ false
    → let u = take_all turns t in
      (u.running ≡ false) × (length u.emitted + due u.run ≤ length t.emitted + due t.run)
unfolding take_all
take_all-emits [] t off = ground (arith, off)
take_all-emits (turn ∷ turns) t off =
    let now = take-due turn t off in ground (arith, now, take_all-emits turns (take turn t) now.0)

-- Where the thread is about to read while the descriptor is stored, a whole `stop` closes the descriptor
-- and leaves the thread where it is: its next read is of a closed descriptor, whatever it gives.
pub stop-stale_read :
    (t : Threads) (a : Answer)
    → t.run ≡ RunPc.reading
    → t.stop ≡ StopPc.clearing
    → t.stored ≡ true
    → t.opened ≡ suc t.closed
    → let u = take_all (stop_turn ∷ stop_turn ∷ stop_turn ∷ []) t in
      (u.closed ≡ u.opened)
      × (u.run ≡ RunPc.reading)
      × ((take (run_turn a) u).stale_reads ≡ suc t.stale_reads)
unfolding take_all take stop_from run_from
stop-stale_read t a r s h o = ground (arith, r, s, h, o)
