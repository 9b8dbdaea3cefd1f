-- ===== src/Pen/Threads/Closing.antt =====
-- src/stylusmonitor.cpp: the descriptor is closed once, whichever thread takes it.
use stylus_popup.Prelude.{ℕ, ◌+◌, ◌≤◌, Bool, true, false, List, [], ◌∷◌, ◌≡◌, ◌≢◌, ◌⊎◌, refl, arith}
use stylus_popup.Pen.{ReadResult, interrupted, failed, received}
use stylus_popup.Pen.Threads.{
  after_read, RunPc, StopPc, Threads, begun, Answer, run_from, stop_from, Turn, run_turn, stop_turn,
  take, take_all,
}

-- How many descriptors stand with a thread, or in the shared variable.
abbrev pub with_run : RunPc → ℕ
with_run RunPc.storing = 1
with_run (RunPc.closing true) = 1
with_run _ = 0

abbrev pub with_stop : StopPc → ℕ
with_stop (StopPc.closing true) = 1
with_stop _ = 0

abbrev stored_count : Bool → ℕ
stored_count true = 1
stored_count false = 0

-- Where `m_fd` may hold the descriptor.
abbrev may_store : RunPc → Bool
may_store RunPc.opening = false
may_store RunPc.storing = false
may_store (RunPc.closing taken) = false
may_store RunPc.ended = false
may_store _ = true

pub record IsOwned (t : Threads) : Type 0 where
  pub owned : t.opened ≡ t.closed + stored_count t.stored + with_run t.run + with_stop t.stop
  pub once : t.opened ≤ 1
  pub emptied : may_store t.run ≡ false → t.stored ≡ false
  pub first : t.run ≡ RunPc.opening → t.opened ≡ 0

-- A read leads to no place that has a descriptor of its own.
after_read_lem :
    (r : ReadResult)
    → (with_run (after_read r) ≡ 0)
      × (may_store (after_read r) ≡ true)
      × (after_read r ≢ RunPc.opening)
unfolding after_read
after_read_lem interrupted = ground arith
after_read_lem failed = ground arith
after_read_lem (received bytes) = ground arith

run_from-IsOwned :
    (pc : RunPc) (a : Answer) (t : Threads) → t.run ≡ pc → IsOwned t → IsOwned (run_from pc a t)
unfolding run_from
run_from-IsOwned RunPc.opening a t e v = ground (arith, e, v.owned, v.once, v.emptied, v.first)
run_from-IsOwned RunPc.storing a t e v = ground (arith, e, v.owned, v.once, v.emptied)
run_from-IsOwned RunPc.testing a t e v = ground (arith, e, v.owned, v.once, v.emptied)
run_from-IsOwned RunPc.reading a t e v = ground (arith, e, v.owned, v.once, after_read_lem a.read)
run_from-IsOwned (RunPc.emitting s) a t e v = ground (arith, e, v.owned, v.once, v.emptied)
run_from-IsOwned RunPc.swapping a t e v = ground (arith, e, v.owned, v.once, v.emptied)
run_from-IsOwned (RunPc.closing true) a t e v = ground (arith, e, v.owned, v.once, v.emptied)
run_from-IsOwned (RunPc.closing false) a t e v = ground (arith, e, v.owned, v.once, v.emptied)
run_from-IsOwned RunPc.ended a t e v = v

stop_from-IsOwned : (pc : StopPc) (t : Threads) → t.stop ≡ pc → IsOwned t → IsOwned (stop_from pc t)
unfolding stop_from
stop_from-IsOwned StopPc.clearing t e v = ground (arith, e, v.owned, v.once, v.emptied, v.first)
stop_from-IsOwned StopPc.swapping t e v = ground (arith, e, v.owned, v.once, v.emptied, v.first)
stop_from-IsOwned (StopPc.closing true) t e v =
    ground (arith, e, v.owned, v.once, v.emptied, v.first)
stop_from-IsOwned (StopPc.closing false) t e v =
    ground (arith, e, v.owned, v.once, v.emptied, v.first)
stop_from-IsOwned StopPc.ended t e v = ground (arith, e, v.owned, v.once, v.emptied, v.first)

take_all-IsOwned : (turns : List Turn) (t : Threads) → IsOwned t → IsOwned (take_all turns t)
unfolding take_all take
take_all-IsOwned [] t v = v
take_all-IsOwned (run_turn a ∷ turns) t v =
    take_all-IsOwned turns _ (run_from-IsOwned t.run a t refl v)
take_all-IsOwned (stop_turn ∷ turns) t v =
    take_all-IsOwned turns _ (stop_from-IsOwned t.stop t refl v)

begun-IsOwned : IsOwned begun
begun-IsOwned = ground arith

-- Whatever the order of the two threads' turns and the answers of the kernel, and however often the
-- monitor is stopped: the device is opened at most once and closed no more often than opened; and
-- once `run` has ended and no `stop` is about to close, it is closed as often as it was opened.
pub take_all-closes :
    (turns : List Turn)
    → let t = take_all turns begun in
      (t.opened ≤ 1)
      × (t.closed ≤ t.opened)
      × ((t.run ≢ RunPc.ended) ⊎ (t.stop ≡ StopPc.closing true) ⊎ (t.closed ≡ t.opened))
take_all-closes turns =
    let v = take_all-IsOwned turns begun begun-IsOwned in closes_of (take_all turns begun) v
  where
    closes_of :
        (t : Threads)
        → IsOwned t
        → (t.opened ≤ 1)
          × (t.closed ≤ t.opened)
          × ((t.run ≢ RunPc.ended) ⊎ (t.stop ≡ StopPc.closing true) ⊎ (t.closed ≡ t.opened))
    closes_of t v = ground (arith, v.owned, v.once, v.emptied)
