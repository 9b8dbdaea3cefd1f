-- ===== src/Pen/Threads/Tests.antt =====
-- The two threads in one order: the monitor is stopped while it waits for a report.
use stylus_popup.Prelude.{length, ◌≤◌, true, List, [], ◌∷◌, ◌≡◌, ◌≢◌, ◌⊎◌, suc, refl}
use stylus_popup.Pen.{received}
use stylus_popup.Pen.Threads.{
  RunPc, StopPc, Threads, begun, Answer, run_from, stop_from, Turn, run_turn, stop_turn, take,
  take_all,
}
use stylus_popup.Pen.Threads.Closing.{take_all-closes}
use stylus_popup.Pen.Threads.Stopping.{stop-stale_read}

abbrev report : Answer
report = record { opens = true; read = received (80 ∷ 1 ∷ 1 ∷ 85 ∷ 1 ∷ 2 ∷ 3 ∷ 4 ∷ 5 ∷ 6 ∷ 0 ∷ []) }

-- It opens, stores and tests, is stopped, reads a last report, emits it, and ends.
abbrev schedule : List Turn
schedule =
    run_turn report
    ∷ run_turn report
    ∷ run_turn report
    ∷ stop_turn
    ∷ stop_turn
    ∷ run_turn report
    ∷ stop_turn
    ∷ run_turn report
    ∷ run_turn report
    ∷ run_turn report
    ∷ run_turn report
    ∷ []

take_all-closes_example :
    let t = take_all schedule begun in
    (t.opened ≤ 1)
    × (t.closed ≤ t.opened)
    × ((t.run ≢ RunPc.ended) ⊎ (t.stop ≡ StopPc.closing true) ⊎ (t.closed ≡ t.opened))
take_all-closes_example = take_all-closes schedule

schedule_ends :
    let t = take_all schedule begun in
    (t.run ≡ RunPc.ended) × (t.closed ≡ 1) × (length t.emitted ≡ 1)
unfolding take_all take run_from stop_from
schedule_ends = (refl, refl, refl)

-- A thread that is about to read.
abbrev waiting : Threads
waiting = record begun { stored = true; opened = 1; run = RunPc.reading }

stop-stale_read_example :
    let u = take_all (stop_turn ∷ stop_turn ∷ stop_turn ∷ []) waiting in
    (u.closed ≡ u.opened)
    × (u.run ≡ RunPc.reading)
    × ((take (run_turn report) u).stale_reads ≡ suc 0)
stop-stale_read_example = stop-stale_read waiting report refl refl refl refl
