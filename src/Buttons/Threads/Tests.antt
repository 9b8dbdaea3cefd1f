-- ===== src/Buttons/Threads/Tests.antt =====
-- The thread and `stop` in one order: the thread is stopped while it is in a poll.
use stylus_popup.Prelude.{true, List, [], ◌∷◌, ◌≡◌, refl}
use stylus_popup.Buttons.Threads.{
  RunPc, StopPc, begun, nothing, something, Turn, run_turn, stop_turn, take, take_all, run_from,
  stop_from,
}

-- It tests, polls and serves an event, tests, enters a poll that finds nothing, and is stopped.
abbrev schedule : List Turn
schedule =
    run_turn nothing
    ∷ run_turn something
    ∷ run_turn nothing
    ∷ run_turn nothing
    ∷ run_turn nothing
    ∷ stop_turn
    ∷ stop_turn
    ∷ []

schedule_stops :
    let t = take_all schedule (begun true) in (t.stop ≡ StopPc.ended) × (t.run ≡ RunPc.polling)
unfolding take_all take run_from stop_from
schedule_stops = (refl, refl)
