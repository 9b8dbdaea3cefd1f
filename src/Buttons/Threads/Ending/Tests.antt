-- ===== src/Buttons/Threads/Ending/Tests.antt =====
-- The application ends while the monitor's thread is in a poll that finds nothing.
use stylus_popup.Prelude.{true, ◌⊎◌, ◌&&◌, List, [], ◌∷◌, ◌≡◌, refl, if◌then◌else◌}
use stylus_popup.Buttons.Threads.{RunPc, nothing, something, run_from, stop_from}
use stylus_popup.Buttons.Threads.Ending.{
  Turn, thread_turn, main_turn, first_wait, over, is_over, starting, take_all, take, main_from,
  take_all-closes_last,
}
use stylus_popup.Buttons.Threads.Ending.Joining.{take_all-over}

-- It tests, polls and serves an event, and enters a poll; then it is told to stop.
abbrev told : List Turn
told =
    thread_turn nothing
    ∷ thread_turn something
    ∷ thread_turn nothing
    ∷ thread_turn nothing
    ∷ main_turn
    ∷ main_turn
    ∷ []

told_waits : (take_all told (starting true true)).pc ≡ first_wait
unfolding take_all take main_from run_from stop_from
told_waits = refl

abbrev rest : List Turn
rest =
    thread_turn nothing
    ∷ thread_turn nothing
    ∷ thread_turn nothing
    ∷ main_turn
    ∷ main_turn
    ∷ main_turn
    ∷ main_turn
    ∷ main_turn
    ∷ []

take_all-over_example : (take_all rest (take_all told (starting true true))).pc ≡ over
take_all-over_example = take_all-over true told nothing nothing nothing told_waits

-- In another order the main thread waits in vain for two turns.
abbrev whole : List Turn
whole =
    thread_turn nothing
    ∷ main_turn
    ∷ main_turn
    ∷ main_turn
    ∷ main_turn
    ∷ thread_turn nothing
    ∷ thread_turn nothing
    ∷ thread_turn nothing
    ∷ main_turn
    ∷ main_turn
    ∷ main_turn
    ∷ main_turn
    ∷ main_turn
    ∷ []

whole_closes : (take_all whole (starting true true)).closes ≡ 1
unfolding take_all take main_from run_from stop_from
whole_closes = refl

take_all-closes_last_example :
    let e = take_all whole (starting true true) in
    (e.late ≡ 0)
    × ((e.closes ≡ 0) ⊎ (e.threads.run ≡ RunPc.ended))
    × (e.closes ≡ (if is_over e.pc && true then 1 else 0))
take_all-closes_last_example = take_all-closes_last true true whole
