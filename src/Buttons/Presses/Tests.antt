-- ===== src/Buttons/Presses/Tests.antt =====
-- A run of the monitor's thread in which the pen is double-clicked.
use stylus_popup.Prelude.{true, false, length, List, [], ◌∷◌, pos, ◌≤◌, ◌≡◌, refl}
use stylus_popup.Config.{default_buttons}
use stylus_popup.Buttons.{ReadResult, event, opened}
use stylus_popup.Buttons.Monitor.{Candidate}
use stylus_popup.Buttons.Loop.{Poll, readable, ready, run}
use stylus_popup.Buttons.Mapper.{started_scripts}
use stylus_popup.Buttons.Presses.{prices, strokes}
use stylus_popup.Buttons.Presses.Paid.{offered, run-paid}

abbrev pen_path : Candidate
pen_path = record {
  path = "/dev/input/event7";
  opened_as = opened 9 "Xiaomi Smart Pen Keyboard" "" (λ code. true);
  grab_succeeds = true;
  queued = [];
}

-- Two presses, with a repeat that the configuration leaves out, and a press of another key.
abbrev presses : List ReadResult
presses =
    event 1 109 (pos 1)
    ∷ event 1 109 (pos 2)
    ∷ event 1 109 (pos 0)
    ∷ event 1 30 (pos 1)
    ∷ event 1 109 (pos 1)
    ∷ []

abbrev rounds : List Poll
rounds = ready false false (readable (pos 2000) presses ∷ []) [] (pos 2000) ∷ []

offered_two : offered false rounds ≡ 2
unfolding offered strokes
offered_two = refl

run-paid_example :
    let ts = (run (λ a b. true) default_buttons (pen_path ∷ []) (pos 1000) rounds).1 in
    (prices ts ≤ offered false rounds)
    × (length (started_scripts default_buttons ts) ≤ offered false rounds)
run-paid_example = run-paid (λ a b. true) default_buttons (pen_path ∷ []) (pos 1000) rounds
