-- ===== src/Buttons/Tests.antt =====
-- The button monitor at a concrete node: the page-down button was pressed at 1000 ms.
use stylus_popup.Prelude.{true, false, List, [], ◌∷◌, ◌≡◌, refl, ◌⊎◌, pos, ◌≤ℤ◌, ◌-ℤ◌}
use stylus_popup.Config.{default_buttons}
use stylus_popup.Gesture.{ButtonGestureDetector, fresh_detector, tick, deadline_ms}
use stylus_popup.Buttons.{Node, fresh_node, opened, matches, inspect, is_stylus_node_name}
use stylus_popup.Buttons.Monitor.{Candidate, drain, attach, is_known, scan_path, scan_paths, scan}
use stylus_popup.Buttons.Deadlines.{
  flush_due_gestures, flush_node, flush_detector, next_timeout_ms, rescan_ms,
}
use stylus_popup.Buttons.Loop.{
  hung_up, serve, polled_nodes, walk, erase_at, close_at, close_node, erase_dead, close_all, Poll,
  interrupted, failed, ready, turn, poll_loop, run,
}
use stylus_popup.Buttons.Descriptors.{
  opened_times, closed_times, grabbed_times, ungrabbed_times, run_settles,
}
use stylus_popup.Buttons.Timeout.{AllDetectors, next_timeout-covers}

abbrev held : ButtonGestureDetector
held = record fresh_detector { down = true; pressed_at = pos 1000 }

abbrev pen : Node
pen = record fresh_node {
  path = "/dev/input/event7";
  fd = pos 9;
  name_match = true;
  has_primary = true;
  primary_detector = held;
}

next_timeout-covers_example :
    let t = next_timeout_ms (pos 1100) (pen ∷ fresh_node ∷ []) in
    (pos 0 ≤ℤ t)
    × (t ≤ℤ rescan_ms)
    × AllDetectors
        (λ d.
          pos 0 ≤ℤ deadline_ms d → (t ≤ℤ deadline_ms d -ℤ pos 1100) ⊎ (deadline_ms d ≤ℤ pos 1100))
        (pen ∷ fresh_node ∷ [])
next_timeout-covers_example = next_timeout-covers (pos 1100) (pen ∷ fresh_node ∷ [])

-- The pen's node is opened and grabbed by the first scan, dies in the first round, and is opened again.
abbrev pen_path : Candidate
pen_path = record {
  path = "/dev/input/event7";
  opened_as = opened 9 "Xiaomi Smart Pen Keyboard" "" (λ code. true);
  grab_succeeds = true;
  queued = [];
}

abbrev rounds : List Poll
rounds = interrupted ∷ ready false false (hung_up ∷ []) (pen_path ∷ []) (pos 2000) ∷ failed ∷ []

run_settles_example :
    let actions = (run (λ a b. true) default_buttons (pen_path ∷ []) (pos 1000) rounds).0 in
    (opened_times 9 actions ≡ closed_times 9 actions)
    × (grabbed_times 9 actions ≡ ungrabbed_times 9 actions)
run_settles_example = run_settles (λ a b. true) default_buttons (pen_path ∷ []) (pos 1000) rounds 9

-- Such a run opens and grabs the descriptor twice.
run_reopens :
    let actions = (run (λ a b. true) default_buttons (pen_path ∷ []) (pos 1000) rounds).0 in
    (opened_times 9 actions ≡ 2) × (ungrabbed_times 9 actions ≡ 2)
unfolding run poll_loop turn scan scan_paths scan_path inspect is_stylus_node_name matches attach
    drain is_known walk serve polled_nodes erase_dead erase_at close_at close_node close_all
    flush_due_gestures flush_node flush_detector tick
run_reopens = (refl, refl)
