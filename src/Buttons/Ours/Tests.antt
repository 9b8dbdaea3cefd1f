-- ===== src/Buttons/Ours/Tests.antt =====
-- The pen beside an ordinary keyboard, whose page-down key is pressed too.
use stylus_popup.Prelude.{true, false, List, [], ◌∷◌, pos, All, length, ◌-ℤ◌, ◌≡◌, refl}
use text.Mathlib.Text.{◌==◌ as str_eq}
use stylus_popup.Gesture.{press, release, feed, tick, configure}
use stylus_popup.Config.{default_buttons}
use stylus_popup.Buttons.{
  ReadResult, event, opened, inspect, is_stylus_node_name, matches, feed_node, dispatch_event,
}
use stylus_popup.Buttons.Monitor.{Candidate, scan, scan_paths, scan_path, is_known, attach, drain}
use stylus_popup.Buttons.Deadlines.{flush_detector, flush_node, flush_due_gestures}
use stylus_popup.Buttons.Loop.{
  Poll, readable, ready, run, poll_loop, turn, walk, serve, polled_nodes, erase_dead,
}
use stylus_popup.Buttons.Ours.{IsPenned}
use stylus_popup.Buttons.Ours.Triggered.{run-IsPenned}

abbrev nodes : List Candidate
nodes =
    record {
      path = "/dev/input/event2";
      opened_as = opened 8 "AT Translated Set 2 keyboard" "" (λ code. true);
      grab_succeeds = true;
      queued = [];
    }
    ∷ record {
      path = "/dev/input/event7";
      opened_as = opened 9 "Xiaomi Smart Pen Keyboard" "" (λ code. true);
      grab_succeeds = true;
      queued = [];
    }
    ∷ []

abbrev clicks : List ReadResult
clicks = event 1 109 (pos 1) ∷ event 1 109 (pos 0) ∷ event 1 109 (pos 1) ∷ []

abbrev rounds : List Poll
rounds =
    ready false false (readable (pos 2000) clicks ∷ readable (pos 2000) clicks ∷ []) [] (pos 2000)
    ∷ []

-- One node is watched, and a double click comes of it.
one_gesture : length (run str_eq default_buttons nodes (pos 1000) rounds).1 ≡ 1
unfolding run poll_loop turn scan scan_paths scan_path inspect is_stylus_node_name matches attach
    drain is_known walk serve polled_nodes erase_dead flush_due_gestures flush_node flush_detector
    tick feed_node dispatch_event feed press release configure ◌-ℤ◌
one_gesture = refl

run-IsPenned_example : All (IsPenned str_eq) (run str_eq default_buttons nodes (pos 1000) rounds).1
run-IsPenned_example = run-IsPenned str_eq default_buttons nodes (pos 1000) rounds
