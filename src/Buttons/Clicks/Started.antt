-- ===== src/Buttons/Clicks/Started.antt =====
-- src/stylusbuttons.cpp: the rounds of the poll loop that a click and a hold take, and the command that
-- the mapper starts for them.
use Prim.Native.String.{String, ◌++◌}
use mathlib.Core.Path.{subst}
use stylus_popup.Prelude.{
  ℕ, Bool, true, false, none, some, List, [], ◌∷◌, ℤ, pos, negsuc, ◌-ℤ◌, ◌≤ℤ◌, ◌<ℤ◌, ◌==◌, All, ◌≡◌,
  refl,
}
use stylus_popup.Gesture.{StylusGesture, single, long_press, ButtonGestureDetector, feed, tick}
use stylus_popup.Config.{ButtonMapConfig}
use stylus_popup.Buttons.{StylusButton, Node, event, ev_key, detector_for, with_detector}
use stylus_popup.Buttons.Monitor.{Action, Candidate, Scan, is_known, scan_path, scan_paths, scan}
use stylus_popup.Buttons.Loop.{
  readable, serve, polled_nodes, walk, erase_dead, Poll, ready, turn, poll_loop,
}
use stylus_popup.Popup.Strings.{is_empty}
use stylus_popup.Buttons.Mapper.{
  stylus_button_name, command_for, on_gesture_triggered, started_scripts,
}
use stylus_popup.Buttons.Clicks.{
  key_code, IsIdle, holding, clicked, idle_tick, pressed_lem, held_tick, released_lem, tick-clicked,
  tick-clicked_due, long_tick, fired_tick, flush_none, flush_one, other_of, flush_with, watching,
  with_detector_self, is_known-with_detector, fed_lem,
}

-- Two rounds with the press and the release, and a third whose poll timed out. Each round has the
-- clock reading of its drain, where there is one, and that of its flush.
abbrev pub click_polls :
    StylusButton
    → (press_at press_flush release_at release_flush due : ℤ) → List Candidate
    → List Poll
click_polls button press_at press_flush release_at release_flush due cs =
    ready false false (readable press_at (event ev_key (key_code button) (pos 1) ∷ []) ∷ []) []
      press_flush
    ∷ ready false false (readable release_at (event ev_key (key_code button) (pos 0) ∷ []) ∷ []) []
        release_flush
    ∷ ready true false [] cs due
    ∷ []

-- A press, and a round whose poll timed out while the button is still held.
abbrev pub hold_polls : StylusButton → (press_at press_flush due : ℤ) → List Candidate → List Poll
hold_polls button press_at press_flush due cs =
    ready false false (readable press_at (event ev_key (key_code button) (pos 1) ∷ []) ∷ []) []
      press_flush
    ∷ ready true false [] cs due
    ∷ []

module _ (same_text : String → String → Bool) (config : ButtonMapConfig) where
  -- A round with one key event that makes no gesture by itself.
  turn_event :
      (node : Node) (button : StylusButton) (v : ℕ) (t n : ℤ) (c d : ButtonGestureDetector)
      (cs : List Candidate) (warned : Bool) (actions : List Action)
      → (v == 2) ≡ false
      → IsIdle (other_of node button)
      → feed c (pos v) t ≡ (d, none)
      → tick d n ≡ (d, none)
      → turn same_text config false false
          (readable t (event ev_key (key_code button) (pos v) ∷ []) ∷ [])
          cs
          n
          (watching (with_detector node button c) warned actions)
        ≡ (watching (with_detector node button d) warned actions, [])
  unfolding turn walk polled_nodes serve erase_dead
  turn_event node button v t n c d cs warned actions once idle e f =
      let fed = fed_lem config.repeat node button v t c d once e in
      let flushed = flush_with node button d d [] n idle (flush_none d n f) in
      rw fed (rw flushed refl)

  scan_paths_known :
      (s : Scan) (n : ℤ) (cs : List Candidate)
      → All (λ c. is_known s.nodes c.path ≡ true) cs
      → scan_paths same_text config n s cs ≡ s
  unfolding scan_paths scan_path
  scan_paths_known s n [] known = refl
  scan_paths_known s n (c ∷ cs) (old, known) = rw old (scan_paths_known s n cs known)

  -- A round whose poll timed out, where the folder has no other path than the node's.
  turn_timed_out :
      (node : Node) (button : StylusButton) (n : ℤ) (c d : ButtonGestureDetector)
      (g : StylusGesture) (cs : List Candidate) (warned : Bool) (actions : List Action)
      → All (λ c. is_known (node ∷ []) c.path ≡ true) cs
      → IsIdle (other_of node button)
      → tick c n ≡ (d, some g)
      → tick d n ≡ (d, none)
      → (turn same_text config true false [] cs n
          (watching (with_detector node button c) warned actions)).1
        ≡ (button, g, node.name) ∷ []
  unfolding turn walk polled_nodes serve erase_dead scan
  turn_timed_out node button n c d g cs warned actions known idle e f =
      let start : Scan = record {
        nodes = with_detector node button c ∷ [];
        failures = 0;
        actions = actions;
      } in
      let old =
        subst (λ (k : String → Bool). All (λ c. k c.path ≡ true) cs)
          (is_known-with_detector node button c) known in
      let flushed = flush_with node button c d (g ∷ []) n idle (flush_one c d g n e f) in
      rw (scan_paths_known start n cs old) (rw flushed refl)

  -- What the rounds of a click trigger.
  click_triggers :
      (node : Node) (button : StylusButton) (t n u m k : ℤ) (cs : List Candidate) (warned : Bool)
      (actions : List Action)
      → let d = detector_for node button in
        IsIdle d
        → IsIdle (other_of node button)
        → n -ℤ t <ℤ d.timing.long_press_ms
        → pos 0 ≤ℤ u
        → u -ℤ t <ℤ d.timing.long_press_ms
        → m -ℤ u <ℤ d.timing.double_click_ms
        → d.timing.double_click_ms ≤ℤ k -ℤ u
        → All (λ c. is_known (node ∷ []) c.path ≡ true) cs
        → (poll_loop same_text config
            (watching node warned actions)
            (click_polls button t n u m k cs)).1
          ≡ (button, single, node.name) ∷ []
  unfolding poll_loop
  click_triggers node button t n u m k cs warned actions idle other soon later short before due
        known =
      let d = detector_for node button in
      let held = holding t d in
      let up = clicked u held in
      let ended = clicked (negsuc 0) held in
      let one =
        turn_event node button 1 t n d held [] warned actions refl other (pressed_lem d t idle)
          (held_tick d t n soon) in
      let two =
        turn_event node button 0 u m held up [] warned actions refl other (released_lem d t u short)
          (tick-clicked held u m before) in
      let three =
        turn_timed_out node button k up ended single cs warned actions known other
          (tick-clicked_due held u k later due) (idle_tick ended k (refl, refl)) in
      let begun = rw (with_detector_self node button) at one in rw begun (rw two (rw three refl))

  -- The loop watches a single node, both buttons of which are up with no click waiting, and the
  -- scans find no path but the node's; a command is bound to the single click of a button. Where a
  -- press of that button and its release are read in two rounds, the latter at a time that is not
  -- negative, the hold is shorter than a long press, and no flush comes too late or, after the
  -- release, too early, the round whose poll times out at the deadline starts that command, and it
  -- is the only one that these rounds start.
  pub click_starts :
      (node : Node) (button : StylusButton) (t n u m k : ℤ) (cs : List Candidate) (warned : Bool)
      (actions : List Action)
      → let d = detector_for node button in
        IsIdle d
        → IsIdle (other_of node button)
        → n -ℤ t <ℤ d.timing.long_press_ms
        → pos 0 ≤ℤ u
        → u -ℤ t <ℤ d.timing.long_press_ms
        → m -ℤ u <ℤ d.timing.double_click_ms
        → d.timing.double_click_ms ≤ℤ k -ℤ u
        → All (λ c. is_known (node ∷ []) c.path ≡ true) cs
        → is_empty (command_for config button single) ≡ false
        → started_scripts config
            (poll_loop same_text config
              (watching node warned actions)
              (click_polls button t n u m k cs)).1
          ≡ ("export STYLUS_BUTTON="
              ++ stylus_button_name button
              ++ " STYLUS_GESTURE="
              ++ "single"
              ++ "; "
              ++ command_for config button single)
            ∷ []
  unfolding started_scripts on_gesture_triggered
  click_starts node button t n u m k cs warned actions idle other soon later short before due known
        bound =
      let triggers =
        click_triggers node button t n u m k cs warned actions idle other soon later short before
          due known in
      rw triggers (rw bound refl)

  -- A press whose button is still held when the poll times out at the deadline of a long press makes
  -- a long press of that button, before any release.
  pub hold_triggers :
      (node : Node) (button : StylusButton) (t n k : ℤ) (cs : List Candidate) (warned : Bool)
      (actions : List Action)
      → let d = detector_for node button in
        IsIdle d
        → IsIdle (other_of node button)
        → n -ℤ t <ℤ d.timing.long_press_ms
        → d.timing.long_press_ms ≤ℤ k -ℤ t
        → All (λ c. is_known (node ∷ []) c.path ≡ true) cs
        → (poll_loop same_text config (watching node warned actions) (hold_polls button t n k cs)).1
          ≡ (button, long_press, node.name) ∷ []
  unfolding poll_loop
  hold_triggers node button t n k cs warned actions idle other soon due known =
      let d = detector_for node button in
      let held = holding t d in
      let ended = record held { long_fired = true } in
      let one =
        turn_event node button 1 t n d held [] warned actions refl other (pressed_lem d t idle)
          (held_tick d t n soon) in
      let two =
        turn_timed_out node button k held ended long_press cs warned actions known other
          (long_tick d t k due) (fired_tick d t k) in
      let begun = rw (with_detector_self node button) at one in rw begun (rw two refl)
