-- ===== src/Buttons/Clicks.antt =====
-- src/stylusbuttons.cpp: a click of a button, from the two key events in the polls of the pen's node to
-- the command that is started for it.
pub mod Started
mod Tests
use Prim.Native.String.{String}
use mathlib.Core.List.{append-nil}
use mathlib.Core.Path.{subst}
use stylus_popup.Prelude.{
  ℕ, zero, suc, Bool, true, false, Option, none, some, List, [], ◌∷◌, ◌++◌, ℤ, pos, negsuc, ◌-ℤ◌,
  ◌≤ℤ◌, ◌<ℤ◌, ◌==◌, All, ◌≡◌, refl, arith,
}
use stylus_popup.Gesture.{
  StylusGesture, single, long_press, ButtonGestureDetector, feed, press, release, tick,
}
use stylus_popup.Config.{ButtonMapConfig}
use stylus_popup.Buttons.{
  StylusButton, primary, secondary, Node, Trigger, event, ev_key, key_pageup, key_pagedown,
  feed_node, dispatch_event, detector_for, with_detector,
}
use stylus_popup.Buttons.Monitor.{
  Action, Monitor, Candidate, Scan, is_known, drain, scan_path, scan_paths, scan,
}
use stylus_popup.Buttons.Deadlines.{
  flush_detector, flush_fuel, flush_node, flush_due_gestures, triggers_of_all,
}
use stylus_popup.Buttons.Loop.{
  quiet, readable, serve, polled_nodes, walk, erase_dead, Poll, ready, turn, poll_loop,
}

abbrev pub key_code : StylusButton → ℕ
key_code primary = key_pagedown
key_code secondary = key_pageup

-- A detector that owes no gesture: its button is up, and no click waits.
abbrev pub IsIdle : ButtonGestureDetector → Type 0
IsIdle d = (d.down ≡ false) × (d.pending_single ≡ negsuc 0)

abbrev pub holding : ℤ → ButtonGestureDetector → ButtonGestureDetector
holding t d = record d {
  pending_single = negsuc 0;
  down = true;
  pressed_at = t;
  long_fired = false;
  double_fired = false;
}

abbrev pub clicked : ℤ → ButtonGestureDetector → ButtonGestureDetector
clicked t d = record d { down = false; double_fired = false; pending_single = t }

pub idle_tick : (d : ButtonGestureDetector) (n : ℤ) → IsIdle d → tick d n ≡ (d, none)
unfolding tick
idle_tick d n (up, unowed) = ground arith

pub pressed_lem :
    (d : ButtonGestureDetector) (t : ℤ) → IsIdle d → feed d (pos 1) t ≡ (holding t d, none)
unfolding feed press
pressed_lem d t (up, unowed) = ground arith

pub held_tick :
    (d : ButtonGestureDetector) (t n : ℤ)
    → n -ℤ t <ℤ d.timing.long_press_ms
    → tick (holding t d) n ≡ (holding t d, none)
unfolding tick
held_tick d t n early = ground arith

pub released_lem :
    (d : ButtonGestureDetector) (t u : ℤ)
    → u -ℤ t <ℤ d.timing.long_press_ms
    → feed (holding t d) (pos 0) u ≡ (clicked u (holding t d), none)
unfolding feed release
released_lem d t u early = ground arith

pub tick-clicked :
    (d : ButtonGestureDetector) (u n : ℤ)
    → n -ℤ u <ℤ d.timing.double_click_ms
    → tick (clicked u d) n ≡ (clicked u d, none)
unfolding tick
tick-clicked d u n early = ground arith

pub tick-clicked_due :
    (d : ButtonGestureDetector) (u n : ℤ)
    → pos 0 ≤ℤ u
    → d.timing.double_click_ms ≤ℤ n -ℤ u
    → tick (clicked u d) n ≡ (clicked (negsuc 0) d, some single)
unfolding tick
tick-clicked_due d u n later due = ground arith

pub long_tick :
    (d : ButtonGestureDetector) (t n : ℤ)
    → d.timing.long_press_ms ≤ℤ n -ℤ t
    → tick (holding t d) n ≡ (record (holding t d) { long_fired = true }, some long_press)
unfolding tick
long_tick d t n due = ground arith

pub fired_tick :
    (d : ButtonGestureDetector) (t n : ℤ)
    → let fired = record (holding t d) { long_fired = true } in tick fired n ≡ (fired, none)
unfolding tick
fired_tick d t n = ground arith

pub flush_none :
    (d : ButtonGestureDetector) (n : ℤ)
    → tick d n ≡ (d, none)
    → flush_detector flush_fuel n d ≡ (d, [])
unfolding flush_detector
flush_none d n e = ground (arith, e)

pub flush_one :
    (d d' : ButtonGestureDetector) (g : StylusGesture) (n : ℤ)
    → tick d n ≡ (d', some g)
    → tick d' n ≡ (d', none)
    → flush_detector flush_fuel n d ≡ (d', g ∷ [])
unfolding flush_detector
flush_one d d' g n e f = ground (arith, e, f)

-- The node with its detector of one button changed, while that of the other button is idle.
abbrev pub other_of : Node → StylusButton → ButtonGestureDetector
other_of node primary = node.secondary_detector
other_of node secondary = node.primary_detector

pub flush_with :
    (node : Node) (button : StylusButton) (d d' : ButtonGestureDetector) (gs : List StylusGesture)
    (n : ℤ)
    → IsIdle (other_of node button)
    → flush_detector flush_fuel n d ≡ (d', gs)
    → flush_due_gestures n (with_detector node button d ∷ [])
      ≡ (with_detector node button d' ∷ [], triggers_of_all button node.name gs)
unfolding flush_due_gestures flush_node
flush_with node primary d d' gs n idle e =
    let rest = flush_none node.secondary_detector n (idle_tick node.secondary_detector n idle) in
    rw (e, flush_due_gestures) (rw rest (simp append-nil))
flush_with node secondary d d' gs n idle e =
    let rest = flush_none node.primary_detector n (idle_tick node.primary_detector n idle) in
    rw e (rw rest (simp append-nil))

-- A monitor that watches one node.
abbrev pub watching : Node → Bool → List Action → Monitor
watching node warned actions = record { nodes = node ∷ []; warned = warned; actions = actions }

pub with_detector_self :
    (node : Node) (button : StylusButton)
    → with_detector node button (detector_for node button) ≡ node
with_detector_self node primary = refl
with_detector_self node secondary = refl

pub is_known-with_detector :
    (node : Node) (button : StylusButton) (d : ButtonGestureDetector)
    → is_known (node ∷ []) ≡ is_known (with_detector node button d ∷ [])
unfolding is_known
is_known-with_detector node primary d = refl
is_known-with_detector node secondary d = refl

pub fed_lem :
    (repeats : Bool) (node : Node) (button : StylusButton) (v : ℕ) (t : ℤ)
    (c d : ButtonGestureDetector)
    → (v == 2) ≡ false
    → feed c (pos v) t ≡ (d, none)
    → drain repeats true t
        (with_detector node button c)
        (event ev_key (key_code button) (pos v) ∷ [])
      ≡ (with_detector node button d, [], true)
unfolding drain dispatch_event feed_node
fed_lem repeats node primary v t c d once e = rw e (rw once refl)
fed_lem repeats node secondary v t c d once e = rw e (rw once refl)
