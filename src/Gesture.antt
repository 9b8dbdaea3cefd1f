-- ===== src/Gesture.antt =====
-- src/stylusgestures.h and src/stylusgestures.cpp: the gesture detector of one pen button.
-- A time is an int64 of milliseconds and a threshold an int; the model's integers do not wrap.
-- A method that mutates the detector returns the new record, with the gesture that it returns.
pub mod Phases
pub mod Deadline
pub mod Budget
pub mod Verdicts
mod Tests
use stylus_popup.Prelude.{
  zero, suc, Bool, true, false, not, ◌&&◌, ◌||◌, Option, none, some, ℤ, pos, negsuc, ◌+ℤ◌, ◌-ℤ◌,
  leb_ℤ, ltb_ℤ, if◌then◌else◌,
}
use Prim.Native.String.{String}

pub data StylusGesture : Type 0 where
  single double_click long_press : StylusGesture

abbrev pub stylus_gesture_name : StylusGesture → String
stylus_gesture_name single = "single"
stylus_gesture_name double_click = "double-click"
stylus_gesture_name long_press = "long-press"

pub record GestureTiming : Type 0 where
  pub double_click_ms : ℤ
  pub long_press_ms : ℤ

abbrev pub default_timing : GestureTiming
default_timing = record { double_click_ms = pos 300; long_press_ms = pos 500 }

pub record ButtonGestureDetector : Type 0 where
  pub timing : GestureTiming
  pub down : Bool
  pub long_fired : Bool
  pub double_fired : Bool
  pub pressed_at : ℤ
  pub pending_single : ℤ  -- the release time of a click awaiting a second one, or -1

-- The detector as its members' initialisers leave it.
abbrev pub fresh_detector : ButtonGestureDetector
fresh_detector = record {
  timing = default_timing;
  down = false;
  long_fired = false;
  double_fired = false;
  pressed_at = pos 0;
  pending_single = negsuc 0;
}

unfoldable pub configure : GestureTiming → ButtonGestureDetector → ButtonGestureDetector
configure timing d = record d {
  timing = timing;
  down = false;
  long_fired = false;
  double_fired = false;
  pressed_at = pos 0;
  pending_single = negsuc 0;
}

-- `(now - since) >= limit`, on integers.
abbrev pub elapsed : ℤ → ℤ → ℤ → Bool
elapsed now since limit = leb_ℤ limit (now -ℤ since)

unfoldable pub press : ButtonGestureDetector → ℤ → ButtonGestureDetector × Option StylusGesture
press d now =
    let second_click = leb_ℤ (pos 0) d.pending_single in
    let d' = record d {
      pending_single = negsuc 0;
      down = true;
      pressed_at = now;
      long_fired = false;
      double_fired = second_click;
    } in
    (d', if second_click then some double_click else none)

unfoldable pub release : ButtonGestureDetector → ℤ → ButtonGestureDetector × Option StylusGesture
release d now =
    let held_long = elapsed now d.pressed_at d.timing.long_press_ms in
    let d' = record d { down = false; double_fired = false } in
    if not d.down
    then (d, none)
    else if d.double_fired || d.long_fired
    then (d', none)
    else if held_long
    then (record d' { long_fired = true }, some long_press)
    else (record d' { pending_single = now }, none)

unfoldable pub repeat : ButtonGestureDetector → ℤ → ButtonGestureDetector × Option StylusGesture
repeat d now =
    if not d.down || d.double_fired
    then (d, none)
    else if d.long_fired
    then (d, some long_press)
    else if elapsed now d.pressed_at d.timing.long_press_ms
    then (record d { long_fired = true }, some long_press)
    else (d, some single)

unfoldable pub tick : ButtonGestureDetector → ℤ → ButtonGestureDetector × Option StylusGesture
tick d now =
    if d.down
    then (if not d.double_fired
          && not d.long_fired
          && elapsed now d.pressed_at d.timing.long_press_ms
        then (record d { long_fired = true }, some long_press)
        else (d, none))
    else if leb_ℤ (pos 0) d.pending_single && elapsed now d.pending_single d.timing.double_click_ms
    then (record d { pending_single = negsuc 0 }, some single)
    else (d, none)

-- The `value` of an evdev key event: 0 is a release, 1 a press, anything else an auto-repeat.
unfoldable pub feed : ButtonGestureDetector → ℤ → ℤ → ButtonGestureDetector × Option StylusGesture
unfolding press release repeat
feed d (pos zero) now = release d now
feed d (pos (suc zero)) now = press d now
feed d _ now = repeat d now

unfoldable pub deadline_ms : ButtonGestureDetector → ℤ
deadline_ms d =
    let held =
      if d.down && not d.double_fired && not d.long_fired
      then d.pressed_at +ℤ d.timing.long_press_ms
      else negsuc 0 in
    let click = d.pending_single +ℤ d.timing.double_click_ms in
    if leb_ℤ (pos 0) d.pending_single
    then (if ltb_ℤ held (pos 0) || ltb_ℤ click held then click else held)
    else held
