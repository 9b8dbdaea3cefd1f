-- ===== src/Gesture/Phases.antt =====
-- src/stylusgestures.h describes the detector as a machine of five phases; the booleans and the
-- two times of the class represent it. The machine, and the detector's invariant and refinement.
use stylus_popup.Prelude.{
  Bool, true, false, Option, none, some, ℤ, pos, negsuc, ◌≤ℤ◌, ◌<ℤ◌, leb_ℤ, if◌then◌else◌, ◌≡◌, ◌⊎◌,
  arith,
}
use stylus_popup.Gesture.{
  StylusGesture, single, double_click, long_press, GestureTiming, ButtonGestureDetector, configure,
  elapsed, tick, feed,
}

pub record IsConsistent (d : ButtonGestureDetector) : Type 0 where
  pub one_wait : d.down ≡ true → d.pending_single <ℤ pos 0
  pub double_is_down : d.double_fired ≡ true → d.down ≡ true
  pub one_gesture : d.double_fired ≡ true → d.long_fired ≡ false
  pub sentinel : (d.pending_single ≡ negsuc 0) ⊎ (pos 0 ≤ℤ d.pending_single)
  pub pressed_after_start : pos 0 ≤ℤ d.pressed_at

pub data Phase : Type 0 where
  idle : Phase
  pressed : ℤ → Phase  -- down since, undecided
  held : Phase  -- down, already a long press
  second : Phase  -- down, already a double click
  awaiting : ℤ → Phase  -- a click released then, which may become a double click

up_phase : Bool → ℤ → Phase
up_phase true t = awaiting t
up_phase false t = idle

down_phase : Bool → Bool → ℤ → Phase
down_phase true long t = second
down_phase false true t = held
down_phase false false t = pressed t

pub phase : ButtonGestureDetector → Phase
unfolding up_phase down_phase
phase d =
    if d.down
    then down_phase d.double_fired d.long_fired d.pressed_at
    else up_phase (leb_ℤ (pos 0) d.pending_single) d.pending_single

pub press_phase : Phase → ℤ → Phase × Option StylusGesture
press_phase (awaiting t) now = (second, some double_click)
press_phase _ now = (pressed now, none)

pub release_phase : GestureTiming → Phase → ℤ → Phase × Option StylusGesture
release_phase g (pressed t) now =
    if elapsed now t g.long_press_ms then (idle, some long_press) else (awaiting now, none)
release_phase g held now = (idle, none)
release_phase g second now = (idle, none)
release_phase g p now = (p, none)

pub repeat_phase : GestureTiming → Phase → ℤ → Phase × Option StylusGesture
repeat_phase g (pressed t) now =
    if elapsed now t g.long_press_ms then (held, some long_press) else (pressed t, some single)
repeat_phase g held now = (held, some long_press)
repeat_phase g p now = (p, none)

pub tick_phase : GestureTiming → Phase → ℤ → Phase × Option StylusGesture
tick_phase g (pressed t) now =
    if elapsed now t g.long_press_ms then (held, some long_press) else (pressed t, none)
tick_phase g (awaiting t) now =
    if elapsed now t g.double_click_ms then (idle, some single) else (awaiting t, none)
tick_phase g p now = (p, none)

-- One call of the detector: an event fed to it, or a tick.
pub data Call : Type 0 where
  presses releases repeats ticks : Call

unfoldable pub call :
    Call → ButtonGestureDetector → ℤ → ButtonGestureDetector × Option StylusGesture
unfolding feed tick
call presses d now = feed d (pos 1) now
call releases d now = feed d (pos 0) now
call repeats d now = feed d (pos 2) now
call ticks d now = tick d now

pub call_phase : Call → GestureTiming → Phase → ℤ → Phase × Option StylusGesture
unfolding press_phase release_phase repeat_phase tick_phase
call_phase presses g p now = press_phase p now
call_phase releases g p now = release_phase g p now
call_phase repeats g p now = repeat_phase g p now
call_phase ticks g p now = tick_phase g p now

-- A configured detector is consistent, whatever it was before.
pub configure-IsConsistent :
    (g : GestureTiming) (d : ButtonGestureDetector) → IsConsistent (configure g d)
unfolding configure
configure-IsConsistent g d = ground arith

-- Every call at a time that is not negative keeps the detector consistent and its timing as it was.
pub call-IsConsistent :
    (c : Call) (d : ButtonGestureDetector) (now : ℤ)
    → pos 0 ≤ℤ now
    → IsConsistent d
    → IsConsistent (call c d now).0 × ((call c d now).0.timing ≡ d.timing)
unfolding call
call-IsConsistent presses d now h v = ground arith
call-IsConsistent releases d now h v = ground arith
call-IsConsistent repeats d now h v = ground arith
call-IsConsistent ticks d now h v = ground arith

-- Every call at a time that is not negative does what the phase machine does: the phase of the
-- detector after the call, and the gesture that it returns, are those of the machine.
pub call-phase :
    (c : Call) (d : ButtonGestureDetector) (now : ℤ)
    → pos 0 ≤ℤ now
    → IsConsistent d
    → call_phase c d.timing (phase d) now ≡ (phase (call c d now).0, (call c d now).1)
unfolding call call_phase phase
call-phase presses d now h v = ground arith
call-phase releases d now h v = ground arith
call-phase repeats d now h v = ground arith
call-phase ticks d now h v = ground arith
