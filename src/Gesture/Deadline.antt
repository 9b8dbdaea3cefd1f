-- ===== src/Gesture/Deadline.antt =====
-- src/stylusgestures.cpp: `deadlineMs` against `tick`. The monitor sleeps until the deadline, so the
-- two have to agree.
use stylus_popup.Prelude.{
  none, ℤ, pos, negsuc, ◌≤ℤ◌, ◌<ℤ◌, ◌≡◌, ◌≢◌, ◌↔◌, arith, +ℤ_parts, -ℤ_parts,
}
use stylus_popup.Gesture.{GestureTiming, ButtonGestureDetector, tick, deadline_ms}
use stylus_popup.Gesture.Phases.{IsConsistent}

pub record IsPositive (g : GestureTiming) : Type 0 where
  pub click_window : pos 0 <ℤ g.double_click_ms
  pub hold : pos 0 <ℤ g.long_press_ms

abbrev pub IsDue : ButtonGestureDetector → ℤ → Type 0
IsDue d now = (pos 0 ≤ℤ deadline_ms d) × (deadline_ms d ≤ℤ now)

-- With positive thresholds, a tick of a consistent detector produces a gesture exactly when the
-- deadline that the detector reports is set and has been reached.
tick-IsDue :
    (d : ButtonGestureDetector) (now : ℤ)
    → IsConsistent d
    → IsPositive d.timing
    → ((tick d now).1 ≢ none) ↔ IsDue d now
unfolding tick deadline_ms
tick-IsDue d now v p = (
  (λ fired. ground (
    arith,
    +ℤ_parts d.pressed_at d.timing.long_press_ms,
    +ℤ_parts d.pending_single d.timing.double_click_ms,
    -ℤ_parts now d.pressed_at,
    -ℤ_parts now d.pending_single,
  )),
  (λ due. ground (
    arith,
    +ℤ_parts d.pressed_at d.timing.long_press_ms,
    +ℤ_parts d.pending_single d.timing.double_click_ms,
    -ℤ_parts now d.pressed_at,
    -ℤ_parts now d.pending_single,
  )),
)

-- Where a tick of a consistent detector produces a gesture, the detector that it leaves has no
-- deadline, and a second tick produces nothing, at whatever time.
tick-tick :
    (d : ButtonGestureDetector) (now later : ℤ)
    → IsConsistent d
    → (tick d now).1 ≢ none
    → ((tick (tick d now).0 later).1 ≡ none) × (deadline_ms (tick d now).0 ≡ negsuc 0)
unfolding tick deadline_ms
tick-tick d now later v fired = ground arith
