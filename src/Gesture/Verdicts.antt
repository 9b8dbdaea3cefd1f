-- ===== src/Gesture/Verdicts.antt =====
-- src/stylusgestures.cpp: what the two kinds of press come to, at every timing.
use stylus_popup.Prelude.{
  Option, none, some, List, [], ◌∷◌, ◌++◌, ℤ, pos, ◌≤ℤ◌, ◌<ℤ◌, ◌-ℤ◌, if◌then◌else◌, ◌≡◌, arith,
}
use stylus_popup.Gesture.{
  StylusGesture, single, double_click, long_press, GestureTiming, ButtonGestureDetector, elapsed,
  configure,
}
use stylus_popup.Gesture.Phases.{Call, presses, releases, repeats, ticks, call}

abbrev gesture_list : Option StylusGesture → List StylusGesture
gesture_list none = []
gesture_list (some g) = g ∷ []

-- The gestures of a history, in order.
pub gestures : ButtonGestureDetector → List (Call × ℤ) → List StylusGesture
gestures d [] = []
gestures d ((c, now) ∷ cs) = gesture_list (call c d now).1 ++ gestures (call c d now).0 cs

module _ (g : GestureTiming) (d : ButtonGestureDetector) (down up : ℤ) where
  -- A press held up to a tick at or past the long-press threshold is one long press, fired by the
  -- tick; a release that finds the threshold passed fires it where no tick did; and a shorter press
  -- fires nothing by then.
  gestures_of_hold :
      (between : ℤ)
      → gestures (configure g d) ((presses, down) ∷ (ticks, between) ∷ (releases, up) ∷ []) ≡ (
          if elapsed between down g.long_press_ms
          then long_press ∷ []
          else if elapsed up down g.long_press_ms
          then long_press ∷ []
          else [])
  unfolding gestures configure call
  gestures_of_hold between = ground arith

  -- A short press released after the clock's start is held back: a tick inside the click window
  -- produces nothing and a tick past it the single click, after which a release is ignored.
  gestures_of_click :
      (later : ℤ)
      → pos 0 ≤ℤ up
      → up -ℤ down <ℤ g.long_press_ms
      → gestures
          (configure g d)
          ((presses, down) ∷ (releases, up) ∷ (ticks, later) ∷ (releases, later) ∷ [])
        ≡ (if elapsed later up g.double_click_ms then single ∷ [] else [])
  unfolding gestures configure call
  gestures_of_click later h short = ground arith

  -- A short press released after the clock's start, followed by a press at any later call before a
  -- tick, is a double click, also where that press comes after the click window; neither holding
  -- nor releasing the second press adds a gesture.
  pub gestures_of_two_clicks :
      (again late up_again : ℤ)
      → pos 0 ≤ℤ up
      → up -ℤ down <ℤ g.long_press_ms
      → gestures (configure g d) (
          (presses, down)
          ∷ (releases, up)
          ∷ (presses, again)
          ∷ (ticks, late)
          ∷ (repeats, late)
          ∷ (releases, up_again)
          ∷ (ticks, up_again)
          ∷ [])
        ≡ double_click ∷ []
  unfolding gestures configure call
  gestures_of_two_clicks again late up_again h short = ground arith
