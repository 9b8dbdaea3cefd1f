-- ===== src/Gesture/Tests.antt =====
-- The gesture detector at concrete timings: a button of the default timing, held from 1000 ms on.
use stylus_popup.Prelude.{true, none, some, [], ◌∷◌, pos, ◌≡◌, ◌≢◌, refl, arith, ◌-ℤ◌}
use stylus_popup.Gesture.{
  single, double_click, long_press, ButtonGestureDetector, default_timing, fresh_detector,
  configure, tick, feed,
}
use stylus_popup.Gesture.Phases.{
  presses, releases, repeats, ticks, phase, call, call_phase, call-phase,
}
use stylus_popup.Gesture.Budget.{repeat-two_gestures}
use stylus_popup.Gesture.Verdicts.{gestures, gestures_of_two_clicks}

abbrev held_button : ButtonGestureDetector
held_button = record fresh_detector { down = true; pressed_at = pos 1000 }

held_button_fires : (tick held_button (pos 1600)).1 ≢ none
unfolding tick ◌-ℤ◌
held_button_fires = ground arith

call-phase_example :
    call_phase ticks default_timing (phase held_button) (pos 1600)
    ≡ (phase (call ticks held_button (pos 1600)).0, (call ticks held_button (pos 1600)).1)
call-phase_example = call-phase ticks held_button (pos 1600) (omega arith) (ground arith)

repeat-two_gestures_example :
    ((feed held_button (pos 2) (pos 1250)).1 ≡ some single)
    × ((feed (feed held_button (pos 2) (pos 1250)).0 (pos 2) (pos 1500)).1 ≡ some long_press)
unfolding ◌-ℤ◌
repeat-two_gestures_example =
    repeat-two_gestures held_button (pos 1250) (pos 1500) refl refl refl (ground arith)
      (ground arith)

gestures_of_two_clicks_example :
    gestures (configure default_timing held_button) (
      (presses, pos 10)
      ∷ (releases, pos 90)
      ∷ (presses, pos 200)
      ∷ (ticks, pos 900)
      ∷ (repeats, pos 900)
      ∷ (releases, pos 950)
      ∷ (ticks, pos 950)
      ∷ [])
    ≡ double_click ∷ []
unfolding ◌-ℤ◌
gestures_of_two_clicks_example =
    gestures_of_two_clicks default_timing held_button (pos 10) (pos 90) (pos 200) (pos 900)
      (pos 950) (ground arith) (ground arith)
