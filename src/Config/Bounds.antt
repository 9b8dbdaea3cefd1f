-- ===== src/Config/Bounds.antt =====
-- src/appconfig.cpp: whatever the file holds, the thresholds and the timeout are in range.
use Prim.Native.String.{String}
use stylus_popup.Prelude.{Bool, Option, none, some, ℤ, pos, ◌≤ℤ◌, arith}
use stylus_popup.Gesture.Deadline.{IsPositive}
use stylus_popup.Config.{
  Environment, Qt, Settings, min_gesture_ms, max_gesture_ms, max_connect_timeout_ms,
  ini_milliseconds, read_buttons, read_connect_timeout, load,
}

abbrev pub IsWithin : ℤ → ℤ → ℤ → Type 0
IsWithin low n high = (low ≤ℤ n) × (n ≤ℤ high)

module _ (qt : Qt) where
  ini_milliseconds-IsWithin :
      (settings : Settings qt) (group key : String) (fallback low high : ℤ)
      → IsWithin low fallback high
      → IsWithin low (ini_milliseconds qt settings group key fallback low high) high
  unfolding ini_milliseconds
  ini_milliseconds-IsWithin settings group key fallback low high f = ground arith

  -- Whatever the file holds, and if it is missing too: both gesture thresholds are between 50 and
  -- 10000 ms, the connect timeout is between 0 and 600000 ms, and the gesture timing is positive.
  pub load_bounds :
      (can_make_folder can_open : Bool) (environment : Environment) (path : String)
      (file : Option (Settings qt))
      → let config = (load qt can_make_folder can_open environment path file).0 in
        let b = config.buttons in
        IsWithin min_gesture_ms b.double_click_ms max_gesture_ms
        × IsWithin min_gesture_ms b.long_press_ms max_gesture_ms
        × IsWithin (pos 0) config.connect_timeout_ms max_connect_timeout_ms
        × IsPositive
            (record { double_click_ms = b.double_click_ms; long_press_ms = b.long_press_ms })
  unfolding load read_buttons read_connect_timeout
  load_bounds can_make_folder can_open environment path none = ground arith
  load_bounds can_make_folder can_open environment path (some settings) =
      let double =
        ini_milliseconds-IsWithin settings "buttons" "double-click-ms" (pos 300) min_gesture_ms
          max_gesture_ms (omega arith) in
      let long =
        ini_milliseconds-IsWithin settings "buttons" "long-press-ms" (pos 500) min_gesture_ms
          max_gesture_ms (omega arith) in
      let timeout =
        ini_milliseconds-IsWithin settings "popup" "connect-timeout-ms" (pos 15000) (pos 0)
          max_connect_timeout_ms (omega arith) in
      (double, long, timeout, omega (arith, double, long))
