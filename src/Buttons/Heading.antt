-- ===== src/Buttons/Heading.antt =====
-- src/stylusbuttons.cpp: the first and the last lines that `printMatchingDevices` prints. The text of a
-- number is Qt's.
use Prim.Native.String.{String, ◌++◌}
use stylus_popup.Prelude.{ℕ, Bool, List, [], ◌∷◌, ℤ, pos, ◌==◌, if◌then◌else◌}
use stylus_popup.Config.{ButtonMapConfig}

unfoldable pub yes_no : Bool → String
yes_no value = if value then "yes" else "no"

module _ (decimal : ℤ → String) where
  unfoldable pub heading : ButtonMapConfig → (config_path : String) → List String
  heading config config_path =
      "stylus-popup button mapping"
      ∷ ("  config        : " ++ config_path)
      ∷ ("  enabled       : " ++ yes_no config.enabled)
      ∷ ("  grab          : " ++ yes_no config.grab)
      ∷ ("  repeat        : " ++ yes_no config.repeat)
      ∷ ("  timing        : double-click "
          ++ decimal config.double_click_ms
          ++ " ms, long-press "
          ++ decimal config.long_press_ms
          ++ " ms")
      ∷ ("  pen name      : " ++ "Xiaomi Smart Pen")
      ∷ []

  -- After the nodes: how many paths there are, how many were examined, and how many would be grabbed.
  unfoldable pub closing : (paths examined watched : ℕ) → List String
  closing paths examined watched =
      ""
      ∷ (decimal (pos examined)
          ++ " of "
          ++ decimal (pos paths)
          ++ " event nodes examined, "
          ++ decimal (pos watched)
          ++ " would be grabbed.")
      ∷ (if watched == 0
          then "No stylus button device found - is the pen connected over bluetooth?" ∷ []
          else [])
