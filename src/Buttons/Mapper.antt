-- ===== src/Buttons/Mapper.antt =====
-- src/stylusbuttons.cpp: the command that a gesture runs. Starting the shell is Qt's.
use Prim.Native.String.{String, ◌++◌}
use stylus_popup.Prelude.{Bool, Option, none, some, List, [], ◌∷◌, if◌then◌else◌}
use stylus_popup.Gesture.{StylusGesture, single, double_click, long_press, stylus_gesture_name}
use stylus_popup.Config.{ButtonMapConfig}
use stylus_popup.Buttons.{StylusButton, primary, secondary, Trigger}
use stylus_popup.Popup.Strings.{is_empty}

abbrev pub stylus_button_name : StylusButton → String
stylus_button_name primary = "primary"
stylus_button_name secondary = "secondary"

unfoldable pub command_for : ButtonMapConfig → StylusButton → StylusGesture → String
command_for c primary single = c.primary_command
command_for c secondary single = c.secondary_command
command_for c primary double_click = c.primary_double
command_for c secondary double_click = c.secondary_double
command_for c primary long_press = c.primary_long
command_for c secondary long_press = c.secondary_long

-- `StylusButtonMapper::start`: whether the monitor is started.
unfoldable pub starts_monitor : ButtonMapConfig → Bool
starts_monitor c = c.enabled

-- The script that is handed to the shell, if any.
unfoldable pub on_gesture_triggered : ButtonMapConfig → StylusButton → StylusGesture → Option String
on_gesture_triggered c button gesture =
    let command = command_for c button gesture in
    if is_empty command
    then none
    else some (
        "export STYLUS_BUTTON="
        ++ stylus_button_name button
        ++ " STYLUS_GESTURE="
        ++ stylus_gesture_name gesture
        ++ "; "
        ++ command)

abbrev pub script_of : Option String → List String → List String
script_of none scripts = scripts
script_of (some script) scripts = script ∷ scripts

-- The scripts that are started for what the monitor triggers: the constructor connects the signal to
-- the slot by a queue, which keeps its order.
unfoldable pub started_scripts : ButtonMapConfig → List Trigger → List String
started_scripts c [] = []
started_scripts c ((button, gesture, name) ∷ triggers) =
    script_of (on_gesture_triggered c button gesture) (started_scripts c triggers)
