-- ===== src/Buttons/Clicks/Tests.antt =====
-- A click of the main button of a pen, with the default configuration.
use Prim.Native.String.{◌++◌}
use stylus_popup.Prelude.{true, false, List, [], ◌∷◌, pos, ◌-ℤ◌, ◌≡◌, refl, arith}
use stylus_popup.Gesture.{long_press}
use stylus_popup.Config.{default_buttons}
use stylus_popup.Buttons.{primary, Node, fresh_node, opened}
use stylus_popup.Buttons.Monitor.{Candidate, is_known}
use stylus_popup.Buttons.Loop.{poll_loop}
use stylus_popup.Buttons.Mapper.{command_for, started_scripts}
use stylus_popup.Buttons.Clicks.{watching}
use stylus_popup.Buttons.Clicks.Started.{click_polls, hold_polls, click_starts, hold_triggers}

abbrev pen : Node
pen = record fresh_node {
  path = "/dev/input/event7";
  name = "Xiaomi Smart Pen Keyboard";
  fd = pos 9;
  name_match = true;
  has_primary = true;
  has_secondary = true;
}

-- What the re-scan of the last round finds: the path that is watched already.
abbrev known : List Candidate
known =
    record {
      path = "/dev/input/event7";
      opened_as = opened 10 "Xiaomi Smart Pen Keyboard" "" (λ code. true);
      grab_succeeds = false;
      queued = [];
    }
    ∷ []

click_starts_example :
    started_scripts default_buttons
      (poll_loop
        (λ a b. true)
        default_buttons
        (watching pen false [])
        (click_polls primary (pos 1000) (pos 1000) (pos 1100) (pos 1101) (pos 1400) known)).1
    ≡ ("export STYLUS_BUTTON=" ++ "primary" ++ " STYLUS_GESTURE=" ++ "single" ++ "; "
        ++ "niri msg action focus-workspace-down")
      ∷ []
unfolding is_known command_for ◌-ℤ◌
click_starts_example =
    click_starts (λ a b. true) default_buttons pen primary (pos 1000) (pos 1000) (pos 1100)
      (pos 1101) (pos 1400) known false [] (refl, refl) (refl, refl) (omega arith) (omega arith)
      (omega arith) (omega arith) (omega arith) (refl, tt) refl

long_hold :
    (poll_loop
      (λ a b. true)
      default_buttons
      (watching pen false [])
      (hold_polls primary (pos 1000) (pos 1000) (pos 1500) known)).1
    ≡ (primary, long_press, "Xiaomi Smart Pen Keyboard") ∷ []
unfolding is_known ◌-ℤ◌
long_hold =
    hold_triggers (λ a b. true) default_buttons pen primary (pos 1000) (pos 1000) (pos 1500) known
      false [] (refl, refl) (refl, refl) (omega arith) (omega arith) (refl, tt)
