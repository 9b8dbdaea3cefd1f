-- ===== src/App/Start.antt =====
-- src/main.cpp: `main` up to the event loop.
mod Tests
use Prim.Native.String.{String}
use text.Mathlib.Text.{◌==◌ as str_eq}
use stylus_popup.Prelude.{
  ℕ, ◌≤◌, Bool, true, false, Option, none, some, List, [], ◌∷◌, ◌≡◌, refl, ℤ, pos, arith,
  if◌then◌else◌, if_elim,
}
use stylus_popup.Platform.{Platform}
use stylus_popup.Popup.{initial}
use stylus_popup.Popup.Start.{Screen, screen_width, frame_interval, frame_interval-positive}
use stylus_popup.Config.{
  AppConfig, ButtonMapConfig, Environment, Qt, Settings, load, min_gesture_ms, max_gesture_ms,
  max_connect_timeout_ms,
}
use stylus_popup.Config.Bounds.{IsWithin, load_bounds}
use stylus_popup.Buttons.Mapper.{starts_monitor}
use stylus_popup.App
use stylus_popup.App.{App}

-- The loop over the arguments, without the program's name.
unfoldable pub lists_input : List String → Bool
lists_input [] = false
lists_input (arg ∷ args) = if str_eq arg "--list-input" then true else lists_input args

-- What `main` comes to: the listing of the input nodes with the mapping and the path of the
-- configuration, or the application, with whether its thread for the buttons is started.
pub data Start (R : Type 0) : Type 0 where
  listing : ButtonMapConfig → String → Start R
  running : App R → ButtonMapConfig → Bool → Start R

module _ (platform : Platform) (truncate : platform.Real → ℤ) where
  open platform use {Real}

  unfoldable pub start : AppConfig → List String → Option (Screen Real) → Start Real
  start config args screen =
      if lists_input args
      then listing config.buttons config.source_path
      else running
          (App.initial platform config.connect_timeout_ms (screen_width platform truncate screen)
            (frame_interval platform truncate screen))
          config.buttons (starts_monitor config.buttons)

  -- The gesture thresholds, the wait for the pen and the frames of what is started.
  pub record IsTimely (b : ButtonMapConfig) : Type 0 where
    pub double_click : IsWithin min_gesture_ms b.double_click_ms max_gesture_ms
    pub long_press : IsWithin min_gesture_ms b.long_press_ms max_gesture_ms

  pub IsBounded : Start Real → Type 0
  IsBounded (listing buttons path) = IsTimely buttons
  IsBounded (running app buttons starts) =
      IsTimely buttons
      × IsWithin (pos 0) app.popup.connect_timeout_ms max_connect_timeout_ms
      × (1 ≤ app.popup.frame_interval)
      × (starts ≡ buttons.enabled)

  -- From the file to what runs, whatever the file and the arguments hold and whatever the screen is:
  -- the gesture thresholds of the buttons are between 50 and 10000 ms; where the application starts,
  -- its island waits for the pen between 0 and 600000 ms and its frames are a millisecond apart at
  -- least; and the thread of the buttons starts where they are enabled.
  pub start-IsBounded :
      (qt : Qt) (can_make_folder can_open : Bool) (environment : Environment) (path : String)
      (file : Option (Settings qt)) (args : List String) (screen : Option (Screen Real))
      → IsBounded (start (load qt can_make_folder can_open environment path file).0 args screen)
  unfolding start IsBounded starts_monitor App.initial initial
  start-IsBounded qt can_make_folder can_open environment path file args screen =
      let b = load_bounds qt can_make_folder can_open environment path file in
      let timely : IsTimely _ = record { double_click = b.0; long_press = b.1 } in
      if_elim IsBounded (lists_input args) (λ _. timely)
        (λ _. (timely, b.2, frame_interval-positive platform truncate screen, refl))
