-- ===== src/Popup/Start.antt =====
-- src/popupwidget.cpp: what the constructor of `PopupWidget` takes from the system, and how it sets its
-- timers and fonts up. The primary screen is Qt's, with its width and its refresh rate; `truncate` is
-- the conversion to an int.
use Prim.Native.String.{String, ◌++◌}
use stylus_popup.Prelude.{
  ℕ, ◌≤◌, arith, Bool, true, false, Option, none, some, List, [], ◌∷◌, ℤ, pos, pos_part, ltb_ℤ,
  if◌then◌else◌,
}
use stylus_popup.Platform.{Platform}
use stylus_popup.Popup.Paint.{Font, title_font, sub_font, compact_font}

-- The paths that the theme's watcher is given: whether the folder is there, and the file in it.
unfoldable pub watched_paths : (has_folder has_file : Bool) → (home : String) → List String
watched_paths has_folder has_file home =
    let folder = home ++ "/.config/qt6ct/colors" in
    let file = folder ++ "/matugen.conf" in
    if has_folder then folder ∷ (if has_file then file ∷ [] else []) else []

pub record Screen (R : Type 0) : Type 0 where
  pub width : ℕ
  pub refresh_rate : R

-- `qMax(1, n)`.
abbrev pub at_least_one : ℤ → ℕ
at_least_one n = if ltb_ℤ (pos 1) n then pos_part n else 1

module _ (platform : Platform) (truncate : platform.Real → ℤ) where
  open platform use {Real, lit, div, lt}

  unfoldable pub screen_width : Option (Screen Real) → ℕ
  screen_width none = 1080
  screen_width (some screen) = screen.width

  unfoldable pub refresh_rate : Option (Screen Real) → Real
  refresh_rate none = lit 60 1
  refresh_rate (some screen) =
      if lt (lit 0 1) screen.refresh_rate then screen.refresh_rate else lit 60 1

  unfoldable pub frame_interval : Option (Screen Real) → ℕ
  frame_interval screen = at_least_one (truncate (div (lit 1000 1) (refresh_rate screen)))

  pub frame_interval-positive : (screen : Option (Screen Real)) → 1 ≤ frame_interval screen
  unfolding frame_interval
  frame_interval-positive screen = ground arith

-- How the constructor sets a timer up: its interval where it has one from the start, and whether it
-- fires once. The wait's interval is given at each start.
pub record TimerSetup : Type 0 where
  pub interval : Option ℕ
  pub single_shot : Bool

abbrev pub frame_timer : ℕ → TimerSetup
frame_timer interval = record { interval = some interval; single_shot = false }

abbrev pub dismiss_timer : TimerSetup
dismiss_timer = record { interval = some 4000; single_shot = true }

abbrev pub connect_timer : TimerSetup
connect_timer = record { interval = none; single_shot = true }

abbrev pub error_timer : TimerSetup
error_timer = record { interval = some 1400; single_shot = true }

pub data Weight : Type 0 where
  normal medium demi_bold : Weight

-- The size in pixels and the weight of a font.
abbrev pub font_setup : Font → ℕ × Weight
font_setup title_font = (22, demi_bold)
font_setup sub_font = (12, normal)
font_setup compact_font = (13, medium)

-- What `onThemeFileChanged` watches again before it reloads.
unfoldable pub rewatched_paths : (has_file : Bool) → (home : String) → List String
rewatched_paths has_file home =
    if has_file then (home ++ "/.config/qt6ct/colors/matugen.conf") ∷ [] else []
