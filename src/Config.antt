-- ===== src/Config.antt =====
-- src/appconfig.h, src/appconfig.cpp and src/popupconfig.h: the settings, their bounds and defaults.
-- QSettings and QVariant are Qt's: a file is the values that it gives for a group and a key, and
-- `Qt` has the conversions that the code makes.
pub mod Bounds
pub mod Reload
mod Tests
use Prim.Native.String
use Prim.Native.String.{String, ◌++◌}
use stylus_popup.Prelude.{
  Bool, true, false, not, ◌&&◌, Option, none, some, List, [], ◌∷◌, ℤ, pos, ltb_ℤ, if◌then◌else◌,
}
use stylus_popup.Popup.Strings.{is_empty}

pub record ButtonMapConfig : Type 0 where
  pub enabled : Bool
  pub grab : Bool
  pub repeat : Bool
  pub double_click_ms : ℤ
  pub long_press_ms : ℤ
  pub primary_command : String
  pub primary_double : String
  pub primary_long : String
  pub secondary_command : String
  pub secondary_double : String
  pub secondary_long : String

abbrev pub default_buttons : ButtonMapConfig
default_buttons = record {
  enabled = true;
  grab = true;
  repeat = false;
  double_click_ms = pos 300;
  long_press_ms = pos 500;
  primary_command = "niri msg action focus-workspace-down";
  primary_double = "niri msg action move-column-to-workspace-down";
  primary_long = "niri msg action close-window";
  secondary_command = "niri msg action focus-workspace-up";
  secondary_double = "niri msg action move-column-to-workspace-up";
  secondary_long = "niri msg action close-window";
}

abbrev pub max_connect_timeout_ms : ℤ
max_connect_timeout_ms = pos 600000

abbrev pub default_connect_timeout_ms : ℤ
default_connect_timeout_ms = pos 15000

abbrev pub min_gesture_ms : ℤ
min_gesture_ms = pos 50

abbrev pub max_gesture_ms : ℤ
max_gesture_ms = pos 10000

pub record AppConfig : Type 0 where
  pub buttons : ButtonMapConfig
  pub connect_timeout_ms : ℤ  -- the only field of `PopupConfig`
  pub source_path : String

-- `qBound(min, value, max)` on integers.
abbrev pub clamp : ℤ → ℤ → ℤ → ℤ
clamp low value high =
    let capped = if ltb_ℤ high value then high else value in
    if ltb_ℤ low capped then capped else low

pub record Qt : Type 1 where
  pub Variant : Type 0
  pub to_int : Variant → Option ℤ  -- `toInt(&ok)`, `none` where `ok` is false
  pub to_bool : Variant → Bool
  pub to_text : Variant → String  -- `toString`
  pub to_list : Variant → List String  -- `toStringList`
  pub decimal : ℤ → String  -- an int written to a QTextStream

-- `parts.join(',')`.
abbrev pub join : List String → String
join [] = ""
join (s ∷ []) = s
join (s ∷ t ∷ rest) = s ++ (String.◌∷◌ "," (join (t ∷ rest)))

abbrev many : List String → Bool
many [] = false
many (s ∷ []) = false
many (s ∷ t ∷ rest) = true

-- The environment that decides where the file is: $STYLUS_POPUP_CONFIG, the configuration folder
-- that Qt knows, and the home folder.
pub record Environment : Type 0 where
  pub override : String
  pub folder : String
  pub home : String

unfoldable pub config_path : Environment → String
config_path e =
    let base = if is_empty e.folder then e.home ++ "/.config" else e.folder in
    if not (is_empty e.override) then e.override else base ++ "/stylus-popup/config.ini"

module _ (qt : Qt) where
  open qt use {Variant, to_int, to_bool, to_text, to_list, decimal}

  -- What QSettings gives for a group and a key, if anything.
  abbrev pub Settings : Type 0
  Settings = String → String → Option Variant

  -- A QVariant that is not valid is one that is not there.
  unfoldable pub ini_text : Settings → String → String → String → String
  ini_text settings group key fallback = elim (settings group key) [
    | none ↦ fallback
    | some value ↦ let parts = to_list value in if many parts then join parts else to_text value
  ]

  unfoldable pub ini_milliseconds : Settings → String → String → ℤ → ℤ → ℤ → ℤ
  ini_milliseconds settings group key fallback low high = elim (settings group key) [
    | none ↦ fallback
    | some value ↦ elim (to_int value) [ none ↦ fallback | some n ↦ clamp low n high ]
  ]

  -- `settings.value(key, fallback).toBool()`.
  unfoldable pub ini_bool : Settings → String → String → Bool → Bool
  ini_bool settings group key fallback = elim (settings group key) [
    | none ↦ fallback
    | some value ↦ to_bool value
  ]

  unfoldable pub read_buttons : Settings → ButtonMapConfig
  read_buttons settings =
      let ms = λ (key : String) (fallback : ℤ).
        ini_milliseconds settings "buttons" key fallback min_gesture_ms max_gesture_ms in
      let text = ini_text settings "buttons" in
      let d = default_buttons in
      record {
        enabled = ini_bool settings "buttons" "enabled" d.enabled;
        grab = ini_bool settings "buttons" "grab" d.grab;
        repeat = ini_bool settings "buttons" "repeat" d.repeat;
        double_click_ms = ms "double-click-ms" d.double_click_ms;
        long_press_ms = ms "long-press-ms" d.long_press_ms;
        primary_command = text "primary" d.primary_command;
        primary_double = text "primary-double-click" d.primary_double;
        primary_long = text "primary-long-press" d.primary_long;
        secondary_command = text "secondary" d.secondary_command;
        secondary_double = text "secondary-double-click" d.secondary_double;
        secondary_long = text "secondary-long-press" d.secondary_long;
      }

  unfoldable pub read_connect_timeout : Settings → ℤ
  read_connect_timeout settings =
      ini_milliseconds settings "popup" "connect-timeout-ms" default_connect_timeout_ms (pos 0)
        max_connect_timeout_ms

  -- The entries of the default file, each with its group and key, without the comments.
  unfoldable pub default_entries : ButtonMapConfig → List (String × String × String)
  default_entries b =
      ("buttons", "enabled", "true")
      ∷ ("buttons", "grab", "true")
      ∷ ("buttons", "repeat", "false")
      ∷ ("buttons", "double-click-ms", decimal b.double_click_ms)
      ∷ ("buttons", "long-press-ms", decimal b.long_press_ms)
      ∷ ("buttons", "primary", b.primary_command)
      ∷ ("buttons", "primary-double-click", b.primary_double)
      ∷ ("buttons", "primary-long-press", b.primary_long)
      ∷ ("buttons", "secondary", b.secondary_command)
      ∷ ("buttons", "secondary-double-click", b.secondary_double)
      ∷ ("buttons", "secondary-long-press", b.secondary_long)
      ∷ ("popup", "connect-timeout-ms", decimal default_connect_timeout_ms)
      ∷ []

  -- What is written where the file can be created: the entries of the default file.
  unfoldable pub write_default_config :
      (can_make_folder can_open : Bool) → AppConfig → Option (List (String × String × String))
  write_default_config can_make_folder can_open config =
      if not can_make_folder
      then none
      else if not can_open
      then none
      else some (default_entries config.buttons)

  -- The configuration, and the file that is written if any. `file` is what the file holds, where it
  -- exists.
  unfoldable pub load :
      (can_make_folder can_open : Bool) (environment : Environment) (path : String)
      → Option Settings
      → AppConfig × Option (List (String × String × String))
  load can_make_folder can_open environment path file =
      let defaults : AppConfig = record {
        buttons = default_buttons;
        connect_timeout_ms = default_connect_timeout_ms;
        source_path = if is_empty path then config_path environment else path;
      } in
      elim file [
        | none ↦ (defaults, write_default_config can_make_folder can_open defaults)
        | some settings ↦ (
          record defaults {
            buttons = read_buttons settings;
            connect_timeout_ms = read_connect_timeout settings;
          },
          none,
        )
      ]
