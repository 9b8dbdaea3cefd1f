-- ===== src/Theme.antt =====
-- src/colortheme.cpp: the colours of the island, from a file that matugen writes. QColor, toInt and
-- QSettings are Qt's; a file is whether QSettings can read it and the list that it gives for a key.
pub mod Roles
mod Tests
use Prim.Native.String.{String, ◌++◌}
use stylus_popup.Prelude.{
  Bool, true, false, not, ◌&&◌, ◌||◌, Option, none, some, List, [], ◌∷◌, ℤ, if◌then◌else◌,
}

pub record Colours : Type 1 where
  pub Colour : Type 0
  pub unset : Colour  -- QColor()
  pub rgb : ℤ → ℤ → ℤ → Colour
  pub named : String → Colour
  pub is_valid : Colour → Bool
  pub darker : Colour → Colour  -- darker(154)
  pub faint : Colour → Colour  -- setAlphaF(0.08)
  pub to_int : String → ℤ

pub record ThemeFile : Type 0 where
  pub no_error : Bool
  pub value : String → List String

pub record Theme (C : Type 0) : Type 0 where
  pub surface : C
  pub on_surface : C
  pub on_surface_variant : C
  pub primary : C
  pub progress_track : C
  pub low_battery : C
  pub charging : C
  pub warning : C
  pub island_fill : C
  pub outline : C

-- The paths that are tried, in this order.
abbrev pub candidate_paths : String → List String
candidate_paths home =
    (home ++ "/.config/qt6ct/colors/matugen.conf")
    ∷ (home ++ "/.config/qt5ct/colors/matugen.conf")
    ∷ (home ++ "/.local/share/color-schemes/matugen.conf")
    ∷ []

-- What stands at each of those paths.
abbrev pub candidates : (String → Option ThemeFile) → List String → List (Option ThemeFile)
candidates file_at [] = []
candidates file_at (path ∷ paths) = file_at path ∷ candidates file_at paths

-- `toStringList().size() == 3`.
abbrev pub has_three : List String → Bool
has_three (r ∷ g ∷ b ∷ []) = true
has_three _ = false

-- Whether `loadFromQt6ct` takes a file for one of matugen's.
unfoldable pub in_format : ThemeFile → Bool
in_format file = file.no_error && has_three (file.value "Colors:Window/BackgroundNormal")

module _ (colours : Colours) where
  open colours use {Colour, unset, rgb, named, is_valid, darker, faint, to_int}

  unfoldable pub parse_rgb : List String → Colour → Colour
  parse_rgb (r ∷ g ∷ b ∷ []) fallback =
      let c = rgb (to_int r) (to_int g) (to_int b) in if is_valid c then c else fallback
  parse_rgb _ fallback = fallback

  unfoldable pub derive_roles : Theme Colour → Theme Colour
  derive_roles t = record t { island_fill = darker t.surface; outline = faint t.on_surface }

  -- The theme that the constructor makes.
  unfoldable pub fallback_theme : Theme Colour
  fallback_theme = derive_roles (record {
    surface = named "#211F26";
    on_surface = named "#E6E1E5";
    on_surface_variant = named "#CAC4D0";
    primary = named "#D0BCFF";
    progress_track = named "#49454F";
    low_battery = named "#FF6E6E";
    charging = named "#79FFC1";
    warning = named "#FFC24A";
    island_fill = unset;
    outline = unset;
  })

  unfoldable pub load_from : ThemeFile → Theme Colour → Theme Colour
  load_from file t =
      let get = λ (key : String) (default : Colour). parse_rgb (file.value key) default in
      derive_roles (record t {
        surface = get "Colors:Window/BackgroundNormal" t.surface;
        on_surface = get "Colors:Window/ForegroundNormal" t.on_surface;
        on_surface_variant = get "Colors:Window/ForegroundInactive" t.on_surface_variant;
        primary = get "Colors:Button/DecorationFocus" t.primary;
        progress_track = get "Colors:View/BackgroundAlternate" t.progress_track;
        low_battery = get "Colors:Button/BackgroundNegative" t.low_battery;
        charging = get "Colors:Button/BackgroundPositive" t.charging;
        warning = get "Colors:Button/BackgroundNeutral" t.warning;
      })

  -- The loop over the candidate paths, each with the file that it names where it exists.
  unfoldable pub load_from_qt6ct : List (Option ThemeFile) → Theme Colour → Theme Colour × Bool
  load_from_qt6ct [] t = (t, false)
  load_from_qt6ct (none ∷ files) t = load_from_qt6ct files t
  load_from_qt6ct (some file ∷ files) t =
      let later = load_from_qt6ct files t in
      if not (in_format file) then later else (load_from file t, true)

  -- `PopupWidget::onThemeFileChanged`: the theme, and whether a frame is drawn at once.
  unfoldable pub on_theme_file_changed :
      List (Option ThemeFile) → Theme Colour → Theme Colour × Bool
  on_theme_file_changed files t = load_from_qt6ct files t

  -- `loadFromQt6ct` with the files of a folder.
  unfoldable pub load_at_home :
      (String → Option ThemeFile) → String → Theme Colour → Theme Colour × Bool
  load_at_home file_at home t = load_from_qt6ct (candidates file_at (candidate_paths home)) t
