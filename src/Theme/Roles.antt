-- ===== src/Theme/Roles.antt =====
-- src/colortheme.cpp: the colours at any time, and the file that they are from.

use Prim.Native.String.{String}
use Prim.Native.Char.{Char, code}
use stylus_popup.Prelude.{
  ℕ, zero, suc, ◌==◌, leb, ◌&&◌, ◌||◌, Bool, true, false, not, Option, none, some, List, [], ◌∷◌,
  ◌≡◌, refl, arith, if_elim, if◌then◌else◌,
}
use stylus_popup.Theme.{
  Colours, ThemeFile, Theme, in_format, parse_rgb, derive_roles, fallback_theme, load_from,
  load_from_qt6ct, on_theme_file_changed,
}

-- The first candidate that exists in the format that is expected.
abbrev pub first_of_format : List (Option ThemeFile) → Option ThemeFile
first_of_format [] = none
first_of_format (none ∷ files) = first_of_format files
first_of_format (some file ∷ files) =
    let later = first_of_format files in elim (in_format file) [ true ↦ some file | false ↦ later ]

abbrev is_hex : Char → Bool
is_hex c = (leb b'0' (code c) && leb (code c) b'9') || (leb b'A' (code c) && leb (code c) b'F')

-- A name in the form #RRGGBB.
abbrev pub is_rgb_name : String → Bool
is_rgb_name (String.◌∷◌ h s) = code h == b'#' && six s
  where
    all_hex : String → ℕ → Bool
    all_hex String.[] n = n == 0
    all_hex (String.◌∷◌ c s) zero = false
    all_hex (String.◌∷◌ c s) (suc n) = is_hex c && all_hex s n

    six : String → Bool
    six s = all_hex s 6
is_rgb_name String.[] = false

module _ (colours : Colours) where
  open colours use {Colour, named, is_valid, darker, faint}

  -- Every colour that is read can be painted with, and the derived roles are those of the surface.
  pub record IsThemed (t : Theme Colour) : Type 0 where
    pub surface : is_valid t.surface ≡ true
    pub on_surface : is_valid t.on_surface ≡ true
    pub on_surface_variant : is_valid t.on_surface_variant ≡ true
    pub primary : is_valid t.primary ≡ true
    pub progress_track : is_valid t.progress_track ≡ true
    pub low_battery : is_valid t.low_battery ≡ true
    pub charging : is_valid t.charging ≡ true
    pub warning : is_valid t.warning ≡ true
    pub fill : t.island_fill ≡ darker t.surface
    pub line : t.outline ≡ faint t.on_surface

  parse_rgb-valid :
      (parts : List String) (fallback : Colour)
      → is_valid fallback ≡ true
      → is_valid (parse_rgb colours parts fallback) ≡ true
  unfolding parse_rgb
  parse_rgb-valid parts fallback h = ground (arith, h)

  load_from-IsThemed :
      (file : ThemeFile) (t : Theme Colour) → IsThemed t → IsThemed (load_from colours file t)
  unfolding load_from derive_roles
  load_from-IsThemed file t v = record {
    surface = parse_rgb-valid _ _ v.surface;
    on_surface = parse_rgb-valid _ _ v.on_surface;
    on_surface_variant = parse_rgb-valid _ _ v.on_surface_variant;
    primary = parse_rgb-valid _ _ v.primary;
    progress_track = parse_rgb-valid _ _ v.progress_track;
    low_battery = parse_rgb-valid _ _ v.low_battery;
    charging = parse_rgb-valid _ _ v.charging;
    warning = parse_rgb-valid _ _ v.warning;
    fill = refl;
    line = refl;
  }

  -- A load takes every colour from the first candidate that exists and has the expected format, and
  -- says so; where there is none, it leaves the theme as it was, and says that it failed.
  load_from_qt6ct-first :
      (files : List (Option ThemeFile)) (t : Theme Colour)
      → load_from_qt6ct colours files t ≡ elim (first_of_format files) [
        | none ↦ (t, false)
        | some file ↦ (load_from colours file t, true)
      ]
  unfolding load_from_qt6ct
  load_from_qt6ct-first [] t = refl
  load_from_qt6ct-first (none ∷ files) t = load_from_qt6ct-first files t
  load_from_qt6ct-first (some file ∷ files) t =
      elim (in_format file)
        as (λ b.
          (if not b then load_from_qt6ct colours files t else (load_from colours file t, true))
          ≡ elim (elim b as (λ _. Option ThemeFile) [
            | true ↦ some file
            | false ↦ first_of_format files
          ])
              as (λ _. Theme Colour × Bool) [
                | none ↦ (t, false)
                | some f ↦ (load_from colours f t, true)
              ]) [ true ↦ refl | false ↦ load_from_qt6ct-first files t ]

  load-IsThemed :
      (files : List (Option ThemeFile)) (t : Theme Colour)
      → IsThemed t
      → IsThemed (load_from_qt6ct colours files t).0
  unfolding load_from_qt6ct
  load-IsThemed [] t v = v
  load-IsThemed (none ∷ files) t v = load-IsThemed files t v
  load-IsThemed (some file ∷ files) t v =
      if_elim (λ (p : Theme Colour × Bool). IsThemed p.0) (not (in_format file))
        (λ _. load-IsThemed files t v) (λ _. load_from-IsThemed file t v)

  -- The theme after the file has changed some times, with what each change found, from the
  -- constructor on.
  unfoldable pub themed : List (List (Option ThemeFile)) → Theme Colour
  themed [] = fallback_theme colours
  themed (files ∷ earlier) = (on_theme_file_changed colours files (themed earlier)).0

  -- Given that a name of six hexadecimal digits is a valid colour, however often the file changes and
  -- whatever it holds: every colour is valid, and the fill and the outline are derived from the
  -- colours of the surface and of the text on it.
  pub themed-IsThemed :
      (is_name : (s : String) → is_rgb_name s ≡ true → is_valid (named s) ≡ true)
      (changes : List (List (Option ThemeFile)))
      → IsThemed (themed changes)
  unfolding themed on_theme_file_changed fallback_theme derive_roles
  themed-IsThemed is_name [] = record {
    surface = is_name _ refl;
    on_surface = is_name _ refl;
    on_surface_variant = is_name _ refl;
    primary = is_name _ refl;
    progress_track = is_name _ refl;
    low_battery = is_name _ refl;
    charging = is_name _ refl;
    warning = is_name _ refl;
    fill = refl;
    line = refl;
  }
  themed-IsThemed is_name (files ∷ earlier) =
      load-IsThemed files _ (themed-IsThemed is_name earlier)
