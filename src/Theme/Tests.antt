-- ===== src/Theme/Tests.antt =====
-- Themes whose colours are three numbers: an absent file, a file in another format, and a good one
-- that lacks a colour.

use Prim.Native.String.{String}
use text.Mathlib.Text.{◌==◌ as str_eq}
use stylus_popup.Prelude.{
  Bool, true, ◌&&◌, none, some, [], ◌∷◌, ℤ, pos, ◌≡◌, refl, leb_ℤ, if◌then◌else◌,
}
use stylus_popup.Theme.{Colours, ThemeFile}
use stylus_popup.Theme.Roles.{is_rgb_name, IsThemed, themed, themed-IsThemed}

abbrev is_byte : ℤ → Bool
is_byte n = leb_ℤ (pos 0) n && leb_ℤ n (pos 255)

-- A name is read as grey, and a text as its length.
abbrev greys : Colours
greys = record {
  Colour = ℤ × ℤ × ℤ;
  unset = (pos 256, pos 256, pos 256);
  rgb = λ r g b. (r, g, b);
  named = λ s. (pos 128, pos 128, pos 128);
  is_valid = λ c. is_byte c.0 && is_byte c.1 && is_byte c.2;
  darker = λ c. (pos 0, c.1, c.2);
  faint = λ c. (c.0, c.1, pos 8);
  to_int = λ s. if str_eq s "40" then pos 40 else pos 999;
}

abbrev other_format : ThemeFile
other_format = record { no_error = true; value = λ key. "#ffffff" ∷ [] }

abbrev matugen : ThemeFile
matugen = record {
  no_error = true;
  value = λ key.
      if str_eq key "Colors:Button/DecorationFocus"
      then "40" ∷ "40" ∷ "red" ∷ []
      else "40" ∷ "40" ∷ "40" ∷ [];
}

grey_names : (s : String) → is_rgb_name s ≡ true → greys.is_valid (greys.named s) ≡ true
grey_names s h = refl

themed-IsThemed_example :
    IsThemed greys (themed greys ((some matugen ∷ []) ∷ (none ∷ some other_format ∷ []) ∷ []))
themed-IsThemed_example =
    themed-IsThemed greys grey_names ((some matugen ∷ []) ∷ (none ∷ some other_format ∷ []) ∷ [])
