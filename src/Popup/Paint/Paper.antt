-- ===== src/Popup/Paint/Paper.antt =====
-- A canvas on fixed-point numbers, with names for the colours, to paint on at concrete states.
use Prim.Native.String.{String}
use stylus_popup.Prelude.{ℤ, pos, pos_part, ◌+◌, ◌/◌, ◌+ℤ◌, ◌-ℤ◌}
use stylus_popup.Platform.Fixed.{fixed}
use stylus_popup.Theme.{Theme}
use stylus_popup.Popup.Paint.{Canvas}

-- Left, top, width and height.
abbrev pub Box : Type 0
Box = ℤ × ℤ × ℤ × ℤ

abbrev pub paper : Canvas ℤ String
paper = record {
  Rect = Box;
  rect = λ x y w h. (x, y, w, h);
  left = λ r. r.0;
  right = λ r. r.0 +ℤ r.2;
  top = λ r. r.1;
  bottom = λ r. r.1 +ℤ r.3;
  width = λ r. r.2;
  height = λ r. r.3;
  center_x = λ r. r.0 +ℤ fixed.div r.2 (pos 2000);
  center_y = λ r. r.1 +ℤ fixed.div r.3 (pos 2000);
  adjusted = λ r a b c d. (r.0 +ℤ a, r.1 +ℤ b, r.2 +ℤ c -ℤ a, r.3 +ℤ d -ℤ b);
  black = λ alpha. "black";
  with_alpha = λ c alpha. c;
  title_height = pos 26000;
  title_ascent = pos 20000;
  sub_height = pos 14000;
  sub_ascent = pos 11000;
  elided = λ text room. text;
  round = λ a. pos ((pos_part a + 500) / 1000);
  truncate = λ a. pos 0;
  fmod = λ a b. a;
  pow = λ a b. a;
  arg = λ text n. text;
}

abbrev pub colours : Theme String
colours = record {
  surface = "surface";
  on_surface = "on_surface";
  on_surface_variant = "on_surface_variant";
  primary = "primary";
  progress_track = "progress_track";
  low_battery = "low_battery";
  charging = "charging";
  warning = "warning";
  island_fill = "island_fill";
  outline = "outline";
}
