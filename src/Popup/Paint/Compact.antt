-- ===== src/Popup/Paint/Compact.antt =====
-- src/popupwidget.cpp: the two compact forms, `paintConnecting` with its spinner and `paintError`.
use Prim.Native.String.{String}
use stylus_popup.Prelude.{ℕ, ◌∷◌, [], ◌++◌, some, none, Option, true, ℤ, if◌then◌else◌}
use stylus_popup.Platform.{Platform}
use stylus_popup.Theme.{Theme}
use stylus_popup.Popup.Strings
use stylus_popup.Popup.Paint.{
  Canvas, save, restore, set_pen, set_brush, set_font, draw, path, ellipse, text_in, compact_font,
  pen_of, Commands, compact_row_for, clockwise_arc,
}
use stylus_popup.Popup.Paint.Glyphs.{draw_cross}

module _ (platform : Platform) {C : Type 0} (canvas : Canvas platform.Real C)
    (theme : Theme C) where
  open platform use {Real, lit, of_int, add, sub, mul, div, neg, lt}
  open canvas use {
    Rect, rect, left, right, width, height, center_x, center_y, adjusted, black, with_alpha,
    title_height, title_ascent, sub_height, sub_ascent, elided, round, truncate, fmod, pow, arg,
  }

  abbrev pub natural : ℕ → Real
  natural n = lit n 1

  -- `r.adjusted(stroke / 2 + 1, stroke / 2 + 1, -stroke / 2 - 1, -stroke / 2 - 1)`.
  abbrev pub inside : Real → Rect → Rect
  inside stroke r =
      let near = add (div stroke (natural 2)) (natural 1) in
      let far = sub (div (neg stroke) (natural 2)) (natural 1) in adjusted r near near far far

  unfoldable pub ease_in_out_cubic : Real → Real
  ease_in_out_cubic x =
      if lt x (lit 5 10)
      then mul (mul (mul (natural 4) x) x) x
      else sub (natural 1)
          (div (pow (add (mul (neg (natural 2)) x) (natural 2)) (natural 3)) (natural 2))

  -- `elapsed` is that of the clock, where it was started.
  unfoldable pub clock_seconds : Option ℤ → Real
  clock_seconds none = lit 0 1
  clock_seconds (some ms) = div (of_int ms) (natural 1000)

  unfoldable pub draw_spinner : Option ℤ → Rect → Commands platform canvas
  draw_spinner elapsed r =
      let cycle = lit 1333 1000 in
      let growth = natural 240 in
      let t = clock_seconds elapsed in
      let n = truncate (div t cycle) in
      let phase = div (fmod t cycle) cycle in
      let early = lt phase (lit 5 10) in
      let head = if early then mul (ease_in_out_cubic (mul phase (natural 2))) growth else growth in
      let tail =
        if early
        then lit 0 1
        else mul (ease_in_out_cubic (mul (sub phase (lit 5 10)) (natural 2))) growth in
      let start = add (add (mul (of_int n) growth) (mul t (natural 120))) tail in
      let span = add (sub head tail) (natural 30) in
      let stroke = lit 25 10 in
      let arc_rect = inside stroke r in
      save
      ∷ set_brush none
      ∷ set_pen (some (pen_of (with_alpha theme.primary (lit 14 100)) stroke))
      ∷ draw (ellipse arc_rect)
      ∷ set_pen (some (record (pen_of theme.primary stroke) { round_cap = true }))
      ∷ draw (path (clockwise_arc platform canvas arc_rect (fmod start (natural 360)) span))
      ∷ restore
      ∷ []

  unfoldable pub paint_connecting : Option ℤ → Rect → Commands platform canvas
  paint_connecting elapsed r =
      let row = compact_row_for platform canvas r in
      draw_spinner elapsed row.leading
      ++ (set_font compact_font
          ∷ set_pen (some (pen_of theme.on_surface_variant (natural 1)))
          ∷ draw (text_in row.text (Strings.connecting platform))
          ∷ [])

  -- The theme's `error()` is its colour of a low battery.
  unfoldable pub paint_error : String → Rect → Commands platform canvas
  paint_error text r =
      let row = compact_row_for platform canvas r in
      let inset = lit 65 10 in
      (set_pen none
        ∷ set_brush (some (with_alpha theme.low_battery (lit 18 100)))
        ∷ draw (ellipse row.leading)
        ∷ [])
      ++ draw_cross platform canvas (adjusted row.leading inset inset (neg inset) (neg inset))
          theme.low_battery
      ++ (set_font compact_font
          ∷ set_pen (some (pen_of theme.on_surface (natural 1)))
          ∷ draw (text_in row.text text)
          ∷ [])
