-- ===== src/Popup/Paint/Battery.antt =====
-- src/popupwidget.cpp: the expanded form, `paintBattery` with its ring.
use stylus_popup.Prelude.{◌∷◌, [], ◌++◌, some, none, true, Bool, not, if◌then◌else◌}
use stylus_popup.Platform.{Platform}
use stylus_popup.Pen.{StylusState}
use stylus_popup.Spring
use stylus_popup.Theme.{Theme}
use stylus_popup.Popup.{Popup}
use stylus_popup.Popup.Paint.{
  Canvas, save, restore, set_pen, set_brush, set_font, draw, path, ellipse, text_at, title_font,
  sub_font, pen_of, Commands, clockwise_arc, percentage_text, status_text,
}
use stylus_popup.Popup.Paint.Glyphs.{draw_pen_glyph, draw_bolt, draw_bluetooth}
use stylus_popup.Popup.Paint.Compact.{inside}

module _ (platform : Platform) {C : Type 0} (canvas : Canvas platform.Real C)
    (theme : Theme C) where
  open platform use {Real, lit, add, sub, mul, div, neg, lt}
  open canvas use {
    Rect, rect, left, right, width, height, center_x, center_y, adjusted, with_alpha, title_height,
    title_ascent, sub_height, sub_ascent, elided,
  }

  unfoldable pub arc_colour : Bool → Real → C
  arc_colour charging percent =
      if charging
      then theme.charging
      else if not (lt (lit 20 1) percent)
      then theme.low_battery
      else theme.primary

  unfoldable pub draw_battery_ring : Popup Real → Rect → Commands platform canvas
  draw_battery_ring p r =
      let stroke = lit 5 1 in
      let arc_rect = inside platform canvas theme stroke r in
      let percent = Spring.bound platform (lit 0 1) p.ring.value (lit 100 1) in
      let arc = pen_of (arc_colour p.state.charging percent) stroke in
      (save
        ∷ set_brush none
        ∷ set_pen (some (pen_of theme.progress_track stroke))
        ∷ draw (ellipse arc_rect)
        ∷ [])
      ++ (if lt (lit 5 10) percent
          then set_pen (some (record arc { round_cap = true }))
            ∷ draw (
                path (
                  clockwise_arc platform canvas arc_rect (lit 0 1)
                    (div (mul (lit 360 1) percent) (lit 100 1))))
            ∷ []
          else [])
      ++ (restore ∷ [])
      ++ draw_pen_glyph platform canvas (center_x r) (center_y r) (mul (width r) (lit 42 100))
          theme.on_surface_variant

  unfoldable pub chip_colour : StylusState → Bool → C
  chip_colour state paired =
      if state.charging then theme.charging else if paired then theme.primary else theme.warning

  -- The trailing chip: its disc and its glyph.
  unfoldable pub paint_chip : Popup Real → Rect → Commands platform canvas
  paint_chip p chip =
      let charging = p.state.charging in
      let colour = chip_colour p.state p.bt_paired in
      let inset = mul (width chip) (if charging then lit 25 100 else lit 21 100) in
      let glyph = adjusted chip inset inset (neg inset) (neg inset) in
      (set_pen none
        ∷ set_brush (some (with_alpha colour (if charging then lit 18 100 else lit 14 100)))
        ∷ draw (ellipse chip)
        ∷ [])
      ++ (if charging
          then draw_bolt platform canvas glyph colour
          else draw_bluetooth platform canvas glyph colour)

  unfoldable pub ring_box : Rect → Rect
  ring_box r =
      let pad = lit 12 1 in
      let ring_d = Spring.real_max platform (lit 24 1) (sub (height r) (mul (lit 2 1) pad)) in
      rect (add (left r) pad) (sub (center_y r) (div ring_d (lit 2 1))) ring_d ring_d

  unfoldable pub chip_box : Rect → Rect
  chip_box r =
      let chip_pad = lit 20 1 in
      let chip_d = Spring.real_max platform (lit 16 1) (sub (height r) (mul (lit 2 1) chip_pad)) in
      rect (sub (sub (right r) chip_pad) chip_d) (sub (center_y r) (div chip_d (lit 2 1))) chip_d
        chip_d

  -- The column between them: where it begins, and its width.
  unfoldable pub text_left : Rect → Real
  text_left r = add (right (ring_box r)) (lit 14 1)

  unfoldable pub text_width : Rect → Real
  text_width r =
      let text_right = sub (left (chip_box r)) (lit 12 1) in
      Spring.real_max platform (lit 0 1) (sub text_right (text_left r))

  unfoldable pub paint_battery : Popup Real → Rect → Commands platform canvas
  paint_battery p r =
      let gap = lit 2 1 in
      let block_h = add (add title_height gap) sub_height in
      let top = sub (center_y r) (div block_h (lit 2 1)) in
      draw_battery_ring p (ring_box r)
      ++ paint_chip p (chip_box r)
      ++ (set_font title_font
          ∷ set_pen (some (pen_of theme.on_surface (lit 1 1)))
          ∷ draw (
              text_at (text_left r) (add top title_ascent)
                (percentage_text platform canvas p.ring.value))
          ∷ set_font sub_font
          ∷ set_pen (some (pen_of theme.on_surface_variant (lit 1 1)))
          ∷ draw (
              text_at (text_left r) (add (add (add top title_height) gap) sub_ascent)
                (elided (status_text platform canvas p.state p.bt_paired) (text_width r)))
          ∷ [])
