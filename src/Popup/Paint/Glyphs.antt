-- ===== src/Popup/Paint/Glyphs.antt =====
-- src/popupwidget.cpp: the pen, the bolt, the Bluetooth rune and the cross.
use stylus_popup.Prelude.{ℕ, ◌∷◌, [], List, ◌++◌, some, none, true}
use stylus_popup.Platform.{Platform}
use stylus_popup.Popup.Paint.{
  Canvas, Segment, move_to, line_to, close_subpath, save, restore, move, translated, rotated,
  set_pen, set_brush, draw, rounded_rect, path, line, pen_of, Commands,
}

-- The corners of the glyphs, in hundredths.
abbrev bolt : List (ℕ × ℕ)
bolt = (58, 4) ∷ (18, 56) ∷ (46, 56) ∷ (40, 96) ∷ (82, 40) ∷ (54, 40) ∷ []

abbrev rune : List (ℕ × ℕ)
rune =
    (1771, 771)
    ∷ (1200, 200)
    ∷ (1100, 200)
    ∷ (1100, 959)
    ∷ (641, 500)
    ∷ (500, 641)
    ∷ (1059, 1200)
    ∷ (500, 1759)
    ∷ (641, 1900)
    ∷ (1100, 1441)
    ∷ (1100, 2200)
    ∷ (1200, 2200)
    ∷ (1771, 1629)
    ∷ (1341, 1200)
    ∷ []

abbrev notch_upper : List (ℕ × ℕ)
notch_upper = (1300, 583) ∷ (1488, 771) ∷ (1300, 959) ∷ []

abbrev notch_lower : List (ℕ × ℕ)
notch_lower = (1488, 1629) ∷ (1300, 1817) ∷ (1300, 1441) ∷ []

module _ (platform : Platform) {C : Type 0} (canvas : Canvas platform.Real C) where
  open platform use {Real, lit, add, mul, div, neg}
  open canvas use {Rect, rect, left, right, top, bottom, width, height}

  abbrev hundredths : ℕ → Real
  hundredths n = lit n 100

  -- The lines to the later corners, and back to the first.
  unfoldable pub lines_to : (ℕ × ℕ → Real × Real) → List (ℕ × ℕ) → List (Segment Real Rect)
  lines_to mapped [] = close_subpath ∷ []
  lines_to mapped (c ∷ corners) = let (x, y) = mapped c in line_to x y ∷ lines_to mapped corners

  unfoldable pub sub_path : (ℕ × ℕ → Real × Real) → List (ℕ × ℕ) → List (Segment Real Rect)
  sub_path mapped [] = []
  sub_path mapped (c ∷ corners) = let (x, y) = mapped c in move_to x y ∷ lines_to mapped corners

  -- A corner of the bolt, and one of the rune on its grid of 24 units.
  unfoldable pub in_box : Rect → ℕ × ℕ → Real × Real
  in_box box (x, y) = (
    add (left box) (mul (hundredths x) (width box)),
    add (top box) (mul (hundredths y) (height box)),
  )

  unfoldable pub on_grid : Rect → ℕ × ℕ → Real × Real
  on_grid box (x, y) =
      let unit = div (width box) (lit 24 1) in
      (add (left box) (mul (hundredths x) unit), add (top box) (mul (hundredths y) unit))

  unfoldable pub draw_pen_glyph : Real → Real → Real → C → Commands platform canvas
  draw_pen_glyph x y size colour =
      let w = mul size (hundredths 26) in
      save
      ∷ move (translated x y)
      ∷ move (rotated (lit 45 1))
      ∷ set_pen none
      ∷ set_brush (some colour)
      ∷ draw (
          rounded_rect
            (rect (div (neg w) (lit 2 1)) (mul (neg size) (lit 5 10)) w (mul size (lit 7 10)))
            (div w (lit 2 1)) (div w (lit 2 1)))
      ∷ draw (
          path (
            move_to (div (neg w) (lit 2 1)) (mul size (hundredths 26))
            ∷ line_to (div w (lit 2 1)) (mul size (hundredths 26))
            ∷ line_to (lit 0 1) (mul size (lit 5 10))
            ∷ close_subpath
            ∷ []))
      ∷ restore
      ∷ []

  unfoldable pub draw_bolt : Rect → C → Commands platform canvas
  draw_bolt box colour =
      save
      ∷ set_pen (some (record (pen_of colour (lit 12 10)) { round_join = true }))
      ∷ set_brush (some colour)
      ∷ draw (path (sub_path (in_box box) bolt))
      ∷ restore
      ∷ []

  unfoldable pub draw_bluetooth : Rect → C → Commands platform canvas
  draw_bluetooth box colour =
      save
      ∷ set_pen none
      ∷ set_brush (some colour)
      ∷ draw (
          path (
            sub_path (on_grid box) rune
            ++ sub_path (on_grid box) notch_upper
            ++ sub_path (on_grid box) notch_lower))
      ∷ restore
      ∷ []

  unfoldable pub draw_cross : Rect → C → Commands platform canvas
  draw_cross box colour =
      save
      ∷ set_pen (some (record (pen_of colour (lit 2 1)) { round_cap = true }))
      ∷ draw (line (left box) (top box) (right box) (bottom box))
      ∷ draw (line (right box) (top box) (left box) (bottom box))
      ∷ restore
      ∷ []
