-- ===== src/Popup/Paint.antt =====
-- src/popupwidget.cpp: what the painting of the island asks of a painter. The rectangles, the colours,
-- the fonts and the rounding are Qt's; the calls on a QPainter are values, in the order they are made.
pub mod Glyphs
pub mod Compact
pub mod Battery
pub mod Island
pub mod Painter
pub mod Restored
pub mod Clipped
pub mod Texts
pub mod Said
pub mod Sizes
pub mod Paper
mod Tests
use Prim.Native.String.{String, ◌++◌}
use stylus_popup.Prelude.{
  Bool, Option, some, none, List, [], ◌∷◌, ℤ, pos, false, true, ◌&&◌, ltb_ℤ, ltb, leb,
  if◌then◌else◌,
}
use stylus_popup.Config.{clamp}
use stylus_popup.Pen.{StylusState}
use stylus_popup.Popup.Strings
use stylus_popup.Platform.{Platform}

-- Of Qt: QRectF, QColor, QFontMetricsF of the two larger fonts, qRound, the truncation to an int,
-- std::fmod, qPow and QString::arg.
pub record Canvas (R C : Type 0) : Type 1 where
  pub Rect : Type 0
  pub rect : R → R → R → R → Rect
  pub left : Rect → R
  pub right : Rect → R
  pub top : Rect → R
  pub bottom : Rect → R
  pub width : Rect → R
  pub height : Rect → R
  pub center_x : Rect → R
  pub center_y : Rect → R
  pub adjusted : Rect → R → R → R → R → Rect
  pub black : ℤ → C  -- QColor(0, 0, 0, alpha)
  pub with_alpha : C → R → C
  pub title_height : R
  pub title_ascent : R
  pub sub_height : R
  pub sub_ascent : R
  pub elided : String → R → String  -- elidedText(text, Qt::ElideRight, width), in the small font
  pub round : R → ℤ
  pub truncate : R → ℤ
  pub fmod : R → R → R
  pub pow : R → R → R
  pub arg : String → ℤ → String

pub data Segment (R Rect : Type 0) : Type 0 where
  move_to line_to : R → R → Segment R Rect
  close_subpath : Segment R Rect
  add_rounded_rect : Rect → R → R → Segment R Rect
  arc_move_to : Rect → R → Segment R Rect
  arc_to : Rect → R → R → Segment R Rect

pub record Pen (R C : Type 0) : Type 0 where
  pub colour : C
  pub width : R
  pub round_cap : Bool
  pub round_join : Bool

pub data Font : Type 0 where
  title_font sub_font compact_font : Font

-- What a call draws.
pub data Figure (R Rect C : Type 0) : Type 0 where
  rounded_rect : Rect → R → R → Figure R Rect C
  path : List (Segment R Rect) → Figure R Rect C
  filled_path : List (Segment R Rect) → C → Figure R Rect C
  ellipse : Rect → Figure R Rect C
  line : R → R → R → R → Figure R Rect C
  text_in : Rect → String → Figure R Rect C
  text_at : R → R → String → Figure R Rect C

pub data Move (R : Type 0) : Type 0 where
  translated scaled : R → R → Move R
  rotated : R → Move R

-- A pen or a brush that is not there is `Qt::NoPen` or `Qt::NoBrush`.
pub data Command (R Rect C : Type 0) : Type 0 where
  save restore : Command R Rect C
  move : Move R → Command R Rect C
  set_pen : Option (Pen R C) → Command R Rect C
  set_brush : Option C → Command R Rect C
  set_font : Font → Command R Rect C
  set_opacity : R → Command R Rect C
  set_clip_path : List (Segment R Rect) → Command R Rect C
  draw : Figure R Rect C → Command R Rect C

-- A solid pen as QPen's constructors make it.
abbrev pub pen_of : {R C : Type 0} → C → R → Pen R C
pen_of c w = record { colour = c; width = w; round_cap = false; round_join = false }

-- The leading box and the label column of a compact pill.
pub record CompactRow (Rect : Type 0) : Type 0 where
  pub leading : Rect
  pub text : Rect

module _ (platform : Platform) {C : Type 0} (canvas : Canvas platform.Real C) where
  open platform use {Real, lit, add, sub, mul, div, neg}
  open canvas use {Rect, rect, left, right, top, height, center_y}

  abbrev pub Commands : Type 0
  Commands = List (Command Real Rect C)

  unfoldable pub compact_row_for : Rect → CompactRow Rect
  compact_row_for r =
      let icon = lit 20 1 in
      let inset = div (sub (height r) icon) (lit 2 1) in
      let leading = rect (add (left r) inset) (sub (center_y r) (div icon (lit 2 1))) icon icon in
      record {
        leading = leading;
        text =
            rect (add (right leading) (lit 10 1)) (top r)
              (sub (sub (sub (right r) (right leading)) (lit 10 1)) (lit 12 1)) (height r);
      }

  unfoldable pub clockwise_arc : Rect → Real → Real → List (Segment Real Rect)
  clockwise_arc r start span =
      arc_move_to r (sub (lit 90 1) start) ∷ arc_to r (sub (lit 90 1) start) (neg span) ∷ []

  unfoldable pub percentage_text : Real → String
  percentage_text displayed = canvas.arg "%1%" (clamp (pos 0) (canvas.round displayed) (pos 100))

  unfoldable pub status_text : StylusState → Bool → String
  status_text state paired =
      let status =
        if state.charging
        then Strings.charging platform
        else if paired
        then Strings.paired platform
        else Strings.not_paired platform in
      if ltb 0 state.limit && leb state.limit 100
      then status ++ " · " ++ Strings.charge_limit platform canvas.arg (pos state.limit)
      else status
