-- ===== src/Popup/Paint/Painter.antt =====
-- src/popupwidget.cpp: what a painter makes of the calls of the painting. Saving, restoring and the
-- settings that a call draws with are as QPainter documents them.
use stylus_popup.Prelude.{Option, some, List, [], ◌∷◌, ◌++◌, ◌≡◌, refl}
use stylus_popup.Popup.Paint.{
  Segment, Pen, Font, Move, Figure, Command, save, restore, move, set_pen, set_brush, set_font,
  set_opacity, set_clip_path, draw,
}

pub record Settings (R Rect C : Type 0) : Type 0 where
  pub pen : Option (Pen R C)
  pub brush : Option C
  pub font : Font
  pub opacity : R
  pub clip : Option (List (Segment R Rect))
  pub moves : List (Move R)

-- A figure, with the settings that it is drawn with.
pub record Mark (R Rect C : Type 0) : Type 0 where
  pub figure : Figure R Rect C
  pub settings : Settings R Rect C

pub record Painter (R Rect C : Type 0) : Type 0 where
  pub settings : Settings R Rect C
  pub saved : List (Settings R Rect C)
  pub marks : List (Mark R Rect C)  -- the newest first

module _ {R Rect C : Type 0} where
  -- Where nothing was saved, `restore` only warns.
  unfoldable pub restored : List (Settings R Rect C) → Painter R Rect C → Painter R Rect C
  restored [] q = q
  restored (s ∷ saved) q = record q { settings = s; saved = saved }

  unfoldable pub obey : Command R Rect C → Painter R Rect C → Painter R Rect C
  obey save q = record q { saved = q.settings ∷ q.saved }
  obey restore q = restored q.saved q
  obey (move m) q = record q { settings = record q.settings { moves = m ∷ q.settings.moves } }
  obey (set_pen pen) q = record q { settings = record q.settings { pen = pen } }
  obey (set_brush brush) q = record q { settings = record q.settings { brush = brush } }
  obey (set_font font) q = record q { settings = record q.settings { font = font } }
  obey (set_opacity opacity) q = record q { settings = record q.settings { opacity = opacity } }
  obey (set_clip_path p) q = record q { settings = record q.settings { clip = some p } }
  obey (draw figure) q = record q {
    marks = record { figure = figure; settings = q.settings } ∷ q.marks;
  }

  unfoldable pub paint : List (Command R Rect C) → Painter R Rect C → Painter R Rect C
  paint [] q = q
  paint (c ∷ commands) q = paint commands (obey c q)

  pub paint-++ :
      (cs ds : List (Command R Rect C)) (q : Painter R Rect C)
      → paint (cs ++ ds) q ≡ paint ds (paint cs q)
  unfolding paint
  paint-++ [] ds q = refl
  paint-++ (c ∷ cs) ds q = paint-++ cs ds (obey c q)
