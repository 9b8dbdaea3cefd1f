-- ===== src/Popup/Paint/Island.antt =====
-- src/popupwidget.cpp: `paintIsland`, and the image of `renderFrame` that it paints on.
use stylus_popup.Prelude.{
  ℕ, List, ◌+◌, ◌*◌, ◌∷◌, [], ◌++◌, some, none, Option, not, ◌&&◌, ◌||◌, ◌==◌, ℤ, pos,
  if◌then◌else◌,
}
use stylus_popup.Platform.{Platform}
use stylus_popup.Spring
use stylus_popup.Theme.{Theme}
use stylus_popup.Popup.{Popup, nothing, connecting, battery, failure, same_content, surface_height}
use stylus_popup.Popup.Paint.{
  Canvas, Segment, add_rounded_rect, save, restore, move, translated, scaled, set_pen, set_brush,
  set_opacity, set_clip_path, draw, rounded_rect, path, filled_path, pen_of, Commands,
}
use stylus_popup.Popup.Paint.Compact.{paint_connecting, paint_error}
use stylus_popup.Popup.Paint.Battery.{paint_battery}

module _ (platform : Platform) {C : Type 0} (canvas : Canvas platform.Real C)
    (theme : Theme C) where
  open platform use {Real, lit, of_int, add, sub, mul, div, neg, lt}
  open canvas use {Rect, rect, adjusted, black, round}

  unfoldable pub opacity : Popup Real → Real
  opacity p =
      Spring.real_min platform (lit 1 1) (Spring.real_max platform (lit 0 1) p.presence.value)

  -- The shadow of index `i`, with its share of black.
  unfoldable pub shadow : Rect → Real → ℕ → Real → Commands platform canvas
  shadow r radius i alpha =
      let spread = mul (lit 15 10) (of_int (pos (i + 1))) in
      set_brush (some (black (round (mul (lit 255 1) alpha))))
      ∷ draw (
          rounded_rect (adjusted r (neg spread) spread spread (mul spread (lit 2 1)))
            (add radius spread) (add radius spread))
      ∷ []

  unfoldable pub paint_content : Option ℤ → Popup Real → Rect → Commands platform canvas
  paint_content elapsed p r = elim p.content [
    | connecting ↦ paint_connecting platform canvas theme elapsed r
    | battery ↦ paint_battery platform canvas theme p r
    | failure ↦ paint_error platform canvas theme p.error_text r
    | nothing ↦ []
  ]

  unfoldable pub outline_of : Popup Real → Rect
  outline_of p =
      let w = Spring.real_max platform (lit 1 1) p.width.value in
      let h = Spring.real_max platform (lit 1 1) p.height.value in
      rect (div (neg w) (lit 2 1)) (div (neg h) (lit 2 1)) w h

  -- The `shape` of the island.
  unfoldable pub capsule : Popup Real → List (Segment Real Rect)
  capsule p =
      let radius = div (Spring.real_max platform (lit 1 1) p.height.value) (lit 2 1) in
      add_rounded_rect (outline_of p) radius radius ∷ []

  -- The transformation, the shadows and the capsule.
  unfoldable pub paint_body : Popup Real → Commands platform canvas
  paint_body p =
      let presence = Spring.real_max platform (lit 0 1) p.presence.value in
      let h = Spring.real_max platform (lit 1 1) p.height.value in
      let radius = div h (lit 2 1) in
      let r = outline_of p in
      let scale = mul (add (lit 6 10) (mul (lit 4 10) presence)) (add (lit 1 1) p.pulse.value) in
      (move (
          translated (add (div (of_int (pos p.screen_w)) (lit 2 1)) p.shake.value)
            (add (lit 8 1) (div h (lit 2 1))))
        ∷ move (scaled scale scale)
        ∷ set_opacity (opacity p)
        ∷ set_pen none
        ∷ [])
      ++ shadow r radius 0 (lit 10 100)
      ++ shadow r radius 1 (lit 7 100)
      ++ shadow r radius 2 (lit 4 100)
      ++ (draw (filled_path (capsule p) theme.island_fill)
          ∷ set_pen (some (pen_of theme.outline (lit 1 1)))
          ∷ set_brush none
          ∷ draw (path (capsule p))
          ∷ [])

  unfoldable pub alpha_of : Popup Real → Real
  alpha_of p = Spring.bound platform (lit 0 1) p.content_alpha.value (lit 1 1)

  -- The content, where it shows.
  unfoldable pub paint_inner : Option ℤ → Popup Real → Commands platform canvas
  paint_inner elapsed p =
      let a = alpha_of p in
      let cs = add (lit 92 100) (mul (lit 8 100) a) in
      if lt (lit 1 1000) a && not (same_content p.content nothing)
      then set_clip_path (capsule p)
        ∷ set_opacity (mul (opacity p) a)
        ∷ move (translated (lit 0 1) (mul (sub (lit 1 1) a) (lit 4 1)))
        ∷ move (scaled cs cs)
        ∷ paint_content elapsed p (outline_of p)
      else []

  unfoldable pub paint_island : Option ℤ → Popup Real → Commands platform canvas
  paint_island elapsed p =
      if not (lt (lit 1 1000) (opacity p))
      then []
      else save ∷ (paint_body p ++ paint_inner elapsed p ++ (restore ∷ []))

  -- `renderFrame`: the size of the image for the next frame, and what is painted on it, for a surface
  -- of that scale.
  unfoldable pub image_size : ℕ → Popup Real → ℕ × ℕ → ℕ × ℕ
  image_size scale p (w, h) =
      if not (w == p.screen_w * scale) || not (h == surface_height * scale)
      then (p.screen_w * scale, surface_height * scale)
      else (w, h)

  unfoldable pub render_image : ℕ → Option ℤ → Popup Real → Commands platform canvas
  render_image scale elapsed p =
      move (scaled (of_int (pos scale)) (of_int (pos scale))) ∷ paint_island elapsed p
