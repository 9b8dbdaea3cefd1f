-- ===== src/Popup/Paint/Texts.antt =====
-- src/popupwidget.cpp: the words that the island shows, whatever their place.
use Prim.Native.String.{String}
use stylus_popup.Prelude.{
  Bool-cases, inl, inr, Bool, not, ◌&&◌, Option, List, [], ◌∷◌, ◌++◌, ◌≡◌, refl, arith,
  if◌then◌else◌, ℤ,
}
use stylus_popup.Platform.{Platform}
use stylus_popup.Theme.{Theme}
use stylus_popup.Popup.{Popup, Content, nothing, connecting, battery, failure, same_content}
use stylus_popup.Popup.Strings
use stylus_popup.Popup.Paint.{
  Canvas, Font, title_font, sub_font, compact_font, Figure, text_in, text_at, save, percentage_text,
  status_text,
}
use stylus_popup.Popup.Paint.Glyphs.{draw_pen_glyph, draw_bolt, draw_bluetooth, draw_cross}
use stylus_popup.Popup.Paint.Compact.{draw_spinner, paint_connecting, paint_error}
use stylus_popup.Popup.Paint.Battery.{
  draw_battery_ring, paint_chip, paint_battery, text_width, ring_box, chip_box,
}
use stylus_popup.Popup.Paint.Island.{
  shadow, paint_body, paint_content, paint_inner, paint_island, outline_of, alpha_of,
}
use stylus_popup.Popup.Paint.Painter.{Settings, Mark, Painter, restored, obey, paint, paint-++}
use stylus_popup.Popup.Paint.Clipped.{is_visible, after_body, island-restored}

-- A text, and the font that it is set in.
abbrev pub word_of :
    {R Rect C : Type 0} → Figure R Rect C → Settings R Rect C → List (Font × String)
word_of (text_in r text) s = (s.font, text) ∷ []
word_of (text_at x y text) s = (s.font, text) ∷ []
word_of _ s = []

unfoldable pub words : {R Rect C : Type 0} → List (Mark R Rect C) → List (Font × String)
words [] = []
words (m ∷ ms) = word_of m.figure m.settings ++ words ms

module _ (platform : Platform) {C : Type 0} (canvas : Canvas platform.Real C)
    (theme : Theme C) where
  open platform use {Real, lit, lt}
  open canvas use {Rect, elided}

  draw_battery_ring-words :
      (p : Popup Real) (r : Rect) (q : Painter Real Rect C)
      → words (paint (draw_battery_ring platform canvas theme p r) q).marks ≡ words q.marks
  unfolding draw_battery_ring draw_pen_glyph paint obey restored words
  draw_battery_ring-words p r q = ground arith

  paint_chip-words :
      (p : Popup Real) (r : Rect) (q : Painter Real Rect C)
      → words (paint (paint_chip platform canvas theme p r) q).marks ≡ words q.marks
  unfolding paint_chip draw_bolt draw_bluetooth paint obey restored words
  paint_chip-words p r q = ground arith

  -- The words of a content.
  unfoldable pub labels : Content → Popup Real → List (Font × String)
  labels nothing p = []
  labels connecting p = (compact_font, Strings.connecting platform) ∷ []
  labels failure p = (compact_font, p.error_text) ∷ []
  labels battery p =
      let room = text_width platform canvas theme (outline_of platform canvas theme p) in
      (sub_font, elided (status_text platform canvas p.state p.bt_paired) room)
      ∷ (title_font, percentage_text platform canvas p.ring.value)
      ∷ []

  paint_battery-words :
      (p : Popup Real) (q : Painter Real Rect C)
      → words
          (paint
            (paint_battery platform canvas theme p (outline_of platform canvas theme p))
            q).marks
        ≡ labels battery p ++ words q.marks
  unfolding paint_battery labels paint obey words
  paint_battery-words p q =
      let r = outline_of platform canvas theme p in
      let ring = draw_battery_ring platform canvas theme p (ring_box platform canvas theme r) in
      let chip = paint_chip platform canvas theme p (chip_box platform canvas theme r) in
      rw
        (
          paint-++ (ring ++ chip) _ q,
          paint-++ ring chip q,
          paint_chip-words,
          draw_battery_ring-words,
        )
        refl

  paint_content-words :
      (elapsed : Option ℤ) (p : Popup Real) (q : Painter Real Rect C)
      → words
          (paint
            (paint_content platform canvas theme elapsed p (outline_of platform canvas theme p))
            q).marks
        ≡ labels p.content p ++ words q.marks
  unfolding paint_content paint_connecting draw_spinner paint_error draw_cross paint obey restored
      words labels
  paint_content-words elapsed p q = ground (arith, paint_battery-words p q)

  -- Whether the content shows.
  abbrev pub is_legible : Popup Real → Bool
  is_legible p =
      lt (lit 1 1000) (alpha_of platform canvas theme p) && not (same_content p.content nothing)

  paint_inner-words :
      (elapsed : Option ℤ) (p : Popup Real) (q : Painter Real Rect C)
      → words (paint (paint_inner platform canvas theme elapsed p) q).marks
        ≡ (if is_legible p then labels p.content p else []) ++ words q.marks
  unfolding paint_inner paint obey
  paint_inner-words elapsed p q = elim (Bool-cases (is_legible p)) [
    | inl shown ↦ rw (shown) (paint_content-words elapsed p _)
    | inr hidden ↦ rw (hidden) refl
  ]

  paint_body-words :
      (p : Popup Real) (q : Painter Real Rect C)
      → words (paint (paint_body platform canvas theme p) q).marks ≡ words q.marks
  unfolding paint_body shadow paint obey words
  paint_body-words p q = refl

  -- What an island says: a visible one whose content shows says the words of its content, each in its
  -- font, and any other says nothing.
  pub paint_island-words :
      (elapsed : Option ℤ) (p : Popup Real) (q : Painter Real Rect C)
      → words (paint (paint_island platform canvas theme elapsed p) q).marks
        ≡ (if is_visible platform canvas theme p && is_legible p then labels p.content p else [])
          ++ words q.marks
  unfolding paint_island paint obey
  paint_island-words elapsed p q = elim (Bool-cases (is_visible platform canvas theme p)) [
    | inl shown ↦
        rw
          (
            shown,
            island-restored platform canvas theme elapsed p q,
            paint_inner-words elapsed p (after_body platform canvas theme p q),
            paint_body-words p (obey save q),
          )
          refl
    | inr hidden ↦ rw (hidden) refl
  ]
