-- ===== src/Popup/Paint/Clipped.antt =====
-- src/popupwidget.cpp: the content of the island is drawn within its capsule, and the painter is left
-- as it was.
use stylus_popup.Prelude.{
  Bool, true, not, ◌&&◌, Option, [], ◌∷◌, ◌++◌, ◌≡◌, refl, ap, ◌∙◌, arith, if_elim, ℤ,
}
use stylus_popup.Platform.{Platform}
use stylus_popup.Theme.{Theme}
use stylus_popup.Popup.{Popup, nothing, same_content}
use stylus_popup.Popup.Paint.{Canvas, save, restore}
use stylus_popup.Popup.Paint.Glyphs.{draw_pen_glyph, draw_bolt, draw_bluetooth, draw_cross}
use stylus_popup.Popup.Paint.Compact.{draw_spinner, paint_connecting, paint_error}
use stylus_popup.Popup.Paint.Battery.{draw_battery_ring, paint_chip, paint_battery}
use stylus_popup.Popup.Paint.Island.{
  shadow, paint_body, paint_content, paint_inner, paint_island, capsule, opacity, alpha_of,
}
use stylus_popup.Popup.Paint.Painter.{Painter, restored, obey, paint, paint-++}
use stylus_popup.Popup.Paint.Restored.{
  is_tame, is_tame-++, IsUnder, IsAbove, start, AreSaved, paint-IsWithin,
}

module _ (platform : Platform) {C : Type 0} (canvas : Canvas platform.Real C)
    (theme : Theme C) where
  open platform use {Real, lit, div, mul, lt}
  open canvas use {Rect}

  draw_battery_ring-is_tame :
      (p : Popup Real) (r : Rect) → is_tame 0 (draw_battery_ring platform canvas theme p r) ≡ true
  unfolding draw_battery_ring draw_pen_glyph is_tame
  draw_battery_ring-is_tame p r = ground arith

  paint_chip-is_tame :
      (p : Popup Real) (r : Rect) → is_tame 0 (paint_chip platform canvas theme p r) ≡ true
  unfolding paint_chip draw_bolt draw_bluetooth is_tame
  paint_chip-is_tame p r = ground arith

  paint_battery-is_tame :
      (p : Popup Real) (r : Rect) → is_tame 0 (paint_battery platform canvas theme p r) ≡ true
  unfolding paint_battery is_tame
  paint_battery-is_tame p r =
      let ring = draw_battery_ring platform canvas theme p in
      let chip = paint_chip platform canvas theme p in
      is_tame-++ 0 (ring _ ++ chip _) _
        (is_tame-++ 0 (ring _) (chip _) (draw_battery_ring-is_tame p _) (paint_chip-is_tame p _))
        refl

  paint_content-is_tame :
      (elapsed : Option ℤ) (p : Popup Real) (r : Rect)
      → is_tame 0 (paint_content platform canvas theme elapsed p r) ≡ true
  unfolding paint_content paint_connecting draw_spinner paint_error draw_cross is_tame
  paint_content-is_tame elapsed p r = ground (arith, paint_battery-is_tame p r)

  paint_body-saved :
      (p : Popup Real) (q : Painter Real Rect C)
      → (paint (paint_body platform canvas theme p) q).saved ≡ q.saved
  unfolding paint_body shadow paint obey
  paint_body-saved p q = refl

  -- The content, on a painter that clips to the capsule.
  paint_content-IsAbove :
      (elapsed : Option ℤ) (p : Popup Real) (r : Rect) (o : Real) (q : Painter Real Rect C)
      → let c = capsule platform canvas theme p in
        let content = paint (paint_content platform canvas theme elapsed p r) q in
        IsUnder o c q.settings → IsAbove o c q.marks content.marks × (content.saved ≡ q.saved)
  unfolding AreSaved
  paint_content-IsAbove elapsed p r o q v =
      let c = capsule platform canvas theme p in
      let w =
        paint-IsWithin o c q.saved q.marks 0 (paint_content platform canvas theme elapsed p r) q
          (paint_content-is_tame elapsed p r)
          (record { under = v; stacked = refl; above = start }) in
      (w.above, w.stacked)

  paint_inner-saved :
      (elapsed : Option ℤ) (p : Popup Real) (q : Painter Real Rect C)
      → let r = paint (paint_inner platform canvas theme elapsed p) q in
        let o = mul (opacity platform canvas theme p) (alpha_of platform canvas theme p) in
        IsAbove o (capsule platform canvas theme p) q.marks r.marks × (r.saved ≡ q.saved)
  unfolding paint_inner paint obey
  paint_inner-saved elapsed p q =
      let o = mul (opacity platform canvas theme p) (alpha_of platform canvas theme p) in
      if_elim
        (λ cs.
          IsAbove o (capsule platform canvas theme p) q.marks (paint cs q).marks
          × ((paint cs q).saved ≡ q.saved))
        (lt (lit 1 1000) (alpha_of platform canvas theme p) && not (same_content p.content nothing))
        (λ _.
          paint_content-IsAbove elapsed p _ o _ (record { opacity_set = refl; clip_set = refl }))
        (λ _. (start, refl))

  -- The painter before the content of a visible island.
  abbrev pub after_body : Popup Real → Painter Real Rect C → Painter Real Rect C
  after_body p q = paint (save ∷ paint_body platform canvas theme p) q

  -- Where a visible island is painted, the last call restores what the first one saved.
  pub island-restored :
      (elapsed : Option ℤ) (p : Popup Real) (q : Painter Real Rect C)
      → let r = paint (paint_inner platform canvas theme elapsed p) (after_body p q) in
        paint
          (save
            ∷ (paint_body platform canvas theme p
                ++ paint_inner platform canvas theme elapsed p
                ++ (restore ∷ [])))
          q
        ≡ record r { settings = q.settings; saved = q.saved }
  unfolding paint obey restored
  island-restored elapsed p q =
      let body = paint_body platform canvas theme p in
      let inner = paint_inner platform canvas theme elapsed p in
      let begun = obey save q in
      let r = paint inner (paint body begun) in
      paint-++ (body ++ inner) (restore ∷ []) begun
      ∙ ap (λ (r : Painter Real Rect C). restored r.saved r) (paint-++ body inner begun)
      ∙ ap (λ saved. restored saved r)
          ((paint_inner-saved elapsed p (paint body begun)).1 ∙ paint_body-saved p begun)

  -- Whether there is anything to paint.
  abbrev pub is_visible : Popup Real → Bool
  is_visible p = lt (lit 1 1000) (opacity platform canvas theme p)

  -- After the island is painted, the settings of the painter and those that it has saved are what they
  -- were before, whatever the state of the island.
  paint_island-restores :
      (elapsed : Option ℤ) (p : Popup Real) (q : Painter Real Rect C)
      → let r = paint (paint_island platform canvas theme elapsed p) q in
        (r.settings ≡ q.settings) × (r.saved ≡ q.saved)
  unfolding paint_island paint
  paint_island-restores elapsed p q =
      if_elim (λ cs. ((paint cs q).settings ≡ q.settings) × ((paint cs q).saved ≡ q.saved))
        (not (is_visible p)) (λ _. (refl, refl))
        (λ _.
          let e = island-restored elapsed p q in
          (
            ap (λ (r : Painter Real Rect C). r.settings) e,
            ap (λ (r : Painter Real Rect C). r.saved) e,
          ))

  -- Where the island is visible: all that is drawn after its shadows and its capsule has the capsule
  -- as clip path, and the opacity of the island times that of its content.
  pub paint_island-clips :
      (elapsed : Option ℤ) (p : Popup Real) (q : Painter Real Rect C)
      → is_visible p ≡ true
      → IsAbove
          (mul (opacity platform canvas theme p) (alpha_of platform canvas theme p))
          (capsule platform canvas theme p)
          (after_body p q).marks
          (paint (paint_island platform canvas theme elapsed p) q).marks
  unfolding paint_island
  paint_island-clips elapsed p q shown =
      rw (shown, island-restored elapsed p q) (paint_inner-saved elapsed p (after_body p q)).0
