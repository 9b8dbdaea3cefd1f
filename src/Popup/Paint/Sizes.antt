-- ===== src/Popup/Paint/Sizes.antt =====
-- src/popupwidget.cpp: the size of the image that `renderFrame` paints on.
use stylus_popup.Prelude.{ℕ, ◌*◌, ◌≡◌, arith}
use stylus_popup.Platform.{Platform}
use stylus_popup.Theme.{Theme}
use stylus_popup.Popup.{Popup, surface_height}
use stylus_popup.Popup.Paint.{Canvas}
use stylus_popup.Popup.Paint.Island.{image_size}

-- Whatever the size of the last image, the next one has the size of the surface in physical pixels,
-- after any change of the scale.
pub image_size-exact :
    (platform : Platform) {C : Type 0} (canvas : Canvas platform.Real C) (theme : Theme C)
    (scale : ℕ) (p : Popup platform.Real) (old : ℕ × ℕ)
    → image_size platform canvas theme scale p old ≡ (p.screen_w * scale, surface_height * scale)
unfolding image_size
image_size-exact platform canvas theme scale p old = ground arith
