-- ===== src/Layer/Setup/Tests.antt =====
-- The island's surface on a screen at twice the pixels, and places that are refused.
use stylus_popup.Prelude.{none, some, pos, ◌≡◌, refl}
use stylus_popup.Layer.Setup.{top, asks, admit_all, admit, nothing_pending, scale_of}

scaled_twice : scale_of (some (pos 2)) ≡ 2
unfolding scale_of
scaled_twice = refl

-- A fifth edge, and a surface of no width that is not held at both sides.
refused_anchors : admit_all (asks 1 100 21 top) nothing_pending ≡ none
unfolding admit_all admit asks
refused_anchors = refl

refused_width : admit_all (asks 1 0 5 top) nothing_pending ≡ none
unfolding admit_all admit asks
refused_width = refl
