-- ===== src/Layer/Setup.antt =====
-- src/waylandlayersurface.cpp and src/popupwidget.cpp: the scale, and what `init` asks of the surface and
-- of the layer surface before the first commit, with what the island's constructor hands in.
mod Tests
use Prim.Native.String.{String}
use Prim.Native.Nat.{max}
use stylus_popup.Prelude.{
  ℕ, ◌+◌, ◌*◌, ◌/◌, ◌%◌, ◌≤◌, ◌<◌, Bool, true, false, not, ◌&&◌, ◌||◌, Option, none, some, List, [],
  ◌∷◌, ℤ, pos, negsuc, pos_part, ◌≡◌, ◌==◌, ltb, ltb_ℤ, if◌then◌else◌, refl, arith,
}
use stylus_popup.Layer.{Surface, PoolAnswer}
use stylus_popup.Layer.Drawing.{init}

pub data Level : Type 0 where
  background bottom top overlay : Level

abbrev pub level_code : Level → ℕ
level_code background = 0
level_code bottom = 1
level_code top = 2
level_code overlay = 3

abbrev pub anchor_top : ℕ
anchor_top = 1

abbrev pub anchor_bottom : ℕ
anchor_bottom = 2

abbrev pub anchor_left : ℕ
anchor_left = 4

abbrev pub anchor_right : ℕ
anchor_right = 8

-- `std::max(1, qRound(ratio))` of the primary screen's pixel ratio, which Qt rounds; 1 without one.
unfoldable pub scale_of : Option ℤ → ℕ
scale_of none = 1
scale_of (some ratio) = if ltb_ℤ (pos 1) ratio then pos_part ratio else 1

-- What is asked of the surface and of the layer surface.
pub data Ask : Type 0 where
  buffer_scale : ℕ → Ask
  empty_input : Ask
  layer_surface : Level → String → Ask
  size : ℕ → ℕ → Ask
  anchor exclusive_zone keyboard : ℕ → Ask
  margin : ℕ → ℕ → ℕ → ℕ → Ask
  first_commit : Ask

-- The requests of `init` in their order.
unfoldable pub asks : (scale width anchors : ℕ) → Level → List Ask
asks scale width anchors level =
    buffer_scale scale
    ∷ empty_input
    ∷ layer_surface level "popup"
    ∷ size width 1
    ∷ anchor anchors
    ∷ exclusive_zone 0
    ∷ margin 0 0 0 0
    ∷ keyboard 0
    ∷ first_commit
    ∷ []

-- What the compositor holds of a surface that is not committed yet.
pub record Pending : Type 0 where
  pub scale : ℕ
  pub takes_input : Bool
  pub level : Option Level
  pub width : ℕ
  pub height : ℕ
  pub anchors : ℕ
  pub zone : ℕ
  pub keyboard : ℕ
  pub committed : Bool

abbrev pub nothing_pending : Pending
nothing_pending = record {
  scale = 1;
  takes_input = true;
  level = none;
  width = 0;
  height = 0;
  anchors = 0;
  zone = 0;
  keyboard = 0;
  committed = false;
}

-- Whether the anchors hold both of two edges.
abbrev pub holds : ℕ → ℕ → Bool
holds edge anchors = anchors / edge % 2 == 1

-- The protocol's rules: a scale is positive; the role is given once, and what belongs to it comes
-- after; the anchors are of the four edges; and what is committed has a width or both side edges, and
-- a height or the edges above and below.
unfoldable pub admit : Ask → Pending → Option Pending
admit (buffer_scale n) p = if ltb 0 n then some (record p { scale = n }) else none
admit empty_input p = some (record p { takes_input = false })
admit (layer_surface level name) p = elim p.level [
  | none ↦ some (record p { level = some level })
  | some l ↦ none
]
admit (size w h) p = elim p.level [
  | none ↦ none
  | some l ↦ some (record p { width = w; height = h })
]
admit (anchor n) p = elim p.level [
  | none ↦ none
  | some l ↦ if ltb n 16 then some (record p { anchors = n }) else none
]
admit (exclusive_zone n) p = elim p.level [ none ↦ none | some l ↦ some (record p { zone = n }) ]
admit (keyboard n) p = elim p.level [ none ↦ none | some l ↦ some (record p { keyboard = n }) ]
admit (margin t r b l) p = elim p.level [ none ↦ none | some l ↦ some p ]
admit first_commit p = elim p.level [
  | none ↦ none
  | some l ↦
      if (ltb 0 p.width || holds anchor_left p.anchors && holds anchor_right p.anchors)
        && (ltb 0 p.height || holds anchor_top p.anchors && holds anchor_bottom p.anchors)
      then some (record p { committed = true })
      else none
]

unfoldable pub admit_all : List Ask → Pending → Option Pending
admit_all [] p = some p
admit_all (a ∷ rest) p = elim (admit a p) [ none ↦ none | some q ↦ admit_all rest q ]

-- The width of the screen, the height of the surface and the place that the island asks for.
abbrev pub island_anchors : ℕ
island_anchors = anchor_top + anchor_left + anchor_right

unfoldable pub island_asks : Option ℤ → ℕ → List Ask
island_asks ratio screen_w = asks (scale_of ratio) screen_w island_anchors overlay

scale_of-positive : (ratio : Option ℤ) → 0 < scale_of ratio
unfolding scale_of
scale_of-positive none = omega arith
scale_of-positive (some ratio) = ground arith

-- What the island asks of a screen of any width, with any pixel ratio or none: the compositor admits
-- every request, and has a surface on the overlay level at the upper edge, between both sides, one
-- row high, that takes no input and no keyboard, reserves nothing, and has a positive scale.
island-admitted :
    (ratio : Option ℤ) (screen_w : ℕ)
    → (admit_all (island_asks ratio screen_w) nothing_pending
        ≡ some (record {
          scale = scale_of ratio;
          takes_input = false;
          level = some overlay;
          width = screen_w;
          height = 1;
          anchors = island_anchors;
          zone = 0;
          keyboard = 0;
          committed = true;
        }))
      × (0 < scale_of ratio)
unfolding admit_all admit island_asks asks
island-admitted ratio screen_w = ground (arith, scale_of-positive ratio)
