-- ===== src/Layer/Protocol.antt =====
-- src/waylandlayersurface.cpp: the order and the sizes that the protocols ask of the surface's calls.
pub mod Lawful
mod Tests
use Prim.Native.Nat.{min, max}
use native.Mathlib.Nat.{mul-pos}
use stylus_popup.Prelude.{
  ℕ, zero, suc, ◌+◌, ◌*◌, ◌≤◌, ◌<◌, Bool, true, false, not, ◌&&◌, ◌||◌, Option, none, some, List,
  [], ◌∷◌, pos, ◌≡◌, ◌==◌, ltb, refl, arith, if_elim,
}
use stylus_popup.Layer.{
  Call, opens_file, closes_file, maps, unmaps, writes, makes_pool, destroys_pool, makes_buffer,
  destroys_buffer, sets_size, attaches, damages, commits, acks, Surface, PoolAnswer, no_fd,
  no_mapping, no_pool, made, create_pool, drop_buffer, drop_pool, drop_mapping, drop_file,
  destroy_pool, ensure_pool_size, ensure_buffer,
}
use stylus_popup.Layer.Drawing.{
  Image, copy_rows, copy_image, update_image, present, resize, commit_frame, hide,
  set_visible_height, ls_configure, ls_closed, first_commit, init,
}
use stylus_popup.Layer.Lives.{
  Request, update, commit, conceal, show, configure, close, obey, obey_all,
}

-- Whether a configuration was acknowledged, of some calls with the newest first.
unfoldable pub acked : List Call → Bool
acked [] = false
acked (acks serial ∷ calls) = true
acked (call ∷ calls) = acked calls

-- Whether a buffer was attached and the damage of it told just before.
unfoldable pub presented : List Call → Bool
presented (damages w h ∷ attaches x y ∷ calls) = true
presented calls = false

-- What the protocols ask of a call after some others: a buffer has a positive width and height, with
-- whole rows; a surface is asked a positive size; no buffer is attached before a configuration was
-- acknowledged; and from then on each commit presents one.
unfoldable pub is_lawful : Call → List Call → Bool
is_lawful (makes_buffer w h stride) calls = ltb 0 w && ltb 0 h && stride == w * 4
is_lawful (sets_size w h) calls = ltb 0 w && ltb 0 h
is_lawful (attaches w h) calls = acked calls
is_lawful commits calls = not (acked calls) || presented calls
is_lawful call calls = true

unfoldable pub are_lawful : List Call → Bool
are_lawful [] = true
are_lawful (call ∷ calls) = is_lawful call calls && are_lawful calls

pub record IsLawful (s : Surface) : Type 0 where
  pub lawful : are_lawful s.calls ≡ true
  pub configured : s.configured ≡ true → acked s.calls ≡ true
  pub wide : 0 < s.width
  pub scaled : 0 < s.scale

pub create_pool-IsLawful :
    (answer : PoolAnswer) (w h : ℕ) (s : Surface)
    → IsLawful s
    → IsLawful (create_pool answer w h s).0
unfolding create_pool are_lawful is_lawful acked
create_pool-IsLawful no_fd w h s v = ground (arith, v.lawful, v.configured, v.wide, v.scaled)
create_pool-IsLawful no_mapping w h s v = ground (arith, v.lawful, v.configured, v.wide, v.scaled)
create_pool-IsLawful no_pool w h s v = ground (arith, v.lawful, v.configured, v.wide, v.scaled)
create_pool-IsLawful made w h s v = ground (arith, v.lawful, v.configured, v.wide, v.scaled)

destroy_pool-IsLawful : (s : Surface) → IsLawful s → IsLawful (destroy_pool s)
unfolding destroy_pool drop_buffer drop_pool drop_mapping drop_file are_lawful is_lawful acked
destroy_pool-IsLawful s v = ground (arith, v.lawful, v.configured, v.wide, v.scaled)

pub ensure_pool_size-IsLawful :
    (answer : PoolAnswer) (w h : ℕ) (s : Surface)
    → IsLawful s
    → IsLawful (ensure_pool_size answer w h s).0
unfolding ensure_pool_size
ensure_pool_size-IsLawful answer w h s v =
    ground (arith, v, destroy_pool-IsLawful s v, create_pool-IsLawful answer w h (destroy_pool s))

pub ensure_buffer-IsLawful :
    (works : Bool) (w h : ℕ) (s : Surface)
    → 0 < w
    → 0 < h
    → IsLawful s
    → IsLawful (ensure_buffer works w h (w * 4) s).0
      × ((ensure_buffer works w h (w * 4) s).0.configured ≡ s.configured)
unfolding ensure_buffer are_lawful is_lawful acked
ensure_buffer-IsLawful works w h s pw ph v =
    ground (arith, v.lawful, v.configured, v.wide, v.scaled)

copy_rows-lawful :
    (y n stride length : ℕ) (calls : List Call)
    → let after = copy_rows y n stride length calls in
      (are_lawful after ≡ are_lawful calls) × (acked after ≡ acked calls)
unfolding copy_rows are_lawful is_lawful acked
copy_rows-lawful y zero stride length calls = (refl, refl)
copy_rows-lawful y (suc n) stride length calls =
    copy_rows-lawful (suc y) n stride length (writes (y * stride) length ∷ calls)

pub copy_image-IsLawful : (image : Image) (s : Surface) → IsLawful s → IsLawful (copy_image image s)
unfolding copy_image are_lawful is_lawful acked
copy_image-IsLawful image s v =
    let rows = min image.height (s.height * s.scale) in
    let width = min image.width (s.width * s.scale) * 4 in
    ground (
      arith,
      copy_rows-lawful 0 rows (s.width * s.scale * 4) width s.calls,
      v.lawful,
      v.configured,
      v.wide,
      v.scaled,
    )
