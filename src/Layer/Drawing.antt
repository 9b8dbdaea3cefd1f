-- ===== src/Layer/Drawing.antt =====
-- src/waylandlayersurface.cpp: the images and the frames of the surface, its hiding, what the compositor
-- tells of it, and the part of `init` that comes after the first commit.
use Prim.Native.Nat.{min, max}
use stylus_popup.Prelude.{
  ℕ, zero, suc, ◌*◌, Bool, true, false, not, ◌&&◌, ◌||◌, Option, none, some, List, [], ◌∷◌, ℤ, pos,
  ◌==◌, ltb, leb_ℤ, if◌then◌else◌,
}
use stylus_popup.Layer.{
  Call, writes, sets_size, attaches, damages, commits, acks, Surface, fresh_surface, PoolAnswer,
  create_pool, ensure_pool_size, ensure_buffer,
}

pub record Image : Type 0 where
  pub cache_key : ℤ
  pub width : ℕ
  pub height : ℕ
  pub bytes_per_line : ℕ

-- The rows that are copied one by one, from row `y` on: as many as `n`.
unfoldable pub copy_rows : (y n stride length : ℕ) → List Call → List Call
copy_rows y zero stride length calls = calls
copy_rows y (suc n) stride length calls =
    copy_rows (suc y) n stride length (writes (y * stride) length ∷ calls)

-- The lengths and the offsets are in int, and no more than the image's length where that is held.
unfoldable pub copy_image : Image → Surface → Surface
copy_image image s =
    let phys_w = s.width * s.scale in
    let stride = phys_w * 4 in
    let copy_w = min image.width phys_w in
    let copy_h = min image.height (s.height * s.scale) in
    if image.bytes_per_line == stride && copy_w == phys_w
    then record s { calls = writes 0 (stride * copy_h) ∷ s.calls }
    else record s { calls = copy_rows 0 copy_h stride (copy_w * 4) s.calls }

abbrev pub same_key : ℤ → ℤ → Bool
same_key a b = leb_ℤ a b && leb_ℤ b a

unfoldable pub update_image : PoolAnswer → Image → Surface → Surface
update_image answer image s =
    let keyed = record s { last_image_key = image.cache_key } in
    let (sized, enough) = ensure_pool_size answer (s.width * s.scale) (s.height * s.scale) keyed in
    if not s.configured || not s.surface || not s.pool
    then s
    else if same_key image.cache_key s.last_image_key
    then s
    else if not enough
    then sized
    else copy_image image sized

-- The requests that show the buffer.
unfoldable pub present : ℕ → ℕ → Surface → Surface
present w h s = record s { calls = commits ∷ damages w h ∷ attaches s.buf_w s.buf_h ∷ s.calls }

-- The end of `commitFrame`, for a buffer that is there.
unfoldable pub resize : ℕ → Surface → Surface
resize vis_h s =
    if vis_h == s.committed_height
    then s
    else record s { committed_height = vis_h; calls = sets_size s.width vis_h ∷ s.calls }

unfoldable pub commit_frame : Bool → Surface → Surface
commit_frame works s =
    let started = record s { queue_timer = true } in
    let vis_h = max 1 (min s.height s.visible_height) in
    let phys_w = s.width * s.scale in
    let (ready, there) = ensure_buffer works phys_w (vis_h * s.scale) (phys_w * 4) started in
    if not s.configured || not s.surface || not s.pool || s.visible_height == 0
    then s
    else if not there
    then ready
    else present phys_w (vis_h * s.scale) (resize vis_h ready)

-- `hide`: the pool is wiped, and a transparent buffer one pixel high is shown.
unfoldable pub hide : Bool → Surface → Surface
hide works s =
    let phys_w = s.width * s.scale in
    let wiped = record s {
      queue_timer = false;
      last_image_key = pos 0;
      calls = writes 0 s.pool_size ∷ s.calls;
    } in
    let (ready, there) = ensure_buffer works phys_w 1 (phys_w * 4) wiped in
    if not s.surface || not s.configured || not s.pool
    then s
    else if not there
    then ready
    else present phys_w 1
        (record ready { committed_height = 1; calls = sets_size s.width 1 ∷ ready.calls })

unfoldable pub set_visible_height : ℕ → Surface → Surface
set_visible_height h s = record s { visible_height = h }

-- The cast of the width to int keeps it where an int holds it.
unfoldable pub ls_configure : (serial w : ℕ) → Surface → Surface
ls_configure serial w s = record s {
  width = if ltb 0 w then w else s.width;
  configured = true;
  calls = acks serial ∷ s.calls;
}

unfoldable pub ls_closed : Surface → Surface
ls_closed s = record s { configured = false }

-- The surface that `init` makes, up to its first commit.
unfoldable pub first_commit : (scale width height : ℕ) → Surface
first_commit scale width height = record fresh_surface {
  surface = true;
  scale = scale;
  width = width;
  height = height;
  calls = commits ∷ sets_size width 1 ∷ [];
}

-- `init`, once the globals are there. The compositor answers the first commit by a configuration if
-- `configures` is one; then come the pool and the empty frame.
unfoldable pub init :
    (scale width height : ℕ)
    → (configures : Option (ℕ × ℕ)) → PoolAnswer
    → (works : Bool) → Surface × Bool
init scale width height configures answer works =
    let asked = first_commit scale width height in
    elim configures [
      | none ↦ (asked, false)
      | some (serial, w) ↦
          let (pooled, there) =
            create_pool answer (width * scale) (height * scale) (ls_configure serial w asked) in
          if there then (hide works pooled, true) else (pooled, false)
    ]
