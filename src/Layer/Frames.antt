-- ===== src/Layer/Frames.antt =====
-- src/waylandlayersurface.cpp: the buffer that a frame shows, and the one that hides the island.
use Prim.Native.Nat.{min}
use native.Mathlib.Nat.{mul-le-mul_left, mul-le-mul_right, mod-eq_of_lt, mul-mod_left}
use stylus_popup.Prelude.{ℕ, ◌*◌, ◌%◌, ◌≤◌, Bool, true, false, some, ◌≡◌, ◌≢◌, ◌∙◌, ◌⊎◌, arith}
use stylus_popup.Layer.Ints.{IsWide, IsHigh}
use stylus_popup.Layer.Shown.{shown, hide-shown, commit_frame-shown}
use stylus_popup.Layer.{
  Surface, PoolAnswer, create_pool, destroy_pool, drop_buffer, drop_pool, drop_mapping, drop_file,
  ensure_pool_size, ensure_buffer,
}
use stylus_popup.Layer.Drawing.{
  Image, same_key, copy_image, update_image, present, resize, commit_frame, hide,
}

-- What an update leaves: a pool that is large enough, or none and no buffer.
update_image-enough :
    (answer : PoolAnswer) (image : Image) (s : Surface)
    → s.configured ≡ true
    → s.surface ≡ true
    → s.pool ≡ true
    → same_key image.cache_key s.last_image_key ≡ false
    → let t = update_image answer image s in
      (t.width ≡ s.width)
      × (t.height ≡ s.height)
      × (t.scale ≡ s.scale)
      × (t.visible_height ≡ s.visible_height)
      × (t.configured ≡ true)
      × (t.surface ≡ true)
      × (((t.pool ≡ true) × (s.width * s.scale * (s.height * s.scale) * 4 ≤ t.pool_size))
          ⊎ ((t.pool ≡ false) × (t.buffer ≡ false)))
unfolding update_image ensure_pool_size create_pool destroy_pool drop_buffer drop_pool drop_mapping
    drop_file copy_image
update_image-enough answer image s c su p k = ground arith

commit_frame-size :
    (works : Bool) (s : Surface)
    → s.configured ≡ true
    → s.surface ≡ true
    → s.pool ≡ true
    → 1 ≤ s.height
    → 1 ≤ s.visible_height
    → let f = commit_frame works s in
      f.buffer ≡ true
      → (f.pool ≡ true)
        × (f.pool_size ≡ s.pool_size)
        × (f.buf_w ≡ s.width * s.scale)
        × (f.buf_h ≡ min s.height s.visible_height * s.scale)
unfolding commit_frame ensure_buffer present resize
commit_frame-size works s c su p h v b = ground arith

commit_frame-lost : (works : Bool) (s : Surface) → s.pool ≡ false → commit_frame works s ≡ s
unfolding commit_frame
commit_frame-lost works s lost = ground arith

part_fits : (w m h scale size : ℕ) → m ≤ h → w * (h * scale) * 4 ≤ size → w * (m * scale) * 4 ≤ size
part_fits w m h scale size le fits =
    omega (arith, fits, mul-le-mul_left w (mul-le-mul_right scale le))

-- A frame of the island, a new image and then a commit, on a configured surface with a pool and a
-- height to show: the buffer that is left, if any, has the size of what is visible in pixels, a
-- multiple of the scale both ways, and lies in the pool.
frame_fits :
    (answer : PoolAnswer) (works : Bool) (image : Image) (s : Surface)
    → s.configured ≡ true
    → s.surface ≡ true
    → s.pool ≡ true
    → same_key image.cache_key s.last_image_key ≡ false
    → 1 ≤ s.height
    → 1 ≤ s.visible_height
    → (commit_frame works (update_image answer image s)).buffer ≡ true
    → let f = commit_frame works (update_image answer image s) in
      (f.pool ≡ true)
      × (f.buf_w ≡ s.width * s.scale)
      × (f.buf_h ≡ min s.height s.visible_height * s.scale)
      × (f.buf_w * f.buf_h * 4 ≤ f.pool_size)
frame_fits answer works image s c su p k h v b =
    let t = update_image answer image s in
    ground (
      arith,
      update_image-enough answer image s c su p k,
      commit_frame-size works t,
      commit_frame-lost works t,
      part_fits (s.width * s.scale) (min s.height s.visible_height) s.height s.scale t.pool_size,
      b,
    )

one_mod : (n : ℕ) → 2 ≤ n → 1 % n ≢ 0
one_mod n two = λ e. omega (arith, mod-eq_of_lt two, e)

commit_frame-kept :
    (works : Bool) (s : Surface)
    → let f = commit_frame works s in
      (f.configured ≡ s.configured)
      × (f.surface ≡ s.surface)
      × (f.pool ≡ s.pool)
      × (f.width ≡ s.width)
      × (f.scale ≡ s.scale)
unfolding commit_frame ensure_buffer present resize
commit_frame-kept works s = ground arith

-- Where the pixels of a surface with a part to show are scaled, and an int holds its sizes: the buffer that a frame shows is a
-- multiple of the scale both ways, and the one that hiding it then shows is not, since it is one pixel
-- high, whatever the scale.
pub hide_height :
    (s : Surface)
    → s.configured ≡ true
    → s.surface ≡ true
    → s.pool ≡ true
    → 1 ≤ s.height
    → 1 ≤ s.visible_height
    → 2 ≤ s.scale
    → IsWide s.scale s.height s.width
    → IsHigh s.scale s.height
    → let rows = min s.height s.visible_height * s.scale in
      (shown (commit_frame true s).calls ≡ some (record { w = s.width * s.scale; h = rows }))
      × (s.width * s.scale % s.scale ≡ 0)
      × (rows % s.scale ≡ 0)
      × (shown (hide true (commit_frame true s)).calls
          ≡ some (record { w = s.width * s.scale; h = 1 }))
      × (1 % s.scale ≢ 0)
unfolding commit_frame
hide_height s c su p h v two wide high =
    let (c', su', p', w, sc) = commit_frame-kept true s in
    let (_, _, row, _) = hide-shown (commit_frame true s) (c' ∙ c) (su' ∙ su) (p' ∙ p) in
    (
      commit_frame-shown s c su p h v,
      mul-mod_left s.width s.scale,
      mul-mod_left (min s.height s.visible_height) s.scale,
      rw (w, sc) at row,
      one_mod s.scale two,
    )
