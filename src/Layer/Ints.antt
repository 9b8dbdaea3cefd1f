-- ===== src/Layer/Ints.antt =====
-- src/waylandlayersurface.cpp: the sizes that an int holds. The surface computes in int, and the model in
-- numbers without a bound: they agree as long as no result passes the bound, which is shown here of all
-- that the operations compute on a screen of such a size.
pub mod Framed
use Prim.Native.Nat.{min, max}
use native.Mathlib.Nat.{mul-le-mul_right}
use stylus_popup.Prelude.{
  ℕ, zero, suc, ◌+◌, ◌*◌, ◌≤◌, ◌<◌, Bool, true, false, ◌&&◌, List, [], ◌∷◌, pos, ◌≡◌, ltb, arith,
}
use stylus_popup.Layer.{
  Call, maps, unmaps, writes, makes_pool, makes_buffer, sets_size, attaches, damages, Surface,
  PoolAnswer, no_fd, no_mapping, no_pool, made, create_pool, drop_buffer, drop_pool, drop_mapping,
  drop_file, destroy_pool, ensure_pool_size, ensure_buffer,
}
use stylus_popup.Layer.Drawing.{
  Image, copy_rows, copy_image, update_image, present, resize, commit_frame, hide,
}
use stylus_popup.Layer.Resources.{row_fits, rows_fit}

-- The first number that an int does not hold.
abbrev pub int_bound : ℕ
int_bound = 2147483648

-- Whether an int holds the numbers of a call, and the end of a write.
unfoldable pub is_int : Call → Bool
is_int (maps n) = ltb n int_bound
is_int (unmaps n) = ltb n int_bound
is_int (writes offset length) = ltb (offset + length) int_bound
is_int (makes_pool n) = ltb n int_bound
is_int (makes_buffer w h stride) = ltb w int_bound && ltb h int_bound && ltb stride int_bound
is_int (sets_size w h) = ltb w int_bound && ltb h int_bound
is_int (attaches w h) = ltb w int_bound && ltb h int_bound
is_int (damages w h) = ltb w int_bound && ltb h int_bound
is_int call = true

unfoldable pub are_ints : List Call → Bool
are_ints [] = true
are_ints (call ∷ calls) = is_int call && are_ints calls

-- A width that an int holds, with the length of its rows of pixels and of the whole image.
pub record IsWide (scale height w : ℕ) : Type 0 where
  pub width : w < int_bound
  pub row : w * scale * 4 < int_bound
  pub image : w * scale * (height * scale) * 4 < int_bound

-- A height that an int holds, in pixels too.
pub record IsHigh (scale height : ℕ) : Type 0 where
  pub some_row : 1 ≤ height
  pub height_fits : height < int_bound
  pub rows : height * scale < int_bound

-- The surface keeps to that, with its pool and its buffer.
pub record IsSized (scale height : ℕ) (s : Surface) : Type 0 where
  pub scale_kept : s.scale ≡ scale
  pub height_kept : s.height ≡ height
  pub wide : IsWide scale height s.width
  pub pool : s.pool_size < int_bound
  pub buffer : (s.buf_w < int_bound) × (s.buf_h < int_bound)
  pub ints : are_ints s.calls ≡ true

pub create_pool-IsSized :
    {scale height : ℕ} (answer : PoolAnswer) (w h : ℕ) (s : Surface)
    → w * h * 4 < int_bound
    → IsSized scale height s
    → IsSized scale height (create_pool answer w h s).0
unfolding create_pool are_ints is_int
create_pool-IsSized no_fd w h s fits v = ground (arith, v, v.ints)
create_pool-IsSized no_mapping w h s fits v = ground (arith, v, v.ints)
create_pool-IsSized no_pool w h s fits v = ground (arith, v, v.ints)
create_pool-IsSized made w h s fits v = ground (arith, v, v.ints)

pub destroy_pool-IsSized :
    {scale height : ℕ} (s : Surface)
    → IsSized scale height s
    → IsSized scale height (destroy_pool s)
unfolding destroy_pool drop_buffer drop_pool drop_mapping drop_file are_ints is_int
destroy_pool-IsSized s v = ground (arith, v, v.ints, v.pool)

ensure_pool_size-IsSized :
    {scale height : ℕ} (answer : PoolAnswer) (w h : ℕ) (s : Surface)
    → w * h * 4 < int_bound
    → IsSized scale height s
    → IsSized scale height (ensure_pool_size answer w h s).0
unfolding ensure_pool_size
ensure_pool_size-IsSized answer w h s fits v =
    ground
      (arith, v, create_pool-IsSized answer w h (destroy_pool s) fits (destroy_pool-IsSized s v))

ensure_pool_size-width :
    (answer : PoolAnswer) (w h : ℕ) (s : Surface)
    → (ensure_pool_size answer w h s).0.width ≡ s.width
unfolding ensure_pool_size create_pool destroy_pool drop_buffer drop_pool drop_mapping drop_file
ensure_pool_size-width answer w h s = ground arith

pub ensure_buffer-IsSized :
    {scale height : ℕ} (works : Bool) (w h : ℕ) (s : Surface)
    → w * 4 < int_bound
    → h < int_bound
    → IsSized scale height s
    → IsSized scale height (ensure_buffer works w h (w * 4) s).0
unfolding ensure_buffer are_ints is_int
ensure_buffer-IsSized works w h s fw fh v = ground (arith, v, v.ints, v.buffer)

copy_rows-ints :
    (y n stride length : ℕ) (calls : List Call)
    → ((k : ℕ) → k < y + n → k * stride + length < int_bound)
    → are_ints calls ≡ true
    → are_ints (copy_rows y n stride length calls) ≡ true
unfolding copy_rows are_ints is_int
copy_rows-ints y zero stride length calls fits e = e
copy_rows-ints y (suc n) stride length calls fits e =
    let one = fits y (omega arith) in
    copy_rows-ints (suc y) n stride length (writes (y * stride) length ∷ calls)
      (λ k lt. fits k (omega (arith, lt))) (ground (arith, one, e))

copy_image-IsSized :
    {scale height : ℕ} (image : Image) (s : Surface)
    → IsSized scale height s
    → IsSized scale height (copy_image image s)
unfolding copy_image
copy_image-IsSized {scale} {height} image s v =
    let pw = s.width * s.scale in
    let rows = s.height * s.scale in
    let fits : pw * rows * 4 < int_bound = rw (v.scale_kept, v.height_kept) v.wide.image in
    let whole : are_ints (writes 0 (pw * 4 * min image.height rows) ∷ s.calls) ≡ true =
      unfold are_ints is_int in
      ground (arith, rows_fit pw (min image.height rows) rows (omega arith), v.ints, fits) in
    let by_rows =
      copy_rows-ints 0 (min image.height rows) (pw * 4) (min image.width pw * 4) s.calls
        (λ k lt.
          omega (
            arith,
            fits,
            row_fits k pw (min image.width pw) rows (omega (arith, lt)) (omega arith),
          ))
        v.ints in
    ground (arith, whole, by_rows, v)

pub update_image-IsSized :
    {scale height : ℕ} (answer : PoolAnswer) (image : Image) (s : Surface)
    → IsSized scale height s
    → IsSized scale height (update_image answer image s)
unfolding update_image
update_image-IsSized {scale} {height} answer image s v =
    let keyed = record s { last_image_key = image.cache_key } in
    let w = s.width * s.scale in
    let h = s.height * s.scale in
    let fits : w * h * 4 < int_bound = rw (v.scale_kept, v.height_kept) v.wide.image in
    let same : IsSized scale height keyed = ground (arith, v) in
    let sized = ensure_pool_size answer w h keyed in
    let kept = ensure_pool_size-IsSized answer w h keyed fits same in
    ground (arith, v, kept, copy_image-IsSized image sized.0 kept)
