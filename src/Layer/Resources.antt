-- ===== src/Layer/Resources.antt =====
-- src/waylandlayersurface.cpp: every operation keeps what is held in agreement with the fields.
use Prim.Native.Nat.{min, max}
use native.Mathlib.Nat.{mul-le-mul_left}
use stylus_popup.Prelude.{
  ℕ, zero, suc, ◌+◌, ◌*◌, ◌≤◌, ◌<◌, Bool, true, false, some, List, ◌∷◌, pos, ◌≡◌, arith,
}
use stylus_popup.Layer.{
  Call, writes, sets_size, Surface, PoolAnswer, no_fd, no_mapping, no_pool, made, create_pool,
  drop_buffer, drop_pool, drop_mapping, drop_file, destroy_pool, ensure_pool_size, ensure_buffer,
}
use stylus_popup.Layer.Drawing.{
  Image, copy_rows, copy_image, update_image, present, resize, commit_frame, hide,
}
use stylus_popup.Layer.Account.{account, held_after, held_of, IsHeld}

pub create_pool-IsHeld :
    (answer : PoolAnswer) (w h : ℕ) (s : Surface)
    → s.fd_open ≡ false
    → IsHeld s
    → IsHeld (create_pool answer w h s).0
unfolding create_pool held_after account
create_pool-IsHeld no_fd w h s free v = ground (arith, v.agrees, v.in_pool, v.in_mapping, v.in_file)
create_pool-IsHeld no_mapping w h s free v =
    ground (arith, v.agrees, v.in_pool, v.in_mapping, v.in_file)
create_pool-IsHeld no_pool w h s free v =
    ground (arith, v.agrees, v.in_pool, v.in_mapping, v.in_file)
create_pool-IsHeld made w h s free v = ground (arith, v.agrees, v.in_pool, v.in_mapping, v.in_file)

-- The pool is taken down: nothing is held any more.
pub destroy_pool-IsHeld :
    (s : Surface)
    → IsHeld s
    → let t = destroy_pool s in
      IsHeld t × (t.buffer ≡ false) × (t.pool ≡ false) × (t.fd_open ≡ false)
unfolding destroy_pool drop_buffer drop_pool drop_mapping drop_file held_after account
destroy_pool-IsHeld s v = ground (arith, v.agrees, v.in_pool, v.in_mapping, v.in_file)

ensure_pool_size-IsHeld :
    (answer : PoolAnswer) (w h : ℕ) (s : Surface)
    → IsHeld s
    → IsHeld (ensure_pool_size answer w h s).0
unfolding ensure_pool_size
ensure_pool_size-IsHeld answer w h s v =
    ground (arith, v, destroy_pool-IsHeld s v, create_pool-IsHeld answer w h (destroy_pool s))

ensure_buffer-IsHeld :
    (works : Bool) (w h : ℕ) (s : Surface)
    → s.pool ≡ true
    → IsHeld s
    → let (t, there) = ensure_buffer works w h (w * 4) s in
      IsHeld t × (there ≡ true → (t.buffer ≡ true) × (t.buf_w ≡ w) × (t.buf_h ≡ h))
unfolding ensure_buffer held_after account
ensure_buffer-IsHeld works w h s p v = ground (arith, v.agrees, v.in_pool, v.in_mapping, v.in_file)

copy_rows-held_after :
    (y n stride length : ℕ) (calls : List Call) (s : Surface)
    → s.data_mapped ≡ true
    → ((k : ℕ) → k < y + n → k * stride + length ≤ s.pool_size)
    → held_after calls ≡ some (held_of s)
    → held_after (copy_rows y n stride length calls) ≡ some (held_of s)
unfolding copy_rows held_after account
copy_rows-held_after y zero stride length calls s m fits e = e
copy_rows-held_after y (suc n) stride length calls s m fits e =
    let one = fits y (omega arith) in
    copy_rows-held_after (suc y) n stride length (writes (y * stride) length ∷ calls) s m
      (λ k lt. fits k (omega (arith, lt))) (ground (arith, one, e, m))

present-IsHeld : (w h : ℕ) (s : Surface) → s.buffer ≡ true → IsHeld s → IsHeld (present w h s)
unfolding present held_after account
present-IsHeld w h s b v = ground (arith, v.agrees, v.in_pool, v.in_mapping, v.in_file)

resize-IsHeld : (h : ℕ) (s : Surface) → IsHeld s → IsHeld (resize h s)
unfolding resize held_after account
resize-IsHeld h s v = ground (arith, v.agrees, v.in_pool, v.in_mapping, v.in_file)

-- What a pool that is large enough leaves alone, and how large it is.
ensure_pool_size-enough :
    (answer : PoolAnswer) (w h : ℕ) (s : Surface)
    → let (t, enough) = ensure_pool_size answer w h s in
      (t.width ≡ s.width)
      × (t.height ≡ s.height)
      × (t.scale ≡ s.scale)
      × (enough ≡ true → (t.pool ≡ true) × (w * h * 4 ≤ t.pool_size))
unfolding ensure_pool_size create_pool destroy_pool drop_buffer drop_pool drop_mapping drop_file
ensure_pool_size-enough answer w h s = ground arith

pub row_fits : (k pw cw rows : ℕ) → k < rows → cw ≤ pw → k * (pw * 4) + cw * 4 ≤ pw * rows * 4
row_fits k pw cw rows lt le = omega (arith, lt, le, mul-le-mul_left pw lt)

pub rows_fit : (pw n rows : ℕ) → n ≤ rows → pw * 4 * n ≤ pw * rows * 4
rows_fit pw n rows le = omega (arith, mul-le-mul_left pw le)

copy_image-IsHeld :
    (image : Image) (s : Surface)
    → s.pool ≡ true
    → s.width * s.scale * (s.height * s.scale) * 4 ≤ s.pool_size
    → IsHeld s
    → IsHeld (copy_image image s)
unfolding copy_image
copy_image-IsHeld image s p fits v =
    let pw = s.width * s.scale in
    let rows = s.height * s.scale in
    let m = v.in_mapping p in
    let whole : held_after (writes 0 (pw * 4 * min image.height rows) ∷ s.calls)
        ≡ some (held_of s) =
      unfold held_after account in
      ground (arith, rows_fit pw (min image.height rows) rows (omega arith), v.agrees, m, fits) in
    let by_rows =
      copy_rows-held_after 0 (min image.height rows) (pw * 4) (min image.width pw * 4) s.calls s m
        (λ k lt.
          omega (
            arith,
            fits,
            row_fits k pw (min image.width pw) rows (omega (arith, lt)) (omega arith),
          ))
        v.agrees in
    ground (arith, whole, by_rows, v.in_pool, v.in_mapping, v.in_file)

pub update_image-IsHeld :
    (answer : PoolAnswer) (image : Image) (s : Surface)
    → IsHeld s
    → IsHeld (update_image answer image s)
unfolding update_image
update_image-IsHeld answer image s v =
    let keyed = record s { last_image_key = image.cache_key } in
    let same : IsHeld keyed = record {
      agrees = v.agrees;
      in_pool = v.in_pool;
      in_mapping = v.in_mapping;
      in_file = v.in_file;
    } in
    let w = s.width * s.scale in
    let h = s.height * s.scale in
    let sized = ensure_pool_size answer w h keyed in
    ground (
      arith,
      v,
      ensure_pool_size-enough answer w h keyed,
      ensure_pool_size-IsHeld answer w h keyed same,
      copy_image-IsHeld image sized.0,
    )

resized-buffer : (h : ℕ) (s : Surface) → (resize h s).buffer ≡ s.buffer
unfolding resize
resized-buffer h s = ground arith

wiped-IsHeld :
    (s : Surface)
    → IsHeld s
    → s.pool ≡ true
    → IsHeld (record s {
      queue_timer = false;
      last_image_key = pos 0;
      calls = writes 0 s.pool_size ∷ s.calls;
    })
unfolding held_after account
wiped-IsHeld s v p = ground (arith, p, v.agrees, v.in_pool, v.in_mapping, v.in_file)

sized-IsHeld :
    (w : ℕ) (s : Surface)
    → IsHeld s
    → IsHeld (record s { committed_height = 1; calls = sets_size w 1 ∷ s.calls })
unfolding held_after account
sized-IsHeld w s v = ground (arith, v.agrees, v.in_pool, v.in_mapping, v.in_file)

pub commit_frame-IsHeld : (works : Bool) (s : Surface) → IsHeld s → IsHeld (commit_frame works s)
unfolding commit_frame
commit_frame-IsHeld works s v =
    let started = record s { queue_timer = true } in
    let same : IsHeld started = record {
      agrees = v.agrees;
      in_pool = v.in_pool;
      in_mapping = v.in_mapping;
      in_file = v.in_file;
    } in
    let vis_h = max 1 (min s.height s.visible_height) in
    let w = s.width * s.scale in
    let ready = ensure_buffer works w (vis_h * s.scale) (w * 4) started in
    ground (
      arith,
      v,
      ensure_buffer-IsHeld works w (vis_h * s.scale) started,
      same,
      resized-buffer vis_h ready.0,
      resize-IsHeld vis_h ready.0,
      present-IsHeld w (vis_h * s.scale) (resize vis_h ready.0),
    )

pub hide-IsHeld : (works : Bool) (s : Surface) → IsHeld s → IsHeld (hide works s)
unfolding hide
hide-IsHeld works s v =
    let wiped = record s {
      queue_timer = false;
      last_image_key = pos 0;
      calls = writes 0 s.pool_size ∷ s.calls;
    } in
    let w = s.width * s.scale in
    let ready = (ensure_buffer works w 1 (w * 4) wiped).0 in
    let sized = record ready { committed_height = 1; calls = sets_size s.width 1 ∷ ready.calls } in
    ground (
      arith,
      v,
      wiped-IsHeld s v,
      ensure_buffer-IsHeld works w 1 wiped,
      sized-IsHeld s.width ready,
      present-IsHeld w 1 sized,
    )
