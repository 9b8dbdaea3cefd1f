-- ===== src/Layer/Ints/Framed.antt =====
-- src/waylandlayersurface.cpp: the frames and the hiding keep to the sizes that an int holds.
use Prim.Native.Nat.{min, max}
use native.Mathlib.Nat.{mul-le-mul_right}
use stylus_popup.Prelude.{ℕ, ◌*◌, ◌≤◌, ◌<◌, Bool, true, false, ◌∷◌, pos, arith}
use stylus_popup.Layer.{writes, sets_size, Surface, ensure_buffer}
use stylus_popup.Layer.Drawing.{present, resize, commit_frame, hide}
use stylus_popup.Layer.Ints.{int_bound, is_int, are_ints, IsHigh, IsSized, ensure_buffer-IsSized}

present-IsSized :
    {scale height : ℕ} (w h : ℕ) (s : Surface)
    → w < int_bound
    → h < int_bound
    → IsSized scale height s
    → IsSized scale height (present w h s)
unfolding present are_ints is_int
present-IsSized w h s fw fh v = ground (arith, v, v.ints, v.buffer)

asked_size-IsSized :
    {scale height : ℕ} (w h : ℕ) (s : Surface)
    → w < int_bound
    → h < int_bound
    → IsSized scale height s
    → IsSized scale height (record s { committed_height = h; calls = sets_size w h ∷ s.calls })
unfolding are_ints is_int
asked_size-IsSized w h s fw fh v = ground (arith, v, v.ints)

resize-IsSized :
    {scale height : ℕ} (h : ℕ) (s : Surface)
    → h < int_bound
    → IsSized scale height s
    → IsSized scale height (resize h s)
unfolding resize
resize-IsSized h s fh v = ground (arith, v, asked_size-IsSized s.width h s v.wide.width fh v)

pub commit_frame-IsSized :
    {scale height : ℕ} (works : Bool) (s : Surface)
    → IsHigh scale height
    → IsSized scale height s
    → IsSized scale height (commit_frame works s)
unfolding commit_frame
commit_frame-IsSized {scale} {height} works s high v =
    let started = record s { queue_timer = true } in
    let same : IsSized scale height started = ground (arith, v) in
    let vis_h = max 1 (min s.height s.visible_height) in
    let w = s.width * s.scale in
    let row : w * 4 < int_bound = rw (v.scale_kept) v.wide.row in
    let low : vis_h ≤ height = omega (arith, v.height_kept, high.some_row) in
    let rows : vis_h * s.scale < int_bound =
      rw (v.scale_kept) (omega (arith, mul-le-mul_right scale low, high.rows)) in
    let ready = (ensure_buffer works w (vis_h * s.scale) (w * 4) started).0 in
    let made = ensure_buffer-IsSized works w (vis_h * s.scale) started row rows same in
    let resized = resize-IsSized vis_h ready (omega (arith, low, high.height_fits)) made in
    ground (
      arith,
      v,
      made,
      present-IsSized w (vis_h * s.scale) (resize vis_h ready) (omega (arith, row)) rows resized,
    )

pub hide-IsSized :
    {scale height : ℕ} (works : Bool) (s : Surface)
    → IsSized scale height s
    → IsSized scale height (hide works s)
unfolding hide
hide-IsSized {scale} {height} works s v =
    let wiped = record s {
      queue_timer = false;
      last_image_key = pos 0;
      calls = writes 0 s.pool_size ∷ s.calls;
    } in
    let same : IsSized scale height wiped =
      unfold are_ints is_int in ground (arith, v, v.ints, v.pool) in
    let w = s.width * s.scale in
    let row : w * 4 < int_bound = rw (v.scale_kept) v.wide.row in
    let ready = (ensure_buffer works w 1 (w * 4) wiped).0 in
    let made = ensure_buffer-IsSized works w 1 wiped row (omega arith) same in
    let asked = asked_size-IsSized s.width 1 ready v.wide.width (omega arith) made in
    ground (arith, v, made, present-IsSized w 1 _ (omega (arith, row)) (omega arith) asked)
