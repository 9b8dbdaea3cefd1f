-- ===== src/Layer/Protocol/Lawful.antt =====
-- src/waylandlayersurface.cpp: every operation keeps to the protocols, over the whole life of a surface.
use Prim.Native.Nat.{min, max}
use native.Mathlib.Nat.{mul-pos}
use stylus_popup.Prelude.{
  ℕ, ◌*◌, ◌<◌, Bool, true, false, Option, none, some, List, [], ◌∷◌, pos, ◌≡◌, arith, if_elim,
}
use stylus_popup.Layer.{
  writes, sets_size, Surface, PoolAnswer, create_pool, ensure_pool_size, ensure_buffer,
}
use stylus_popup.Layer.Drawing.{
  Image, update_image, present, resize, commit_frame, hide, set_visible_height, ls_configure,
  ls_closed, first_commit, init,
}
use stylus_popup.Layer.Lives.{
  Request, update, commit, conceal, show, configure, close, obey, obey_all, AllWide, GivenWide,
  lived-IsSized,
}
use stylus_popup.Layer.Ints.{are_ints, IsWide, IsHigh}
use stylus_popup.Layer.Protocol.{
  acked, presented, is_lawful, are_lawful, IsLawful, create_pool-IsLawful,
  ensure_pool_size-IsLawful, ensure_buffer-IsLawful, copy_image-IsLawful,
}

update_image-IsLawful :
    (answer : PoolAnswer) (image : Image) (s : Surface)
    → IsLawful s
    → IsLawful (update_image answer image s)
unfolding update_image
update_image-IsLawful answer image s v =
    let keyed = record s { last_image_key = image.cache_key } in
    let same : IsLawful keyed = record {
      lawful = v.lawful;
      configured = v.configured;
      wide = v.wide;
      scaled = v.scaled;
    } in
    let sized = ensure_pool_size answer (s.width * s.scale) (s.height * s.scale) keyed in
    ground (
      arith,
      v,
      ensure_pool_size-IsLawful answer (s.width * s.scale) (s.height * s.scale) keyed same,
      copy_image-IsLawful image sized.0,
    )

-- The requests that show a buffer, on a configured surface.
present-IsLawful :
    (w h : ℕ) (s : Surface) → s.configured ≡ true → IsLawful s → IsLawful (present w h s)
unfolding present are_lawful is_lawful acked presented
present-IsLawful w h s c v = ground (arith, v.lawful, v.configured c, v.wide, v.scaled)

sized-IsLawful :
    (h : ℕ) (s : Surface) (w : ℕ)
    → 0 < h
    → 0 < w
    → IsLawful s
    → IsLawful (record s { committed_height = h; calls = sets_size w h ∷ s.calls })
unfolding are_lawful is_lawful acked
sized-IsLawful h s w ph pw v = ground (arith, v.lawful, v.configured, v.wide, v.scaled)

resize-IsLawful :
    (h : ℕ) (s : Surface)
    → 0 < h
    → IsLawful s
    → IsLawful (resize h s) × ((resize h s).configured ≡ s.configured)
unfolding resize
resize-IsLawful h s ph v = ground (arith, v, sized-IsLawful h s s.width ph v.wide v)

commit_frame-IsLawful : (works : Bool) (s : Surface) → IsLawful s → IsLawful (commit_frame works s)
unfolding commit_frame
commit_frame-IsLawful works s v =
    let started = record s { queue_timer = true } in
    let same : IsLawful started = record {
      lawful = v.lawful;
      configured = v.configured;
      wide = v.wide;
      scaled = v.scaled;
    } in
    let vis_h = max 1 (min s.height s.visible_height) in
    let high : 0 < vis_h = omega arith in
    let w = s.width * s.scale in
    let ready = ensure_buffer works w (vis_h * s.scale) (w * 4) started in
    let made =
      ensure_buffer-IsLawful works w (vis_h * s.scale) started (mul-pos v.wide v.scaled)
        (mul-pos high v.scaled) same in
    let resized = resize-IsLawful vis_h ready.0 high made.0 in
    ground (arith, v, made, resized, present-IsLawful w (vis_h * s.scale) (resize vis_h ready.0))

wiped-IsLawful :
    (s : Surface)
    → IsLawful s
    → IsLawful (record s {
      queue_timer = false;
      last_image_key = pos 0;
      calls = writes 0 s.pool_size ∷ s.calls;
    })
unfolding are_lawful is_lawful acked
wiped-IsLawful s v = ground (arith, v.lawful, v.configured, v.wide, v.scaled)

hide-IsLawful : (works : Bool) (s : Surface) → IsLawful s → IsLawful (hide works s)
unfolding hide
hide-IsLawful works s v =
    let wiped = record s {
      queue_timer = false;
      last_image_key = pos 0;
      calls = writes 0 s.pool_size ∷ s.calls;
    } in
    let w = s.width * s.scale in
    let ready = (ensure_buffer works w 1 (w * 4) wiped).0 in
    let made =
      ensure_buffer-IsLawful works w 1 wiped (mul-pos v.wide v.scaled) (omega arith)
        (wiped-IsLawful s v) in
    let sized = record ready { committed_height = 1; calls = sets_size s.width 1 ∷ ready.calls } in
    ground (
      arith,
      v,
      made,
      sized-IsLawful 1 ready s.width (omega arith) v.wide made.0,
      present-IsLawful w 1 sized,
    )

obey-IsLawful : (r : Request) (s : Surface) → IsLawful s → IsLawful (obey r s)
unfolding obey set_visible_height ls_configure ls_closed are_lawful is_lawful acked
obey-IsLawful (update answer image) s v = update_image-IsLawful answer image s v
obey-IsLawful (commit works) s v = commit_frame-IsLawful works s v
obey-IsLawful (conceal works) s v = hide-IsLawful works s v
obey-IsLawful (show h) s v = ground (arith, v.lawful, v.configured, v.wide, v.scaled)
obey-IsLawful (configure serial w) s v = ground (arith, v.lawful, v.configured, v.wide, v.scaled)
obey-IsLawful close s v = ground (arith, v.lawful, v.configured, v.wide, v.scaled)

obey_all-IsLawful : (rs : List Request) (s : Surface) → IsLawful s → IsLawful (obey_all rs s)
unfolding obey_all
obey_all-IsLawful [] s v = v
obey_all-IsLawful (r ∷ rs) s v = obey_all-IsLawful rs (obey r s) (obey-IsLawful r s v)

asked-IsLawful :
    (scale width height serial w : ℕ)
    → 0 < scale
    → 0 < width
    → let asked = first_commit scale width height in
      IsLawful asked × IsLawful (ls_configure serial w asked)
unfolding first_commit ls_configure are_lawful is_lawful acked
asked-IsLawful scale width height serial w ps pw = ground (arith, ps, pw)

init-IsLawful :
    (scale width height : ℕ) (configures : Option (ℕ × ℕ)) (answer : PoolAnswer) (works : Bool)
    → 0 < scale
    → 0 < width
    → IsLawful (init scale width height configures answer works).0
unfolding init
init-IsLawful scale width height none answer works ps pw =
    (asked-IsLawful scale width height 0 0 ps pw).0
init-IsLawful scale width height (some (serial, w)) answer works ps pw =
    let asked = ls_configure serial w (first_commit scale width height) in
    let pooled = create_pool answer (width * scale) (height * scale) asked in
    let v =
      create_pool-IsLawful answer (width * scale) (height * scale) asked
        (asked-IsLawful scale width height serial w ps pw).1 in
    if_elim (λ (p : Surface × Bool). IsLawful p.0) pooled.1 (λ _. hide-IsLawful works pooled.0 v)
      (λ _. v)

-- Over the whole life of a surface of a positive width and scale, where an int holds its height, its
-- widths and the sizes in pixels and in bytes that follow from them, and whatever else the kernel and
-- the compositor answer: each buffer that is made has a positive width and height and whole rows, each
-- size that is asked for is positive, no buffer is attached before a configuration was acknowledged,
-- from then on each commit shows a buffer, attached and with its damage told just before, and an int
-- holds each of these numbers.
pub obey_all-lawful :
    (scale width height : ℕ) (configures : Option (ℕ × ℕ)) (answer : PoolAnswer) (works : Bool)
    (requests : List Request)
    → 0 < scale
    → 0 < width
    → IsHigh scale height
    → IsWide scale height width
    → GivenWide scale height configures
    → AllWide scale height requests
    → let s = obey_all requests (init scale width height configures answer works).0 in
      (are_lawful s.calls ≡ true) × (are_ints s.calls ≡ true)
obey_all-lawful scale width height configures answer works requests ps pw high wide given all = (
  (obey_all-IsLawful requests _
      (init-IsLawful scale width height configures answer works ps pw)).lawful,
  (lived-IsSized scale width height configures answer works requests high wide given all).ints,
)
