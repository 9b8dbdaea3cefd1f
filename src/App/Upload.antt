-- ===== src/App/Upload.antt =====
-- src/popupwidget.cpp and src/waylandlayersurface.cpp: the image that the island renders, and the shared
-- memory that it is copied to.
mod Tests
use Prim.Native.Nat.{min}
use stylus_popup.Prelude.{
  ℕ, ◌+◌, ◌*◌, ap, sym, ◌∙◌, Bool, true, false, Option, none, some, List, [], ◌∷◌, ℤ, ◌≡◌, ◌⊎◌,
  refl, arith, if_elim,
}
use stylus_popup.Platform.{Platform}
use stylus_popup.Theme.{Theme}
use stylus_popup.Popup.{Popup, LayerCall, set_visible_height, render_frame, hide, surface_height}
use stylus_popup.Popup.Paint.{Canvas}
use stylus_popup.Popup.Paint.Island.{image_size}
use stylus_popup.Popup.Paint.Sizes.{image_size-exact}
use stylus_popup.Layer.Drawing
use stylus_popup.Layer.{Surface, made, writes, create_pool, ensure_pool_size, ensure_buffer}
use stylus_popup.Layer.Drawing.{
  Image, same_key, copy_image, update_image, present, resize, commit_frame, init, first_commit,
  ls_configure,
}
use stylus_popup.App.Screen.{perform, perform_all, perform_all-IsReady, init-IsReady}

-- The sizes of the surface and of its shared memory, as `init` makes them.
record IsWhole (scale w h : ℕ) (s : Surface) : Type 0 where
  pub scaled : s.scale ≡ scale
  pub wide : s.width ≡ w
  pub high : s.height ≡ h
  pub pool : s.pool ≡ true
  pub sized : s.pool_size ≡ w * scale * (h * scale) * 4

-- An image of that many pixels, with no padding.
record IsFull (scale w h : ℕ) (image : Image) : Type 0 where
  pub wide : image.width ≡ w * scale
  pub high : image.height ≡ h * scale
  pub packed : image.bytes_per_line ≡ w * scale * 4

rows_whole : (pw rows : ℕ) → pw * 4 * rows ≡ pw * rows * 4
rows_whole pw rows = grind arith

module _ (scale w h : ℕ) where
  full-size :
      (image : Image) (s : Surface)
      → IsFull scale w h image
      → IsWhole scale w h s
      → s.pool_size ≡ image.bytes_per_line * image.height
  full-size image s full whole =
      let rows = rows_whole (w * scale) (h * scale) in
      rw (full.high, full.packed) (whole.sized ∙ sym rows)

  upload_lem :
      (image : Image) (s : Surface)
      → IsFull scale w h image
      → IsWhole scale w h s
      → s.configured ≡ true
      → s.surface ≡ true
      → same_key image.cache_key s.last_image_key ≡ false
      → update_image made image s
        ≡ record s { last_image_key = image.cache_key; calls = writes 0 s.pool_size ∷ s.calls }
  unfolding update_image ensure_pool_size copy_image
  upload_lem image s full whole c su key = ground (
    arith,
    rows_whole (w * scale) (h * scale),
    full.wide,
    full.high,
    full.packed,
    whole.scaled,
    whole.wide,
    whole.high,
    whole.pool,
    whole.sized,
  )

  update_image-IsWhole :
      (image : Image) (s : Surface)
      → IsFull scale w h image
      → IsWhole scale w h s
      → IsWhole scale w h (update_image made image s)
  unfolding update_image ensure_pool_size copy_image
  update_image-IsWhole image s full whole =
      ground (arith, whole.scaled, whole.wide, whole.high, whole.pool, whole.sized)

  commit_frame-IsWhole :
      (s : Surface) → IsWhole scale w h s → IsWhole scale w h (commit_frame true s)
  unfolding commit_frame ensure_buffer present resize
  commit_frame-IsWhole s whole =
      ground (arith, whole.scaled, whole.wide, whole.high, whole.pool, whole.sized)

  hide-IsWhole : (s : Surface) → IsWhole scale w h s → IsWhole scale w h (Drawing.hide true s)
  unfolding Drawing.hide ensure_buffer present
  hide-IsWhole s whole =
      ground (arith, whole.scaled, whole.wide, whole.high, whole.pool, whole.sized)

  perform-IsWhole :
      (image : Image) (c : LayerCall) (s : Surface)
      → IsFull scale w h image
      → IsWhole scale w h s
      → IsWhole scale w h (perform image c s)
  unfolding perform Drawing.set_visible_height
  perform-IsWhole image (set_visible_height n) s full whole =
      ground (arith, whole.scaled, whole.wide, whole.high, whole.pool, whole.sized)
  perform-IsWhole image render_frame s full whole =
      if_elim (IsWhole scale w h) s.configured
        (λ _. commit_frame-IsWhole _ (update_image-IsWhole image s full whole)) (λ _. whole)
  perform-IsWhole image hide s full whole = hide-IsWhole s whole

  perform_all-IsWhole :
      (paint : List LayerCall → Image) (calls : List LayerCall) (s : Surface)
      → ((cs : List LayerCall) → IsFull scale w h (paint cs))
      → IsWhole scale w h s
      → IsWhole scale w h (perform_all paint calls s)
  unfolding perform_all
  perform_all-IsWhole paint [] s full whole = whole
  perform_all-IsWhole paint (c ∷ calls) s full whole =
      perform-IsWhole (paint calls) c _ (full calls) (perform_all-IsWhole paint calls s full whole)

  -- The compositor leaves the width to the client by a 0, or gives it back as it was asked.
  init-IsWhole :
      (serial given : ℕ)
      → (given ≡ 0) ⊎ (given ≡ w)
      → IsWhole scale w h (init scale w h (some (serial, given)) made true).0
  unfolding init first_commit ls_configure create_pool
  init-IsWhole serial given same = hide-IsWhole _ (ground (arith, same))

module _ (platform : Platform) {C : Type 0} (canvas : Canvas platform.Real C) (theme : Theme C)
    (scale : ℕ) (p : Popup platform.Real) where
  -- The image that a frame renders, after one of another size: its scan lines have no padding.
  abbrev pub island_image : (ℕ × ℕ) × ℤ → Image
  island_image (old, key) =
      let (w, h) = image_size platform canvas theme scale p old in
      record { cache_key = key; width = w; height = h; bytes_per_line = w * 4 }

  island_image-IsFull :
      (painted : (ℕ × ℕ) × ℤ) → IsFull scale p.screen_w surface_height (island_image painted)
  island_image-IsFull (old, key) =
      let exact = image_size-exact platform canvas theme scale p old in
      ground (arith, ap (λ (r : ℕ × ℕ). r.0) exact, ap (λ (r : ℕ × ℕ). r.1) exact)

  -- On a surface that the compositor configured at the start with the width of the screen or none,
  -- whatever calls the island has made on it and whatever it has painted: an image of a new key is
  -- copied in one piece over the whole of the shared memory, which has just the image's size, so that
  -- nothing of an earlier frame is left; and the memory is never made again.
  pub island-uploaded :
      (paint : List LayerCall → (ℕ × ℕ) × ℤ) (calls : List LayerCall) (painted : (ℕ × ℕ) × ℤ)
      (serial given : ℕ)
      → (given ≡ 0) ⊎ (given ≡ p.screen_w)
      → let start = (init scale p.screen_w surface_height (some (serial, given)) made true).0 in
        let s = perform_all (λ cs. island_image (paint cs)) calls start in
        let image = island_image painted in
        same_key image.cache_key s.last_image_key ≡ false
        → (update_image made image s ≡ record s {
          last_image_key = image.cache_key;
          calls = writes 0 (image.bytes_per_line * image.height) ∷ s.calls;
        })
          × (s.pool_size ≡ image.bytes_per_line * image.height)
  island-uploaded paint calls painted serial given same key =
      let w = p.screen_w in
      let start = init scale w surface_height (some (serial, given)) made true in
      let s = perform_all (λ cs. island_image (paint cs)) calls start.0 in
      let image = island_image painted in
      let full = island_image-IsFull painted in
      let whole : IsWhole scale w surface_height s =
        perform_all-IsWhole scale w surface_height (λ cs. island_image (paint cs)) calls start.0
          (λ cs. island_image-IsFull (paint cs))
          (init-IsWhole scale w surface_height serial given same) in
      let ready =
        perform_all-IsReady (λ cs. island_image (paint cs)) calls start.0
          (init-IsReady scale w surface_height serial given).0 in
      let size = full-size scale w surface_height image s full whole in
      let uploaded =
        upload_lem scale w surface_height image s full whole ready.configured ready.surface key in
      (rw (← size) uploaded, size)
