-- ===== src/App/Upload/Tests.antt =====
-- The second frame of an island on a screen of 1920 pixels, at a scale of two.
use stylus_popup.Prelude.{ℕ, ◌*◌, true, some, inl, List, [], ◌∷◌, ℤ, pos, ◌≡◌, refl, length}
use stylus_popup.Platform.Fixed.{fixed}
use stylus_popup.Popup
use stylus_popup.Popup.{Popup, LayerCall, set_visible_height, render_frame}
use stylus_popup.Popup.Paint.Paper.{paper, colours}
use stylus_popup.Layer.{Surface, made, writes, create_pool, ensure_pool_size, ensure_buffer}
use stylus_popup.Layer.Drawing.{
  update_image, init, first_commit, ls_configure, copy_image, commit_frame, present, resize, hide,
}
use stylus_popup.Layer.Drawing
use stylus_popup.Popup.Paint.Island.{image_size}
use stylus_popup.App.Screen.{perform, perform_all}
use stylus_popup.App.Upload.{island_image, island-uploaded}

abbrev island : Popup ℤ
island = Popup.initial fixed (pos 15000) 1920 16

-- The key of an image is new for each frame.
abbrev painting : List LayerCall → (ℕ × ℕ) × ℤ
painting calls = ((0, 0), pos (length calls))

abbrev calls : List LayerCall
calls = render_frame ∷ set_visible_height Popup.surface_height ∷ []

abbrev shown : Surface
shown =
    perform_all (λ cs. island_image fixed paper colours 2 island (painting cs)) calls
      (init 2 1920 Popup.surface_height (some (1, 0)) made true).0

island-uploaded_example :
    let image = island_image fixed paper colours 2 island (painting calls) in
    (update_image made image shown ≡ record shown {
      last_image_key = image.cache_key;
      calls = writes 0 (image.bytes_per_line * image.height) ∷ shown.calls;
    })
    × (shown.pool_size ≡ image.bytes_per_line * image.height)
unfolding perform_all perform image_size init first_commit ls_configure create_pool update_image
    ensure_pool_size ensure_buffer copy_image commit_frame present resize hide Popup.initial
    Drawing.set_visible_height
island-uploaded_example =
    island-uploaded fixed paper colours 2 island painting calls (painting calls) 1 0 (inl refl) refl
