-- ===== src/App/Screen.antt =====
-- src/popupwidget.cpp and src/waylandlayersurface.cpp: what the calls of the island leave on the screen.
mod Tests
use stylus_popup.Prelude.{
  ℕ, ◌*◌, Bool, true, false, Option, none, some, List, [], ◌∷◌, ℤ, ◌≡◌, refl, ap, ◌∙◌, arith,
  if_elim, if◌then◌else◌,
}
use stylus_popup.Platform.{Platform}
use stylus_popup.Popup
use stylus_popup.Popup.{Popup, LayerCall, set_visible_height, render_frame, hide}
use stylus_popup.Popup.Events.{Event, run}
use stylus_popup.Popup.Shown.{shown_after}
use stylus_popup.Popup.Screen.{run-IsDrawn}
use stylus_popup.Layer.Drawing
use stylus_popup.Layer.{
  Surface, made, create_pool, destroy_pool, drop_buffer, drop_pool, drop_mapping, drop_file,
  ensure_pool_size, ensure_buffer,
}
use stylus_popup.Layer.Ints.{IsWide, IsHigh}
use stylus_popup.Layer.Shown.{shown, shown_size, hide-shown}
use stylus_popup.Layer.Drawing.{
  Image, copy_image, update_image, present, resize, commit_frame, init, first_commit, ls_configure,
}

-- A call of the island on its surface, where the kernel and the library give what is asked, with the
-- image that is painted. `renderFrame` tests `isReady` here, and its other condition is in `redraw`.
unfoldable pub perform : Image → LayerCall → Surface → Surface
perform image (set_visible_height h) s = Drawing.set_visible_height h s
perform image render_frame s =
    if s.configured then commit_frame true (update_image made image s) else s
perform image hide s = Drawing.hide true s

-- The surface after some calls, the newest first; an image is that painted after the calls before it.
unfoldable pub perform_all : (List LayerCall → Image) → List LayerCall → Surface → Surface
perform_all paint [] s = s
perform_all paint (c ∷ calls) s = perform (paint calls) c (perform_all paint calls s)

-- The surface can be drawn on.
pub record IsReady (s : Surface) : Type 0 where
  pub configured : s.configured ≡ true
  pub surface : s.surface ≡ true
  pub pool : s.pool ≡ true

update_image-IsReady :
    (image : Image) (s : Surface) → IsReady s → IsReady (update_image made image s)
unfolding update_image ensure_pool_size create_pool destroy_pool drop_buffer drop_pool drop_mapping
    drop_file copy_image
update_image-IsReady image s v = ground (arith, v.configured, v.surface, v.pool)

commit_frame-IsReady : (s : Surface) → IsReady s → IsReady (commit_frame true s)
unfolding commit_frame ensure_buffer present resize
commit_frame-IsReady s v = ground (arith, v.configured, v.surface, v.pool)

hide-IsReady : (s : Surface) → IsReady s → IsReady (Drawing.hide true s)
unfolding Drawing.hide ensure_buffer present
hide-IsReady s v = ground (arith, v.configured, v.surface, v.pool)

perform-IsReady :
    (image : Image) (c : LayerCall) (s : Surface) → IsReady s → IsReady (perform image c s)
unfolding perform Drawing.set_visible_height
perform-IsReady image (set_visible_height h) s v = ground (arith, v.configured, v.surface, v.pool)
perform-IsReady image render_frame s v =
    if_elim IsReady s.configured (λ _. commit_frame-IsReady _ (update_image-IsReady image s v))
      (λ _. v)
perform-IsReady image hide s v = hide-IsReady s v

pub perform_all-IsReady :
    (paint : List LayerCall → Image) (calls : List LayerCall) (s : Surface)
    → IsReady s
    → IsReady (perform_all paint calls s)
unfolding perform_all
perform_all-IsReady paint [] s v = v
perform_all-IsReady paint (c ∷ calls) s v =
    perform-IsReady (paint calls) c _ (perform_all-IsReady paint calls s v)

-- The last commit put a buffer of one row into effect, in a size of one row.
pub record IsOneRow (s : Surface) : Type 0 where
  pub buffer : shown s.calls ≡ some (record { w = s.width * s.scale; h = 1 })
  pub size : shown_size s.calls ≡ some (record { w = s.width; h = 1 })

hide-IsOneRow : (s : Surface) → IsReady s → IsOneRow (Drawing.hide true s)
hide-IsOneRow s v = ground (arith, hide-shown s v.configured v.surface v.pool)

-- A surface that is not shown any more, or not yet, is one row of transparent pixels.
hidden_after :
    (paint : List LayerCall → Image) (calls : List LayerCall) (s : Surface)
    → IsReady s
    → IsOneRow s
    → shown_after calls ≡ some false
    → IsOneRow (perform_all paint calls s)
unfolding perform_all perform shown_after
hidden_after paint [] s v row off = row
hidden_after paint (set_visible_height h ∷ calls) s v row off = ground (arith, off)
hidden_after paint (render_frame ∷ calls) s v row off = ground (arith, off)
hidden_after paint (hide ∷ calls) s v row off =
    hide-IsOneRow _ (perform_all-IsReady paint calls s v)

pub init-IsReady :
    (scale width height serial w : ℕ)
    → let s = (init scale width height (some (serial, w)) made true).0 in IsReady s × IsOneRow s
unfolding init first_commit ls_configure create_pool
init-IsReady scale width height serial w = (
  hide-IsReady _ (record { configured = refl; surface = refl; pool = refl }),
  hide-IsOneRow _ (record { configured = refl; surface = refl; pool = refl }),
)

-- Whatever happens to the island from its constructor on, on a surface that the compositor configured
-- at the start, of sizes that an int holds, and with nothing refused: while the island holds its surface for hidden, the last
-- commit put into effect a buffer of one row of pixels, as wide as the surface, in a size of one row.
pub hidden-committed :
    (platform : Platform) (timeout : ℤ) (screen_w interval : ℕ) (events : List (ℤ × Event))
    (paint : List LayerCall → Image) (scale serial w : ℕ)
    → IsWide scale Popup.surface_height screen_w
    → IsWide scale Popup.surface_height w
    → IsHigh scale Popup.surface_height
    → (run platform (Popup.initial platform timeout screen_w interval) events).layer_visible ≡ false
    → let p = run platform (Popup.initial platform timeout screen_w interval) events in
      let start = (init scale screen_w Popup.surface_height (some (serial, w)) made true).0 in
      let s = perform_all paint p.layer_calls start in
      (shown s.calls ≡ some (record { w = s.width * s.scale; h = 1 }))
      × (shown_size s.calls ≡ some (record { w = s.width; h = 1 }))
hidden-committed platform timeout screen_w interval events paint scale serial w first wide high
      off =
    let p = run platform (Popup.initial platform timeout screen_w interval) events in
    let (ready, row) = init-IsReady scale screen_w Popup.surface_height serial w in
    let drawn = run-IsDrawn platform timeout screen_w interval events in
    let last = hidden_after paint p.layer_calls _ ready row (drawn.0 ∙ ap some off) in
    (last.buffer, last.size)
