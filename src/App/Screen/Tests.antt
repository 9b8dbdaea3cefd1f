-- ===== src/App/Screen/Tests.antt =====
-- The screen after a short visit of the pen.
use stylus_popup.Prelude.{
  ◌*◌, true, false, some, List, [], ◌∷◌, ℤ, pos, ◌≡◌, refl, ◌-ℤ◌, ◌+ℤ◌, arith,
}
use stylus_popup.Pen.{default_state, attaching}
use stylus_popup.Platform.Fixed.{fixed}
use stylus_popup.Spring
use stylus_popup.Popup
use stylus_popup.Popup.{hide, set_visible_height}
use stylus_popup.Popup.Handlers.{
  show_state, end_waiting, collapse, show_attached, open_stage, present, arm_connect_timer,
}
use stylus_popup.Popup.Frames.{
  on_frame, swap_content, apply_shape_for, content_width, content_height, progress, shape_progress,
  reveal, vanish, follow_capacity, move_springs, finish_frame, finish_hide, redraw,
}
use stylus_popup.Popup.Events.{Event, state_changed, frame_fires, handle, run}
use stylus_popup.Layer.{made}
use stylus_popup.Layer.Drawing.{Image, init}
use stylus_popup.Layer.Ints.{IsWide, IsHigh}
use stylus_popup.Layer.Shown.{shown, shown_size}
use stylus_popup.App.Screen.{perform_all, hidden-committed}

abbrev painted : Image
painted = record { cache_key = pos 7; width = 3840; height = 208; bytes_per_line = 15360 }

-- The pen comes and goes before the first frame, which then takes the surface down.
abbrev visit : List (ℤ × Event)
visit =
    (pos 0, state_changed (record default_state { attached = true; phase = attaching }))
    ∷ (pos 1000000, state_changed default_state)
    ∷ (pos 16000000, frame_fires)
    ∷ []

visit_hides :
    let p = run fixed (Popup.initial fixed (pos 15000) 1920 16) visit in
    (p.layer_visible ≡ false)
    × (p.layer_calls ≡ hide ∷ set_visible_height Popup.surface_height ∷ [])
unfolding run handle Popup.initial show_state end_waiting collapse show_attached open_stage present
    arm_connect_timer Popup.set_mode Popup.assign_mode Popup.appear Popup.approach Popup.begin_swap
    Popup.start_frames on_frame swap_content apply_shape_for content_width content_height progress
    shape_progress reveal vanish follow_capacity move_springs finish_frame finish_hide redraw
    Spring.step Spring.snap Spring.configure Spring.euler_rounds Spring.euler Spring.settled ◌-ℤ◌
    ◌+ℤ◌
visit_hides = (refl, refl)

screen-IsWide : IsWide 2 Popup.surface_height 1920
screen-IsWide = record { width = omega arith; row = omega arith; image = omega arith }

island-IsHigh : IsHigh 2 Popup.surface_height
island-IsHigh = record { some_row = omega arith; height_fits = omega arith; rows = omega arith }

hidden-committed_example :
    let p = run fixed (Popup.initial fixed (pos 15000) 1920 16) visit in
    let start = (init 2 1920 Popup.surface_height (some (1, 1920)) made true).0 in
    let s = perform_all (λ calls. painted) p.layer_calls start in
    (shown s.calls ≡ some (record { w = s.width * s.scale; h = 1 }))
    × (shown_size s.calls ≡ some (record { w = s.width; h = 1 }))
hidden-committed_example =
    hidden-committed fixed (pos 15000) 1920 16 visit (λ calls. painted) 2 1 1920 screen-IsWide
      screen-IsWide island-IsHigh visit_hides.0
