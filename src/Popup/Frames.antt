-- ===== src/Popup/Frames.antt =====
-- src/popupwidget.cpp: the frame loop, which moves the springs and swaps the content. `renderFrame`
-- is the call of the layer surface that it ends in; what it paints is in `Popup.Paint`.
use Prim.Native.String.{String}
use stylus_popup.Prelude.{ℕ, Bool, false, not, ◌&&◌, ◌||◌, ◌∷◌, ℤ, pos, ◌-ℤ◌, if◌then◌else◌}
use stylus_popup.Platform.{Platform}
use stylus_popup.Spring
use stylus_popup.Spring.{Spring}
use stylus_popup.Popup.{
  Popup, Content, nothing, connecting, battery, failure, hide, render_frame, same_content,
  minimal_size, with_target, with_velocity, morph, settle,
}
use stylus_popup.Popup.Strings

module _ (platform : Platform) where
  open platform use {Real, lit, of_int, add, sub, mul, div, abs, lt, advance}

  abbrev pub natural : ℕ → Real
  natural n = lit n 1

  -- `(kCompactHeight - kCompactIcon) / 2 + kCompactIcon + kCompactGap + width + kCompactPad + 4`.
  unfoldable pub compact_width_for : String → Real
  compact_width_for text =
      add
        (add
          (add
            (add (add (div (sub (natural 36) (natural 20)) (natural 2)) (natural 20)) (natural 10))
            (advance text))
          (natural 12))
        (natural 4)

  unfoldable pub content_width : Content → String → Real
  content_width connecting error_text = compact_width_for (Strings.connecting platform)
  content_width failure error_text = compact_width_for error_text
  content_width battery error_text = natural 320
  content_width nothing error_text = natural minimal_size

  unfoldable pub content_height : Content → Real
  content_height connecting = natural 36
  content_height failure = natural 36
  content_height battery = natural 76
  content_height nothing = natural minimal_size

  unfoldable pub apply_shape_for : Content → Popup Real → Popup Real
  apply_shape_for c p =
      let w =
        Spring.real_min platform (content_width c p.error_text)
          (sub (of_int (pos p.screen_w)) (natural 16)) in
      let shrinking = same_content c nothing in
      let preset = λ (s : Spring Real). if shrinking then settle platform s else morph platform s in
      record p {
        ring =
            if same_content c battery
            then with_target (of_int (pos p.state.capacity))
                (Spring.snap platform (natural 0) p.ring)
            else p.ring;
        from_w = p.width.value;
        from_h = p.height.value;
        width = with_target w (preset p.width);
        height = with_target (content_height c) (preset p.height);
        collapsing = shrinking;
      }

  unfoldable pub progress : Spring Real → Real → Real
  progress s from =
      let span = abs (sub s.target from) in
      if lt span (natural 1)
      then natural 1
      else Spring.bound platform (natural 0)
          (sub (natural 1) (div (abs (sub s.target s.value)) span)) (natural 1)

  unfoldable pub shape_progress : Popup Real → Real
  shape_progress p =
      Spring.real_min platform (progress p.width p.from_w) (progress p.height p.from_h)

  unfoldable pub anything_moving : Popup Real → Bool
  anything_moving p =
      p.swap_pending
      || p.reveal_pending
      || p.collapsing
      || same_content p.content connecting
      || not (Spring.settled platform p.width)
      || not (Spring.settled platform p.height)
      || not (Spring.settled platform p.presence)
      || not (Spring.settled platform p.content_alpha)
      || not (Spring.settled platform p.shake)
      || not (Spring.settled platform p.pulse)
      || not (Spring.settled platform p.ring)

  unfoldable pub finish_hide : Popup Real → Popup Real
  finish_hide p = record p {
    frame_active = false;
    layer_calls = hide ∷ p.layer_calls;
    layer_visible = false;
    collapsing = false;
    content = nothing;
    presence = Spring.snap platform (natural 0) p.presence;
  }

  -- The four blocks of `onFrame` before the springs move.
  unfoldable pub swap_content : Popup Real → Popup Real
  swap_content p =
      let q =
        apply_shape_for p.next_content
          (record p { swap_pending = false; content = p.next_content }) in
      if p.swap_pending && lt p.content_alpha.value (lit 4 100)
      then record q { reveal_pending = not (same_content q.content nothing) }
      else p

  unfoldable pub reveal : Popup Real → Popup Real
  reveal p =
      if p.reveal_pending && not (lt (shape_progress p) (lit 6 10))
      then record p {
        reveal_pending = false;
        content_alpha = with_target (natural 1) p.content_alpha;
        shake =
            if same_content p.content failure then with_velocity (natural 260) p.shake else p.shake;
      }
      else p

  unfoldable pub vanish : Popup Real → Popup Real
  vanish p =
      if p.collapsing
        && lt (natural 0) p.presence.target
        && not (lt (shape_progress p) (lit 85 100))
      then record p { presence = with_target (natural 0) (settle platform p.presence) }
      else p

  unfoldable pub follow_capacity : Popup Real → Popup Real
  follow_capacity p =
      if same_content p.content battery
      then record p { ring = with_target (of_int (pos p.state.capacity)) p.ring }
      else p

  unfoldable pub move_springs : Real → Popup Real → Popup Real
  move_springs dt p =
      let move = Spring.step platform dt in
      record p {
        width = move p.width;
        height = move p.height;
        presence = move p.presence;
        content_alpha = move p.content_alpha;
        shake = move p.shake;
        pulse = move p.pulse;
        ring = move p.ring;
      }

  -- `renderFrame`, up to the painting and to what the surface makes of it.
  unfoldable pub redraw : Popup Real → Popup Real
  redraw p = if p.layer_visible then record p { layer_calls = render_frame ∷ p.layer_calls } else p

  -- The end of `onFrame`: the island is gone, or the frame is drawn.
  unfoldable pub finish_frame : Popup Real → Popup Real
  finish_frame p =
      let drawn = redraw p in
      if p.collapsing && not (lt (natural 0) p.presence.target) && lt p.presence.value (lit 2 100)
      then finish_hide p
      else if not (anything_moving drawn)
      then record drawn { frame_active = false }
      else drawn

  unfoldable pub on_frame : ℤ → Popup Real → Popup Real
  on_frame ns p =
      let dt = div (of_int (ns -ℤ p.last_frame_ns)) (natural 1000000000) in
      finish_frame (
        move_springs dt
          (follow_capacity (vanish (reveal (swap_content (record p { last_frame_ns = ns }))))))
