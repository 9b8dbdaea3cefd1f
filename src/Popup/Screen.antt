-- ===== src/Popup/Screen.antt =====
-- src/popupwidget.cpp: what the island asks of its layer surface, and in which order.
use stylus_popup.Prelude.{ℕ, true, not, ◌&&◌, List, ℤ, ◌≡◌, arith, if_elim}
use stylus_popup.Platform.{Platform}
use stylus_popup.Popup.{Popup, initial}
use stylus_popup.Popup.Frames.{
  on_frame, natural, swap_content, apply_shape_for, reveal, vanish, follow_capacity, move_springs,
  anything_moving, finish_frame, finish_hide, redraw,
}
use stylus_popup.Popup.Handlers.{Signal, on_bt_connection_failed, on_connect_timeout}
use stylus_popup.Popup.Events.{
  Event, state_changed, attempt_started, paired, pairing_failed, connect_fires, dismiss_fires,
  error_fires, frame_fires, theme_changed, handle, run, run_inv,
}
use stylus_popup.Popup.Shown.{
  shown_after, IsDrawn, collapse-IsDrawn, end_waiting-IsDrawn, show_state-IsDrawn,
  on_connect_attempt_started-IsDrawn, on_bt_paired-IsDrawn,
}

module _ (platform : Platform) (ns : ℤ) where
  open platform use {Real, lit, lt}

  -- What the surface and the loop are to a popup.
  abbrev IsLike : Popup Real → Popup Real → Type 0
  IsLike p q =
      (q.layer_calls ≡ p.layer_calls)
      × (q.layer_visible ≡ p.layer_visible)
      × (q.frame_active ≡ p.frame_active)

  -- The blocks of a frame before its last leave the surface and the loop alone.
  swap_content-IsLike : (p : Popup Real) → IsLike p (swap_content platform p)
  unfolding swap_content apply_shape_for
  swap_content-IsLike p = ground arith

  reveal-IsLike : (p : Popup Real) → IsLike p (reveal platform p)
  unfolding reveal
  reveal-IsLike p = ground arith

  vanish-IsLike : (p : Popup Real) → IsLike p (vanish platform p)
  unfolding vanish
  vanish-IsLike p = ground arith

  follow_capacity-IsLike : (p : Popup Real) → IsLike p (follow_capacity platform p)
  unfolding follow_capacity
  follow_capacity-IsLike p = ground arith

  redraw-IsDrawn : (p : Popup Real) → IsDrawn p → IsDrawn (redraw platform p)
  unfolding redraw shown_after
  redraw-IsDrawn p v = ground (arith, v)

  finish_frame-IsDrawn :
      (p : Popup Real) → p.frame_active ≡ true → IsDrawn p → IsDrawn (finish_frame platform p)
  unfolding finish_frame
  finish_frame-IsDrawn p on v =
      let drawn = redraw-IsDrawn p v in
      if_elim IsDrawn
        (p.collapsing
          && not (lt (natural platform 0) p.presence.target)
          && lt p.presence.value (lit 2 100))
        (λ _. unfold finish_hide shown_after in ground (arith, on, v))
        (λ _.
          if_elim IsDrawn (not (anything_moving platform (redraw platform p)))
            (λ _. (drawn.0, λ running. ground (arith, running))) (λ _. drawn))

  on_frame-IsDrawn :
      (p : Popup Real) → p.frame_active ≡ true → IsDrawn p → IsDrawn (on_frame platform ns p)
  unfolding on_frame
  on_frame-IsDrawn p on v =
      let a = record p { last_frame_ns = ns } in
      let b = swap_content platform a in
      let c = reveal platform b in
      let d = vanish platform c in
      let e = follow_capacity platform d in
      let like : IsLike a e = ground (
        arith,
        swap_content-IsLike a,
        reveal-IsLike b,
        vanish-IsLike c,
        follow_capacity-IsLike d,
      ) in
      finish_frame-IsDrawn _ (unfold move_springs in ground (arith, like, on))
        (unfold move_springs in ground (arith, like, v))

  handle-IsDrawn : (e : Event) (p : Popup Real) → IsDrawn p → IsDrawn (handle platform ns e p).0
  unfolding handle on_bt_connection_failed on_connect_timeout
  handle-IsDrawn (state_changed s) p v = show_state-IsDrawn platform ns s p v
  handle-IsDrawn attempt_started p v = on_connect_attempt_started-IsDrawn platform ns p v
  handle-IsDrawn paired p v = on_bt_paired-IsDrawn platform ns p v
  handle-IsDrawn pairing_failed p v = end_waiting-IsDrawn platform ns true _ p v
  handle-IsDrawn connect_fires p v =
      if_elim (λ (r : Popup Real × List Signal). IsDrawn r.0) p.connect_active
        (λ _. end_waiting-IsDrawn platform ns true _ _ v) (λ _. v)
  handle-IsDrawn dismiss_fires p v =
      if_elim (IsDrawn) p.dismiss_active (λ _. collapse-IsDrawn platform ns _ v) (λ _. v)
  handle-IsDrawn error_fires p v =
      if_elim (IsDrawn) p.error_active (λ _. collapse-IsDrawn platform ns _ v) (λ _. v)
  handle-IsDrawn frame_fires p v =
      if_elim (IsDrawn) p.frame_active (λ on. on_frame-IsDrawn p on v) (λ _. v)
  handle-IsDrawn (theme_changed taken) p v =
      if_elim IsDrawn taken (λ _. redraw-IsDrawn p v) (λ _. v)

-- From the constructor on, whatever happens, the calls on the layer surface are in order: the visible
-- height is set before the first frame, and again after each time that the surface was taken down;
-- frames are drawn, and the surface is taken down, only in between; and the island believes of its
-- surface what the calls come to.
pub run-IsDrawn :
    (platform : Platform) (timeout : ℤ) (screen_w interval : ℕ) (es : List (ℤ × Event))
    → IsDrawn (run platform (initial platform timeout screen_w interval) es)
run-IsDrawn platform timeout screen_w interval es =
    run_inv platform IsDrawn (λ ns e p. handle-IsDrawn platform ns e p) _ es start
  where
    start : IsDrawn (initial platform timeout screen_w interval)
    start = unfold initial shown_after in ground arith
