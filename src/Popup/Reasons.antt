-- ===== src/Popup/Reasons.antt =====
-- src/popupwidget.cpp: an island that shows a failure has a reason to show.
use Prim.Native.String.{String}
use stylus_popup.Prelude.{ℕ, Bool, true, false, not, ◌&&◌, ◌||◌, List, ℤ, ◌≡◌, arith, if_elim}
use stylus_popup.Pen.{StylusState}
use stylus_popup.Platform.{Platform}
use stylus_popup.Popup.{
  Popup, Content, IslandMode, hidden, expanded, failing, failure, same_mode, is_shown, set_mode,
  start_frames, appear, approach, begin_swap, assign_mode, initial,
}
use stylus_popup.Popup.Frames.{
  on_frame, apply_shape_for, swap_content, reveal, vanish, follow_capacity, move_springs,
  finish_frame, finish_hide, redraw,
}
use stylus_popup.Popup.Handlers.{
  Signal, show_state, show_attached, open_stage, refresh, kick, wait_or_leave, present, collapse,
  show_error, end_waiting, on_connect_attempt_started, show_paired, on_bt_paired,
  on_bt_connection_failed, on_connect_timeout, arm_connect_timer, seated_mode,
}
use stylus_popup.Popup.Strings.{is_empty}
use stylus_popup.Popup.Events.{
  Event, state_changed, attempt_started, paired, pairing_failed, connect_fires, dismiss_fires,
  error_fires, frame_fires, theme_changed, handle, run, run_inv,
}

-- On whether the text is empty, the mode, the content and the next content.
pub record AreSaid (empty : Bool) (m : IslandMode) (c n : Content) : Type 0 where
  pub mode_said : m ≡ failing → empty ≡ false
  pub content_said : c ≡ failure → empty ≡ false
  pub next_said : n ≡ failure → empty ≡ false

pub record HasReason {R : Type 0} (p : Popup R) : Type 0 where
  pub said : AreSaid (is_empty p.error_text) p.mode p.content p.next_content
  pub open said use *

module _ (platform : Platform) (ns : ℤ) where
  open platform use {Real}

  start_frames-HasReason : (p : Popup Real) → HasReason p → HasReason (start_frames platform ns p)
  unfolding start_frames
  start_frames-HasReason p v = ground (arith, v.said)

  begin_swap-HasReason :
      (m : IslandMode) (p : Popup Real)
      → p.mode ≡ m
      → HasReason p
      → HasReason (begin_swap platform m p)
  unfolding begin_swap
  begin_swap-HasReason m p e v = ground (arith, e, v.said)

  -- The mode is one that needs no reason, or there is one.
  abbrev IsAllowed : IslandMode → Popup Real → Type 0
  IsAllowed m p = m ≡ failing → is_empty p.error_text ≡ false

  approached-HasReason :
      (m : IslandMode) (p : Popup Real)
      → IsAllowed m p
      → HasReason p
      → let q = approach platform m (appear platform (assign_mode m p)) in
        HasReason q × (q.mode ≡ m)
  unfolding approach appear assign_mode
  approached-HasReason m p a v = ground (arith, a, v.said)

  set_mode-HasReason :
      (m : IslandMode) (p : Popup Real)
      → IsAllowed m p
      → HasReason p
      → HasReason (set_mode platform ns m p)
  unfolding set_mode
  set_mode-HasReason m p a v =
      if_elim HasReason (same_mode m p.mode) (λ _. v)
        (λ _.
          if_elim HasReason (same_mode m hidden && not p.layer_visible)
            (λ _. unfold assign_mode in ground (arith, a, v.said))
            (λ _.
              let (w, there) = approached-HasReason m p a v in
              start_frames-HasReason _ (begin_swap-HasReason m _ there w)))

  kick-HasReason :
      (charging : Bool) (p : Popup Real) → HasReason p → HasReason (kick platform ns charging p)
  unfolding kick
  kick-HasReason charging p v = ground (arith, v.said)

  seated_mode-IsAllowed : (s : StylusState) (p : Popup Real) → IsAllowed (seated_mode s) p
  seated_mode-IsAllowed s p = ground arith

  present-HasReason : (p : Popup Real) → HasReason p → HasReason (present platform ns p)
  unfolding present arm_connect_timer
  present-HasReason p v = ground (
    arith,
    v.said,
    set_mode-HasReason (seated_mode p.state) p (seated_mode-IsAllowed p.state p) v,
  )

  wait_or_leave-HasReason : (p : Popup Real) → HasReason p → HasReason (wait_or_leave platform ns p)
  unfolding wait_or_leave arm_connect_timer
  wait_or_leave-HasReason p v = ground (arith, v.said)

  refresh-HasReason :
      (charging : Bool) (p : Popup Real) → HasReason p → HasReason (refresh platform ns charging p)
  unfolding refresh
  refresh-HasReason charging p v = start_frames-HasReason _ (
      kick-HasReason charging _
        (wait_or_leave-HasReason _ (set_mode-HasReason _ p (seated_mode-IsAllowed p.state p) v)))

  show_error-HasReason :
      (message : String) (p : Popup Real)
      → is_empty message ≡ false
      → HasReason (show_error platform ns message p)
  unfolding show_error
  show_error-HasReason message p e = record {
    said =
        (set_mode-HasReason failing (record p { error_text = message; dismiss_active = false })
          (λ _. e)
          (record {
            said = record { mode_said = λ _. e; content_said = λ _. e; next_said = λ _. e };
          })).said;
  }

  collapse-HasReason : (p : Popup Real) → HasReason p → HasReason (collapse platform ns p)
  unfolding collapse
  collapse-HasReason p v = set_mode-HasReason hidden _ (ground arith) (record { said = v.said })

  end_waiting-HasReason :
      (gave_up : Bool) (reason : String) (p : Popup Real)
      → HasReason p
      → HasReason (end_waiting platform ns gave_up reason p)
  unfolding end_waiting
  end_waiting-HasReason gave_up reason p v =
      if_elim HasReason (not (is_shown p)) (λ _. w)
        (λ _.
          if_elim HasReason (not (is_empty reason) && not p.bt_paired)
            (λ given. show_error-HasReason reason _ (ground (arith, given)))
            (λ _. collapse-HasReason _ w))
    where
      w : HasReason (record p { gave_up = gave_up; connect_active = false })
      w = record { said = v.said }

  open_stage-HasReason : (p : Popup Real) → HasReason p → HasReason (open_stage platform ns p)
  unfolding open_stage
  open_stage-HasReason p v = ground (arith, v.said)

  show_attached-HasReason :
      (charging : Bool) (p : Popup Real)
      → HasReason p
      → HasReason (show_attached platform ns charging p)
  unfolding show_attached
  show_attached-HasReason charging p v =
      if_elim HasReason p.gave_up (λ _. v)
        (λ _.
          if_elim HasReason (not (is_shown p) || same_mode p.mode failing)
            (λ _. present-HasReason p v) (λ _. refresh-HasReason charging p v))

  show_state-HasReason :
      (s : StylusState) (p : Popup Real) → HasReason p → HasReason (show_state platform ns s p)
  unfolding show_state
  show_state-HasReason s p v =
      if_elim HasReason (not s.attached)
        (λ _. end_waiting-HasReason false "" _ (record { said = v.said }))
        (λ _. show_attached-HasReason _ _ (open_stage-HasReason _ (record { said = v.said })))

  on_connect_attempt_started-HasReason :
      (p : Popup Real) → HasReason p → HasReason (on_connect_attempt_started platform ns p)
  unfolding on_connect_attempt_started arm_connect_timer
  on_connect_attempt_started-HasReason p v =
      ground
        (arith, v.said, present-HasReason (record p { gave_up = false }) (record { said = v.said }))

  show_paired-HasReason : (p : Popup Real) → HasReason p → HasReason (show_paired platform ns p)
  unfolding show_paired
  show_paired-HasReason p v = ground (arith, v.said, set_mode-HasReason expanded p (ground arith) v)

  on_bt_paired-HasReason : (p : Popup Real) → HasReason p → HasReason (on_bt_paired platform ns p)
  unfolding on_bt_paired
  on_bt_paired-HasReason p v =
      if_elim HasReason (not p.state.attached) (λ _. v)
        (λ _. start_frames-HasReason _ (show_paired-HasReason _ (record { said = v.said })))

  swap_content-HasReason : (p : Popup Real) → HasReason p → HasReason (swap_content platform p)
  unfolding swap_content apply_shape_for
  swap_content-HasReason p v = ground (arith, v.said)

  reveal-HasReason : (p : Popup Real) → HasReason p → HasReason (reveal platform p)
  unfolding reveal
  reveal-HasReason p v = ground (arith, v.said)

  vanish-HasReason : (p : Popup Real) → HasReason p → HasReason (vanish platform p)
  unfolding vanish
  vanish-HasReason p v = ground (arith, v.said)

  follow_capacity-HasReason :
      (p : Popup Real) → HasReason p → HasReason (follow_capacity platform p)
  unfolding follow_capacity
  follow_capacity-HasReason p v = ground (arith, v.said)

  redraw-HasReason : (p : Popup Real) → HasReason p → HasReason (redraw platform p)
  unfolding redraw
  redraw-HasReason p v = ground (arith, v.said)

  finish_frame-HasReason : (p : Popup Real) → HasReason p → HasReason (finish_frame platform p)
  unfolding finish_frame finish_hide redraw
  finish_frame-HasReason p v = ground (arith, v.said)

  on_frame-HasReason : (p : Popup Real) → HasReason p → HasReason (on_frame platform ns p)
  unfolding on_frame move_springs
  on_frame-HasReason p v = finish_frame-HasReason _ (record {
    said =
        (follow_capacity-HasReason _ (
          vanish-HasReason _
            (reveal-HasReason _ (swap_content-HasReason _ (record { said = v.said }))))).said;
  })

  handle-HasReason :
      (e : Event) (p : Popup Real) → HasReason p → HasReason (handle platform ns e p).0
  unfolding handle on_bt_connection_failed on_connect_timeout
  handle-HasReason (state_changed s) p v = show_state-HasReason s p v
  handle-HasReason attempt_started p v = on_connect_attempt_started-HasReason p v
  handle-HasReason paired p v = on_bt_paired-HasReason p v
  handle-HasReason pairing_failed p v = end_waiting-HasReason true _ p v
  handle-HasReason connect_fires p v =
      if_elim (λ (r : Popup Real × List Signal). HasReason r.0) p.connect_active
        (λ _. end_waiting-HasReason true _ _ (record { said = v.said })) (λ _. v)
  handle-HasReason dismiss_fires p v =
      if_elim HasReason p.dismiss_active (λ _. collapse-HasReason _ (record { said = v.said }))
        (λ _. v)
  handle-HasReason error_fires p v =
      if_elim HasReason p.error_active (λ _. collapse-HasReason _ (record { said = v.said }))
        (λ _. v)
  handle-HasReason frame_fires p v =
      if_elim HasReason p.frame_active (λ _. on_frame-HasReason p v) (λ _. v)
  handle-HasReason (theme_changed taken) p v =
      if_elim HasReason taken (λ _. redraw-HasReason p v) (λ _. v)

-- From the constructor on, whatever happens: an island that is to show a failure, shows one, or is
-- about to, has a text that is not empty.
pub run-HasReason :
    (platform : Platform) (timeout : ℤ) (screen_w interval : ℕ) (es : List (ℤ × Event))
    → HasReason (run platform (initial platform timeout screen_w interval) es)
run-HasReason platform timeout screen_w interval es =
    run_inv platform HasReason (λ ns e p. handle-HasReason platform ns e p) _ es start
  where
    start : HasReason (initial platform timeout screen_w interval)
    start = unfold initial in ground arith
