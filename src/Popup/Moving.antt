-- ===== src/Popup/Moving.antt =====
-- src/popupwidget.cpp: the frame loop runs while something moves.
use Prim.Native.String.{String}
use stylus_popup.Prelude.{
  ℕ, Bool, true, false, not, ◌&&◌, ◌||◌, List, ℤ, pos, leb_ℤ, ◌≡◌, ◌∙◌, arith, if_elim,
}
use stylus_popup.Pen.{StylusState, attaching}
use stylus_popup.Platform.{Platform}
use stylus_popup.Popup.{
  Popup, IslandMode, hidden, failing, same_mode, is_shown, set_mode, start_frames, assign_mode,
  initial,
}
use stylus_popup.Popup.Frames.{
  on_frame, natural, swap_content, apply_shape_for, reveal, vanish, follow_capacity, move_springs,
  anything_moving, finish_frame, finish_hide, redraw,
}
use stylus_popup.Popup.Handlers.{
  Signal, show_state, show_attached, open_stage, refresh, present, collapse, show_error,
  end_waiting, on_connect_attempt_started, on_bt_paired, on_bt_connection_failed,
  on_connect_timeout, arm_connect_timer, seated_mode, same_phase,
}
use stylus_popup.Popup.Strings.{is_empty}
use stylus_popup.Popup.Events.{
  Event, state_changed, attempt_started, paired, pairing_failed, connect_fires, dismiss_fires,
  error_fires, frame_fires, theme_changed, handle, run, run_inv,
}

-- While the surface is visible and no frame is due, nothing moves.
pub record IsLively (platform : Platform) (p : Popup platform.Real) : Type 0 where
  pub rests : p.layer_visible ≡ true → p.frame_active ≡ false → anything_moving platform p ≡ false

module _ (platform : Platform) (ns : ℤ) where
  open platform use {Real, lit, lt}

  start_frames-IsLively : (p : Popup Real) → IsLively platform (start_frames platform ns p)
  unfolding start_frames
  start_frames-IsLively p = ground arith

  set_mode-IsLively :
      (m : IslandMode) (p : Popup Real)
      → IsLively platform p
      → IsLively platform (set_mode platform ns m p)
  unfolding set_mode assign_mode
  set_mode-IsLively m p v =
      if_elim (IsLively platform) (same_mode m p.mode) (λ _. v)
        (λ _.
          if_elim (IsLively platform) (same_mode m hidden && not p.layer_visible)
            (λ gone. ground arith) (λ _. start_frames-IsLively _))

  arm_connect_timer-IsLively :
      (p : Popup Real) → IsLively platform p → IsLively platform (arm_connect_timer platform ns p)
  unfolding arm_connect_timer anything_moving
  arm_connect_timer-IsLively p v =
      if_elim (IsLively platform) (leb_ℤ p.connect_timeout_ms (pos 0)) (λ _. v)
        (λ _. record { rests = v.rests })

  present-IsLively :
      (p : Popup Real) → IsLively platform p → IsLively platform (present platform ns p)
  unfolding present anything_moving
  present-IsLively p v =
      if_elim (IsLively platform) (set_mode platform ns (seated_mode p.state) p).bt_paired
        (λ _. record { rests = (set_mode-IsLively (seated_mode p.state) p v).rests })
        (λ _. arm_connect_timer-IsLively _ (set_mode-IsLively (seated_mode p.state) p v))

  refresh-IsLively :
      (charging : Bool) (p : Popup Real) → IsLively platform (refresh platform ns charging p)
  unfolding refresh
  refresh-IsLively charging p = start_frames-IsLively _

  collapse-IsLively :
      (p : Popup Real) → IsLively platform p → IsLively platform (collapse platform ns p)
  unfolding collapse anything_moving
  collapse-IsLively p v = set_mode-IsLively hidden _ (record { rests = v.rests })

  show_error-IsLively :
      (message : String) (p : Popup Real)
      → IsLively platform p
      → IsLively platform (show_error platform ns message p)
  unfolding show_error anything_moving
  show_error-IsLively message p v = record {
    rests =
        (set_mode-IsLively failing (record p { error_text = message; dismiss_active = false })
          (record { rests = v.rests })).rests;
  }

  end_waiting-IsLively :
      (gave_up : Bool) (reason : String) (p : Popup Real)
      → IsLively platform p
      → IsLively platform (end_waiting platform ns gave_up reason p)
  unfolding end_waiting anything_moving
  end_waiting-IsLively gave_up reason p v =
      if_elim (IsLively platform) (not (is_shown p)) (λ _. w)
        (λ _.
          if_elim (IsLively platform) (not (is_empty reason) && not p.bt_paired)
            (λ _. show_error-IsLively reason _ w) (λ _. collapse-IsLively _ w))
    where
      w : IsLively platform (record p { gave_up = gave_up; connect_active = false })
      w = record { rests = v.rests }

  open_stage-IsLively :
      (p : Popup Real) → IsLively platform p → IsLively platform (open_stage platform ns p)
  unfolding open_stage anything_moving
  open_stage-IsLively p v =
      if_elim (IsLively platform) (same_phase p.state.phase attaching)
        (λ _. record { rests = v.rests }) (λ _. v)

  show_attached-IsLively :
      (charging : Bool) (p : Popup Real)
      → IsLively platform p
      → IsLively platform (show_attached platform ns charging p)
  unfolding show_attached
  show_attached-IsLively charging p v =
      if_elim (IsLively platform) p.gave_up (λ _. v)
        (λ _.
          if_elim (IsLively platform) (not (is_shown p) || same_mode p.mode failing)
            (λ _. present-IsLively p v) (λ _. refresh-IsLively charging p))

  show_state-IsLively :
      (s : StylusState) (p : Popup Real)
      → IsLively platform p
      → IsLively platform (show_state platform ns s p)
  unfolding show_state anything_moving
  show_state-IsLively s p v =
      if_elim (IsLively platform) (not s.attached)
        (λ _. end_waiting-IsLively false "" _ (record { rests = v.rests }))
        (λ _. show_attached-IsLively _ _ (open_stage-IsLively _ (record { rests = v.rests })))

  on_connect_attempt_started-IsLively :
      (p : Popup Real)
      → IsLively platform p
      → IsLively platform (on_connect_attempt_started platform ns p)
  unfolding on_connect_attempt_started anything_moving
  on_connect_attempt_started-IsLively p v =
      if_elim (IsLively platform) (not p.state.attached) (λ _. v)
        (λ _.
          if_elim (IsLively platform) (not (is_shown p) || same_mode p.mode failing)
            (λ _. present-IsLively _ (record { rests = v.rests }))
            (λ _.
              if_elim (IsLively platform) (not p.bt_paired && not p.connect_active)
                (λ _. arm_connect_timer-IsLively _ (record { rests = v.rests }))
                (λ _. record { rests = v.rests })))

  on_bt_paired-IsLively :
      (p : Popup Real) → IsLively platform p → IsLively platform (on_bt_paired platform ns p)
  unfolding on_bt_paired
  on_bt_paired-IsLively p v =
      if_elim (IsLively platform) (not p.state.attached) (λ _. v) (λ _. start_frames-IsLively _)

  redraw-IsLively : (p : Popup Real) → IsLively platform p → IsLively platform (redraw platform p)
  unfolding redraw anything_moving
  redraw-IsLively p v =
      if_elim (IsLively platform) p.layer_visible (λ _. record { rests = v.rests }) (λ _. v)

  -- A frame stops the loop only where it takes the surface down or nothing moves.
  finish_frame-IsLively :
      (p : Popup Real) → p.frame_active ≡ true → IsLively platform (finish_frame platform p)
  unfolding finish_frame finish_hide anything_moving redraw
  finish_frame-IsLively p on =
      if_elim (IsLively platform)
        (p.collapsing
          && not (lt (natural platform 0) p.presence.target)
          && lt p.presence.value (lit 2 100))
        (λ _. ground arith)
        (λ _.
          if_elim (IsLively platform) (not (anything_moving platform (redraw platform p)))
            (λ still. ground arith) (λ _. ground arith))

  -- The blocks of a frame before its last leave the loop running.
  swap_runs : (p : Popup Real) → (swap_content platform p).frame_active ≡ p.frame_active
  unfolding swap_content apply_shape_for
  swap_runs p = ground arith

  reveal_runs : (p : Popup Real) → (reveal platform p).frame_active ≡ p.frame_active
  unfolding reveal
  reveal_runs p = ground arith

  vanish_runs : (p : Popup Real) → (vanish platform p).frame_active ≡ p.frame_active
  unfolding vanish
  vanish_runs p = ground arith

  follow_runs : (p : Popup Real) → (follow_capacity platform p).frame_active ≡ p.frame_active
  unfolding follow_capacity
  follow_runs p = ground arith

  on_frame-IsLively :
      (p : Popup Real) → p.frame_active ≡ true → IsLively platform (on_frame platform ns p)
  unfolding on_frame
  on_frame-IsLively p on = finish_frame-IsLively _ (unfold move_springs in runs)
    where
      runs :
          (follow_capacity platform (
            vanish platform (
              reveal platform
                (swap_content platform (record p { last_frame_ns = ns }))))).frame_active
          ≡ true
      runs = follow_runs _ ∙ vanish_runs _ ∙ reveal_runs _ ∙ swap_runs _ ∙ on

  pub handle-IsLively :
      (e : Event) (p : Popup Real)
      → IsLively platform p
      → IsLively platform (handle platform ns e p).0
  unfolding handle on_bt_connection_failed on_connect_timeout anything_moving
  handle-IsLively (state_changed s) p v = show_state-IsLively s p v
  handle-IsLively attempt_started p v = on_connect_attempt_started-IsLively p v
  handle-IsLively paired p v = on_bt_paired-IsLively p v
  handle-IsLively pairing_failed p v = end_waiting-IsLively true _ p v
  handle-IsLively connect_fires p v =
      if_elim (λ (r : Popup Real × List Signal). IsLively platform r.0) p.connect_active
        (λ _. end_waiting-IsLively true _ _ (record { rests = v.rests })) (λ _. v)
  handle-IsLively dismiss_fires p v =
      if_elim (IsLively platform) p.dismiss_active
        (λ _. collapse-IsLively _ (record { rests = v.rests })) (λ _. v)
  handle-IsLively error_fires p v =
      if_elim (IsLively platform) p.error_active
        (λ _. collapse-IsLively _ (record { rests = v.rests })) (λ _. v)
  handle-IsLively frame_fires p v =
      if_elim (IsLively platform) p.frame_active (λ on. on_frame-IsLively p on) (λ _. v)
  handle-IsLively (theme_changed taken) p v =
      if_elim (IsLively platform) taken (λ _. redraw-IsLively p v) (λ _. v)

-- From the constructor on, whatever happens: while the surface is visible and the frame loop does
-- not run, nothing moves.
pub run-IsLively :
    (platform : Platform) (timeout : ℤ) (screen_w interval : ℕ) (es : List (ℤ × Event))
    → IsLively platform (run platform (initial platform timeout screen_w interval) es)
run-IsLively platform timeout screen_w interval es =
    run_inv platform (IsLively platform) (λ ns e p. handle-IsLively platform ns e p) _ es start
  where
    start : IsLively platform (initial platform timeout screen_w interval)
    start = unfold initial in ground arith
