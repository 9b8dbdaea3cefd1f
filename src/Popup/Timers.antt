-- ===== src/Popup/Timers.antt =====
-- src/popupwidget.cpp: which timers run in which mode.
use stylus_popup.Prelude.{
  ℕ, Bool, true, false, List, ℤ, pos, ◌≤ℤ◌, ◌≡◌, ◌≢◌, ◌⊎◌, arith, not, if_elim, refl,
}
use Prim.Native.String.{String}
use stylus_popup.Pen.{StylusState}
use stylus_popup.Platform.{Platform}
use stylus_popup.Popup.{Popup, hidden, expanded, failing, set_mode, initial}
use stylus_popup.Popup.Handlers.{
  Signal, show_state, on_connect_attempt_started, on_bt_paired, on_bt_connection_failed,
  on_connect_timeout, collapse, present, refresh, wait_or_leave, end_waiting, show_error,
  show_attached, show_paired, open_stage, arm_connect_timer, seated_mode,
}
use stylus_popup.Popup.Strings.{is_empty}
use stylus_popup.Popup.Events.{
  Event, state_changed, attempt_started, paired, pairing_failed, connect_fires, dismiss_fires,
  error_fires, frame_fires, theme_changed, handle, run, run_inv,
}
use stylus_popup.Popup.Kept.{
  IsMoved, IsKept, IsKept-trans, start_frames-IsKept, set_mode-IsMoved, kick-IsKept,
  on_frame-IsKept, redraw-IsKept,
}

pub record IsTimed {R : Type 0} (p : Popup R) : Type 0 where
  pub hidden_quiet :
      p.mode ≡ hidden
      → (p.dismiss_active ≡ false) × (p.connect_active ≡ false) × (p.error_active ≡ false)
  pub failing_held : p.mode ≡ failing → p.error_active ≡ true
  pub held_failing : p.error_active ≡ true → p.mode ≡ failing
  pub waiting_unpaired : p.connect_active ≡ true → p.bt_paired ≡ false
  pub gave_up_gone : p.gave_up ≡ true → (p.mode ≡ hidden) ⊎ (p.mode ≡ failing)
  pub forever : p.connect_timeout_ms ≤ℤ pos 0 → p.connect_active ≡ false
  pub shown_attached : p.mode ≢ hidden → p.state.attached ≡ true
  pub shown_ends :
      p.mode ≢ hidden
      → (p.dismiss_active ≡ true)
        ⊎ (p.connect_active ≡ true)
        ⊎ (p.error_active ≡ true)
        ⊎ ((p.connect_timeout_ms ≤ℤ pos 0) × (p.bt_paired ≡ false))

IsKept-IsTimed : {R : Type 0} {p q : Popup R} → IsKept p q → IsTimed p → IsTimed q
IsKept-IsTimed h k = ground arith

module _ (platform : Platform) (ns : ℤ) where
  open platform use {Real}

  present-IsTimed :
      (p : Popup Real)
      → p.state.attached ≡ true
      → p.gave_up ≡ false
      → (p.error_active ≡ true → p.mode ≡ failing)
      → (p.connect_active ≡ true → p.bt_paired ≡ false)
      → (p.connect_timeout_ms ≤ℤ pos 0 → p.connect_active ≡ false)
      → IsTimed (present platform ns p)
  unfolding present arm_connect_timer
  present-IsTimed p a g e c z = ground (arith, set_mode-IsMoved platform ns (seated_mode p.state) p)

  wait_or_leave-IsTimed :
      (p : Popup Real)
      → p.state.attached ≡ true
      → p.gave_up ≡ false
      → p.mode ≡ seated_mode p.state
      → p.error_active ≡ false
      → (p.connect_active ≡ true → p.bt_paired ≡ false)
      → (p.connect_timeout_ms ≤ℤ pos 0 → p.connect_active ≡ false)
      → IsTimed (wait_or_leave platform ns p)
  unfolding wait_or_leave arm_connect_timer
  wait_or_leave-IsTimed p a g m e c z = ground arith

  refresh-IsTimed :
      (charging : Bool) (p : Popup Real)
      → p.state.attached ≡ true
      → p.gave_up ≡ false
      → (p.error_active ≡ true → p.mode ≡ failing)
      → (p.connect_active ≡ true → p.bt_paired ≡ false)
      → (p.connect_timeout_ms ≤ℤ pos 0 → p.connect_active ≡ false)
      → IsTimed (refresh platform ns charging p)
  unfolding refresh
  refresh-IsTimed charging p a g e c z =
      IsKept-IsTimed
        (IsKept-trans (kick-IsKept platform ns charging _) (start_frames-IsKept platform ns _))
        timed
    where
      moved : IsMoved (seated_mode p.state) p (set_mode platform ns (seated_mode p.state) p)
      moved = set_mode-IsMoved platform ns (seated_mode p.state) p

      timed : IsTimed (wait_or_leave platform ns (set_mode platform ns (seated_mode p.state) p))
      timed =
          wait_or_leave-IsTimed (set_mode platform ns (seated_mode p.state) p)
            (ground (arith, moved)) (ground (arith, moved)) (ground (arith, moved))
            (ground (arith, moved)) (ground (arith, moved)) (ground (arith, moved))

  collapse-IsTimed : (p : Popup Real) → IsTimed (collapse platform ns p)
  unfolding collapse
  collapse-IsTimed p = ground (
    arith,
    set_mode-IsMoved platform ns hidden
        (record p { dismiss_active = false; error_active = false; connect_active = false }),
  )

  show_error-IsTimed :
      (message : String) (p : Popup Real)
      → p.state.attached ≡ true
      → p.connect_active ≡ false
      → IsTimed (show_error platform ns message p)
  unfolding show_error
  show_error-IsTimed message p a c = ground (
    arith,
    set_mode-IsMoved platform ns failing
        (record p { error_text = message; dismiss_active = false }),
  )

  -- A wait that ends leaves the timers in order, where an island with a reason has its pen.
  end_waiting-IsTimed :
      (gave_up : Bool) (reason : String) (p : Popup Real)
      → (p.mode ≡ hidden → (p.dismiss_active ≡ false) × (p.error_active ≡ false))
      → (is_empty reason ≡ false → p.mode ≢ hidden → p.state.attached ≡ true)
      → IsTimed (end_waiting platform ns gave_up reason p)
  unfolding end_waiting
  end_waiting-IsTimed gave_up reason p q a = ground (
    arith,
    show_error-IsTimed reason (record p { gave_up = gave_up; connect_active = false }),
    collapse-IsTimed (record p { gave_up = gave_up; connect_active = false }),
  )

  show_attached-IsTimed :
      (charging : Bool) (p : Popup Real)
      → p.state.attached ≡ true
      → (p.error_active ≡ true → p.mode ≡ failing)
      → (p.mode ≡ failing → p.error_active ≡ true)
      → (p.connect_active ≡ true → p.bt_paired ≡ false)
      → (p.connect_timeout_ms ≤ℤ pos 0 → p.connect_active ≡ false)
      → (p.mode ≡ hidden → (p.dismiss_active ≡ false) × (p.connect_active ≡ false))
      → (p.gave_up ≡ true → (p.mode ≡ hidden) ⊎ (p.mode ≡ failing))
      → IsTimed (show_attached platform ns charging p)
  unfolding show_attached
  show_attached-IsTimed charging p a e f c z h g =
      ground (arith, present-IsTimed p, refresh-IsTimed charging p)

  show_state-IsTimed :
      (s : StylusState) (p : Popup Real) → IsTimed p → IsTimed (show_state platform ns s p)
  unfolding show_state
  show_state-IsTimed s p v =
      if_elim IsTimed (not s.attached)
        (λ off. end_waiting-IsTimed false "" _ (λ h. (refl, (v.hidden_quiet h).2)) (λ e. cc))
        (λ on.
          show_attached-IsTimed p.state.charging (open_stage platform ns opened)
            (unfold open_stage in ground arith) (unfold open_stage in ground arith)
            (unfold open_stage in ground arith) (unfold open_stage in ground arith)
            (unfold open_stage in ground arith) (unfold open_stage in ground arith)
            (unfold open_stage in ground arith))
    where
      opened : Popup Real
      opened = record p { state = s; dismiss_active = false }

  on_connect_attempt_started-IsTimed :
      (p : Popup Real) → IsTimed p → IsTimed (on_connect_attempt_started platform ns p)
  unfolding on_connect_attempt_started arm_connect_timer
  on_connect_attempt_started-IsTimed p v =
      ground (arith, present-IsTimed (record p { gave_up = false }))

  show_paired-IsTimed :
      (p : Popup Real)
      → p.state.attached ≡ true
      → p.gave_up ≡ false
      → p.bt_paired ≡ true
      → p.connect_active ≡ false
      → (p.mode ≡ hidden → (p.dismiss_active ≡ false) × (p.error_active ≡ false))
      → (p.error_active ≡ true → p.mode ≡ failing)
      → (p.mode ≡ failing → p.error_active ≡ true)
      → IsTimed (show_paired platform ns p)
  unfolding show_paired
  show_paired-IsTimed p a g b c h e f = ground (arith, set_mode-IsMoved platform ns expanded p)

  on_bt_paired-IsTimed : (p : Popup Real) → IsTimed p → IsTimed (on_bt_paired platform ns p)
  unfolding on_bt_paired
  on_bt_paired-IsTimed p v =
      if_elim IsTimed (not p.state.attached) (λ off. v)
        (λ on. IsKept-IsTimed (start_frames-IsKept platform ns _) (
          show_paired-IsTimed
            (record p { bt_paired = true; gave_up = false; connect_active = false }) (ground arith)
            refl refl refl (ground arith) (ground arith) (ground arith)))

  on_connect_timeout-IsTimed :
      (p : Popup Real)
      → (p.mode ≡ hidden → (p.dismiss_active ≡ false) × (p.error_active ≡ false))
      → (p.mode ≢ hidden → p.state.attached ≡ true)
      → IsTimed (on_connect_timeout platform ns p).0
  unfolding on_connect_timeout
  on_connect_timeout-IsTimed p q a = end_waiting-IsTimed true _ p q (λ _. a)

  -- Every event keeps the timers in order: a hidden island runs none, an error is shown exactly
  -- while its timer runs, the connect timer runs for an unpaired pen only, an island that gave up
  -- is hidden or shows its error, a shown island has its pen attached, and a timer that takes it
  -- off screen runs, unless the timeout is switched off and the pen is unpaired.
  pub handle-IsTimed : (e : Event) (p : Popup Real) → IsTimed p → IsTimed (handle platform ns e p).0
  unfolding handle on_bt_connection_failed
  handle-IsTimed (state_changed s) p v = show_state-IsTimed s p v
  handle-IsTimed attempt_started p v = on_connect_attempt_started-IsTimed p v
  handle-IsTimed paired p v = on_bt_paired-IsTimed p v
  handle-IsTimed pairing_failed p v = end_waiting-IsTimed true _ p (ground arith) (ground arith)
  handle-IsTimed connect_fires p v =
      if_elim (λ (r : Popup Real × List Signal). IsTimed r.0) p.connect_active
        (λ on. on_connect_timeout-IsTimed _ (ground arith) (ground arith)) (λ off. v)
  handle-IsTimed dismiss_fires p v =
      if_elim IsTimed p.dismiss_active (λ on. collapse-IsTimed _) (λ off. v)
  handle-IsTimed error_fires p v =
      if_elim IsTimed p.error_active (λ on. collapse-IsTimed _) (λ off. v)
  handle-IsTimed frame_fires p v =
      if_elim IsTimed p.frame_active (λ on. IsKept-IsTimed (on_frame-IsKept platform ns p) v)
        (λ off. v)
  handle-IsTimed (theme_changed taken) p v =
      if_elim IsTimed taken (λ _. IsKept-IsTimed (redraw-IsKept platform ns p) v) (λ _. v)

-- From the constructor on, whatever happens, the timers are in order: a hidden island has none running;
-- the error's timer runs exactly while the error is shown; the wait runs only for an unpaired pen, and
-- not with the timeout switched off; a popup that gave up is hidden or shows its error; and a shown
-- island has an attached pen and a timer that ends it, unless the timeout is switched off and the pen
-- is unpaired.
pub run-IsTimed :
    (platform : Platform) (timeout : ℤ) (screen_w interval : ℕ) (es : List (ℤ × Event))
    → IsTimed (run platform (initial platform timeout screen_w interval) es)
run-IsTimed platform timeout screen_w interval es =
    run_inv platform IsTimed (λ ns e p. handle-IsTimed platform ns e p) _ es start
  where
    start : IsTimed (initial platform timeout screen_w interval)
    start = unfold initial in ground arith
