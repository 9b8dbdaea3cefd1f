-- ===== src/Popup/Verdicts.antt =====
-- src/popupwidget.cpp: how a wait for the pen ends, and what opens the next one.
use Prim.Native.String.{String}
use stylus_popup.Prelude.{true, false, [], ◌∷◌, ℤ, pos, ◌<ℤ◌, ◌≡◌, ◌≢◌, ◌⊎◌, arith}
use stylus_popup.Pen.{StylusState, attaching, complete}
use stylus_popup.Platform.{Platform}
use stylus_popup.Popup.{Popup, hidden, expanded, failing}
use stylus_popup.Popup.Handlers.{
  connect_timed_out, show_state, show_attached, open_stage, present, collapse, show_error,
  end_waiting, on_connect_timeout, on_bt_connection_failed, arm_connect_timer,
}
use stylus_popup.Popup.Strings
use stylus_popup.Popup.Strings.{connect_failed-not_empty, connect_timed_out-not_empty}
use stylus_popup.Popup.Kept.{set_mode-IsMoved, on_frame-IsKept, redraw-IsKept}
use stylus_popup.Popup.Events.{
  Event, state_changed, attempt_started, paired, pairing_failed, connect_fires, dismiss_fires,
  error_fires, frame_fires, theme_changed, handle,
}
use stylus_popup.Popup.Timers.{IsTimed}

module _ (platform : Platform) (ns : ℤ) where
  open platform use {Real}

  show_error_lem :
      (p : Popup Real) (message : String)
      → let q = show_error platform ns message p in
        (q.mode ≡ failing)
        × (q.error_active ≡ true)
        × (q.error_text ≡ message)
        × (q.gave_up ≡ p.gave_up)
        × (q.connect_active ≡ p.connect_active)
  unfolding show_error
  show_error_lem p message = ground (
    arith,
    set_mode-IsMoved platform ns failing
        (record p { error_text = message; dismiss_active = false }),
  )

  collapse_lem :
      (p : Popup Real)
      → let q = collapse platform ns p in
        (q.mode ≡ hidden) × (q.gave_up ≡ p.gave_up) × (q.connect_active ≡ false)
  unfolding collapse
  collapse_lem p = ground (
    arith,
    set_mode-IsMoved platform ns hidden
        (record p { dismiss_active = false; error_active = false; connect_active = false }),
  )

  -- When the connect timer fires, with the timers in order, the popup emits `connectTimedOut` and
  -- shows that the pen timed out: it has given up, and waits for nothing but the error's timer.
  pub connect_fires_verdict :
      (p : Popup Real)
      → IsTimed p
      → p.connect_active ≡ true
      → let (q, signals) = handle platform ns connect_fires p in
        (signals ≡ connect_timed_out ∷ [])
        × (q.mode ≡ failing)
        × (q.error_text ≡ Strings.connect_timed_out platform)
        × (q.error_active ≡ true)
        × (q.connect_active ≡ false)
        × (q.gave_up ≡ true)
  unfolding handle on_connect_timeout end_waiting
  connect_fires_verdict p v on = ground (
    arith,
    connect_timed_out-not_empty platform,
    show_error_lem (record p { gave_up = true; connect_active = false })
        (Strings.connect_timed_out platform),
  )

  -- A failed pairing makes a shown island of an unpaired pen say so, hides that of a paired one,
  -- and leaves a hidden island hidden; in every case the popup has given up and waits no more.
  pairing_failed_verdict :
      (p : Popup Real)
      → let q = (handle platform ns pairing_failed p).0 in
        (q.gave_up ≡ true)
        × (q.connect_active ≡ false)
        × ((p.mode ≡ hidden) ⊎ (p.bt_paired ≡ true) → q.mode ≡ hidden)
        × (p.mode ≢ hidden
            → p.bt_paired ≡ false
            → (q.mode ≡ failing) × (q.error_text ≡ Strings.connect_failed platform))
  unfolding handle on_bt_connection_failed end_waiting
  pairing_failed_verdict p = ground (
    arith,
    connect_failed-not_empty platform,
    show_error_lem (record p { gave_up = true; connect_active = false })
        (Strings.connect_failed platform),
    collapse_lem (record p { gave_up = true; connect_active = false }),
  )

  -- The events that may open a wait after the popup gave up.
  abbrev pub Reopens : Event → Type 0
  Reopens (state_changed s) = (s.attached ≡ false) ⊎ (s.phase ≡ attaching)
  Reopens attempt_started = Unit
  Reopens paired = Unit
  Reopens _ = ⊥

  chatter :
      (s : StylusState) (p : Popup Real)
      → s.attached ≡ true
      → s.phase ≡ complete
      → p.gave_up ≡ true
      → show_state platform ns s p ≡ record p { state = s; dismiss_active = false }
  unfolding show_state show_attached open_stage
  chatter s p a c g = ground arith

  -- A popup that gave up, with the timers in order, stays so and off screen, but for its error,
  -- at every event other than a detached or attaching report, a new attempt and a pairing.
  gave_up_stays :
      (e : Event) (p : Popup Real)
      → IsTimed p
      → p.gave_up ≡ true
      → ¬ Reopens e
      → let q = (handle platform ns e p).0 in
        (q.gave_up ≡ true) × ((q.mode ≡ hidden) ⊎ (q.mode ≡ failing))
  unfolding handle
  gave_up_stays (state_changed s) p v g r = ground (arith, chatter s p, r)
  gave_up_stays attempt_started p v g r = absurd (r tt)
  gave_up_stays paired p v g r = absurd (r tt)
  gave_up_stays pairing_failed p v g r = ground (arith, pairing_failed_verdict p)
  gave_up_stays connect_fires p v g r = ground (arith, connect_fires_verdict p)
  gave_up_stays dismiss_fires p v g r =
      ground (arith, collapse_lem (record p { dismiss_active = false }))
  gave_up_stays error_fires p v g r =
      ground (arith, collapse_lem (record p { error_active = false }))
  gave_up_stays frame_fires p v g r = ground (arith, on_frame-IsKept platform ns p)
  gave_up_stays (theme_changed taken) p v g r = ground (arith, redraw-IsKept platform ns p)

  shown_unpaired :
      (s : StylusState) (p : Popup Real)
      → p.mode ≡ hidden
      → p.gave_up ≡ false
      → p.bt_paired ≡ false
      → pos 0 <ℤ p.connect_timeout_ms
      → s.attached ≡ true
      → s.phase ≡ complete
      → let q = show_state platform ns s p in
        (q.mode ≡ expanded)
        × (q.dismiss_active ≡ true)
        × (q.connect_active ≡ true)
        × (q.gave_up ≡ false)
  unfolding show_state show_attached open_stage present arm_connect_timer
  shown_unpaired s p m g b t a c = ground (
    arith,
    set_mode-IsMoved platform ns expanded (record p { state = s; dismiss_active = false }),
  )

  -- A report that finds the island hidden, of an attached pen that is complete and unpaired, with a
  -- timeout set and nothing given up, starts the timer that dismisses the island beside the one
  -- that waits for the pen. If the first fires next, the island is hidden and the wait is over: no
  -- signal is emitted and the popup has not given up.
  pub unpaired_dismissed :
      (s : StylusState) (p : Popup Real)
      → p.mode ≡ hidden
      → p.gave_up ≡ false
      → p.bt_paired ≡ false
      → pos 0 <ℤ p.connect_timeout_ms
      → s.attached ≡ true
      → s.phase ≡ complete
      → let q = show_state platform ns s p in
        let (r, signals) = handle platform ns dismiss_fires q in
        (q.mode ≡ expanded)
        × (q.dismiss_active ≡ true)
        × (q.connect_active ≡ true)
        × (r.mode ≡ hidden)
        × (r.connect_active ≡ false)
        × (r.gave_up ≡ false)
        × (signals ≡ [])
  unfolding handle
  unpaired_dismissed s p m g b t a c = ground (
    arith,
    shown_unpaired s p m g b t a c,
    collapse_lem (record (show_state platform ns s p) { dismiss_active = false }),
  )
