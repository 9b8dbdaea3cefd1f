-- ===== src/Popup/Bonded.antt =====
-- src/popupwidget.cpp: the island at a pairing, and that the handlers keep what the driver reported.
use stylus_popup.Prelude.{Bool, true, false, ℤ, ◌≡◌, ◌∙◌, arith}
use stylus_popup.Pen.{StylusState, complete}
use stylus_popup.Platform.{Platform}
use stylus_popup.Popup.{Popup, expanded}
use stylus_popup.Popup.Kept.{set_mode-IsMoved, start_frames-IsKept, kick-IsKept}
use stylus_popup.Popup.Handlers.{
  show_state, show_attached, open_stage, present, refresh, wait_or_leave, arm_connect_timer,
  on_connect_attempt_started, on_bt_paired, show_paired,
}
use stylus_popup.Popup.Events.{attempt_started, paired, handle}

module _ (platform : Platform) (ns : ℤ) where
  open platform use {Real}

  present-state : (p : Popup Real) → (present platform ns p).state ≡ p.state
  unfolding present arm_connect_timer
  present-state p = grind (arith, set_mode-IsMoved platform ns)

  wait_or_leave-state : (p : Popup Real) → (wait_or_leave platform ns p).state ≡ p.state
  unfolding wait_or_leave arm_connect_timer
  wait_or_leave-state p = ground arith

  refresh-state : (b : Bool) (p : Popup Real) → (refresh platform ns b p).state ≡ p.state
  unfolding refresh
  refresh-state b p =
      (start_frames-IsKept platform ns _).state_kept
      ∙ (kick-IsKept platform ns b _).state_kept
      ∙ wait_or_leave-state _
      ∙ (set_mode-IsMoved platform ns _ p).state_kept

  pub shown-state :
      (s : StylusState) (p : Popup Real)
      → s.attached ≡ true
      → (show_state platform ns s p).state ≡ s
  unfolding show_state show_attached open_stage
  shown-state s p a = grind (arith, present-state, refresh-state)

  pub started-state : (p : Popup Real) → (handle platform ns attempt_started p).0.state ≡ p.state
  unfolding handle on_connect_attempt_started arm_connect_timer
  started-state p = ground (arith, present-state (record p { gave_up = false }))

  -- A pairing of a pen that the driver reports attached and complete shows the pill.
  pub paired_shows :
      (p : Popup Real)
      → p.state.attached ≡ true
      → p.state.phase ≡ complete
      → let q = (handle platform ns paired p).0 in
        (q.state ≡ p.state)
        × (q.mode ≡ expanded)
        × (q.bt_paired ≡ true)
        × (q.gave_up ≡ false)
        × (q.connect_active ≡ false)
        × (q.dismiss_active ≡ true)
  unfolding handle on_bt_paired show_paired
  paired_shows p a c = grind (arith, start_frames-IsKept platform ns, set_mode-IsMoved platform ns)
