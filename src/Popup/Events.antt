-- ===== src/Popup/Events.antt =====
-- src/popupwidget.cpp: what can happen to the popup, one event of the event loop after another. A
-- single-shot timer that fires is not active any more, and only an active timer fires.
use stylus_popup.Prelude.{Bool, false, List, [], ◌∷◌, ℤ, if◌then◌else◌}
use stylus_popup.Pen.{StylusState}
use stylus_popup.Platform.{Platform}
use stylus_popup.Popup.{Popup}
use stylus_popup.Popup.Frames.{on_frame, redraw}
use stylus_popup.Popup.Handlers.{
  Signal, show_state, on_connect_attempt_started, on_bt_paired, on_bt_connection_failed,
  on_connect_timeout, collapse,
}

pub data Event : Type 0 where
  state_changed : StylusState → Event
  attempt_started paired pairing_failed : Event
  connect_fires dismiss_fires error_fires frame_fires : Event
  theme_changed : Bool → Event  -- whether the reload takes a file

module _ (platform : Platform) (ns : ℤ) where
  open platform use {Real}

  -- The popup after an event, and the signals that it emits.
  unfoldable pub handle : Event → Popup Real → Popup Real × List Signal
  handle (state_changed s) p = (show_state platform ns s p, [])
  handle attempt_started p = (on_connect_attempt_started platform ns p, [])
  handle paired p = (on_bt_paired platform ns p, [])
  handle pairing_failed p = (on_bt_connection_failed platform ns p, [])
  handle connect_fires p =
      if p.connect_active
      then on_connect_timeout platform ns (record p { connect_active = false })
      else (p, [])
  handle dismiss_fires p = (
    if p.dismiss_active then collapse platform ns (record p { dismiss_active = false }) else p,
    [],
  )
  handle error_fires p =
      (if p.error_active then collapse platform ns (record p { error_active = false }) else p, [])
  handle frame_fires p = (if p.frame_active then on_frame platform ns p else p, [])
  handle (theme_changed taken) p = (if taken then redraw platform p else p, [])

module _ (platform : Platform) where
  open platform use {Real}

  -- A history of events, each at its clock reading.
  unfoldable pub run : Popup Real → List (ℤ × Event) → Popup Real
  run p [] = p
  run p ((ns, e) ∷ es) = run (handle platform ns e p).0 es

  pub run_inv {ℓ} :
      (P : Popup Real → Type ℓ)
      → ((ns : ℤ) (e : Event) (p : Popup Real) → P p → P (handle platform ns e p).0)
      → (p : Popup Real) (es : List (ℤ × Event)) → P p
      → P (run p es)
  unfolding run
  run_inv P keep p [] h = h
  run_inv P keep p ((ns, e) ∷ es) h = run_inv P keep (handle platform ns e p).0 es (keep ns e p h)
