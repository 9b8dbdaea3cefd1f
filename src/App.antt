-- ===== src/App.antt =====
-- src/main.cpp: the pen's monitor, the popup and the Bluetooth manager, as `main` connects them. The
-- signals of the manager are queued: `delivered` holds those that its receivers have had, so that
-- what stands before it in the manager's outputs is still in the queue. The popup's signal is
-- connected directly.
pub mod Wiring
pub mod Requests
pub mod Screen
pub mod Upload
pub mod Start
pub mod Pairing
mod Tests
use Prim.Native.String.{String}
use stylus_popup.Prelude.{ℕ, Bool, true, false, not, ◌&&◌, ◌||◌, List, [], ◌∷◌, ℤ, if◌then◌else◌}
use stylus_popup.Pen.{StylusState, attaching, complete}
use stylus_popup.Platform.{Platform}
use stylus_popup.Popup
use stylus_popup.Popup.{Popup}
use stylus_popup.Popup.Handlers.{Signal, connect_timed_out, same_phase, show_state}
use stylus_popup.Popup.Events.{Event, attempt_started, paired, pairing_failed, handle}
use stylus_popup.Bluez
use stylus_popup.Bluez.{BluezManager, Output, ensure_paired, cancel}

pub record App (R : Type 0) : Type 0 where
  pub popup : Popup R
  pub bluez : BluezManager
  pub pairing_requested : Bool
  pub delivered : List Output

module _ (platform : Platform) (is_valid : String → Bool) (ns : ℤ) where
  open platform use {Real}

  -- Whether `onStateChanged` asks for the pen to be paired, given whether it did before.
  unfoldable pub asks : Bool → StylusState → Bool
  asks requested state =
      state.attached && state.mac_valid && same_phase state.phase complete && not requested

  unfoldable pub still_requested : Bool → StylusState → Bool
  still_requested requested state =
      if not state.attached || same_phase state.phase attaching then false else requested

  -- The lambda `onStateChanged`.
  unfoldable pub on_state_changed : StylusState → App Real → App Real
  on_state_changed state app =
      let shown = show_state platform ns state app.popup in
      let requested = still_requested app.pairing_requested state in
      if asks requested state
      then record app {
        popup = shown;
        bluez = ensure_paired is_valid state.mac_address app.bluez;
        pairing_requested = true;
      }
      else record app { popup = shown; pairing_requested = requested }

  -- `connectTimedOut` is connected to `BluezManager::cancel`.
  unfoldable pub on_signals : List Signal → BluezManager → BluezManager
  on_signals [] b = b
  on_signals (connect_timed_out ∷ signals) b = on_signals signals (cancel is_valid b)

  -- An event of the popup, with what its signals do.
  unfoldable pub on_popup_event : Event → App Real → App Real
  on_popup_event e app =
      let (popup, signals) = handle platform ns e app.popup in
      record app { popup = popup; bluez = on_signals signals app.bluez }

  -- The next signal of the manager reaches the popup's slot. Its calls have none.
  unfoldable pub deliver : Output → App Real → App Real
  deliver o app =
      let next = record app { delivered = o ∷ app.delivered } in
      elim o [
        | Bluez.calls c ↦ next
        | Bluez.stop_discovery path ↦ next
        | Bluez.attempt_started ↦ on_popup_event attempt_started next
        | Bluez.paired mac ↦ on_popup_event paired next
        | Bluez.pairing_failed mac message ↦ on_popup_event pairing_failed next
      ]

-- The application as `main` builds it.
unfoldable pub initial :
    (platform : Platform) (timeout : ℤ) (screen_w interval : ℕ) → App platform.Real
initial platform timeout screen_w interval = record {
  popup = Popup.initial platform timeout screen_w interval;
  bluez = Bluez.initial;
  pairing_requested = false;
  delivered = [];
}
