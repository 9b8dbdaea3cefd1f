-- ===== src/App/Tests.antt =====
-- The connected application at concrete histories: a pen that is put on, reported complete, and not
-- paired in time.
use Prim.Native.String.{String}
use stylus_popup.Prelude.{Bool, true, List, [], ◌∷◌, ℤ, pos, ◌≡◌, refl, arith}
use stylus_popup.Pen.{StylusState, default_state}
use stylus_popup.Platform.Fixed.{fixed}
use stylus_popup.Popup
use stylus_popup.Popup.{Popup, expanded, failing}
use stylus_popup.Popup.Strings.{is_empty}
use stylus_popup.Popup.Events.{connect_fires}
use stylus_popup.Popup.Timers.{IsTimed}
use stylus_popup.Bluez
use stylus_popup.Bluez.{Call, Answer, get_managed_objects, pair, failure, done, ensure_paired}
use stylus_popup.App.{App, initial, on_popup_event}
use stylus_popup.App.Requests.{
  reports_run, first_address, asked_once_for_first, replies_run, timeout_drops,
}

abbrev same_address : String → String → Bool
same_address a b = true

abbrev reachable : String → Bool
reachable path = true

abbrev seated : StylusState
seated = record default_state {
  attached = true;
  mac_address = "AA:BB:CC:DD:EE:01";
  mac_valid = true;
}

abbrev begun : App ℤ
begun = initial fixed (pos 15000) 1920 16

-- The application while the popup waits and the manager has asked for the managed objects.
abbrev waiting : App ℤ
waiting = record {
  popup = record (Popup.initial fixed (pos 15000) 1920 16) {
    state = seated;
    mode = expanded;
    layer_visible = true;
    connect_active = true;
  };
  bluez = record Bluez.initial {
    pending_mac = "AA:BB:CC:DD:EE:01";
    in_flight = get_managed_objects ∷ [];
  };
  pairing_requested = true;
  delivered = [];
}

waiting-IsTimed : IsTimed waiting.popup
unfolding Popup.initial
waiting-IsTimed = ground arith

abbrev late : List (Call × Answer)
late = (get_managed_objects, failure "gone") ∷ (pair "/dev/pen", done) ∷ []

timeout_drops_example :
    let after = on_popup_event fixed reachable (pos 5) connect_fires waiting in
    (after.popup.gave_up ≡ true)
    × (after.popup.mode ≡ failing)
    × (is_empty after.bluez.pending_mac ≡ true)
    × (replies_run fixed reachable same_address late after.bluez ≡ after.bluez)
timeout_drops_example =
    timeout_drops fixed reachable same_address (pos 5) late waiting waiting-IsTimed refl

-- Three reports of a pen that stays where it is.
abbrev seated_reports : List (ℤ × StylusState)
seated_reports = (pos 6, seated) ∷ (pos 7, record seated { charging = true }) ∷ (pos 8, seated) ∷ []

asked_once_for_first_example :
    (reports_run fixed reachable begun seated_reports).bluez
    ≡ ensure_paired reachable "AA:BB:CC:DD:EE:01" begun.bluez
unfolding initial first_address
asked_once_for_first_example =
    asked_once_for_first fixed reachable seated_reports begun
      (refl, refl, (refl, refl, (refl, refl, tt))) refl
