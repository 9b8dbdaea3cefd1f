-- ===== src/App/Pairing/Tests.antt =====
-- A pen that BlueZ lists after an adapter, not paired yet.
use Prim.Native.String.{String}
use stylus_popup.Prelude.{Bool, true, false, some, none, List, [], ◌∷◌, pos, ◌≡◌, refl, ℤ}
use stylus_popup.Pen.{StylusState, default_state}
use stylus_popup.Platform.Fixed.{fixed}
use stylus_popup.Popup.{expanded}
use stylus_popup.Popup.Strings.{is_empty}
use stylus_popup.Bluez.{ManagedObject, search_objects}
use stylus_popup.App.{App, initial, on_state_changed}
use stylus_popup.App.Pairing.{all_answered, attempt_signals, deliver_all, listed_pen_pairs}

abbrev same_address : String → String → Bool
same_address a b = true

abbrev reachable : String → Bool
reachable path = true

abbrev seated : StylusState
seated = record default_state {
  attached = true;
  mac_address = "AA:BB:CC:DD:EE:01";
  mac_valid = true;
}

abbrev listed : List ManagedObject
listed =
    record { path = "/org/bluez/hci0"; is_adapter = true; device = none }
    ∷ record {
      path = "/org/bluez/hci0/dev";
      is_adapter = false;
      device = some (record { address = "aa:bb:cc:dd:ee:01"; is_paired = false });
    }
    ∷ []

abbrev begun : App ℤ
begun = initial fixed (pos 15000) 1920 16

found :
    (search_objects same_address "AA:BB:CC:DD:EE:01" "" listed).match
    ≡ some ("/org/bluez/hci0/dev", false)
unfolding search_objects
found = refl

listed_pen_pairs_example :
    let asked = on_state_changed fixed reachable (pos 40000000) seated begun in
    let replied = record asked {
      bluez = all_answered same_address reachable false "/org/bluez/hci0/dev" listed asked.bluez;
    } in
    let last =
      deliver_all fixed reachable
        (pos 60000000)
        (attempt_signals false "AA:BB:CC:DD:EE:01" "/org/bluez/hci0/dev")
        replied in
    (last.popup.mode ≡ expanded)
    × (last.popup.bt_paired ≡ true)
    × (last.popup.gave_up ≡ false)
    × (last.popup.connect_active ≡ false)
    × (last.popup.dismiss_active ≡ true)
    × (is_empty last.bluez.pending_mac ≡ true)
    × (last.pairing_requested ≡ true)
    × (last.delivered ≡ last.bluez.outputs)
unfolding initial
listed_pen_pairs_example =
    listed_pen_pairs fixed reachable same_address (pos 40000000) (pos 60000000) false seated
      "/org/bluez/hci0/dev" listed begun refl refl refl refl refl refl refl refl refl refl found
