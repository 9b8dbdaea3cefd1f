-- ===== src/Bluez/Objects/Tests.antt =====
-- The managed objects of a system with two adapters, on whose second a pen is known.
use Prim.Native.String.{String}
use text.Mathlib.Text.{◌==◌ as str_eq}
use stylus_popup.Prelude.{Bool, true, false, some, List, [], ◌∷◌, ◌≡◌, refl}
use stylus_popup.Bluez.{
  BluezManager, calls, pair, initial, act_on, settle_device, pair_and_connect_device,
}
use stylus_popup.Bluez.Objects.{
  first_adapter, first_device, device_of, on_objects, on_objects-searches,
}

-- A property is a text here, and a flag is one that reads as true.
abbrev to_text : String → String
to_text v = v

abbrev to_flag : String → Bool
to_flag v = str_eq v "true"

abbrev objects : List (String × List (String × List (String × String)))
objects =
    ("/org/bluez", ("org.bluez.AgentManager1", []) ∷ [])
    ∷ ("/org/bluez/hci0", ("org.bluez.Adapter1", ("Address", "00:00:00:00:00:01") ∷ []) ∷ [])
    ∷ ("/org/bluez/hci1", ("org.bluez.Adapter1", []) ∷ [])
    ∷ ("/org/bluez/hci1/dev_1", ("org.bluez.Device1", ("Alias", "a mouse") ∷ []) ∷ [])
    ∷ (
      "/org/bluez/hci1/dev_2",
      ("org.bluez.Device1", ("Address", "AA:BB:CC:DD:EE:02") ∷ ("Paired", "false") ∷ []) ∷ [],
    )
    ∷ []

abbrev pending : BluezManager
pending = record initial { pending_mac = "AA:BB:CC:DD:EE:02" }

pen_found :
    (first_adapter to_text to_flag objects ≡ "/org/bluez/hci0")
    × (first_device to_text to_flag str_eq "AA:BB:CC:DD:EE:02" objects
        ≡ some ("/org/bluez/hci1/dev_2", false))
unfolding first_adapter first_device device_of
pen_found = (refl, refl)

on_objects-searches_example :
    on_objects to_text to_flag str_eq (λ path. true) objects pending ≡ record pending {
      in_flight = pair "/org/bluez/hci1/dev_2" ∷ [];
      outputs = calls (pair "/org/bluez/hci1/dev_2") ∷ [];
    }
unfolding first_adapter first_device device_of act_on settle_device pair_and_connect_device
on_objects-searches_example =
    on_objects-searches to_text to_flag str_eq (λ path. true) objects pending
