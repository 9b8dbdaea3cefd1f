-- ===== src/Bluez/Objects.antt =====
-- src/bluezmanager.cpp: the objects of BlueZ as D-Bus tells of them, each a path with its interfaces and
-- their properties, and the search for the pen and for an adapter among them. A QVariant is given
-- with the conversions that Qt makes of it; a property that is missing is the empty text and false.
mod Tests
use Prim.Native.String
use Prim.Native.String.{String}
use text.Mathlib.Text.{◌==◌ as str_eq}
use stylus_popup.Prelude.{
  ℕ, Bool, true, false, not, ◌&&◌, ◌||◌, Option, none, some, List, [], ◌∷◌, ◌≡◌, refl, arith, map,
  if◌then◌else◌, Option-cases, Bool-cases, inl, inr,
}
use stylus_popup.Popup.Strings.{is_empty}
use stylus_popup.Bluez.{
  BluezManager, ManagedObject, Device, Found, search_objects, act_on, on_managed_objects_reply,
  on_interfaces_added, settle_device, finish,
}

abbrev pub bluez_service : String
bluez_service = "org.bluez"

abbrev pub object_manager_if : String
object_manager_if = "org.freedesktop.DBus.ObjectManager"

abbrev pub adapter_if : String
adapter_if = "org.bluez.Adapter1"

abbrev pub device_if : String
device_if = "org.bluez.Device1"

-- The signal that the constructor connects to: its sender's name, path and interface, and its own name.
pub record BusSignal : Type 0 where
  pub service : String
  pub path : String
  pub interface : String
  pub member : String

abbrev pub interfaces_added : BusSignal
interfaces_added = record {
  service = bluez_service;
  path = "/";
  interface = object_manager_if;
  member = "InterfacesAdded";
}

-- The discovery timer's interval; it fires once.
abbrev pub discovery_timeout_ms : ℕ
discovery_timeout_ms = 15000

abbrev pub lookup {ℓ} : {V : Type ℓ} → String → List (String × V) → Option V
lookup k [] = none
lookup k ((j, v) ∷ m) = if str_eq j k then some v else lookup k m

abbrev pub is_some {ℓ} : {A : Type ℓ} → Option A → Bool
is_some none = false
is_some (some a) = true

empty_lem : (s : String) → s ≡ (if is_empty s then "" else s)
empty_lem String.[] = refl
empty_lem (String.◌∷◌ c s) = refl

module _ {V : Type 0} (to_text : V → String) (to_flag : V → Bool) where
  -- A QVariantMap, the interfaces of an object, and the managed objects in the order of their paths.
  abbrev pub Properties : Type 0
  Properties = List (String × V)

  abbrev pub Interfaces : Type 0
  Interfaces = List (String × Properties)

  abbrev pub Objects : Type 0
  Objects = List (String × Interfaces)

  abbrev pub text_of : String → Properties → String
  text_of k props = elim (lookup k props) [ none ↦ "" | some v ↦ to_text v ]

  abbrev pub flag_of : String → Properties → Bool
  flag_of k props = elim (lookup k props) [ none ↦ false | some v ↦ to_flag v ]

  -- What an object says of itself as a device.
  unfoldable pub device_of : Interfaces → Option Device
  device_of interfaces = elim (lookup device_if interfaces) [
    | none ↦ none
    | some props ↦
        some (record { address = text_of "Address" props; is_paired = flag_of "Paired" props })
  ]

  unfoldable pub object_of : String × Interfaces → ManagedObject
  object_of (path, interfaces) = record {
    path = path;
    is_adapter = is_some (lookup adapter_if interfaces);
    device = device_of interfaces;
  }

  unfoldable pub objects_of : Objects → List ManagedObject
  objects_of [] = []
  objects_of (o ∷ os) = object_of o ∷ objects_of os

  -- The two searches apart: the first adapter, and the first device of an address.
  unfoldable pub first_adapter : Objects → String
  first_adapter [] = ""
  first_adapter ((path, interfaces) ∷ os) =
      let rest = first_adapter os in
      if is_some (lookup adapter_if interfaces) && not (is_empty path) then path else rest

  module _ (same_address : String → String → Bool) (mac : String) where
    abbrev pub is_of : Option Device → Bool
    is_of none = false
    is_of (some d) = same_address d.address mac

    abbrev pub found_at : String → Option Device → Option (String × Bool)
    found_at path none = none
    found_at path (some d) = some (path, d.is_paired)

    unfoldable pub first_device : Objects → Option (String × Bool)
    first_device [] = none
    first_device ((path, interfaces) ∷ os) =
        let rest = first_device os in
        if is_of (device_of interfaces) then found_at path (device_of interfaces) else rest

    search_lem :
        (adapter : String) (os : Objects)
        → let f = search_objects same_address mac adapter (objects_of os) in
          (f.match ≡ first_device os)
          × (f.match ≡ none → f.adapter ≡ (if is_empty adapter then first_adapter os else adapter))
    unfolding search_objects objects_of object_of first_device first_adapter
    search_lem adapter [] = (refl, λ none_found. empty_lem adapter)
    search_lem adapter ((path, interfaces) ∷ os) =
        let is_adapter = is_some (lookup adapter_if interfaces) in
        let adapter' = if is_adapter && is_empty adapter then path else adapter in
        let rest = search_lem adapter' os in
        elim (Option-cases (device_of interfaces)) [
          | inl none_here ↦ rw none_here (ground (arith, rest))
          | inr (d, device) ↦ rw device (ground (arith, rest))
        ]

  module _ (same_address : String → String → Bool) (is_valid : String → Bool) where
    -- The slot, for objects as D-Bus tells of them.
    abbrev pub on_objects : Objects → BluezManager → BluezManager
    on_objects os = on_managed_objects_reply same_address is_valid (some (objects_of os))

    -- The one loop over the objects does two searches: a pending attempt goes on with the first device
    -- whose address is the pen's, paired or not, wherever the adapters stand; only where there is
    -- none does it discover with the first adapter, or end where there is no adapter either.
    pub on_objects-searches :
        (os : Objects) (b : BluezManager)
        → on_objects os b ≡ (
            if is_empty b.pending_mac
            then b
            else act_on is_valid (first_adapter os) (first_device same_address b.pending_mac os) b)
    unfolding on_managed_objects_reply act_on
    on_objects-searches os b =
        let found = search_lem same_address b.pending_mac "" os in ground (arith, found)

    -- The slot of `InterfacesAdded`, for an object with its interfaces.
    abbrev pub on_added : String → Interfaces → BluezManager → BluezManager
    on_added path interfaces = on_interfaces_added same_address is_valid path (device_of interfaces)
