-- ===== src/Bluez.antt =====
-- src/bluezmanager.h and src/bluezmanager.cpp: one pairing attempt at a time, over asynchronous calls
-- of BlueZ. What D-Bus does is given: `same_address` is the caseless comparison of QString,
-- `is_valid` says for which object paths an interface can be reached during the event, and the
-- replies come with the events. The calls that await a reply are kept in `in_flight`, the signals
-- and calls of the manager in `outputs`, both with the newest first.
pub mod Attempts
pub mod Stale
pub mod Objects
mod Tests
use Prim.Native.String.{String}
use stylus_popup.Prelude.{
  Bool, true, false, not, ◌&&◌, ◌||◌, Option, none, some, List, [], ◌∷◌, ◌++◌, ◌≡◌, if◌then◌else◌,
}
use stylus_popup.Popup.Strings.{is_empty}

-- The calls whose reply is watched. That of `StopDiscovery` is not.
pub data Call : Type 0 where
  get_managed_objects : Call
  start_discovery pair connect : String → Call

pub data Output : Type 0 where
  calls : Call → Output
  stop_discovery : String → Output
  attempt_started : Output
  paired : String → Output
  pairing_failed : String → String → Output

pub record Device : Type 0 where
  pub address : String
  pub is_paired : Bool

-- An object of BlueZ: whether it is an adapter, and what it says if it is a device.
pub record ManagedObject : Type 0 where
  pub path : String
  pub is_adapter : Bool
  pub device : Option Device

pub record BluezManager : Type 0 where
  pub pending_mac : String
  pub active_adapter_path : String
  pub discovering : Bool
  pub timer_active : Bool
  pub in_flight : List Call
  pub outputs : List Output

abbrev pub initial : BluezManager
initial = record {
  pending_mac = "";
  active_adapter_path = "";
  discovering = false;
  timer_active = false;
  in_flight = [];
  outputs = [];
}

-- What the loop over the managed objects finds: the first adapter, and the pen's device.
pub record Found : Type 0 where
  pub adapter : String
  pub match : Option (String × Bool)

abbrev pub emit : Output → BluezManager → BluezManager
emit o b = record b { outputs = o ∷ b.outputs }

-- An asynchronous call whose reply is watched.
abbrev pub async_call : Call → BluezManager → BluezManager
async_call c b = record b { in_flight = c ∷ b.in_flight; outputs = calls c ∷ b.outputs }

module _ (same_address : String → String → Bool) where
  unfoldable pub search_objects : String → String → List ManagedObject → Found
  search_objects mac adapter [] = record { adapter = adapter; match = none }
  search_objects mac adapter (o ∷ os) =
      let adapter' = if o.is_adapter && is_empty adapter then o.path else adapter in
      let rest = search_objects mac adapter' os in
      elim o.device [
        | none ↦ rest
        | some d ↦
            if same_address d.address mac
            then record { adapter = adapter'; match = some (o.path, d.is_paired) }
            else rest
      ]

module _ (is_valid : String → Bool) where
  unfoldable pub halt_discovery : BluezManager → BluezManager
  halt_discovery b =
      let stopped = record b { timer_active = false } in
      let halted = record stopped { discovering = false } in
      if not b.discovering || is_empty b.active_adapter_path
      then stopped
      else if is_valid b.active_adapter_path
      then emit (stop_discovery b.active_adapter_path) halted
      else halted

  unfoldable pub finish : BluezManager → BluezManager
  finish b = record (halt_discovery b) { active_adapter_path = ""; pending_mac = "" }

  unfoldable pub ensure_paired : String → BluezManager → BluezManager
  ensure_paired mac b =
      let started = emit attempt_started (record b { pending_mac = mac }) in
      if is_empty mac
      then b
      else if not (is_empty b.pending_mac)
      then b
      else if not (is_valid "/")
      then finish started
      else async_call get_managed_objects started

  unfoldable pub cancel : BluezManager → BluezManager
  cancel b = if is_empty b.pending_mac then b else finish b

  unfoldable pub pair_and_connect_device : String → BluezManager → BluezManager
  pair_and_connect_device path b =
      if not (is_valid path) then finish b else async_call (pair path) b

  unfoldable pub begin_discovery : BluezManager → BluezManager
  begin_discovery b =
      if not (is_valid b.active_adapter_path)
      then finish b
      else async_call (start_discovery b.active_adapter_path) b

  -- A device that was found: paired already, or to be paired.
  unfoldable pub settle_device : String → Bool → BluezManager → BluezManager
  settle_device path is_paired b =
      if is_paired then finish (emit (paired b.pending_mac) b) else pair_and_connect_device path b

  -- The end of `onManagedObjectsReply`, given the first adapter and the device that was found.
  unfoldable pub act_on : String → Option (String × Bool) → BluezManager → BluezManager
  act_on adapter (some (path, is_paired)) b = settle_device path is_paired b
  act_on adapter none b =
      if is_empty adapter
      then finish b
      else begin_discovery (record b { active_adapter_path = adapter })

  -- A reply is an error with its message, `none` where it carries no message that is used.
  unfoldable pub on_start_discovery_reply : Option String → BluezManager → BluezManager
  on_start_discovery_reply error b = if is_empty b.pending_mac then b else elim error [
    | some message ↦ finish b
    | none ↦ record b { discovering = true; timer_active = true }
  ]

  unfoldable pub on_pair_reply : String → Option String → BluezManager → BluezManager
  on_pair_reply path error b = if is_empty b.pending_mac then b else elim error [
    | some message ↦ finish (emit (pairing_failed b.pending_mac message) b)
    | none ↦ async_call (connect path) b
  ]

  unfoldable pub on_connect_reply : Option String → BluezManager → BluezManager
  on_connect_reply error b =
      if is_empty b.pending_mac
      then b
      else finish (elim error [
        | some message ↦ emit (pairing_failed b.pending_mac message) b
        | none ↦ emit (paired b.pending_mac) b
      ])

  unfoldable pub on_discovery_timeout : BluezManager → BluezManager
  on_discovery_timeout b =
      finish (halt_discovery (emit (pairing_failed b.pending_mac "discovery timed out") b))

-- What BlueZ answers to a call: an error with its message, the managed objects, or nothing.
pub data Answer : Type 0 where
  failure : String → Answer
  managed : List ManagedObject → Answer
  done : Answer

abbrev error_of : Answer → Option String
error_of (failure message) = some message
error_of (managed os) = none
error_of done = none

-- An answer of another type than the call's is an error too.
abbrev objects_of : Answer → Option (List ManagedObject)
objects_of (failure message) = none
objects_of (managed os) = some os
objects_of done = none

module _ (same_address : String → String → Bool) (is_valid : String → Bool) where
  unfoldable pub on_managed_objects_reply :
      Option (List ManagedObject) → BluezManager → BluezManager
  on_managed_objects_reply objects b = if is_empty b.pending_mac then b else elim objects [
    | none ↦ finish is_valid b
    | some os ↦
        let found = search_objects same_address b.pending_mac "" os in
        act_on is_valid found.adapter found.match b
  ]

  -- `InterfacesAdded`, with the device that the object says it is.
  unfoldable pub on_interfaces_added : String → Option Device → BluezManager → BluezManager
  on_interfaces_added path device b =
      if is_empty b.pending_mac || not b.discovering then b else elim device [
        | none ↦ b
        | some d ↦
            if not (same_address d.address b.pending_mac)
            then b
            else settle_device is_valid path d.is_paired (halt_discovery is_valid b)
      ]

  -- The slot that the watcher of each call is connected to.
  unfoldable pub on_reply : Call → Answer → BluezManager → BluezManager
  on_reply get_managed_objects a b = on_managed_objects_reply (objects_of a) b
  on_reply (start_discovery adapter) a b = on_start_discovery_reply is_valid (error_of a) b
  on_reply (pair path) a b = on_pair_reply is_valid path (error_of a) b
  on_reply (connect path) a b = on_connect_reply is_valid (error_of a) b
