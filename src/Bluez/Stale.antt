-- ===== src/Bluez/Stale.antt =====
-- src/bluezmanager.cpp: what a reply does that belongs to no attempt, or to an earlier one. The guard
-- of every slot is whether some attempt is pending, not whether it is the one that made the call.
use Prim.Native.String.{String}
use stylus_popup.Prelude.{Bool, true, false, not, Option, [], ◌∷◌, ◌≡◌, arith, if◌then◌else◌}
use stylus_popup.Popup.Strings.{is_empty}
use stylus_popup.Bluez.{
  BluezManager, Call, calls, attempt_started, pairing_failed, Device, Answer, failure, done,
  halt_discovery, finish, ensure_paired, cancel, on_start_discovery_reply, on_pair_reply,
  on_connect_reply, on_managed_objects_reply, on_interfaces_added, on_reply, get_managed_objects,
  start_discovery, pair, connect,
}

module _ (same_address : String → String → Bool) (is_valid : String → Bool) where
  -- With no attempt pending, the reply to every call changes nothing, and neither does a reported
  -- device nor a cancellation.
  pub idle_unchanged :
      (c : Call) (a : Answer) (path : String) (device : Option Device) (b : BluezManager)
      → is_empty b.pending_mac ≡ true
      → (on_reply same_address is_valid c a b ≡ b)
        × (on_interfaces_added same_address is_valid path device b ≡ b)
        × (cancel is_valid b ≡ b)
  unfolding on_reply on_managed_objects_reply on_start_discovery_reply on_pair_reply
      on_connect_reply on_interfaces_added cancel
  idle_unchanged get_managed_objects a path device b e = ground arith
  idle_unchanged (start_discovery adapter) a path device b e = ground arith
  idle_unchanged (pair device_path) a path device b e = ground arith
  idle_unchanged (connect device_path) a path device b e = ground arith

  -- A request is ignored for an empty address and while an attempt is pending. Otherwise it is
  -- announced, and then either the managed objects are asked for, or the attempt is dropped again
  -- without any other signal, where BlueZ cannot be reached.
  ensure_paired_verdict :
      (mac : String) (b : BluezManager)
      → b.timer_active ≡ false
      → b.discovering ≡ false
      → ensure_paired is_valid mac b ≡ (
          if is_empty mac
          then b
          else if not (is_empty b.pending_mac)
          then b
          else if is_valid "/"
          then record b {
            pending_mac = mac;
            in_flight = get_managed_objects ∷ b.in_flight;
            outputs = calls get_managed_objects ∷ attempt_started ∷ b.outputs;
          }
          else record b {
            pending_mac = "";
            active_adapter_path = "";
            outputs = attempt_started ∷ b.outputs;
          })
  unfolding ensure_paired finish halt_discovery
  ensure_paired_verdict mac b t d = ground arith

  cancel_lem :
      (b : BluezManager)
      → is_empty b.pending_mac ≡ false
      → b.timer_active ≡ false
      → b.discovering ≡ false
      → cancel is_valid b ≡ record b { active_adapter_path = ""; pending_mac = "" }
  unfolding cancel finish halt_discovery
  cancel_lem b p t d = ground arith

  pair_error :
      (path message : String) (b : BluezManager)
      → is_empty b.pending_mac ≡ false
      → b.timer_active ≡ false
      → b.discovering ≡ false
      → on_reply same_address is_valid (pair path) (failure message) b ≡ record b {
        active_adapter_path = "";
        pending_mac = "";
        outputs = pairing_failed b.pending_mac message ∷ b.outputs;
      }
  unfolding on_reply on_pair_reply finish halt_discovery
  pair_error path message b p t d = ground arith

  -- An attempt for one pen is cancelled while its `Pair` call is in flight, and another is requested
  -- for a second pen. When the first call then fails, the second attempt is reported as failed and
  -- is over, though the only call made for it is still in flight.
  pub pair_reply_of_cancelled :
      (second path message : String) (b : BluezManager)
      → is_empty b.pending_mac ≡ false
      → is_empty second ≡ false
      → is_valid "/" ≡ true
      → b.in_flight ≡ pair path ∷ []
      → b.timer_active ≡ false
      → b.discovering ≡ false
      → let requested = ensure_paired is_valid second (cancel is_valid b) in
        let c =
          on_reply same_address is_valid
            (pair path)
            (failure message)
            (record requested { in_flight = get_managed_objects ∷ [] }) in
        (requested.in_flight ≡ get_managed_objects ∷ pair path ∷ [])
        × (requested.pending_mac ≡ second)
        × (c.pending_mac ≡ "")
        × (c.in_flight ≡ get_managed_objects ∷ [])
        × (c.outputs
            ≡ pairing_failed second message
              ∷ calls get_managed_objects
              ∷ attempt_started
              ∷ b.outputs)
  pair_reply_of_cancelled second path message b p s v i t d = ground (
    arith,
    cancel_lem b,
    ensure_paired_verdict second (record b { active_adapter_path = ""; pending_mac = "" }),
    pair_error path message (record (ensure_paired is_valid second (cancel is_valid b)) {
      in_flight = get_managed_objects ∷ [];
    }),
  )

  -- An attempt is cancelled between the call of `StartDiscovery` and its reply. Neither the
  -- cancellation nor the reply then asks BlueZ to stop the discovery: nothing is sent at all.
  pub discovery_of_cancelled :
      (adapter : String) (b : BluezManager)
      → b.discovering ≡ false
      → let c = on_reply same_address is_valid (start_discovery adapter) done (cancel is_valid b) in
        (is_empty b.pending_mac ≡ false → c.pending_mac ≡ "") × (c.outputs ≡ b.outputs)
  unfolding on_reply on_start_discovery_reply cancel finish halt_discovery
  discovery_of_cancelled adapter b d = ground arith
