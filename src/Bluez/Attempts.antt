-- ===== src/Bluez/Attempts.antt =====
-- src/bluezmanager.cpp: every attempt goes on or ends, and ends at most once.
use Prim.Native.String.{String}
use stylus_popup.Prelude.{
  ℕ, suc, ◌+◌, ◌≤◌, Bool, true, false, Option, none, some, List, [], ◌∷◌, ◌++◌, ◌≡◌, ◌⊎◌, arith,
  if◌then◌else◌,
}
use stylus_popup.Popup.Strings.{is_empty}
use stylus_popup.Bluez.{
  BluezManager, ManagedObject, Call, Output, calls, attempt_started, paired, pairing_failed, Device,
  Answer, Found, initial, emit, halt_discovery, finish, ensure_paired, cancel,
  pair_and_connect_device, begin_discovery, settle_device, act_on, search_objects,
  on_start_discovery_reply, on_pair_reply, on_connect_reply, on_discovery_timeout,
  on_managed_objects_reply, on_interfaces_added, on_reply, get_managed_objects, start_discovery,
  stop_discovery, pair, connect,
}

-- What can happen to the manager: a request, a cancellation, the reply to a call in flight, a device
-- that BlueZ reports, and the timeout of the discovery timer while it runs.
pub data Step (same_address : String → String → Bool) : BluezManager → BluezManager → Type 0 where
  request :
      (is_valid : String → Bool) (mac : String) (b : BluezManager)
      → Step same_address b (ensure_paired is_valid mac b)
  drop : (is_valid : String → Bool) (b : BluezManager) → Step same_address b (cancel is_valid b)
  reply :
      (is_valid : String → Bool) (before : List Call) (c : Call) (after : List Call) (a : Answer)
      (b : BluezManager)
      → b.in_flight ≡ before ++ c ∷ after
      → Step same_address b
          (on_reply same_address is_valid c a (record b { in_flight = before ++ after }))
  added :
      (is_valid : String → Bool) (path : String) (device : Option Device) (b : BluezManager)
      → Step same_address b (on_interfaces_added same_address is_valid path device b)
  timeout :
      (is_valid : String → Bool) (b : BluezManager)
      → b.timer_active ≡ true
      → Step same_address b (on_discovery_timeout is_valid (record b { timer_active = false }))

pub data Reach (same_address : String → String → Bool) : BluezManager → Type 0 where
  start : Reach same_address initial
  next : {b c : BluezManager} → Reach same_address b → Step same_address b c → Reach same_address c

abbrev pub has_calls : List Call → Bool
has_calls [] = false
has_calls (c ∷ cs) = true

-- The attempts that were started, and the signals that say how one ended.
abbrev pub starts : List Output → ℕ
starts [] = 0
starts (attempt_started ∷ os) = suc (starts os)
starts (calls c ∷ os) = starts os
starts (stop_discovery path ∷ os) = starts os
starts (paired m ∷ os) = starts os
starts (pairing_failed m e ∷ os) = starts os

abbrev pub endings : List Output → ℕ
endings [] = 0
endings (attempt_started ∷ os) = endings os
endings (calls c ∷ os) = endings os
endings (stop_discovery path ∷ os) = endings os
endings (paired m ∷ os) = suc (endings os)
endings (pairing_failed m e ∷ os) = suc (endings os)

-- Apart from whether a pending attempt has something to wait for.
pub record IsSound (b : BluezManager) : Type 0 where
  pub timer_pending : b.timer_active ≡ true → is_empty b.pending_mac ≡ false
  pub timer_discovering : b.timer_active ≡ true → b.discovering ≡ true
  pub accounts : endings b.outputs + (if is_empty b.pending_mac then 0 else 1) ≤ starts b.outputs

pub record IsAlive (b : BluezManager) : Type 0 where
  pub sound : IsSound b
  pub waits :
      is_empty b.pending_mac ≡ false → (has_calls b.in_flight ≡ true) ⊎ (b.timer_active ≡ true)

module _ (is_valid : String → Bool) where
  -- An attempt that is finished leaves the manager with nothing to wait for.
  finish-IsAlive :
      (b : BluezManager) → endings b.outputs ≤ starts b.outputs → IsAlive (finish is_valid b)
  unfolding finish halt_discovery
  finish-IsAlive b e = ground arith

  ensure_paired-IsAlive :
      (mac : String) (b : BluezManager) → IsAlive b → IsAlive (ensure_paired is_valid mac b)
  unfolding ensure_paired
  ensure_paired-IsAlive mac b v =
      ground (arith, finish-IsAlive (emit attempt_started (record b { pending_mac = mac })))

  cancel-IsAlive : (b : BluezManager) → IsAlive b → IsAlive (cancel is_valid b)
  unfolding cancel
  cancel-IsAlive b v = ground (arith, finish-IsAlive b)

  settle_device-IsAlive :
      (path : String) (is_paired : Bool) (b : BluezManager)
      → IsSound b
      → is_empty b.pending_mac ≡ false
      → IsAlive (settle_device is_valid path is_paired b)
  unfolding settle_device pair_and_connect_device
  settle_device-IsAlive path is_paired b v e =
      ground (arith, finish-IsAlive b, finish-IsAlive (emit (paired b.pending_mac) b))

  begin_discovery-IsAlive :
      (b : BluezManager)
      → IsSound b
      → is_empty b.pending_mac ≡ false
      → IsAlive (begin_discovery is_valid b)
  unfolding begin_discovery
  begin_discovery-IsAlive b v e = ground (arith, finish-IsAlive b)

  act_on-IsAlive :
      (adapter : String) (match : Option (String × Bool)) (b : BluezManager)
      → IsSound b
      → is_empty b.pending_mac ≡ false
      → IsAlive (act_on is_valid adapter match b)
  unfolding act_on
  act_on-IsAlive adapter (some (path, is_paired)) b v e = settle_device-IsAlive path is_paired b v e
  act_on-IsAlive adapter none b v e = ground (
    arith,
    finish-IsAlive b,
    begin_discovery-IsAlive (record b { active_adapter_path = adapter }),
  )

  on_start_discovery_reply-IsAlive :
      (error : Option String) (b : BluezManager)
      → IsSound b
      → IsAlive (on_start_discovery_reply is_valid error b)
  unfolding on_start_discovery_reply
  on_start_discovery_reply-IsAlive error b v = ground (arith, finish-IsAlive b)

  on_pair_reply-IsAlive :
      (path : String) (error : Option String) (b : BluezManager)
      → IsSound b
      → IsAlive (on_pair_reply is_valid path error b)
  unfolding on_pair_reply
  on_pair_reply-IsAlive path none b v = ground arith
  on_pair_reply-IsAlive path (some message) b v =
      ground (arith, finish-IsAlive (emit (pairing_failed b.pending_mac message) b))

  on_connect_reply-IsAlive :
      (error : Option String) (b : BluezManager)
      → IsSound b
      → IsAlive (on_connect_reply is_valid error b)
  unfolding on_connect_reply
  on_connect_reply-IsAlive none b v = ground (arith, finish-IsAlive (emit (paired b.pending_mac) b))
  on_connect_reply-IsAlive (some message) b v =
      ground (arith, finish-IsAlive (emit (pairing_failed b.pending_mac message) b))

  halt_discovery-IsSound :
      (b : BluezManager)
      → IsSound b
      → IsSound (halt_discovery is_valid b)
        × ((halt_discovery is_valid b).pending_mac ≡ b.pending_mac)
  unfolding halt_discovery
  halt_discovery-IsSound b v = ground arith

  on_discovery_timeout-IsAlive :
      (b : BluezManager)
      → IsSound b
      → is_empty b.pending_mac ≡ false
      → IsAlive (on_discovery_timeout is_valid b)
  unfolding on_discovery_timeout halt_discovery
  on_discovery_timeout-IsAlive b v e = finish-IsAlive _ (ground arith)

module _ (same_address : String → String → Bool) (is_valid : String → Bool) where
  on_managed_objects_reply-IsAlive :
      (os : Option (List ManagedObject)) (b : BluezManager)
      → IsSound b
      → IsAlive (on_managed_objects_reply same_address is_valid os b)
  unfolding on_managed_objects_reply
  on_managed_objects_reply-IsAlive none b v = ground (arith, finish-IsAlive is_valid b)
  on_managed_objects_reply-IsAlive (some os) b v =
      ground (arith, act_on-IsAlive is_valid found.adapter found.match b)
    where
      found : Found
      found = search_objects same_address b.pending_mac "" os

  on_interfaces_added-IsAlive :
      (path : String) (device : Option Device) (b : BluezManager)
      → IsAlive b
      → IsAlive (on_interfaces_added same_address is_valid path device b)
  unfolding on_interfaces_added
  on_interfaces_added-IsAlive path none b v = ground arith
  on_interfaces_added-IsAlive path (some d) b v = ground (
    arith,
    halt_discovery-IsSound is_valid b,
    settle_device-IsAlive is_valid path d.is_paired (halt_discovery is_valid b),
  )

  on_reply-IsAlive :
      (c : Call) (a : Answer) (b : BluezManager)
      → IsSound b
      → IsAlive (on_reply same_address is_valid c a b)
  unfolding on_reply
  on_reply-IsAlive get_managed_objects a b v = on_managed_objects_reply-IsAlive _ b v
  on_reply-IsAlive (start_discovery adapter) a b v = on_start_discovery_reply-IsAlive is_valid _ b v
  on_reply-IsAlive (pair path) a b v = on_pair_reply-IsAlive is_valid path _ b v
  on_reply-IsAlive (connect path) a b v = on_connect_reply-IsAlive is_valid _ b v

-- What every step keeps.
pub Step-IsAlive :
    {same_address : String → String → Bool} {b c : BluezManager}
    → Step same_address b c
    → IsAlive b
    → IsAlive c
Step-IsAlive (request is_valid mac b) v = ensure_paired-IsAlive is_valid mac b v
Step-IsAlive (drop is_valid b) v = cancel-IsAlive is_valid b v
Step-IsAlive {same_address} (reply is_valid before c after a b e) v =
    on_reply-IsAlive same_address is_valid c a _ (ground arith)
Step-IsAlive {same_address} (added is_valid path device b) v =
    on_interfaces_added-IsAlive same_address is_valid path device b v
Step-IsAlive (timeout is_valid b on) v =
    on_discovery_timeout-IsAlive is_valid _ (ground arith) (v.sound.timer_pending on)

-- In every state that the manager can reach, with replies in any order and cancellations at any
-- time: a pending attempt awaits the reply to a call or the discovery timer, that timer runs only
-- for a pending attempt that is discovering, and no more attempts have been reported as paired or
-- failed than were started, not counting the pending one.
pub Reach-IsAlive :
    {same_address : String → String → Bool} {b : BluezManager} → Reach same_address b → IsAlive b
Reach-IsAlive start = ground arith
Reach-IsAlive (next r s) = Step-IsAlive s (Reach-IsAlive r)
