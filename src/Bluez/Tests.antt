-- ===== src/Bluez/Tests.antt =====
-- The Bluetooth manager at a concrete pen and with BlueZ always in reach.
use Prim.Native.String.{String}
use stylus_popup.Prelude.{Bool, true, false, [], ◌∷◌, ◌≡◌, refl}
use stylus_popup.Popup.Strings.{is_empty}
use stylus_popup.Bluez.{
  BluezManager, calls, attempt_started, pairing_failed, failure, done, ensure_paired, cancel,
  on_reply, get_managed_objects, start_discovery, pair, initial,
}
use stylus_popup.Bluez.Attempts.{Reach, IsAlive, start, next, request, Reach-IsAlive}
use stylus_popup.Bluez.Stale.{pair_reply_of_cancelled, discovery_of_cancelled}

abbrev same_address : String → String → Bool
same_address a b = true

abbrev reachable : String → Bool
reachable path = true

abbrev first_pen : String
first_pen = "AA:BB:CC:DD:EE:01"

abbrev second_pen : String
second_pen = "AA:BB:CC:DD:EE:02"

-- A requested attempt, whose first reply has a paired pen.
abbrev requested : BluezManager
requested = ensure_paired reachable first_pen initial

requested-Reach : Reach same_address requested
requested-Reach = next start (request reachable first_pen initial)

requested-in_flight : requested.in_flight ≡ get_managed_objects ∷ []
unfolding ensure_paired
requested-in_flight = refl

Reach-IsAlive_example : IsAlive requested
Reach-IsAlive_example = Reach-IsAlive {same_address = same_address} requested-Reach

-- An attempt that awaits the reply to `Pair`.
abbrev pairing : BluezManager
pairing = record initial { pending_mac = first_pen; in_flight = pair "/dev/pen" ∷ [] }

pair_reply_of_cancelled_example :
    let asked = ensure_paired reachable second_pen (cancel reachable pairing) in
    let c =
      on_reply same_address reachable
        (pair "/dev/pen")
        (failure "refused")
        (record asked { in_flight = get_managed_objects ∷ [] }) in
    (asked.in_flight ≡ get_managed_objects ∷ pair "/dev/pen" ∷ [])
    × (asked.pending_mac ≡ second_pen)
    × (c.pending_mac ≡ "")
    × (c.in_flight ≡ get_managed_objects ∷ [])
    × (c.outputs
        ≡ pairing_failed second_pen "refused" ∷ calls get_managed_objects ∷ attempt_started ∷ [])
pair_reply_of_cancelled_example =
    pair_reply_of_cancelled same_address reachable second_pen "/dev/pen" "refused" pairing refl refl
      refl refl refl refl

-- An attempt that awaits the reply to `StartDiscovery`.
abbrev searching : BluezManager
searching = record initial {
  pending_mac = first_pen;
  active_adapter_path = "/adapter";
  in_flight = start_discovery "/adapter" ∷ [];
}

discovery_of_cancelled_example :
    let c =
      on_reply same_address reachable
        (start_discovery "/adapter")
        done
        (cancel reachable searching) in
    (is_empty searching.pending_mac ≡ false → c.pending_mac ≡ "") × (c.outputs ≡ [])
discovery_of_cancelled_example =
    discovery_of_cancelled same_address reachable "/adapter" searching refl
