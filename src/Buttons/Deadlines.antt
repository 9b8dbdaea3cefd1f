-- ===== src/Buttons/Deadlines.antt =====
-- src/stylusbuttons.cpp: the deadlines of the detectors: the poll timeout, and the flush of what is due.
use Prim.Native.String.{String}
use stylus_popup.Prelude.{
  ℕ, zero, suc, ◌&&◌, ◌||◌, none, some, List, [], ◌∷◌, ◌++◌, ℤ, pos, negsuc, ◌-ℤ◌, ltb_ℤ, leb_ℤ,
  if◌then◌else◌,
}
use stylus_popup.Gesture.{StylusGesture, ButtonGestureDetector, tick, deadline_ms}
use stylus_popup.Buttons.{StylusButton, primary, secondary, Node, Trigger}

-- The loop of ticks of one detector: at most that many rounds.
unfoldable pub flush_detector :
    ℕ → ℤ → ButtonGestureDetector → ButtonGestureDetector × List StylusGesture
flush_detector zero now d = (d, [])
flush_detector (suc fuel) now d =
    let (d', gesture) = tick d now in
    let (last, gs) = flush_detector fuel now d' in
    elim gesture [ none ↦ (d', []) | some g ↦ (last, g ∷ gs) ]

-- Two rounds are enough: a tick that produces a gesture leaves none behind.
abbrev pub flush_fuel : ℕ
flush_fuel = 2

abbrev pub triggers_of_all : StylusButton → String → List StylusGesture → List Trigger
triggers_of_all button name [] = []
triggers_of_all button name (g ∷ gs) = (button, g, name) ∷ triggers_of_all button name gs

unfoldable pub flush_node : ℤ → Node → Node × List Trigger
flush_node now node =
    let (d, gs) = flush_detector flush_fuel now node.primary_detector in
    let (e, hs) = flush_detector flush_fuel now node.secondary_detector in
    (
      record node { primary_detector = d; secondary_detector = e },
      triggers_of_all primary node.name gs ++ triggers_of_all secondary node.name hs,
    )

unfoldable pub flush_due_gestures : ℤ → List Node → List Node × List Trigger
flush_due_gestures now [] = ([], [])
flush_due_gestures now (node ∷ nodes) =
    let (node', ts) = flush_node now node in
    let (nodes', us) = flush_due_gestures now nodes in (node' ∷ nodes', ts ++ us)

abbrev pub rescan_ms : ℤ
rescan_ms = pos 2000

unfoldable pub earlier : ℤ → ℤ → ℤ
earlier deadline earliest =
    if leb_ℤ (pos 0) deadline && (ltb_ℤ earliest (pos 0) || ltb_ℤ deadline earliest)
    then deadline
    else earliest

-- The loop of `nextTimeoutMs` over the nodes and their two buttons.
unfoldable pub earliest_deadline : ℤ → List Node → ℤ
earliest_deadline earliest [] = earliest
earliest_deadline earliest (node ∷ nodes) =
    earliest_deadline
      (earlier (deadline_ms node.secondary_detector)
        (earlier (deadline_ms node.primary_detector) earliest))
      nodes

unfoldable pub next_timeout_ms : ℤ → List Node → ℤ
next_timeout_ms now nodes =
    let earliest = earliest_deadline (negsuc 0) nodes in
    let remaining = earliest -ℤ now in
    if ltb_ℤ earliest (pos 0)
    then rescan_ms
    else if leb_ℤ remaining (pos 0)
    then pos 0
    else if ltb_ℤ rescan_ms remaining
    then rescan_ms
    else remaining
