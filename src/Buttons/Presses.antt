-- ===== src/Buttons/Presses.antt =====
-- src/stylusbuttons.cpp: what the monitor's thread triggers, counted against what it reads. Each
-- detector owes a gesture for an undecided hold, and one for a click that waits for a second.
pub mod Paid
mod Tests
use Prim.Native.String.{String}
use stylus_popup.Prelude.{
  ℕ, zero, suc, ◌+◌, ◌≤◌, Bool, true, false, not, ◌&&◌, ◌||◌, Option, none, some, List, [], ◌∷◌,
  ◌++◌, ℤ, pos, negsuc, leb_ℤ, ◌==◌, if◌then◌else◌, if_elim, ◌≡◌, refl, arith,
}
use stylus_popup.Gesture.{
  StylusGesture, single, double_click, long_press, ButtonGestureDetector, configure, feed, press,
  release, repeat, tick,
}
use stylus_popup.Config.{ButtonMapConfig}
use stylus_popup.Buttons.{
  StylusButton, primary, secondary, Node, Trigger, ReadResult, event, interrupted, broken, ev_key,
  key_pageup, key_pagedown, is_repeat, feed_node, dispatch_event, detector_for, with_detector,
  triggers_of,
}
use stylus_popup.Buttons.Monitor.{drain}
use stylus_popup.Buttons.Deadlines.{
  flush_detector, flush_fuel, flush_node, flush_due_gestures, triggers_of_all,
}
use stylus_popup.Buttons.Ledger.{sum_by, sum_by-append}

-- A gesture uses up one press, and a double click two.
abbrev pub price : Trigger → ℕ
price (button, single, name) = 1
price (button, double_click, name) = 2
price (button, long_press, name) = 1

abbrev pub prices : List Trigger → ℕ
prices = sum_by price

pub owed : ButtonGestureDetector → ℕ
owed d =
    (if d.down && not d.double_fired && not d.long_fired then 1 else 0)
    + (if leb_ℤ (pos 0) d.pending_single then 1 else 0)

abbrev pub owed_by : Node → ℕ
owed_by node = owed node.primary_detector + owed node.secondary_detector

-- Whether a key event counts: a press does, a release does not, and a repeat does where repeats are
-- let through.
abbrev pub is_stroke : Bool → ℤ → Bool
is_stroke repeats (pos zero) = false
is_stroke repeats (pos (suc n)) = not (is_repeat (pos (suc n)) && not repeats)
is_stroke repeats (negsuc n) = true

-- The strokes of the two buttons among the events that are read up to a failure.
unfoldable pub strokes : Bool → List ReadResult → ℕ
strokes repeats [] = 0
strokes repeats (interrupted ∷ reads) = strokes repeats reads
strokes repeats (broken ∷ reads) = 0
strokes repeats (event type_of code value ∷ reads) =
    (if type_of == ev_key && (code == key_pagedown || code == key_pageup) && is_stroke repeats value
      then 1
      else 0)
    + strokes repeats reads

press-owed :
    (button : StylusButton) (name : String) (d : ButtonGestureDetector) (now : ℤ)
    → let (d', g) = press d now in prices (triggers_of button name g) + owed d' ≤ owed d + 1
unfolding press owed
press-owed button name d now = ground arith

release-owed :
    (button : StylusButton) (name : String) (d : ButtonGestureDetector) (now : ℤ)
    → let (d', g) = release d now in prices (triggers_of button name g) + owed d' ≤ owed d
unfolding release owed
release-owed button name d now = ground arith

repeat-owed :
    (button : StylusButton) (name : String) (d : ButtonGestureDetector) (now : ℤ)
    → let (d', g) = repeat d now in prices (triggers_of button name g) + owed d' ≤ owed d + 1
unfolding repeat owed
repeat-owed button name d now = ground arith

tick-owed :
    (button : StylusButton) (name : String) (d : ButtonGestureDetector) (now : ℤ)
    → let (d', g) = tick d now in prices (triggers_of button name g) + owed d' ≤ owed d
unfolding tick owed
tick-owed button name d now = ground arith

with_detector-owed :
    (node : Node) (button : StylusButton) (d : ButtonGestureDetector)
    → owed_by (with_detector node button d) + owed (detector_for node button)
      ≡ owed_by node + owed d
with_detector-owed node primary d = omega arith
with_detector-owed node secondary d = omega arith

-- What a fed value costs at most, beside what is owed.
abbrev stroke_price : ℤ → ℕ
stroke_price (pos zero) = 0
stroke_price _ = 1

feed-owed :
    (button : StylusButton) (name : String) (d : ButtonGestureDetector) (value now : ℤ)
    → let (d', g) = feed d value now in
      prices (triggers_of button name g) + owed d' ≤ owed d + stroke_price value
unfolding feed
feed-owed button name d (pos zero) now = omega (arith, release-owed button name d now)
feed-owed button name d (pos (suc zero)) now = omega (arith, press-owed button name d now)
feed-owed button name d (pos (suc (suc n))) now = omega (arith, repeat-owed button name d now)
feed-owed button name d (negsuc n) now = omega (arith, repeat-owed button name d now)

fed-owed :
    (repeats : Bool) (node : Node) (button : StylusButton) (value now : ℤ)
    → let (d, g) = feed (detector_for node button) value now in
      prices (triggers_of button node.name g) + owed_by (with_detector node button d)
      ≤ owed_by node + stroke_price value
fed-owed repeats node button value now = omega (
  arith,
  feed-owed button node.name (detector_for node button) value now,
  with_detector-owed node button (feed (detector_for node button) value now).0,
)

stroke_price-le :
    (repeats : Bool) (value : ℤ)
    → is_repeat value && not repeats ≡ false
    → stroke_price value ≤ (if is_stroke repeats value then 1 else 0)
stroke_price-le repeats (pos zero) h = omega arith
stroke_price-le repeats (pos (suc n)) h = rw h (omega arith)
stroke_price-le repeats (negsuc n) h = omega arith

feed_node-owed :
    (repeats : Bool) (node : Node) (button : StylusButton) (value now : ℤ)
    → let (node', ts) = feed_node repeats node button value now in
      prices ts + owed_by node' ≤ owed_by node + (if is_stroke repeats value then 1 else 0)
unfolding feed_node
feed_node-owed repeats node button value now =
    if_elim
      (λ (r : Node × List Trigger).
        prices r.1 + owed_by r.0 ≤ owed_by node + (if is_stroke repeats value then 1 else 0))
      (is_repeat value && not repeats) (λ _. omega arith)
      (λ h. omega (arith, fed-owed repeats node button value now, stroke_price-le repeats value h))

dispatch-owed :
    (repeats : Bool) (node : Node) (type_of code : ℕ) (value now : ℤ) (reads : List ReadResult)
    → let (node', ts) = dispatch_event repeats node type_of code value now in
      prices ts + owed_by node' + strokes repeats reads
      ≤ owed_by node + strokes repeats (event type_of code value ∷ reads)
unfolding dispatch_event strokes
dispatch-owed repeats node type_of code value now reads =
    let by_primary = feed_node-owed repeats node primary value now in
    let by_secondary = feed_node-owed repeats node secondary value now in
    if_elim Bounded (not (type_of == ev_key)) (λ _. omega arith)
      (λ key.
        if_elim Bounded (code == key_pagedown)
          (λ down. rw (keyed key, down) (omega (arith, by_primary)))
          (λ other.
            if_elim Bounded (code == key_pageup)
              (λ up. rw (keyed key, other, up) (omega (arith, by_secondary))) (λ _. omega arith)))
  where
    Bounded : Node × List Trigger → Type 0
    Bounded r =
        prices r.1 + owed_by r.0 + strokes repeats reads
        ≤ owed_by node + strokes repeats (event type_of code value ∷ reads)

    keyed : not (type_of == ev_key) ≡ false → (type_of == ev_key) ≡ true
    keyed h = ground arith

pub drain-owed :
    (repeats : Bool) (now : ℤ) (node : Node) (reads : List ReadResult)
    → let (node', ts, alive) = drain repeats true now node reads in
      prices ts + owed_by node' ≤ owed_by node + strokes repeats reads
unfolding drain strokes
drain-owed repeats now node [] = omega arith
drain-owed repeats now node (interrupted ∷ reads) = drain-owed repeats now node reads
drain-owed repeats now node (broken ∷ reads) = omega arith
drain-owed repeats now node (event type_of code value ∷ reads) =
    let (node', ts) = dispatch_event repeats node type_of code value now in
    omega (
      arith,
      dispatch-owed repeats node type_of code value now reads,
      drain-owed repeats now node' reads,
      sum_by-append price ts (drain repeats true now node' reads).1,
    )

-- What `attach` drains is not dispatched, and leaves the node as it is.
pub drain_undispatched :
    (repeats : Bool) (now : ℤ) (node : Node) (reads : List ReadResult)
    → (drain repeats false now node reads).0 ≡ node
unfolding drain
drain_undispatched repeats now node [] = refl
drain_undispatched repeats now node (interrupted ∷ reads) =
    drain_undispatched repeats now node reads
drain_undispatched repeats now node (broken ∷ reads) = refl
drain_undispatched repeats now node (event type_of code value ∷ reads) =
    drain_undispatched repeats now node reads

flush_detector-owed :
    (button : StylusButton) (name : String) (fuel : ℕ) (now : ℤ) (d : ButtonGestureDetector)
    → let (d', gs) = flush_detector fuel now d in
      prices (triggers_of_all button name gs) + owed d' ≤ owed d
unfolding flush_detector
flush_detector-owed button name zero now d = omega arith
flush_detector-owed button name (suc fuel) now d =
    ground
      (arith, tick-owed button name d now, flush_detector-owed button name fuel now (tick d now).0)

flush_node-owed :
    (now : ℤ) (node : Node)
    → let (node', ts) = flush_node now node in prices ts + owed_by node' ≤ owed_by node
unfolding flush_node
flush_node-owed now node =
    let p = flush_detector flush_fuel now node.primary_detector in
    let s = flush_detector flush_fuel now node.secondary_detector in
    omega (
      arith,
      flush_detector-owed primary node.name flush_fuel now node.primary_detector,
      flush_detector-owed secondary node.name flush_fuel now node.secondary_detector,
      sum_by-append price (triggers_of_all primary node.name p.1)
          (triggers_of_all secondary node.name s.1),
    )

pub flush-owed :
    (now : ℤ) (nodes : List Node)
    → let (nodes', ts) = flush_due_gestures now nodes in
      prices ts + sum_by owed_by nodes' ≤ sum_by owed_by nodes
unfolding flush_due_gestures
flush-owed now [] = omega arith
flush-owed now (node ∷ nodes) = omega (
  arith,
  flush_node-owed now node,
  flush-owed now nodes,
  sum_by-append price (flush_node now node).1 (flush_due_gestures now nodes).1,
)
