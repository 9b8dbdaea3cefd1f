-- ===== src/Buttons.antt =====
-- src/stylusbuttons.h and src/stylusbuttons.cpp: the nodes of the pen and the events of its buttons.
-- What the kernel answers is given: a node's reads as the list of what they return before one would
-- block, and what opening a path finds. Times are readings of the steady clock.
pub mod Monitor
pub mod Deadlines
pub mod Loop
pub mod Threads
pub mod Queries
pub mod Pollfds
pub mod Mapper
pub mod Diagnostics
pub mod Heading
pub mod Drain
pub mod Timeout
pub mod Ledger
pub mod Descriptors
pub mod Presses
pub mod Clicks
pub mod Ours
mod Tests
use Prim.Native.String
use Prim.Native.String.{String, ◌++◌}
use stylus_popup.Prelude.{
  ℕ, zero, suc, ◌+◌, Bool, true, false, not, ◌&&◌, ◌||◌, Option, none, some, List, [], ◌∷◌, ℤ, pos,
  negsuc, ltb_ℤ, leb_ℤ, ◌==◌, if◌then◌else◌,
}
use stylus_popup.Gesture.{
  StylusGesture, ButtonGestureDetector, GestureTiming, fresh_detector, configure, feed, tick,
}
use stylus_popup.Config.{ButtonMapConfig}
use stylus_popup.Popup.Strings.{is_empty}

pub data StylusButton : Type 0 where
  primary secondary : StylusButton

abbrev pub key_pageup : ℕ
key_pageup = 104

abbrev pub key_pagedown : ℕ
key_pagedown = 109

abbrev pub ev_key : ℕ
ev_key = 1

pub record Node : Type 0 where
  pub path : String
  pub name : String
  pub uniq : String
  pub fd : ℤ
  pub open_error : ℤ
  pub grabbed : Bool
  pub name_match : Bool
  pub has_primary : Bool
  pub has_secondary : Bool
  pub primary_detector : ButtonGestureDetector
  pub secondary_detector : ButtonGestureDetector

abbrev pub fresh_node : Node
fresh_node = record {
  path = "";
  name = "";
  uniq = "";
  fd = negsuc 0;
  open_error = pos 0;
  grabbed = false;
  name_match = false;
  has_primary = false;
  has_secondary = false;
  primary_detector = fresh_detector;
  secondary_detector = fresh_detector;
}

unfoldable pub matches : Node → Bool
matches node = node.name_match && (node.has_primary || node.has_secondary)

-- What `open` and the queries of an event node give: an errno, or the descriptor, the name, the
-- address, and whether the node has a key.
pub data Opened : Type 0 where
  refused : ℤ → Opened
  opened : ℕ → String → String → (ℕ → Bool) → Opened

module _ (same_text : String → String → Bool) where
  -- `same_text` is the caseless comparison of QString.
  unfoldable pub is_stylus_node_name : String → Bool
  is_stylus_node_name name =
      not (is_empty name)
      && (same_text name "Xiaomi Smart Pen" || same_text name ("Xiaomi Smart Pen" ++ " Keyboard"))

  -- The node that is filled in, and whether it could be opened.
  unfoldable pub inspect : String → Opened → Node × Bool
  inspect path (refused errno) =
      (record fresh_node { path = path; fd = negsuc 0; open_error = errno }, false)
  inspect path (opened fd name uniq supports_key) =
      let ours = is_stylus_node_name name in
      (
        record fresh_node {
          path = path;
          fd = pos fd;
          name = name;
          uniq = uniq;
          name_match = ours;
          has_primary = ours && supports_key key_pagedown;
          has_secondary = ours && supports_key key_pageup;
        },
        true,
      )

abbrev pub detector_for : Node → StylusButton → ButtonGestureDetector
detector_for node primary = node.primary_detector
detector_for node secondary = node.secondary_detector

abbrev pub with_detector : Node → StylusButton → ButtonGestureDetector → Node
with_detector node primary d = record node { primary_detector = d }
with_detector node secondary d = record node { secondary_detector = d }

-- `gestureTriggered`, with the button, the gesture and the name of the device.
abbrev pub Trigger : Type 0
Trigger = StylusButton × StylusGesture × String

abbrev pub triggers_of : StylusButton → String → Option StylusGesture → List Trigger
triggers_of button name none = []
triggers_of button name (some g) = (button, g, name) ∷ []

abbrev pub is_repeat : ℤ → Bool
is_repeat (pos n) = n == 2
is_repeat (negsuc n) = false

-- The feeding of one raw key event: 1 is a press, 0 a release, 2 a repeat.
unfoldable pub feed_node : Bool → Node → StylusButton → ℤ → ℤ → Node × List Trigger
feed_node repeats node button value now =
    let (d, gesture) = feed (detector_for node button) value now in
    if is_repeat value && not repeats
    then (node, [])
    else (with_detector node button d, triggers_of button node.name gesture)

-- What a read of an event node returns: an event of a type, code and value, an interruption, or
-- something else that is not `EAGAIN`.
pub data ReadResult : Type 0 where
  event : ℕ → ℕ → ℤ → ReadResult
  interrupted broken : ReadResult

unfoldable pub dispatch_event : Bool → Node → ℕ → ℕ → ℤ → ℤ → Node × List Trigger
dispatch_event repeats node type_of code value now =
    if not (type_of == ev_key)
    then (node, [])
    else if code == key_pagedown
    then feed_node repeats node primary value now
    else if code == key_pageup
    then feed_node repeats node secondary value now
    else (node, [])
