-- ===== src/Buttons/Monitor.antt =====
-- src/stylusbuttons.cpp: the monitor's nodes: reading one, attaching one, and the scan for new ones.
-- What the monitor does to the descriptors of the nodes is logged, the newest first.

use Prim.Native.String.{String}
use text.Mathlib.Text.{◌==◌ as str_eq}
use stylus_popup.Prelude.{
  ℕ, ◌+◌, Bool, true, false, not, ◌&&◌, ◌||◌, List, [], ◌∷◌, ◌++◌, ℤ, ltb, if◌then◌else◌,
}
use stylus_popup.Gesture.{GestureTiming, configure}
use stylus_popup.Config.{ButtonMapConfig}
use stylus_popup.Buttons.{
  Node, Opened, Trigger, ReadResult, event, interrupted, broken, matches, inspect, dispatch_event,
}

-- The reads of a node until one would block: what becomes of the node, what is triggered, and whether
-- the node is still alive.
unfoldable pub drain : Bool → Bool → ℤ → Node → List ReadResult → Node × List Trigger × Bool
drain repeats dispatch now node [] = (node, [], true)
drain repeats dispatch now node (interrupted ∷ reads) = drain repeats dispatch now node reads
drain repeats dispatch now node (broken ∷ reads) = (node, [], false)
drain repeats dispatch now node (event type_of code value ∷ reads) =
    let (node', ts) =
      if dispatch then dispatch_event repeats node type_of code value now else (node, []) in
    let (last, us, alive) = drain repeats dispatch now node' reads in (last, ts ++ us, alive)

-- The node that `attach` watches: its detectors are configured, and it is grabbed where that succeeds.
unfoldable pub watched_node : ButtonMapConfig → Bool → Node → Node
watched_node config grab_succeeds node =
    let timing : GestureTiming = record {
      double_click_ms = config.double_click_ms;
      long_press_ms = config.long_press_ms;
    } in
    record node {
      primary_detector = configure timing node.primary_detector;
      secondary_detector = configure timing node.secondary_detector;
      grabbed = node.grabbed || config.grab && grab_succeeds;
    }

-- `attach`, given whether the grab succeeds and the reads of what the kernel had queued.
unfoldable pub attach : ButtonMapConfig → Bool → ℤ → List ReadResult → List Node → Node → List Node
unfolding watched_node
attach config grab_succeeds now queued nodes node =
    nodes ++ (drain config.repeat false now (watched_node config grab_succeeds node) queued).0 ∷ []

-- What the monitor does to a descriptor: `open`, `EVIOCGRAB` with 1 and with 0, and `close`.
pub data Action : Type 0 where
  opens grabs ungrabs closes : ℤ → Action

pub record Monitor : Type 0 where
  pub nodes : List Node
  pub warned : Bool  -- m_openWarningLogged
  pub actions : List Action

unfoldable pub is_known : List Node → String → Bool
is_known [] path = false
is_known (node ∷ nodes) path = str_eq node.path path || is_known nodes path

-- What the kernel answers about one path in a scan.
pub record Candidate : Type 0 where
  pub path : String
  pub opened_as : Opened
  pub grab_succeeds : Bool
  pub queued : List ReadResult

abbrev pub is_empty_list {ℓ} : {A : Type ℓ} → List A → Bool
is_empty_list [] = true
is_empty_list (x ∷ xs) = false

-- `failures` counts the paths that could not be opened.
pub record Scan : Type 0 where
  pub nodes : List Node
  pub failures : ℕ
  pub actions : List Action

-- The grab of `attach`, where it succeeds.
abbrev pub grab_of : ButtonMapConfig → Bool → ℤ → List Action
grab_of config grab_succeeds fd = if config.grab && grab_succeeds then grabs fd ∷ [] else []

module _ (same_text : String → String → Bool) (config : ButtonMapConfig) (now : ℤ) where
  -- One round of `scan` over the paths.
  unfoldable pub scan_path : Scan → Candidate → Scan
  scan_path s c =
      let (node, could_open) = inspect same_text c.path c.opened_as in
      let opened = opens node.fd ∷ s.actions in
      if is_known s.nodes c.path
      then s
      else if not could_open
      then record s { failures = s.failures + 1 }
      else if not (matches node)
      then record s { actions = closes node.fd ∷ opened }
      else record s {
        nodes = attach config c.grab_succeeds now c.queued s.nodes node;
        actions = grab_of config c.grab_succeeds node.fd ++ opened;
      }

  unfoldable pub scan_paths : Scan → List Candidate → Scan
  scan_paths s [] = s
  scan_paths s (c ∷ cs) = scan_paths (scan_path s c) cs

  unfoldable pub scan : Monitor → List Candidate → Monitor
  scan m cs =
      let s = scan_paths (record { nodes = m.nodes; failures = 0; actions = m.actions }) cs in
      record {
        nodes = s.nodes;
        warned = m.warned || ltb 0 s.failures && is_empty_list s.nodes;
        actions = s.actions;
      }
