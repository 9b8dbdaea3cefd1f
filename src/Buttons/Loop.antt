-- ===== src/Buttons/Loop.antt =====
-- src/stylusbuttons.cpp: the poll loop of the monitor's thread. What `poll` reports is given, round by
-- round; the eventfd that wakes the thread up carries nothing else.
use Prim.Native.String.{String}
use stylus_popup.Prelude.{
  ℕ, zero, suc, Bool, true, false, not, ◌||◌, List, [], ◌∷◌, ◌++◌, ℤ, pos, negsuc, ltb_ℤ,
  if◌then◌else◌,
}
use stylus_popup.Config.{ButtonMapConfig}
use stylus_popup.Buttons.{Node, Trigger, ReadResult}
use stylus_popup.Buttons.Monitor.{
  Action, ungrabs, closes, Monitor, Candidate, is_empty_list, drain, scan,
}
use stylus_popup.Buttons.Deadlines.{flush_due_gestures}

-- The node that is left, and what is done to its descriptor.
unfoldable pub close_node : Node → Node × List Action
close_node node = if ltb_ℤ node.fd (pos 0) then (node, []) else (
  record node { fd = negsuc 0; grabbed = false },
  closes node.fd ∷ (if node.grabbed then ungrabs node.fd ∷ [] else []),
)

-- What `poll` reports of a node: nothing, that it hung up, or that it can be read, at a clock reading.
pub data Revents : Type 0 where
  quiet hung_up : Revents
  readable : ℤ → List ReadResult → Revents

-- The node after its turn, its triggers, and whether it is alive.
unfoldable pub serve : Bool → Node → Revents → Node × List Trigger × Bool
serve repeats node quiet = (node, [], true)
serve repeats node hung_up = (node, [], false)
serve repeats node (readable now reads) = drain repeats true now node reads

-- Each node with what was polled of it.
unfoldable pub polled_nodes : List Node → List Revents → List (Node × Revents)
polled_nodes [] events = []
polled_nodes (node ∷ nodes) [] = (node, quiet) ∷ polled_nodes nodes []
polled_nodes (node ∷ nodes) (e ∷ events) = (node, e) ∷ polled_nodes nodes events

-- The walk over the nodes with what was polled of each: the nodes, the triggers, and the indices of
-- the dead nodes from that of the first node on.
unfoldable pub walk : Bool → ℕ → List (Node × Revents) → List Node × List Trigger × List ℕ
walk repeats index [] = ([], [], [])
walk repeats index ((node, revents) ∷ rest) =
    let (node', ts, alive) = serve repeats node revents in
    let (nodes, us, dead) = walk repeats (suc index) rest in
    (node' ∷ nodes, ts ++ us, if alive then dead else index ∷ dead)

-- `nodes.erase(nodes.begin() + index)`.
unfoldable pub erase_at : ℕ → List Node → List Node
erase_at index [] = []
erase_at zero (node ∷ nodes) = nodes
erase_at (suc index) (node ∷ nodes) = node ∷ erase_at index nodes

-- `closeNode(nodes[index])`, of which only the actions outlive the node.
unfoldable pub close_at : ℕ → List Node → List Action
close_at index [] = []
close_at zero (node ∷ nodes) = (close_node node).1
close_at (suc index) (node ∷ nodes) = close_at index nodes

-- The dead nodes are closed and erased from the last to the first.
unfoldable pub erase_dead : List ℕ → List Node → List Node × List Action
erase_dead [] nodes = (nodes, [])
erase_dead (index ∷ dead) nodes =
    let (left, actions) = erase_dead dead nodes in
    (erase_at index left, close_at index left ++ actions)

-- The loop at the end of `run`.
unfoldable pub close_all : List Node → List Action
close_all [] = []
close_all (node ∷ nodes) = close_all nodes ++ (close_node node).1

-- What one call of `poll` comes to: an interruption, another failure, or a round: whether it timed
-- out, whether the watch of the folder is readable, what is reported of each node, the answers to a
-- scan, and the clock reading of the flush.
pub data Poll : Type 0 where
  interrupted failed : Poll
  ready : Bool → Bool → List Revents → List Candidate → ℤ → Poll

module _ (same_text : String → String → Bool) (config : ButtonMapConfig) where
  unfoldable pub turn :
      (timed_out folder_changed : Bool)
      → List Revents
      → List Candidate
      → ℤ
      → Monitor
      → Monitor × List Trigger
  turn timed_out folder_changed events candidates now m =
      let (nodes, ts, dead) = walk config.repeat 0 (polled_nodes m.nodes events) in
      let (left, actions) = erase_dead dead nodes in
      let kept = record m { nodes = left; actions = actions ++ m.actions } in
      let rescan = timed_out || folder_changed || not (is_empty_list dead) in
      let found = if rescan then scan same_text config now kept candidates else kept in
      let (flushed, us) = flush_due_gestures now found.nodes in
      (record found { nodes = flushed }, ts ++ us)

  -- The `while` loop over the calls of `poll`, until the thread is stopped or one fails.
  unfoldable pub poll_loop : Monitor → List Poll → Monitor × List Trigger
  poll_loop m [] = (m, [])
  poll_loop m (interrupted ∷ polls) = poll_loop m polls
  poll_loop m (failed ∷ polls) = (m, [])
  poll_loop m (ready timed_out folder_changed events candidates now ∷ polls) =
      let (m', ts) = turn timed_out folder_changed events candidates now m in
      let (last, us) = poll_loop m' polls in (last, ts ++ us)

  -- `run`: what is done to the descriptors from the first scan to the end, and the triggers.
  unfoldable pub run : List Candidate → ℤ → List Poll → List Action × List Trigger
  unfolding poll_loop
  run candidates now polls =
      let begun =
        scan same_text config now (record { nodes = []; warned = false; actions = [] })
          candidates in
      let (last, ts) = poll_loop begun polls in (close_all last.nodes ++ last.actions, ts)
