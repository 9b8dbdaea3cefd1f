-- ===== src/Buttons/Ours.antt =====
-- src/stylusbuttons.cpp: which nodes are watched, and which gestures come of them: those of the pen alone.
pub mod Triggered
mod Tests
use Prim.Native.String.{String}
use stylus_popup.Prelude.{
  ℕ, zero, suc, Bool, true, false, not, ◌&&◌, ◌||◌, Option, none, some, List, [], ◌∷◌, ◌++◌, ℤ, pos,
  All, if◌then◌else◌, if_elim, ◌≡◌, refl, arith,
}
use stylus_popup.Gesture.{StylusGesture}
use stylus_popup.Config.{ButtonMapConfig}
use stylus_popup.Buttons.{
  StylusButton, primary, secondary, Node, Opened, refused, opened, Trigger, ReadResult, event,
  interrupted, broken, is_stylus_node_name, matches, inspect, feed_node, dispatch_event,
  detector_for, with_detector, triggers_of,
}
use stylus_popup.Buttons.Monitor.{
  Monitor, Candidate, Scan, is_empty_list, drain, watched_node, attach, is_known, scan_path,
  scan_paths, scan,
}
use stylus_popup.Buttons.Deadlines.{
  flush_detector, flush_fuel, flush_node, flush_due_gestures, triggers_of_all,
}
use stylus_popup.Buttons.Loop.{
  Revents, quiet, hung_up, readable, serve, polled_nodes, walk, erase_at, erase_dead, Poll,
  interrupted as poll_interrupted, failed, ready, turn, poll_loop, run,
}

pub All-append {ℓ κ} :
    {A : Type ℓ} (P : A → Type κ) (xs ys : List A) → All P xs → All P ys → All P (xs ++ ys)
All-append P [] ys a b = b
All-append P (x ∷ xs) ys (p, a) b = (p, All-append P xs ys a b)

module _ (same_text : String → String → Bool) where
  -- A node with one of the pen's two names, and a key of one of its buttons.
  abbrev pub IsPen : Node → Type 0
  IsPen node =
      (is_stylus_node_name same_text node.name ≡ true)
      × (node.has_primary || node.has_secondary ≡ true)

  -- A gesture of a device with one of the pen's two names.
  abbrev pub IsPenned : Trigger → Type 0
  IsPenned (button, gesture, name) = is_stylus_node_name same_text name ≡ true

  feed_node-IsPen :
      (repeats : Bool) (node : Node) (button : StylusButton) (value now : ℤ)
      → IsPen node
      → let (node', ts) = feed_node repeats node button value now in IsPen node' × All IsPenned ts
  unfolding feed_node
  feed_node-IsPen repeats node primary value now v = ground (arith, v)
  feed_node-IsPen repeats node secondary value now v = ground (arith, v)

  dispatch-IsPen :
      (repeats : Bool) (node : Node) (type_of code : ℕ) (value now : ℤ)
      → IsPen node
      → let (node', ts) = dispatch_event repeats node type_of code value now in
        IsPen node' × All IsPenned ts
  unfolding dispatch_event
  dispatch-IsPen repeats node type_of code value now v = ground (
    arith,
    v,
    feed_node-IsPen repeats node primary value now v,
    feed_node-IsPen repeats node secondary value now v,
  )

  drain-IsPen :
      (repeats dispatch : Bool) (now : ℤ) (node : Node) (reads : List ReadResult)
      → IsPen node
      → let (node', ts, alive) = drain repeats dispatch now node reads in
        IsPen node' × All IsPenned ts
  unfolding drain
  drain-IsPen repeats dispatch now node [] v = (v, tt)
  drain-IsPen repeats dispatch now node (interrupted ∷ reads) v =
      drain-IsPen repeats dispatch now node reads v
  drain-IsPen repeats dispatch now node (broken ∷ reads) v = (v, tt)
  drain-IsPen repeats true now node (event type_of code value ∷ reads) v =
      let (node', ts) = dispatch_event repeats node type_of code value now in
      let (w, named) = dispatch-IsPen repeats node type_of code value now v in
      let (last, rest) = drain-IsPen repeats true now node' reads w in
      (last, All-append IsPenned ts _ named rest)
  drain-IsPen repeats false now node (event type_of code value ∷ reads) v =
      drain-IsPen repeats false now node reads v

  serve-IsPen :
      (repeats : Bool) (node : Node) (e : Revents)
      → IsPen node
      → let (node', ts, alive) = serve repeats node e in IsPen node' × All IsPenned ts
  unfolding serve
  serve-IsPen repeats node quiet v = (v, tt)
  serve-IsPen repeats node hung_up v = (v, tt)
  serve-IsPen repeats node (readable now reads) v = drain-IsPen repeats true now node reads v

  pub walk-IsPen :
      (repeats : Bool) (i : ℕ) (nodes : List Node) (events : List Revents)
      → All IsPen nodes
      → let (nodes', ts, dead) = walk repeats i (polled_nodes nodes events) in
        All IsPen nodes' × All IsPenned ts
  unfolding walk polled_nodes
  walk-IsPen repeats i [] events v = (tt, tt)
  walk-IsPen repeats i (node ∷ nodes) [] (v, vs) =
      let (w, ts) = serve-IsPen repeats node quiet v in
      let (ws, us) = walk-IsPen repeats (suc i) nodes [] vs in
      ((w, ws), All-append IsPenned (serve repeats node quiet).1 _ ts us)
  walk-IsPen repeats i (node ∷ nodes) (e ∷ events) (v, vs) =
      let (w, ts) = serve-IsPen repeats node e v in
      let (ws, us) = walk-IsPen repeats (suc i) nodes events vs in
      ((w, ws), All-append IsPenned (serve repeats node e).1 _ ts us)

  erase_at-IsPen : (i : ℕ) (nodes : List Node) → All IsPen nodes → All IsPen (erase_at i nodes)
  unfolding erase_at
  erase_at-IsPen i [] v = v
  erase_at-IsPen zero (node ∷ nodes) (v, vs) = vs
  erase_at-IsPen (suc i) (node ∷ nodes) (v, vs) = (v, erase_at-IsPen i nodes vs)

  pub erase_dead-IsPen :
      (dead : List ℕ) (nodes : List Node) → All IsPen nodes → All IsPen (erase_dead dead nodes).0
  unfolding erase_dead
  erase_dead-IsPen [] nodes v = v
  erase_dead-IsPen (i ∷ dead) nodes v =
      erase_at-IsPen i (erase_dead dead nodes).0 (erase_dead-IsPen dead nodes v)

  named-IsPenned :
      (button : StylusButton) (name : String) (gs : List StylusGesture)
      → is_stylus_node_name same_text name ≡ true
      → All IsPenned (triggers_of_all button name gs)
  named-IsPenned button name [] v = tt
  named-IsPenned button name (g ∷ gs) v = (v, named-IsPenned button name gs v)

  pub flush-IsPen :
      (now : ℤ) (nodes : List Node)
      → All IsPen nodes
      → let (nodes', ts) = flush_due_gestures now nodes in All IsPen nodes' × All IsPenned ts
  unfolding flush_due_gestures flush_node
  flush-IsPen now [] v = (tt, tt)
  flush-IsPen now (node ∷ nodes) (v, vs) =
      let (ws, us) = flush-IsPen now nodes vs in
      let gs = (flush_detector flush_fuel now node.primary_detector).1 in
      let hs = (flush_detector flush_fuel now node.secondary_detector).1 in
      let first = named-IsPenned primary node.name gs v.0 in
      let second = named-IsPenned secondary node.name hs v.0 in
      let ts = triggers_of_all primary node.name gs in
      let rest = triggers_of_all secondary node.name hs in
      (
        (v, ws),
        All-append IsPenned (ts ++ rest) (flush_due_gestures now nodes).1
            (All-append IsPenned ts rest first second) us,
      )

  -- A node that is inspected and found to match is the pen's.
  matched-IsPen :
      (path : String) (o : Opened)
      → matches (inspect same_text path o).0 ≡ true
      → IsPen (inspect same_text path o).0
  unfolding inspect matches
  matched-IsPen path (refused errno) m = ground (arith, m)
  matched-IsPen path (opened fd name uniq supports_key) m = ground (arith, m)

  module _ (config : ButtonMapConfig) where
    attach-IsPen :
        (ok : Bool) (now : ℤ) (queued : List ReadResult) (nodes : List Node) (node : Node)
        → All IsPen nodes
        → IsPen node
        → All IsPen (attach config ok now queued nodes node)
    unfolding attach
    attach-IsPen ok now queued nodes node vs v =
        let read = drain-IsPen config.repeat false now (watched_node config ok node) queued in
        All-append IsPen nodes _ vs ((read (unfold watched_node in v)).0, tt)

    scan_path-IsPen :
        (now : ℤ) (s : Scan) (c : Candidate)
        → All IsPen s.nodes
        → All IsPen (scan_path same_text config now s c).nodes
    unfolding scan_path
    scan_path-IsPen now s c vs =
        let (node, could_open) = inspect same_text c.path c.opened_as in
        let P = λ (t : Scan). All IsPen t.nodes in
        if_elim P (is_known s.nodes c.path) (λ _. vs)
          (λ _.
            if_elim P (not could_open) (λ _. vs)
              (λ _.
                if_elim P (not (matches node)) (λ _. vs)
                  (λ m.
                    attach-IsPen c.grab_succeeds now c.queued s.nodes node vs
                      (matched-IsPen c.path c.opened_as (ground (arith, m))))))

    scan_paths-IsPen :
        (now : ℤ) (s : Scan) (cs : List Candidate)
        → All IsPen s.nodes
        → All IsPen (scan_paths same_text config now s cs).nodes
    unfolding scan_paths
    scan_paths-IsPen now s [] vs = vs
    scan_paths-IsPen now s (c ∷ cs) vs =
        scan_paths-IsPen now (scan_path same_text config now s c) cs (scan_path-IsPen now s c vs)

    pub scan-IsPen :
        (now : ℤ) (m : Monitor) (cs : List Candidate)
        → All IsPen m.nodes
        → All IsPen (scan same_text config now m cs).nodes
    unfolding scan
    scan-IsPen now m cs vs = scan_paths-IsPen now _ cs vs
