-- ===== src/Buttons/Presses/Paid.antt =====
-- src/stylusbuttons.cpp: over a whole run of the monitor's thread, each gesture is paid by presses, and
-- so is each command that the mapper starts.
use Prim.Native.String.{String}
use stylus_popup.Prelude.{
  ℕ, zero, suc, ◌+◌, ◌≤◌, Bool, false, not, ◌||◌, List, [], ◌∷◌, ◌++◌, ℤ, length, if◌then◌else◌,
  if_elim, ◌≡◌, refl, ap, ◌∙◌, arith,
}
use stylus_popup.Gesture.{single, double_click, long_press, configure}
use stylus_popup.Config.{ButtonMapConfig}
use stylus_popup.Buttons.{Node, Trigger, ReadResult, inspect}
use stylus_popup.Buttons.Monitor.{
  Monitor, Candidate, Scan, is_empty_list, drain, watched_node, attach, scan_path, scan_paths, scan,
}
use stylus_popup.Buttons.Deadlines.{flush_due_gestures}
use stylus_popup.Buttons.Loop.{
  Revents, quiet, hung_up, readable, serve, polled_nodes, walk, erase_at, erase_dead, Poll,
  interrupted, failed, ready, turn, poll_loop, run,
}
use stylus_popup.Buttons.Mapper.{started_scripts}
use stylus_popup.Buttons.Ledger.{sum_by, sum_by-append}
use stylus_popup.Buttons.Presses.{
  price, prices, owed, owed_by, strokes, drain-owed, drain_undispatched, flush-owed,
}

-- The strokes that one poll offers, and those of all polls up to one that fails.
abbrev pub offered_by : Bool → Revents → ℕ
offered_by repeats quiet = 0
offered_by repeats hung_up = 0
offered_by repeats (readable now reads) = strokes repeats reads

unfoldable pub offered : Bool → List Poll → ℕ
offered repeats [] = 0
offered repeats (interrupted ∷ polls) = offered repeats polls
offered repeats (failed ∷ polls) = 0
offered repeats (ready timed_out folder_changed events candidates now ∷ polls) =
    sum_by (offered_by repeats) events + offered repeats polls

serve-owed :
    (repeats : Bool) (node : Node) (e : Revents)
    → let (node', ts, alive) = serve repeats node e in
      prices ts + owed_by node' ≤ owed_by node + offered_by repeats e
unfolding serve
serve-owed repeats node quiet = omega arith
serve-owed repeats node hung_up = omega arith
serve-owed repeats node (readable now reads) = drain-owed repeats now node reads

walk-owed :
    (repeats : Bool) (i : ℕ) (nodes : List Node) (events : List Revents)
    → let (nodes', ts, dead) = walk repeats i (polled_nodes nodes events) in
      prices ts + sum_by owed_by nodes' ≤ sum_by owed_by nodes + sum_by (offered_by repeats) events
unfolding walk polled_nodes
walk-owed repeats i [] events = omega arith
walk-owed repeats i (node ∷ nodes) [] =
    let rest = walk repeats (suc i) (polled_nodes nodes []) in
    omega (
      arith,
      serve-owed repeats node quiet,
      walk-owed repeats (suc i) nodes [],
      sum_by-append price (serve repeats node quiet).1 rest.1,
    )
walk-owed repeats i (node ∷ nodes) (e ∷ events) =
    let rest = walk repeats (suc i) (polled_nodes nodes events) in
    omega (
      arith,
      serve-owed repeats node e,
      walk-owed repeats (suc i) nodes events,
      sum_by-append price (serve repeats node e).1 rest.1,
    )

erase_at-owed :
    (i : ℕ) (nodes : List Node) → sum_by owed_by (erase_at i nodes) ≤ sum_by owed_by nodes
unfolding erase_at
erase_at-owed i [] = omega arith
erase_at-owed zero (node ∷ nodes) = omega arith
erase_at-owed (suc i) (node ∷ nodes) = omega (arith, erase_at-owed i nodes)

erase_dead-owed :
    (dead : List ℕ) (nodes : List Node)
    → sum_by owed_by (erase_dead dead nodes).0 ≤ sum_by owed_by nodes
unfolding erase_dead
erase_dead-owed [] nodes = omega arith
erase_dead-owed (i ∷ dead) nodes =
    omega (arith, erase_dead-owed dead nodes, erase_at-owed i (erase_dead dead nodes).0)

-- A node that is watched owes nothing.
attach-owed :
    (config : ButtonMapConfig) (ok : Bool) (now : ℤ) (queued : List ReadResult) (nodes : List Node)
    (node : Node)
    → sum_by owed_by (attach config ok now queued nodes node) ≡ sum_by owed_by nodes
unfolding attach owed configure
attach-owed config ok now queued nodes node =
    let watched = watched_node config ok node in
    let read = (drain config.repeat false now watched queued).0 in
    omega (
      arith,
      sum_by-append owed_by nodes (read ∷ []),
      ap owed_by (drain_undispatched config.repeat now watched queued),
    )

module _ (same_text : String → String → Bool) (config : ButtonMapConfig) where
  scan_path-owed :
      (now : ℤ) (s : Scan) (c : Candidate)
      → sum_by owed_by (scan_path same_text config now s c).nodes ≡ sum_by owed_by s.nodes
  unfolding scan_path
  scan_path-owed now s c =
      let node = (inspect same_text c.path c.opened_as).0 in
      ground (arith, attach-owed config c.grab_succeeds now c.queued s.nodes node)

  scan_paths-owed :
      (now : ℤ) (s : Scan) (cs : List Candidate)
      → sum_by owed_by (scan_paths same_text config now s cs).nodes ≡ sum_by owed_by s.nodes
  unfolding scan_paths
  scan_paths-owed now s [] = refl
  scan_paths-owed now s (c ∷ cs) =
      scan_paths-owed now (scan_path same_text config now s c) cs ∙ scan_path-owed now s c

  scan-owed :
      (now : ℤ) (m : Monitor) (cs : List Candidate)
      → sum_by owed_by (scan same_text config now m cs).nodes ≡ sum_by owed_by m.nodes
  unfolding scan
  scan-owed now m cs = scan_paths-owed now _ cs

  turn-owed :
      (timed_out folder_changed : Bool) (events : List Revents) (cs : List Candidate) (now : ℤ)
      (m : Monitor)
      → let (m', ts) = turn same_text config timed_out folder_changed events cs now m in
        prices ts + sum_by owed_by m'.nodes
        ≤ sum_by owed_by m.nodes + sum_by (offered_by config.repeat) events
  unfolding turn
  turn-owed timed_out folder_changed events cs now m =
      let (nodes, ts, dead) = walk config.repeat 0 (polled_nodes m.nodes events) in
      let (left, actions) = erase_dead dead nodes in
      let kept : Monitor = record m { nodes = left; actions = actions ++ m.actions } in
      let rescan = timed_out || folder_changed || not (is_empty_list dead) in
      let found : Monitor = if rescan then scan same_text config now kept cs else kept in
      let found_owed : sum_by owed_by found.nodes ≡ sum_by owed_by left =
        if_elim (λ (t : Monitor). sum_by owed_by t.nodes ≡ sum_by owed_by left) rescan
          (λ _. scan-owed now kept cs) (λ _. refl) in
      omega (
        arith,
        walk-owed config.repeat 0 m.nodes events,
        erase_dead-owed dead nodes,
        found_owed,
        flush-owed now found.nodes,
        sum_by-append price ts (flush_due_gestures now found.nodes).1,
      )

  poll_loop-owed :
      (m : Monitor) (polls : List Poll)
      → prices (poll_loop same_text config m polls).1
        ≤ sum_by owed_by m.nodes + offered config.repeat polls
  unfolding poll_loop offered
  poll_loop-owed m [] = omega arith
  poll_loop-owed m (interrupted ∷ polls) = poll_loop-owed m polls
  poll_loop-owed m (failed ∷ polls) = omega arith
  poll_loop-owed m (ready timed_out folder_changed events cs now ∷ polls) =
      let (m', ts) = turn same_text config timed_out folder_changed events cs now m in
      omega (
        arith,
        turn-owed timed_out folder_changed events cs now m,
        poll_loop-owed m' polls,
        sum_by-append price ts (poll_loop same_text config m' polls).1,
      )

-- A trigger starts one script at most, and costs one press at least.
length-started_scripts :
    (config : ButtonMapConfig) (ts : List Trigger) → length (started_scripts config ts) ≤ prices ts
unfolding started_scripts
length-started_scripts config [] = omega arith
length-started_scripts config ((button, single, name) ∷ ts) =
    ground (arith, length-started_scripts config ts)
length-started_scripts config ((button, double_click, name) ∷ ts) =
    ground (arith, length-started_scripts config ts)
length-started_scripts config ((button, long_press, name) ∷ ts) =
    ground (arith, length-started_scripts config ts)

-- Over a whole run of the monitor's thread, whatever the kernel answers to it, and at whatever times:
-- the single clicks, the long presses and twice the double clicks of both buttons are together no
-- more than the key events of the two that the polls offer, releases not counted, and repeats only
-- where they are configured; and no more commands are started than that.
pub run-paid :
    (same_text : String → String → Bool) (config : ButtonMapConfig) (cs : List Candidate) (now : ℤ)
    (polls : List Poll)
    → let ts = (run same_text config cs now polls).1 in
      (prices ts ≤ offered config.repeat polls)
      × (length (started_scripts config ts) ≤ offered config.repeat polls)
unfolding run
run-paid same_text config cs now polls =
    let start : Monitor = record { nodes = []; warned = false; actions = [] } in
    let begun = scan same_text config now start cs in
    let ts = (poll_loop same_text config begun polls).1 in
    let paid : prices ts ≤ offered config.repeat polls = omega (
      arith,
      poll_loop-owed same_text config begun polls,
      scan-owed same_text config now start cs,
    ) in
    (paid, omega (arith, paid, length-started_scripts config ts))
