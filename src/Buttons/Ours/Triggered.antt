-- ===== src/Buttons/Ours/Triggered.antt =====
-- src/stylusbuttons.cpp: over a whole run of the monitor's thread, every gesture is the pen's.
use Prim.Native.String.{String}
use stylus_popup.Prelude.{
  Bool, false, not, ◌||◌, List, [], ◌∷◌, ◌++◌, ℤ, All, if◌then◌else◌, if_elim,
}
use stylus_popup.Config.{ButtonMapConfig}
use stylus_popup.Buttons.Monitor.{Monitor, Candidate, is_empty_list, scan}
use stylus_popup.Buttons.Loop.{
  Revents, polled_nodes, walk, erase_dead, Poll, interrupted, failed, ready, turn, poll_loop, run,
}
use stylus_popup.Buttons.Ours.{
  All-append, IsPen, IsPenned, walk-IsPen, erase_dead-IsPen, flush-IsPen, scan-IsPen,
}

module _ (same_text : String → String → Bool) (config : ButtonMapConfig) where
  turn-IsPen :
      (timed_out folder_changed : Bool) (events : List Revents) (cs : List Candidate) (now : ℤ)
      (m : Monitor)
      → All (IsPen same_text) m.nodes
      → let (m', ts) = turn same_text config timed_out folder_changed events cs now m in
        All (IsPen same_text) m'.nodes × All (IsPenned same_text) ts
  unfolding turn
  turn-IsPen timed_out folder_changed events cs now m v =
      let (nodes, ts, dead) = walk config.repeat 0 (polled_nodes m.nodes events) in
      let (left, actions) = erase_dead dead nodes in
      let kept : Monitor = record m { nodes = left; actions = actions ++ m.actions } in
      let rescan = timed_out || folder_changed || not (is_empty_list dead) in
      let found : Monitor = if rescan then scan same_text config now kept cs else kept in
      let (walked, named) = walk-IsPen same_text config.repeat 0 m.nodes events v in
      let alive = erase_dead-IsPen same_text dead nodes walked in
      let ours : All (IsPen same_text) found.nodes =
        if_elim (λ (t : Monitor). All (IsPen same_text) t.nodes) rescan
          (λ _. scan-IsPen same_text config now kept cs alive) (λ _. alive) in
      let (flushed, due) = flush-IsPen same_text now found.nodes ours in
      (flushed, All-append (IsPenned same_text) ts _ named due)

  poll_loop-IsPen :
      (m : Monitor) (polls : List Poll)
      → All (IsPen same_text) m.nodes
      → All (IsPenned same_text) (poll_loop same_text config m polls).1
  unfolding poll_loop
  poll_loop-IsPen m [] v = tt
  poll_loop-IsPen m (interrupted ∷ polls) v = poll_loop-IsPen m polls v
  poll_loop-IsPen m (failed ∷ polls) v = tt
  poll_loop-IsPen m (ready timed_out folder_changed events cs now ∷ polls) v =
      let (m', ts) = turn same_text config timed_out folder_changed events cs now m in
      let (w, named) = turn-IsPen timed_out folder_changed events cs now m v in
      All-append (IsPenned same_text) ts _ named (poll_loop-IsPen m' polls w)

  -- Over a whole run of the monitor's thread, whatever nodes there are and whatever the kernel answers
  -- of them: every gesture that is triggered carries one of the two names of the pen's nodes, so
  -- that no key of a device with another name makes one.
  pub run-IsPenned :
      (cs : List Candidate) (now : ℤ) (polls : List Poll)
      → All (IsPenned same_text) (run same_text config cs now polls).1
  unfolding run
  run-IsPenned cs now polls =
      let start : Monitor = record { nodes = []; warned = false; actions = [] } in
      poll_loop-IsPen (scan same_text config now start cs) polls
        (scan-IsPen same_text config now start cs tt)
