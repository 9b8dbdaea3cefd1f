-- ===== src/Buttons/Descriptors.antt =====
-- src/stylusbuttons.cpp: whatever the kernel answers, the monitor's thread closes what it opened and
-- releases what it grabbed.
use Prim.Native.String.{String}
use stylus_popup.Prelude.{
  ℕ, Bool, true, false, not, ◌||◌, List, [], ◌∷◌, ◌++◌, ℤ, pos, negsuc, ◌≡◌, refl, arith, ◌==◌,
  if◌then◌else◌, if_elim,
}
use stylus_popup.Config.{ButtonMapConfig}
use stylus_popup.Buttons.{Node}
use stylus_popup.Buttons.Monitor.{
  Action, opens, grabs, ungrabs, closes, Monitor, Candidate, is_empty_list, scan,
}
use stylus_popup.Buttons.Loop.{
  Revents, polled_nodes, walk, close_node, erase_dead, close_all, Poll, interrupted, failed, ready,
  turn, poll_loop, run,
}
use stylus_popup.Buttons.Ledger.{
  sum_by, sum_by-append, Account, IsBalanced, walk-worth, erase_dead-worth, close_all-worth,
  flush-worth,
}
use stylus_popup.Buttons.Ledger.Scanning.{scan-IsBalanced}

module _ (account : Account) (same_text : String → String → Bool) (config : ButtonMapConfig) where
  open account use {gain, loss}

  turn-IsBalanced :
      (timed_out folder_changed : Bool) (events : List Revents) (cs : List Candidate) (now : ℤ)
      (m : Monitor)
      → IsBalanced account m.actions m.nodes
      → let t = (turn same_text config timed_out folder_changed events cs now m).0 in
        IsBalanced account t.actions t.nodes
  unfolding turn
  turn-IsBalanced timed_out folder_changed events cs now m b =
      let (nodes, ts, dead) = walk config.repeat 0 (polled_nodes m.nodes events) in
      let (left, actions) = erase_dead dead nodes in
      let kept : Monitor = record m { nodes = left; actions = actions ++ m.actions } in
      let rescan = timed_out || folder_changed || not (is_empty_list dead) in
      let balanced : IsBalanced account kept.actions kept.nodes = omega (
        arith,
        b,
        walk-worth account config.repeat 0 m.nodes events,
        erase_dead-worth account dead nodes,
        sum_by-append gain actions m.actions,
        sum_by-append loss actions m.actions,
      ) in
      let found : Monitor = if rescan then scan same_text config now kept cs else kept in
      let found_balanced : IsBalanced account found.actions found.nodes =
        if_elim (λ (t : Monitor). IsBalanced account t.actions t.nodes) rescan
          (λ _. scan-IsBalanced account same_text config now kept cs balanced) (λ _. balanced) in
      omega (arith, found_balanced, flush-worth account now found.nodes)

  poll_loop-IsBalanced :
      (m : Monitor) (polls : List Poll)
      → IsBalanced account m.actions m.nodes
      → let t = (poll_loop same_text config m polls).0 in IsBalanced account t.actions t.nodes
  unfolding poll_loop
  poll_loop-IsBalanced m [] b = b
  poll_loop-IsBalanced m (interrupted ∷ polls) b = poll_loop-IsBalanced m polls b
  poll_loop-IsBalanced m (failed ∷ polls) b = b
  poll_loop-IsBalanced m (ready timed_out folder_changed events cs now ∷ polls) b =
      poll_loop-IsBalanced (turn same_text config timed_out folder_changed events cs now m).0 polls
        (turn-IsBalanced timed_out folder_changed events cs now m b)

  settles :
      (cs : List Candidate) (now : ℤ) (polls : List Poll)
      → let actions = (run same_text config cs now polls).0 in
        sum_by gain actions ≡ sum_by loss actions
  unfolding run
  settles cs now polls =
      let start : Monitor = record { nodes = []; warned = false; actions = [] } in
      let begun = scan same_text config now start cs in
      let last = (poll_loop same_text config begun polls).0 in
      omega (
        arith,
        poll_loop-IsBalanced begun polls
            (scan-IsBalanced account same_text config now start cs (omega arith)),
        close_all-worth account last.nodes,
        sum_by-append gain (close_all last.nodes) last.actions,
        sum_by-append loss (close_all last.nodes) last.actions,
      )

-- 1 for that descriptor, 0 for another.
abbrev is_fd : ℕ → ℤ → ℕ
is_fd n (pos k) = if k == n then 1 else 0
is_fd n (negsuc k) = 0

abbrev opening : ℕ → Action → ℕ
opening n (opens fd) = is_fd n fd
opening n _ = 0

abbrev closing : ℕ → Action → ℕ
closing n (closes fd) = is_fd n fd
closing n _ = 0

abbrev grabbing : ℕ → Action → ℕ
grabbing n (grabs fd) = is_fd n fd
grabbing n _ = 0

abbrev ungrabbing : ℕ → Action → ℕ
ungrabbing n (ungrabs fd) = is_fd n fd
ungrabbing n _ = 0

abbrev grabbed_worth : ℕ → ℤ → Bool → ℕ
grabbed_worth n fd true = is_fd n fd
grabbed_worth n fd false = 0

-- How often the descriptor is opened, closed, grabbed and released.
abbrev pub opened_times : ℕ → List Action → ℕ
opened_times n = sum_by (opening n)

abbrev pub closed_times : ℕ → List Action → ℕ
closed_times n = sum_by (closing n)

abbrev pub grabbed_times : ℕ → List Action → ℕ
grabbed_times n = sum_by (grabbing n)

abbrev pub ungrabbed_times : ℕ → List Action → ℕ
ungrabbed_times n = sum_by (ungrabbing n)

close_node-accounts :
    (n : ℕ) (node : Node)
    → let actions = (close_node node).1 in
      (opened_times n actions ≡ 0)
      × (closed_times n actions ≡ is_fd n node.fd)
      × (grabbed_times n actions ≡ 0)
      × (ungrabbed_times n actions ≡ grabbed_worth n node.fd node.grabbed)
unfolding close_node
close_node-accounts n node = ground arith

open_account : ℕ → Account
open_account n = record {
  gain = opening n;
  loss = closing n;
  worth = λ fd held. is_fd n fd;
  closing = λ node. let c = close_node-accounts n node in (c.0, c.1);
  passing = λ fd. omega arith;
  attaching = λ config ok fd. ground arith;
}

grab_account : ℕ → Account
grab_account n = record {
  gain = grabbing n;
  loss = ungrabbing n;
  worth = grabbed_worth n;
  closing = λ node. let c = close_node-accounts n node in (c.2, c.3);
  passing = λ fd. refl;
  attaching = λ config ok fd. ground arith;
}

-- Over a whole run of the monitor's thread, whatever the kernel answers to `open`, to the grabs, to
-- the reads and to every `poll`, each descriptor is closed exactly as often as it was opened, and
-- released exactly as often as it was grabbed.
pub run_settles :
    (same_text : String → String → Bool) (config : ButtonMapConfig) (cs : List Candidate) (now : ℤ)
    (polls : List Poll) (fd : ℕ)
    → let actions = (run same_text config cs now polls).0 in
      (opened_times fd actions ≡ closed_times fd actions)
      × (grabbed_times fd actions ≡ ungrabbed_times fd actions)
unfolding open_account grab_account
run_settles same_text config cs now polls fd = (
  settles (open_account fd) same_text config cs now polls,
  settles (grab_account fd) same_text config cs now polls,
)
