-- ===== src/Buttons/Ledger/Scanning.antt =====
-- src/stylusbuttons.cpp: the account of a scan, in which nodes are opened, closed again or watched.
use Prim.Native.String.{String}
use stylus_popup.Prelude.{
  ℕ, ◌+◌, Bool, false, not, ◌&&◌, ◌||◌, ◌⊎◌, inl, inr, if_elim, List, [], ◌∷◌, ◌++◌, ℤ, pos, ◌≡◌,
  refl, arith,
}
use stylus_popup.Config.{ButtonMapConfig}
use stylus_popup.Buttons.{Node, Opened, ReadResult, matches, inspect, refused, opened}
use stylus_popup.Buttons.Monitor.{
  opens, Monitor, Candidate, Scan, grab_of, drain, watched_node, attach, is_known, scan_path,
  scan_paths, scan,
}
use stylus_popup.Buttons.Ledger.{
  sum_by, sum_by-append, Account, IsBalanced, worth_of, worth_kept, drain_kept,
}

module _ (account : Account) where
  open account use {gain, loss, worth, passing, attaching}

  attach-worth :
      (config : ButtonMapConfig) (ok : Bool) (now : ℤ) (queued : List ReadResult)
      (nodes : List Node) (node : Node)
      → sum_by (worth_of account) (attach config ok now queued nodes node)
        ≡ sum_by (worth_of account) nodes + worth node.fd (node.grabbed || config.grab && ok)
  unfolding attach
  attach-worth config ok now queued nodes node =
      let node' = watched_node config ok node in
      let read = (drain config.repeat false now node' queued).0 in
      omega (
        arith,
        sum_by-append (worth_of account) nodes (read ∷ []),
        worth_kept account read node' (drain_kept config.repeat false now node' queued),
      )

  module _ (same_text : String → String → Bool) (config : ButtonMapConfig) where
    inspect_cases :
        (path : String) (o : Opened)
        → ((inspect same_text path o).1 ≡ false)
          ⊎ ((fd : ℕ) × ((inspect same_text path o).0.fd ≡ pos fd)
              × ((inspect same_text path o).0.grabbed ≡ false))
    unfolding inspect
    inspect_cases path (refused errno) = inl refl
    inspect_cases path (opened fd name uniq supports_key) = inr (fd, refl, refl)

    scan_path-IsBalanced :
        (now : ℤ) (s : Scan) (c : Candidate)
        → IsBalanced account s.actions s.nodes
        → let t = scan_path same_text config now s c in IsBalanced account t.actions t.nodes
    unfolding scan_path
    scan_path-IsBalanced now s c b =
        if_elim (λ (t : Scan). IsBalanced account t.actions t.nodes) (is_known s.nodes c.path)
          (λ _. b)
          (λ _.
            if_elim (λ (t : Scan). IsBalanced account t.actions t.nodes) (not could_open) (λ _. b)
              (λ open_now.
                if_elim (λ (t : Scan). IsBalanced account t.actions t.nodes) (not (matches node))
                  (λ _. omega (arith, b, passing node.fd))
                  (λ _. elim (inspect_cases c.path c.opened_as) [
                    | inl shut ↦ absurd (ground (arith, shut, open_now))
                    | inr (fd, open_fd, free) ↦ watched fd open_fd free
                  ])))
      where
        node : Node
        node = (inspect same_text c.path c.opened_as).0

        could_open : Bool
        could_open = (inspect same_text c.path c.opened_as).1

        watched :
            (fd : ℕ)
            → node.fd ≡ pos fd
            → node.grabbed ≡ false
            → IsBalanced account
                (grab_of config c.grab_succeeds node.fd ++ opens node.fd ∷ s.actions)
                (attach config c.grab_succeeds now c.queued s.nodes node)
        watched fd open_fd free =
            let grab = grab_of config c.grab_succeeds node.fd in
            let grown = attach-worth config c.grab_succeeds now c.queued s.nodes node in
            let gained : sum_by gain grab + gain (opens node.fd)
                ≡ worth node.fd (node.grabbed || config.grab && c.grab_succeeds) =
              rw (open_fd, free) (attaching config c.grab_succeeds fd).0 in
            let lost : sum_by loss grab + loss (opens node.fd) ≡ 0 =
              rw open_fd (attaching config c.grab_succeeds fd).1 in
            omega (
              arith,
              b,
              grown,
              gained,
              lost,
              sum_by-append gain grab (opens node.fd ∷ s.actions),
              sum_by-append loss grab (opens node.fd ∷ s.actions),
            )

    scan_paths-IsBalanced :
        (now : ℤ) (s : Scan) (cs : List Candidate)
        → IsBalanced account s.actions s.nodes
        → let t = scan_paths same_text config now s cs in IsBalanced account t.actions t.nodes
    unfolding scan_paths
    scan_paths-IsBalanced now s [] b = b
    scan_paths-IsBalanced now s (c ∷ cs) b =
        scan_paths-IsBalanced now (scan_path same_text config now s c) cs
          (scan_path-IsBalanced now s c b)

    pub scan-IsBalanced :
        (now : ℤ) (m : Monitor) (cs : List Candidate)
        → IsBalanced account m.actions m.nodes
        → let t = scan same_text config now m cs in IsBalanced account t.actions t.nodes
    unfolding scan
    scan-IsBalanced now m cs b = scan_paths-IsBalanced now _ cs b
