-- ===== src/Buttons/Diagnostics.antt =====
-- src/stylusbuttons.cpp: `printMatchingDevices`, which says what is bound and what would be grabbed.
-- Each line is its data: the layout of the text is left out.
use Prim.Native.String.{String}
use text.Mathlib.Text.{◌==◌ as str_eq}
use mathlib.Core.Path.{subst}
use stylus_popup.Prelude.{
  length-snoc, length, ℕ, suc, ◌+◌, Bool, false, not, ◌&&◌, ◌||◌, none, some, List, [], ◌∷◌, ◌++◌,
  ℤ, ◌≡◌, refl, sym, ap, arith, if◌then◌else◌, Bool-cases, inl, inr,
}
use stylus_popup.Gesture.{StylusGesture, single, double_click, long_press}
use stylus_popup.Config.{ButtonMapConfig}
use stylus_popup.Popup.Strings.{is_empty}
use stylus_popup.Buttons.{
  Node, StylusButton, primary, secondary, matches, inspect, ReadResult, event, interrupted, broken,
}
use stylus_popup.Buttons.Mapper.{command_for, on_gesture_triggered}
use stylus_popup.Buttons.Monitor.{
  Candidate, Scan, watched_node, attach, drain, is_known, scan_path, scan_paths, scan,
}

unfoldable pub or_unbound : String → String
or_unbound command = if is_empty command then "(unbound)" else command

-- The lines of the bindings, in their order.
unfoldable pub binding_lines : ButtonMapConfig → List (StylusButton × StylusGesture × String)
binding_lines config =
    line primary single
    ∷ line primary double_click
    ∷ line primary long_press
    ∷ line secondary single
    ∷ line secondary double_click
    ∷ line secondary long_press
    ∷ []
  where
    line : StylusButton → StylusGesture → StylusButton × StylusGesture × String
    line button gesture = (button, gesture, or_unbound (command_for config button gesture))

-- The line of a node: it cannot be opened, or it would be grabbed, or it has neither key, or it is no
-- pen's.
pub data DeviceLine : Type 0 where
  unopened : ℤ → DeviceLine
  grab no_keys no_stylus : String → DeviceLine

-- What the loop over the paths prints and counts: the lines, and the nodes that were examined and
-- those that would be grabbed.
pub record Report : Type 0 where
  pub lines : List DeviceLine
  pub examined : ℕ
  pub watched : ℕ

module _ (same_text : String → String → Bool) where
  unfoldable pub report : List Candidate → Report
  report [] = record { lines = []; examined = 0; watched = 0 }
  report (c ∷ cs) =
      let rest = report cs in
      let (node, could_open) = inspect same_text c.path c.opened_as in
      if not could_open
      then record rest { lines = unopened node.open_error ∷ rest.lines }
      else if matches node
      then record {
        lines = grab node.name ∷ rest.lines;
        examined = suc rest.examined;
        watched = suc rest.watched;
      }
      else record rest {
        lines = (if node.name_match then no_keys node.name else no_stylus node.name) ∷ rest.lines;
        examined = suc rest.examined;
      }

-- A path of a later candidate.
abbrev pub AreNew : String → List Candidate → Type 0
AreNew path [] = Unit
AreNew path (c ∷ cs) = (str_eq path c.path ≡ false) × AreNew path cs

-- No path stands twice, as in the listing of a folder.
abbrev pub AreDistinct : List Candidate → Type 0
AreDistinct [] = Unit
AreDistinct (c ∷ cs) = AreNew c.path cs × AreDistinct cs

abbrev AreUnknown : List Node → List Candidate → Type 0
AreUnknown nodes [] = Unit
AreUnknown nodes (c ∷ cs) = (is_known nodes c.path ≡ false) × AreUnknown nodes cs

none_known : (cs : List Candidate) → AreUnknown [] cs
unfolding is_known
none_known [] = tt
none_known (c ∷ cs) = (refl, none_known cs)

is_known-append :
    (nodes : List Node) (n : Node) (path : String)
    → is_known (nodes ++ n ∷ []) path ≡ (is_known nodes path || str_eq n.path path)
unfolding is_known
is_known-append [] n path = ground arith
is_known-append (m ∷ nodes) n path = ground (arith, is_known-append nodes n path)

append-AreUnknown :
    (nodes : List Node) (n : Node) (cs : List Candidate)
    → AreUnknown nodes cs
    → AreNew n.path cs
    → AreUnknown (nodes ++ n ∷ []) cs
append-AreUnknown nodes n [] u d = tt
append-AreUnknown nodes n (c ∷ cs) (u, us) (d, ds) =
    (ground (arith, u, d, is_known-append nodes n c.path), append-AreUnknown nodes n cs us ds)

drain-path :
    (repeats : Bool) (now : ℤ) (node : Node) (reads : List ReadResult)
    → (drain repeats false now node reads).0.path ≡ node.path
unfolding drain
drain-path repeats now node [] = refl
drain-path repeats now node (interrupted ∷ reads) = drain-path repeats now node reads
drain-path repeats now node (broken ∷ reads) = refl
drain-path repeats now node (event type_of code value ∷ reads) = drain-path repeats now node reads

module _ (same_text : String → String → Bool) (config : ButtonMapConfig) (now : ℤ) where
  -- Whether a path is grabbed, and the node that is then watched.
  abbrev is_grabbed : Candidate → Bool
  is_grabbed c =
      let (node, could_open) = inspect same_text c.path c.opened_as in could_open && matches node

  abbrev grabbed_node : Candidate → Node
  grabbed_node c =
      let node = (inspect same_text c.path c.opened_as).0 in
      (drain config.repeat false now (watched_node config c.grab_succeeds node) c.queued).0

  grabbed_node-path : (c : Candidate) → (grabbed_node c).path ≡ c.path
  unfolding inspect watched_node
  grabbed_node-path c =
      let node = (inspect same_text c.path c.opened_as).0 in
      ground
        (arith, drain-path config.repeat now (watched_node config c.grab_succeeds node) c.queued)

  scan_path-nodes :
      (s : Scan) (c : Candidate)
      → is_known s.nodes c.path ≡ false
      → (scan_path same_text config now s c).nodes
        ≡ (if is_grabbed c then s.nodes ++ grabbed_node c ∷ [] else s.nodes)
  unfolding scan_path attach
  scan_path-nodes s c new = ground (arith, new)

  report-watched :
      (c : Candidate) (cs : List Candidate)
      → (report same_text (c ∷ cs)).watched ≡ (
          if is_grabbed c then suc (report same_text cs).watched else (report same_text cs).watched)
  unfolding report
  report-watched c cs = ground arith

  scan_paths-watched :
      (s : Scan) (cs : List Candidate)
      → AreDistinct cs
      → AreUnknown s.nodes cs
      → length (scan_paths same_text config now s cs).nodes
        ≡ length s.nodes + (report same_text cs).watched
  unfolding scan_paths
  scan_paths-watched s [] d u = unfold report in omega arith
  scan_paths-watched s (c ∷ cs) (d, ds) (u, us) =
      let t = scan_path same_text config now s c in
      let nodes = scan_path-nodes s c u in
      let node = grabbed_node c in
      let counted = report-watched c cs in
      elim (Bool-cases (is_grabbed c)) [
        | inl grabbed ↦
            let grown : t.nodes ≡ s.nodes ++ node ∷ [] = ground (arith, nodes, grabbed) in
            let new = subst (λ p. AreNew p cs) (sym (grabbed_node-path c)) d in
            let unknown =
              subst (λ ns. AreUnknown ns cs) (sym grown)
                (append-AreUnknown s.nodes node cs us new) in
            ground (
              arith,
              counted,
              grabbed,
              scan_paths-watched t cs ds unknown,
              ap length grown,
              length-snoc s.nodes node,
            )
        | inr left ↦
            let same : t.nodes ≡ s.nodes = ground (arith, nodes, left) in
            let unknown = subst (λ ns. AreUnknown ns cs) (sym same) us in
            ground (arith, counted, left, scan_paths-watched t cs ds unknown, ap length same)
      ]

  -- Where no path stands twice, the monitor's first scan watches as many nodes as the diagnostics say
  -- would be grabbed.
  scan-watched :
      (warned : Bool) (cs : List Candidate)
      → AreDistinct cs
      → length
          (scan same_text config now
            (record { nodes = []; warned = warned; actions = [] })
            cs).nodes
        ≡ (report same_text cs).watched
  unfolding scan
  scan-watched warned cs d = omega (
    arith,
    scan_paths-watched (record { nodes = []; failures = 0; actions = [] }) cs d (none_known cs),
  )

-- What is said of a gesture: the command that would be run, or that nothing would be.
abbrev described :
    ButtonMapConfig → StylusButton → StylusGesture → StylusButton × StylusGesture × String
described config button gesture = (
  button,
  gesture,
  elim (on_gesture_triggered config button gesture) [
    | none ↦ "(unbound)"
    | some script ↦ command_for config button gesture
  ],
)

-- The line of each gesture says that it is unbound exactly where the mapper runs nothing for it.
binding_lines-triggered :
    (config : ButtonMapConfig)
    → binding_lines config
      ≡ described config primary single
        ∷ described config primary double_click
        ∷ described config primary long_press
        ∷ described config secondary single
        ∷ described config secondary double_click
        ∷ described config secondary long_press
        ∷ []
unfolding binding_lines or_unbound on_gesture_triggered
binding_lines-triggered config = ground arith
