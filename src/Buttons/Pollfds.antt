-- ===== src/Buttons/Pollfds.antt =====
-- src/stylusbuttons.cpp: the array of one call of `poll` and what is read of it: the watch of the
-- folder, where there is one, then the nodes, then the eventfd, where there is one.
pub mod Mapping
mod Tests
use stylus_popup.Prelude.{
  ℕ, zero, suc, ◌+◌, Bool, true, false, ◌&&◌, Option, none, some, List, [], ◌∷◌, ◌++◌, ℤ, length,
  get_elem?, if◌then◌else◌, map,
}
use stylus_popup.Buttons.{Node, Trigger}
use stylus_popup.Buttons.Loop.{Revents, quiet, hung_up, readable, serve}

-- The entry of a descriptor that may not be there.
abbrev pub entry_of {ℓ} : {A : Type ℓ} → Option A → List A
entry_of none = []
entry_of (some a) = a ∷ []

-- The descriptors that are polled. A descriptor that is not there is none.
unfoldable pub polled_fds : Option ℤ → List Node → Option ℤ → List ℤ
polled_fds watch nodes wake = entry_of watch ++ (map (λ (n : Node). n.fd) nodes ++ entry_of wake)

-- `revents & POLLIN`.
abbrev pub is_readable : Revents → Bool
is_readable (readable now reads) = true
is_readable _ = false

-- What is read of the array: whether the watch and the eventfd are readable, and the nodes, their
-- triggers and the indices of the dead ones.
pub record Round : Type 0 where
  pub folder_changed : Bool
  pub nodes : List Node
  pub triggers : List Trigger
  pub dead : List ℕ
  pub woken : Bool

-- A node with its entry, where there is one, before the walk over the later ones.
unfoldable pub step_walk :
    Bool
    → ℕ
    → Node
    → Option Revents
    → Option (List Node × List Trigger × List ℕ)
    → Option (List Node × List Trigger × List ℕ)
step_walk repeats n node (some revents) (some (later, us, dead)) =
    let (node', ts, alive) = serve repeats node revents in
    some (node' ∷ later, ts ++ us, if alive then dead else n ∷ dead)
step_walk repeats n node _ _ = none

-- The loop over the nodes, from the node of index `n` on, whose entry is at `index`: none where an
-- entry lies beyond the array.
unfoldable pub walk_at :
    Bool → List Revents → ℕ → ℕ → List Node → Option (List Node × List Trigger × List ℕ)
walk_at repeats entries index n [] = some ([], [], [])
walk_at repeats entries index n (node ∷ nodes) =
    let rest = walk_at repeats entries (suc index) (suc n) nodes in
    step_walk repeats n node (get_elem? entries index) rest

abbrev pub map_readable : Option Revents → Option Bool
map_readable none = none
map_readable (some revents) = some (is_readable revents)

-- Whether the entry at an index is readable: none where it lies beyond the array.
abbrev pub readable_at : List Revents → ℕ → Option Bool
readable_at entries index = map_readable (get_elem? entries index)

unfoldable pub round_of :
    Option Bool → Option (List Node × List Trigger × List ℕ) → Option Bool → Option Round
round_of (some folder) (some (nodes, triggers, dead)) (some woken) = some (record {
  folder_changed = folder;
  nodes = nodes;
  triggers = triggers;
  dead = dead;
  woken = woken;
})
round_of _ _ _ = none

-- One round over the array, given whether there is a watch and an eventfd.
unfoldable pub read_round : Bool → Bool → Bool → List Revents → List Node → Option Round
read_round repeats has_watch has_wake entries nodes =
    let first = if has_watch then 1 else 0 in
    let wake_index = first + length nodes in
    round_of (if has_watch then readable_at entries 0 else some false)
      (walk_at repeats entries first 0 nodes)
      (if has_wake then readable_at entries wake_index else some false)
