-- ===== src/Buttons/Pollfds/Tests.antt =====
-- A round over an array with the watch, two nodes and the eventfd.
use stylus_popup.Prelude.{
  true, false, some, List, [], ◌∷◌, ◌≡◌, pos, pos_part, ℤ, map, ◌==◌, if◌then◌else◌,
}
use stylus_popup.Buttons.{Node, fresh_node}
use stylus_popup.Buttons.Loop.{Revents, quiet, hung_up, readable, walk, polled_nodes, serve}
use stylus_popup.Buttons.Pollfds.{read_round, polled_fds}
use stylus_popup.Buttons.Pollfds.Mapping.{read_round-serves}

abbrev two_nodes : List Node
two_nodes = record fresh_node { fd = pos 7 } ∷ record fresh_node { fd = pos 8 } ∷ []

-- The watch is at 3, the eventfd at 5.
abbrev answer : ℤ → Revents
answer fd =
    if pos_part fd == 8 then hung_up else if pos_part fd == 5 then readable (pos 9) [] else quiet

read_round-serves_example :
    read_round true true true
      (map answer (polled_fds (some (pos 3)) two_nodes (some (pos 5))))
      two_nodes
    ≡ some (record {
      folder_changed = false;
      nodes = two_nodes;
      triggers = [];
      dead = 1 ∷ [];
      woken = true;
    })
unfolding walk polled_nodes serve
read_round-serves_example = read_round-serves true answer (some (pos 3)) (some (pos 5)) two_nodes
