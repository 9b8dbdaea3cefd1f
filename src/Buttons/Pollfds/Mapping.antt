-- ===== src/Buttons/Pollfds/Mapping.antt =====
-- src/stylusbuttons.cpp: each node is served what was polled of its own descriptor.
use stylus_popup.Prelude.{
  map, ℤ, ℕ, suc, ◌+◌, Bool, true, false, Option, none, some, List, [], ◌∷◌, ◌++◌, ◌≡◌, refl, sym,
  ap, ◌∙◌, arith, length, append-snoc, length-snoc, get_elem?-length,
}
use stylus_popup.Buttons.{Node}
use stylus_popup.Buttons.Loop.{Revents, walk, polled_nodes}
use stylus_popup.Buttons.Pollfds.{
  entry_of, polled_fds, is_readable, walk_at, step_walk, map_readable, readable_at, round_of,
  read_round,
}

walk_at-walk :
    (repeats : Bool) (pre events post : List Revents) (n : ℕ) (nodes : List Node)
    → length events ≡ length nodes
    → walk_at repeats (pre ++ (events ++ post)) (length pre) n nodes
      ≡ some (walk repeats n (polled_nodes nodes events))
unfolding walk_at walk polled_nodes step_walk
walk_at-walk repeats pre events post n [] e = refl
walk_at-walk repeats pre [] post n (node ∷ nodes) e = ground (arith, e)
walk_at-walk repeats pre (revents ∷ events) post n (node ∷ nodes) e =
    let rest : walk_at repeats (pre ++ revents ∷ (events ++ post)) (suc (length pre)) (suc n) nodes
        ≡ some (walk repeats (suc n) (polled_nodes nodes events)) =
      rw (sym (append-snoc pre revents (events ++ post)), sym (length-snoc pre revents))
        (walk_at-walk repeats (pre ++ revents ∷ []) events post (suc n) nodes (omega (arith, e))) in
    rw (get_elem?-length pre revents (events ++ post), rest) refl

abbrev pub is_some {ℓ} : {A : Type ℓ} → Option A → Bool
is_some none = false
is_some (some a) = true

abbrev pub reported : Option Revents → Bool
reported none = false
reported (some revents) = is_readable revents

wake-readable :
    (pre events : List Revents) (k : Revents) (nodes : List Node)
    → length events ≡ length nodes
    → readable_at (pre ++ (events ++ k ∷ [])) (length pre + length nodes) ≡ some (is_readable k)
wake-readable [] events k nodes e =
    let index : 0 + length nodes ≡ length events = omega (arith, e) in
    ap (readable_at (events ++ k ∷ [])) index
    ∙ ap (λ (o : Option Revents). map_readable o) (get_elem?-length events k [])
wake-readable (w ∷ pre) events k nodes e =
    let index : suc (length pre) + length nodes ≡ suc (length pre + length nodes) = omega arith in
    ap (readable_at (w ∷ pre ++ (events ++ k ∷ []))) index ∙ wake-readable pre events k nodes e

-- With the watch and the eventfd there or not, and an entry for each descriptor of the array: the
-- round serves each node what was polled of its own descriptor, as `walk` does, and reads the watch
-- and the eventfd at theirs; no index lies beyond the array.
read_round-walk :
    (repeats : Bool) (watch wake : Option Revents) (events : List Revents) (nodes : List Node)
    → length events ≡ length nodes
    → let (later, triggers, dead) = walk repeats 0 (polled_nodes nodes events) in
      read_round repeats
        (is_some watch)
        (is_some wake)
        (entry_of watch ++ (events ++ entry_of wake))
        nodes
      ≡ some (record {
        folder_changed = reported watch;
        nodes = later;
        triggers = triggers;
        dead = dead;
        woken = reported wake;
      })
unfolding read_round round_of
read_round-walk repeats none none events nodes e =
    rw (walk_at-walk repeats [] events [] 0 nodes e) refl
read_round-walk repeats none (some k) events nodes e =
    rw (walk_at-walk repeats [] events (k ∷ []) 0 nodes e, wake-readable [] events k nodes e) refl
read_round-walk repeats (some w) none events nodes e =
    rw (walk_at-walk repeats (w ∷ []) events [] 0 nodes e) refl
read_round-walk repeats (some w) (some k) events nodes e =
    rw
      (
        walk_at-walk repeats (w ∷ []) events (k ∷ []) 0 nodes e,
        wake-readable (w ∷ []) events k nodes e,
      )
      refl

-- An answer for each descriptor.
abbrev pub answered : (ℤ → Revents) → Option ℤ → Option Revents
answered answer none = none
answered answer (some fd) = some (answer fd)

abbrev pub answers : (ℤ → Revents) → List Node → List Revents
answers answer [] = []
answers answer (node ∷ nodes) = answer node.fd ∷ answers answer nodes

length-answers :
    (answer : ℤ → Revents) (nodes : List Node) → length (answers answer nodes) ≡ length nodes
length-answers answer [] = refl
length-answers answer (node ∷ nodes) = ap suc (length-answers answer nodes)

-- The array of a poll, descriptor by descriptor.
entries_of :
    (answer : ℤ → Revents) (nodes : List Node) (wake : Option ℤ)
    → map answer (map (λ (n : Node). n.fd) nodes ++ entry_of wake)
      ≡ answers answer nodes ++ entry_of (answered answer wake)
entries_of answer [] none = refl
entries_of answer [] (some fd) = refl
entries_of answer (node ∷ nodes) wake = ap (◌∷◌ (answer node.fd)) (entries_of answer nodes wake)

polled_fds-answers :
    (answer : ℤ → Revents) (watch wake : Option ℤ) (nodes : List Node)
    → map answer (polled_fds watch nodes wake)
      ≡ entry_of (answered answer watch)
        ++ (answers answer nodes ++ entry_of (answered answer wake))
unfolding polled_fds
polled_fds-answers answer none wake nodes = entries_of answer nodes wake
polled_fds-answers answer (some fd) wake nodes = ap (◌∷◌ (answer fd)) (entries_of answer nodes wake)

is_some-answered : (answer : ℤ → Revents) (o : Option ℤ) → is_some (answered answer o) ≡ is_some o
is_some-answered answer none = refl
is_some-answered answer (some fd) = refl

-- Whatever `poll` answers for each descriptor of its array, with the watch and the eventfd there or
-- not: the round serves each node what was answered for its own descriptor, as `walk` does, reads the
-- watch and the eventfd at theirs, and looks at no index beyond the array.
pub read_round-serves :
    (repeats : Bool) (answer : ℤ → Revents) (watch wake : Option ℤ) (nodes : List Node)
    → let (later, triggers, dead) = walk repeats 0 (polled_nodes nodes (answers answer nodes)) in
      read_round repeats
        (is_some watch)
        (is_some wake)
        (map answer (polled_fds watch nodes wake))
        nodes
      ≡ some (record {
        folder_changed = reported (answered answer watch);
        nodes = later;
        triggers = triggers;
        dead = dead;
        woken = reported (answered answer wake);
      })
read_round-serves repeats answer watch wake nodes =
    rw
      (
        polled_fds-answers answer watch wake nodes,
        sym (is_some-answered answer watch),
        sym (is_some-answered answer wake),
      )
      (read_round-walk repeats (answered answer watch) (answered answer wake) (answers answer nodes)
        nodes (length-answers answer nodes))
