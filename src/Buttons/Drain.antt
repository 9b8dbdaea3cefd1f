-- ===== src/Buttons/Drain.antt =====
-- src/stylusbuttons.cpp: reading a node, and dropping the nodes that died.
use stylus_popup.Prelude.{
  length-snoc, append-snoc, length, ℕ, zero, suc, Bool, true, false, List, [], ◌∷◌, ◌++◌, ℤ, pos,
  negsuc, ◌≡◌, refl, ◌∙◌, sym, ap, arith, if◌then◌else◌,
}
use stylus_popup.Buttons.{
  Node, Trigger, ReadResult, event, interrupted, broken, matches, feed_node, dispatch_event,
}
use stylus_popup.Buttons.Monitor.{drain}
use stylus_popup.Buttons.Loop.{Revents, serve, walk, erase_at, erase_dead}

-- Whether no read fails.
abbrev pub reads_on : List ReadResult → Bool
reads_on [] = true
reads_on (event type_of code value ∷ reads) = reads_on reads
reads_on (interrupted ∷ reads) = reads_on reads
reads_on (broken ∷ reads) = false

-- A drain that does not dispatch, as of what was queued before the grab, leaves the node as it was,
-- triggers nothing, and reports whether every read went well.
drain_stale :
    (repeats : Bool) (now : ℤ) (node : Node) (reads : List ReadResult)
    → drain repeats false now node reads ≡ (node, [], reads_on reads)
unfolding drain
drain_stale repeats now node [] = refl
drain_stale repeats now node (event type_of code value ∷ reads) =
    rw (drain_stale repeats now node reads)
drain_stale repeats now node (interrupted ∷ reads) = drain_stale repeats now node reads
drain_stale repeats now node (broken ∷ reads) = refl

-- With auto-repeat unmapped, the repeat events of every key among the reads change nothing: a drain
-- that dispatches does the same as with those events left out.
abbrev pub without_repeats : List ReadResult → List ReadResult
without_repeats [] = []
without_repeats (event type_of code (pos (suc (suc zero))) ∷ reads) = without_repeats reads
without_repeats (r ∷ reads) = r ∷ without_repeats reads

dispatch_repeat :
    (node : Node) (type_of code : ℕ) (now : ℤ)
    → dispatch_event false node type_of code (pos 2) now ≡ (node, [])
unfolding dispatch_event feed_node
dispatch_repeat node type_of code now = ground arith

-- An event's dispatch leaves all of the node but its detectors as it was.
pub dispatch_kept :
    (repeats : Bool) (node : Node) (type_of code : ℕ) (value now : ℤ)
    → let n = (dispatch_event repeats node type_of code value now).0 in
      (n.path ≡ node.path)
      × (matches n ≡ matches node)
      × (n.fd ≡ node.fd)
      × (n.grabbed ≡ node.grabbed)
unfolding dispatch_event feed_node matches
dispatch_kept repeats node type_of code value now = ground arith

-- The nodes that are alive after their turn.
abbrev pub live : Bool → List (Node × Revents) → List Node
live repeats [] = []
live repeats ((node, revents) ∷ rest) =
    let (node', ts, alive) = serve repeats node revents in
    let nodes = live repeats rest in if alive then node' ∷ nodes else nodes

erase_at-append :
    (pre : List Node) (node : Node) (nodes : List Node)
    → erase_at (length pre) (pre ++ node ∷ nodes) ≡ pre ++ nodes
unfolding erase_at
erase_at-append [] node nodes = refl
erase_at-append (x ∷ pre) node nodes = ap (◌∷◌ x) (erase_at-append pre node nodes)

-- The walk's nodes with its dead ones erased are the live ones, in order, whatever nodes come first.
erase_dead-walk :
    (repeats : Bool) (pre : List Node) (polled : List (Node × Revents))
    → let (nodes, ts, dead) = walk repeats (length pre) polled in
      (erase_dead dead (pre ++ nodes)).0 ≡ pre ++ live repeats polled
unfolding walk erase_dead
erase_dead-walk repeats pre [] = refl
erase_dead-walk repeats pre ((node, revents) ∷ rest) =
    let n = (serve repeats node revents).0 in
    let kept = erase_dead-walk repeats (pre ++ n ∷ []) rest in
    let shifted : (erase_dead (walk repeats (suc (length pre)) rest).2
          (pre ++ n ∷ (walk repeats (suc (length pre)) rest).0)).0
        ≡ pre ++ n ∷ live repeats rest =
      rw
        (
          sym (append-snoc pre n (live repeats rest)),
          sym (length-snoc pre n),
          sym (append-snoc pre n (walk repeats (length (pre ++ n ∷ [])) rest).0),
        )
        kept in
    elim (serve repeats node revents).2
      as (λ alive.
        (erase_dead
          (if alive
            then (walk repeats (suc (length pre)) rest).2
            else length pre ∷ (walk repeats (suc (length pre)) rest).2)
          (pre ++ n ∷ (walk repeats (suc (length pre)) rest).0)).0
        ≡ pre ++ (if alive then n ∷ live repeats rest else live repeats rest)) [
          | true ↦ shifted
          | false ↦ ap (erase_at (length pre)) shifted ∙ erase_at-append pre n (live repeats rest)
        ]

-- Erasing the dead nodes of a walk, from the last index to the first, leaves just the nodes that were
-- alive after their turn, as the turn left them and in the order they were watched.
erase_dead-live :
    (repeats : Bool) (polled : List (Node × Revents))
    → let (nodes, ts, dead) = walk repeats 0 polled in
      (erase_dead dead nodes).0 ≡ live repeats polled
erase_dead-live repeats polled = erase_dead-walk repeats [] polled

dispatch_then :
    (now : ℤ) (node : Node) (type_of code : ℕ) (value : ℤ) (reads : List ReadResult)
    → let next = (dispatch_event false node type_of code value now).0 in
      drain false true now next reads ≡ drain false true now next (without_repeats reads)
      → drain false true now node (event type_of code value ∷ reads)
        ≡ drain false true now node (event type_of code value ∷ without_repeats reads)
unfolding drain
dispatch_then now node type_of code value reads same =
    let ts = (dispatch_event false node type_of code value now).1 in
    ap (λ (r : Node × List Trigger × Bool). (r.0, ts ++ r.1, r.2)) same

-- With auto-repeat unmapped, reads give the same as those without the events of a key's repeat.
drain-without_repeats :
    (now : ℤ) (node : Node) (reads : List ReadResult)
    → drain false true now node reads ≡ drain false true now node (without_repeats reads)
unfolding drain
drain-without_repeats now node [] = refl
drain-without_repeats now node (interrupted ∷ reads) = drain-without_repeats now node reads
drain-without_repeats now node (broken ∷ reads) = refl
drain-without_repeats now node (event type_of code (pos (suc (suc zero))) ∷ reads) =
    rw (dispatch_repeat node type_of code now) (drain-without_repeats now node reads)
drain-without_repeats now node (event type_of code (pos zero) ∷ reads) =
    dispatch_then now node type_of code (pos zero) reads
      (drain-without_repeats now (dispatch_event false node type_of code (pos zero) now).0 reads)
drain-without_repeats now node (event type_of code (pos (suc zero)) ∷ reads) =
    dispatch_then now node type_of code (pos (suc zero)) reads (
      drain-without_repeats now (dispatch_event false node type_of code (pos (suc zero)) now).0
        reads)
drain-without_repeats now node (event type_of code (pos (suc (suc (suc n)))) ∷ reads) =
    dispatch_then now node type_of code (pos (suc (suc (suc n)))) reads (
      drain-without_repeats now
        (dispatch_event false node type_of code (pos (suc (suc (suc n)))) now).0 reads)
drain-without_repeats now node (event type_of code (negsuc n) ∷ reads) =
    dispatch_then now node type_of code (negsuc n) reads
      (drain-without_repeats now (dispatch_event false node type_of code (negsuc n) now).0 reads)
