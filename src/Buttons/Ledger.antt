-- ===== src/Buttons/Ledger.antt =====
-- src/stylusbuttons.cpp: the descriptors of the nodes and their grabs, from the first scan to the end of
-- the thread. One account covers both: what an action adds, what it takes, and what a node is worth.
pub mod Scanning
use Prim.Native.String.{String}
use stylus_popup.Prelude.{
  ℕ, zero, suc, ◌+◌, Bool, true, false, ◌&&◌, List, [], ◌∷◌, ◌++◌, ℤ, pos, ◌≡◌, refl, arith,
}
use stylus_popup.Config.{ButtonMapConfig}
use stylus_popup.Buttons.{Node, ReadResult, event, interrupted, broken, dispatch_event}
use stylus_popup.Buttons.Monitor.{Action, opens, closes, grab_of, drain}
use stylus_popup.Buttons.Deadlines.{flush_node, flush_due_gestures}
use stylus_popup.Buttons.Drain.{dispatch_kept}
use stylus_popup.Buttons.Loop.{
  Revents, quiet, hung_up, readable, serve, polled_nodes, walk, close_node, close_at, erase_at,
  erase_dead, close_all,
}

abbrev pub sum_by {ℓ} : {A : Type ℓ} → (A → ℕ) → List A → ℕ
sum_by w [] = 0
sum_by w (x ∷ xs) = w x + sum_by w xs

pub sum_by-append {ℓ} :
    {A : Type ℓ} (w : A → ℕ) (xs ys : List A) → sum_by w (xs ++ ys) ≡ sum_by w xs + sum_by w ys
sum_by-append w [] ys = omega arith
sum_by-append w (x ∷ xs) ys = omega (arith, sum_by-append w xs ys)

pub drain_kept :
    (repeats dispatch : Bool) (now : ℤ) (node : Node) (reads : List ReadResult)
    → let n = (drain repeats dispatch now node reads).0 in
      (n.fd ≡ node.fd) × (n.grabbed ≡ node.grabbed)
unfolding drain
drain_kept repeats dispatch now node [] = (refl, refl)
drain_kept repeats dispatch now node (interrupted ∷ reads) =
    drain_kept repeats dispatch now node reads
drain_kept repeats dispatch now node (broken ∷ reads) = (refl, refl)
drain_kept repeats true now node (event type_of code value ∷ reads) = ground (
  arith,
  dispatch_kept repeats node type_of code value now,
  drain_kept repeats true now (dispatch_event repeats node type_of code value now).0 reads,
)
drain_kept repeats false now node (event type_of code value ∷ reads) =
    drain_kept repeats false now node reads

serve_kept :
    (repeats : Bool) (node : Node) (e : Revents)
    → let n = (serve repeats node e).0 in (n.fd ≡ node.fd) × (n.grabbed ≡ node.grabbed)
unfolding serve
serve_kept repeats node quiet = (refl, refl)
serve_kept repeats node hung_up = (refl, refl)
serve_kept repeats node (readable now reads) = drain_kept repeats true now node reads

-- An account. A node is worth what its descriptor and its grab are worth; closing it takes that, and
-- opening it, with the grab of `attach`, gains it.
pub record Account : Type 0 where
  pub gain : Action → ℕ
  pub loss : Action → ℕ
  pub worth : ℤ → Bool → ℕ
  pub closing :
      (n : Node)
      → (sum_by gain (close_node n).1 ≡ 0) × (sum_by loss (close_node n).1 ≡ worth n.fd n.grabbed)
  pub passing : (fd : ℤ) → gain (closes fd) + gain (opens fd) ≡ loss (closes fd) + loss (opens fd)
  pub attaching :
      (config : ButtonMapConfig) (ok : Bool) (fd : ℕ)
      → (sum_by gain (grab_of config ok (pos fd)) + gain (opens (pos fd))
          ≡ worth (pos fd) (config.grab && ok))
        × (sum_by loss (grab_of config ok (pos fd)) + loss (opens (pos fd)) ≡ 0)

module _ (account : Account) where
  open account use {gain, loss, worth, closing, passing, attaching}

  abbrev pub worth_of : Node → ℕ
  worth_of n = worth n.fd n.grabbed

  pub worth_kept : (n m : Node) → (n.fd ≡ m.fd) × (n.grabbed ≡ m.grabbed) → worth_of n ≡ worth_of m
  worth_kept n m (f, g) = cc

  pub walk-worth :
      (repeats : Bool) (i : ℕ) (nodes : List Node) (events : List Revents)
      → sum_by worth_of (walk repeats i (polled_nodes nodes events)).0 ≡ sum_by worth_of nodes
  unfolding walk polled_nodes
  walk-worth repeats i [] events = refl
  walk-worth repeats i (node ∷ nodes) [] = omega (
    arith,
    walk-worth repeats (suc i) nodes [],
    worth_kept (serve repeats node quiet).0 node (serve_kept repeats node quiet),
  )
  walk-worth repeats i (node ∷ nodes) (e ∷ events) = omega (
    arith,
    walk-worth repeats (suc i) nodes events,
    worth_kept (serve repeats node e).0 node (serve_kept repeats node e),
  )

  erase_at-worth :
      (i : ℕ) (nodes : List Node)
      → (sum_by gain (close_at i nodes) ≡ 0)
        × (sum_by worth_of nodes
            ≡ sum_by loss (close_at i nodes) + sum_by worth_of (erase_at i nodes))
  unfolding close_at erase_at
  erase_at-worth i [] = (refl, refl)
  erase_at-worth zero (node ∷ nodes) = omega (arith, closing node)
  erase_at-worth (suc i) (node ∷ nodes) = omega (arith, erase_at-worth i nodes)

  pub erase_dead-worth :
      (dead : List ℕ) (nodes : List Node)
      → let (left, actions) = erase_dead dead nodes in
        (sum_by gain actions ≡ 0)
        × (sum_by worth_of nodes ≡ sum_by loss actions + sum_by worth_of left)
  unfolding erase_dead
  erase_dead-worth [] nodes = omega arith
  erase_dead-worth (i ∷ dead) nodes =
      let (left, actions) = erase_dead dead nodes in
      omega (
        arith,
        erase_dead-worth dead nodes,
        erase_at-worth i left,
        sum_by-append gain (close_at i left) actions,
        sum_by-append loss (close_at i left) actions,
      )

  pub close_all-worth :
      (nodes : List Node)
      → (sum_by gain (close_all nodes) ≡ 0)
        × (sum_by loss (close_all nodes) ≡ sum_by worth_of nodes)
  unfolding close_all
  close_all-worth [] = (refl, refl)
  close_all-worth (node ∷ nodes) = omega (
    arith,
    closing node,
    close_all-worth nodes,
    sum_by-append gain (close_all nodes) (close_node node).1,
    sum_by-append loss (close_all nodes) (close_node node).1,
  )

  pub flush-worth :
      (now : ℤ) (nodes : List Node)
      → sum_by worth_of (flush_due_gestures now nodes).0 ≡ sum_by worth_of nodes
  unfolding flush_due_gestures flush_node
  flush-worth now [] = refl
  flush-worth now (node ∷ nodes) = omega (arith, flush-worth now nodes)

  abbrev pub IsBalanced : List Action → List Node → Type 0
  IsBalanced actions nodes = sum_by gain actions ≡ sum_by loss actions + sum_by worth_of nodes
