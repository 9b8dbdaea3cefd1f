-- ===== src/Layer/Proxies/Released.antt =====
-- src/waylandlayersurface.cpp: what the destructor leaves of the objects that `init` makes.
use Prim.Native.String.{String}
use mathlib.Core.List.{append-nil}
use text.Mathlib.Text.{◌==◌ as str_eq}
use stylus_popup.Prelude.{
  ℕ, Bool, true, false, not, ◌&&◌, ◌||◌, Option, none, some, List, [], ◌∷◌, ◌++◌, ◌≡◌, refl, arith,
  if◌then◌else◌, if_elim,
}
use stylus_popup.Layer.Proxies.{
  Proxy, queue, wrapper, registry, compositor, shm, layer_shell, surface, input_region,
  layer_surface, ProxyCall, creates, destroys, binds, commits, roundtrips, Proxies, no_proxies,
  called, Interfaces, registry_global, registry_globals, bind_globals, create_surfaces, init,
  listen, destroy_if, destroy,
}

-- The objects that are there.
pub record Held : Type 0 where
  pub queue : Bool
  pub wrapper : Bool
  pub registry : Bool
  pub compositor : Bool
  pub shm : Bool
  pub layer_shell : Bool
  pub surface : Bool
  pub input_region : Bool
  pub layer_surface : Bool

abbrev pub nothing_held : Held
nothing_held = record {
  queue = false;
  wrapper = false;
  registry = false;
  compositor = false;
  shm = false;
  layer_shell = false;
  surface = false;
  input_region = false;
  layer_surface = false;
}

abbrev pub has : Proxy → Held → Bool
has queue h = h.queue
has wrapper h = h.wrapper
has registry h = h.registry
has compositor h = h.compositor
has shm h = h.shm
has layer_shell h = h.layer_shell
has surface h = h.surface
has input_region h = h.input_region
has layer_surface h = h.layer_surface

abbrev pub put : Proxy → Bool → Held → Held
put queue b h = record h { queue = b }
put wrapper b h = record h { wrapper = b }
put registry b h = record h { registry = b }
put compositor b h = record h { compositor = b }
put shm b h = record h { shm = b }
put layer_shell b h = record h { layer_shell = b }
put surface b h = record h { surface = b }
put input_region b h = record h { input_region = b }
put layer_surface b h = record h { layer_surface = b }

-- Whether something else than the queue is there.
abbrev pub in_use : Held → Bool
in_use h =
    h.wrapper || h.registry || h.compositor || h.shm || h.layer_shell || h.surface || h.input_region
    || h.layer_surface

-- A surface outlives its layer surface, and the queue all that is on it.
abbrev pub may_go : Proxy → Held → Bool
may_go queue h = h.queue && not (in_use h)
may_go surface h = h.surface && not h.layer_surface
may_go p h = has p h

-- None where a call is out of order: an object is made where there is none of its kind, and bound
-- while the registry is there.
unfoldable pub account : ProxyCall → Held → Option Held
account (creates p) h = if has p h then none else some (put p true h)
account (binds p version) h = if has p h || not h.registry then none else some (put p true h)
account (destroys p) h = if may_go p h then some (put p false h) else none
account commits h = if h.surface then some h else none
account roundtrips h = if h.queue then some h else none

unfoldable pub account_next : ProxyCall → Option Held → Option Held
account_next call none = none
account_next call (some h) = account call h

unfoldable pub held_after : List ProxyCall → Option Held
held_after [] = some nothing_held
held_after (call ∷ calls) = account_next call (held_after calls)

-- What the pointers say is there, beside the registry.
abbrev held_of : Bool → Proxies → Held
held_of listening p = record {
  queue = p.queue_set;
  wrapper = false;
  registry = listening;
  compositor = p.compositor_set;
  shm = p.shm_set;
  layer_shell = p.layer_shell_set;
  surface = p.surface_set;
  input_region = false;
  layer_surface = p.layer_surface_set;
}

module _ (interfaces : Interfaces) where
  open interfaces use {compositor_name, shm_name, layer_shell_name}

  -- No interface that is bound is announced again, given which ones are bound already.
  unfoldable pub are_once : (c s l : Bool) → List (String × ℕ) → Bool
  are_once c s l [] = true
  are_once c s l ((iface, version) ∷ globals) =
      let is_c = str_eq iface compositor_name in
      let is_s = not is_c && str_eq iface shm_name in
      let is_l = not is_c && not is_s && str_eq iface layer_shell_name in
      let rest = are_once (c || is_c) (s || is_s) (l || is_l) globals in
      not (c && is_c) && not (s && is_s) && not (l && is_l) && rest

  -- Where a state stands on its calls, and what may still be announced.
  record IsBinding (globals : List (String × ℕ)) (p : Proxies) : Type 0 where
    pub held : held_after p.calls ≡ some (held_of true p)
    pub once : are_once p.compositor_set p.shm_set p.layer_shell_set globals ≡ true
    pub bare : p.surface_set || p.layer_surface_set ≡ false
    pub queued : p.queue_set ≡ true

  registry_global-IsBinding :
      (global : String × ℕ) (globals : List (String × ℕ)) (p : Proxies)
      → IsBinding (global ∷ globals) p
      → IsBinding globals (registry_global interfaces global p)
  unfolding registry_global held_after account_next account are_once
  registry_global-IsBinding (iface, version) globals p v =
      ground (arith, v.held, v.once, v.bare, v.queued)

  roundtrip-IsBinding :
      (globals : List (String × ℕ)) (p : Proxies)
      → IsBinding globals p
      → IsBinding globals (called roundtrips p)
  unfolding held_after account_next account
  roundtrip-IsBinding globals p v = ground (arith, v.held, v.once, v.bare, v.queued)

  registry_globals-IsBinding :
      (now later : List (String × ℕ)) (p : Proxies)
      → IsBinding (now ++ later) p
      → IsBinding later (registry_globals interfaces now p)
  unfolding registry_globals
  registry_globals-IsBinding [] later p v = v
  registry_globals-IsBinding (global ∷ now) later p v =
      registry_globals-IsBinding now later (registry_global interfaces global p)
        (registry_global-IsBinding global (now ++ later) p v)

  -- The pointers of a state say what is there, and the queue is there.
  record IsBound (p : Proxies) : Type 0 where
    pub held : held_after p.calls ≡ some (held_of false p)
    pub bare : p.surface_set || p.layer_surface_set ≡ false
    pub queued : p.queue_set ≡ true

  listen-IsBinding :
      (globals : List (String × ℕ))
      → are_once false false false globals ≡ true
      → IsBinding globals (listen interfaces no_proxies)
  unfolding listen held_after account_next account
  listen-IsBinding globals once = ground (arith, once)

  unlisten-IsBound : (p : Proxies) → IsBinding [] p → IsBound (called (destroys registry) p)
  unfolding held_after account_next account
  unlisten-IsBound p v = ground (arith, v.held, v.bare, v.queued)

  bind_globals-IsBound :
      (first second : List (String × ℕ))
      → are_once false false false (first ++ (second ++ [])) ≡ true
      → IsBound (bind_globals interfaces first second no_proxies)
  unfolding bind_globals
  bind_globals-IsBound first second once =
      let one =
        roundtrip-IsBinding _ _
          (registry_globals-IsBinding first (second ++ []) _ (listen-IsBinding _ once)) in
      unlisten-IsBound _ (roundtrip-IsBinding _ _ (registry_globals-IsBinding second [] _ one))

  -- The pointers say what is there, and a layer surface has its surface.
  record IsKept (p : Proxies) : Type 0 where
    pub held : held_after p.calls ≡ some (held_of false p)
    pub queued : p.queue_set ≡ true
    pub layered : p.layer_surface_set ≡ true → p.surface_set ≡ true

  create_surfaces-IsKept : (p : Proxies) → IsBound p → IsKept (create_surfaces interfaces p)
  unfolding create_surfaces held_after account_next account
  create_surfaces-IsKept p v = ground (arith, v.held, v.bare, v.queued)

  IsBound-IsKept : (p : Proxies) → IsBound p → IsKept p
  IsBound-IsKept p v = ground (arith, v.held, v.bare, v.queued)

  destroy-released : (p : Proxies) → IsKept p → held_after (destroy p).calls ≡ some nothing_held
  unfolding destroy destroy_if held_after account_next account
  destroy-released p v = ground (arith, v.held, v.queued, v.layered)

  -- Whether Qt runs on Wayland or not, has a display or not, and whatever the registry announces, as
  -- long as it announces no interface of the three twice: however far `init` comes, the destructor
  -- after it leaves no object of the connection, with each made once and destroyed once, the layer
  -- surface before its surface, and the queue last.
  pub init-released :
      (is_wayland has_display : Bool) (first second : List (String × ℕ))
      → are_once false false false (first ++ second) ≡ true
      → held_after (destroy (init interfaces is_wayland has_display first second).0).calls
        ≡ some nothing_held
  unfolding init
  init-released is_wayland has_display first second once =
      let bound = bind_globals-IsBound first second (rw (append-nil second) once) in
      if_elim (λ (r : Proxies × Bool). held_after (destroy r.0).calls ≡ some nothing_held)
        (not is_wayland || not has_display)
        (λ _. unfold destroy destroy_if held_after account_next account in refl)
        (λ _.
          if_elim (λ (r : Proxies × Bool). held_after (destroy r.0).calls ≡ some nothing_held) _
            (λ _. destroy-released _ (IsBound-IsKept _ bound))
            (λ _. destroy-released _ (create_surfaces-IsKept _ bound)))
