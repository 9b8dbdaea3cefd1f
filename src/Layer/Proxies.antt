-- ===== src/Layer/Proxies.antt =====
-- src/waylandlayersurface.cpp: the objects of the Wayland connection: the registry callback, `init` up
-- to its first commit, the destructor, and the flush of the display. The interface names are those of
-- the generated protocol code. The pointers are Booleans; `calls` is what is made and destroyed, the
-- newest first.
pub mod Released
mod Tests
use Prim.Native.String.{String}
use text.Mathlib.Text.{◌==◌ as str_eq}
use Prim.Native.Nat.{min}
use stylus_popup.Prelude.{
  ℕ, Bool, true, false, not, ◌&&◌, ◌||◌, Option, none, some, List, [], ◌∷◌, if◌then◌else◌,
}

pub data Proxy : Type 0 where
  queue wrapper registry compositor shm layer_shell surface input_region layer_surface : Proxy

pub data ProxyCall : Type 0 where
  creates destroys : Proxy → ProxyCall
  binds : Proxy → ℕ → ProxyCall  -- at a version
  commits roundtrips : ProxyCall

pub record Proxies : Type 0 where
  pub queue_set : Bool
  pub compositor_set : Bool
  pub shm_set : Bool
  pub layer_shell_set : Bool
  pub surface_set : Bool
  pub layer_surface_set : Bool
  pub calls : List ProxyCall

abbrev pub no_proxies : Proxies
no_proxies = record {
  queue_set = false;
  compositor_set = false;
  shm_set = false;
  layer_shell_set = false;
  surface_set = false;
  layer_surface_set = false;
  calls = [];
}

abbrev pub called : ProxyCall → Proxies → Proxies
called call p = record p { calls = call ∷ p.calls }

-- The names in wl_compositor_interface, wl_shm_interface and zwlr_layer_shell_v1_interface.
pub record Interfaces : Type 0 where
  pub compositor_name : String
  pub shm_name : String
  pub layer_shell_name : String

module _ (interfaces : Interfaces) where
  open interfaces use {compositor_name, shm_name, layer_shell_name}

  -- One announcement of the registry: an interface and its version.
  unfoldable pub registry_global : String × ℕ → Proxies → Proxies
  registry_global (iface, version) p =
      if str_eq iface compositor_name
      then called (binds compositor (min version 4)) (record p { compositor_set = true })
      else if str_eq iface shm_name
      then called (binds shm 1) (record p { shm_set = true })
      else if str_eq iface layer_shell_name
      then called (binds layer_shell (min version 4)) (record p { layer_shell_set = true })
      else p

  unfoldable pub registry_globals : List (String × ℕ) → Proxies → Proxies
  registry_globals [] p = p
  registry_globals (global ∷ globals) p = registry_globals globals (registry_global global p)

  -- The queue, and the registry on it.
  unfoldable pub listen : Proxies → Proxies
  listen p = called (destroys wrapper) (
      called (creates registry)
        (called (creates wrapper) (called (creates queue) (record p { queue_set = true }))))

  -- The two roundtrips with what the registry announces in each.
  unfoldable pub bind_globals : List (String × ℕ) → List (String × ℕ) → Proxies → Proxies
  bind_globals first second p =
      let one = called roundtrips (registry_globals first (listen p)) in
      let two = called roundtrips (registry_globals second one) in called (destroys registry) two

  -- The surface with its empty input region, and the layer surface.
  unfoldable pub create_surfaces : Proxies → Proxies
  create_surfaces p =
      let ready = called (creates surface) (record p { surface_set = true }) in
      let deaf = called (destroys input_region) (called (creates input_region) ready) in
      let layered = called (creates layer_surface) (record deaf { layer_surface_set = true }) in
      called roundtrips (called commits layered)

  -- `init` up to its first commit, and whether it comes that far: `is_wayland` is whether Qt runs on
  -- Wayland, `has_display` whether it gives a display.
  unfoldable pub init :
      (is_wayland has_display : Bool) → (first second : List (String × ℕ)) → Proxies × Bool
  init is_wayland has_display first second =
      let bound = bind_globals first second no_proxies in
      if not is_wayland || not has_display
      then (no_proxies, false)
      else if not bound.compositor_set || not bound.shm_set || not bound.layer_shell_set
      then (bound, false)
      else (create_surfaces bound, true)

unfoldable pub destroy_if : Bool → Proxy → Proxies → Proxies
destroy_if set proxy p = if set then called (destroys proxy) p else p

-- The destructor, after `destroyPool`.
unfoldable pub destroy : Proxies → Proxies
destroy p = destroy_if p.queue_set queue (
    destroy_if p.shm_set shm (
      destroy_if p.compositor_set compositor (
        destroy_if p.layer_shell_set layer_shell
          (destroy_if p.surface_set surface (destroy_if p.layer_surface_set layer_surface p)))))

-- What a flush of the display comes to.
pub data Flushed : Type 0 where
  done again interrupted broken : Flushed

-- `flushDisplay`, which tries again until a flush is done or fails for another reason: none where the
-- attempts end before it does.
unfoldable pub flush_display : List Flushed → Option Bool
flush_display [] = none
flush_display (done ∷ attempts) = some true
flush_display (again ∷ attempts) = flush_display attempts
flush_display (interrupted ∷ attempts) = flush_display attempts
flush_display (broken ∷ attempts) = some false
