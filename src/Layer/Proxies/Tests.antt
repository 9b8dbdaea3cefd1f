-- ===== src/Layer/Proxies/Tests.antt =====
-- The objects of a connection whose registry announces the shell in the second roundtrip.
use Prim.Native.String.{String}
use stylus_popup.Prelude.{ℕ, true, some, List, [], ◌∷◌, ◌≡◌, refl}
use stylus_popup.Layer.Proxies.{Interfaces, init, destroy}
use stylus_popup.Layer.Proxies.Released.{nothing_held, held_after, are_once, init-released}

abbrev interfaces : Interfaces
interfaces = record {
  compositor_name = "wl_compositor";
  shm_name = "wl_shm";
  layer_shell_name = "zwlr_layer_shell_v1";
}

abbrev first : List (String × ℕ)
first = ("wl_compositor", 6) ∷ ("wl_seat", 9) ∷ ("wl_shm", 2) ∷ []

abbrev second : List (String × ℕ)
second = ("zwlr_layer_shell_v1", 4) ∷ []

init-released_example :
    held_after (destroy (init interfaces true true first second).0).calls ≡ some nothing_held
unfolding are_once
init-released_example = init-released interfaces true true first second refl
