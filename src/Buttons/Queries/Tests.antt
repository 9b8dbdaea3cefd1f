-- ===== src/Buttons/Queries/Tests.antt =====
-- The queries of a node at concrete answers of the kernel.
use stylus_popup.Prelude.{
  ℕ, ◌<◌, Bool, true, Option, none, some, List, [], ◌∷◌, ◌≡◌, ◌≢◌, ◌↔◌, arith, length, All,
}
use stylus_popup.Buttons.{key_pagedown}
use stylus_popup.Buttons.Queries.{is_event_name, evdev_name, evdev_uniq, evdev_supports_key}
use stylus_popup.Buttons.Queries.Bounds.{queries-fit}
use stylus_popup.Buttons.Queries.Names.{IsNumbered, is_event_name_iff}

-- "event17".
abbrev node_name : List ℕ
node_name = b'e' ∷ b'v' ∷ b'e' ∷ b'n' ∷ b't' ∷ b'1' ∷ b'7' ∷ []

pen_node : (is_event_name node_name ≡ true) ↔ ((digits : List ℕ) × IsNumbered node_name digits)
pen_node = is_event_name_iff node_name

abbrev pen : Option (List ℕ)
pen = some (b'P' ∷ b'e' ∷ b'n' ∷ 0 ∷ [])

-- The second word has the bits of the two keys.
abbrev keys : Option (List ℕ)
keys = some (0 ∷ 36283883716608 ∷ [])

queries-fit_example :
    ((text : List ℕ) × (evdev_name pen ≡ some text) × (length text < 256) × All (λ c. c ≢ 0) text)
    × ((text : List ℕ) × (evdev_uniq none ≡ some text) × (length text < 64) × All (λ c. c ≢ 0) text)
    × ((b : Bool) × (evdev_supports_key keys key_pagedown ≡ some b))
queries-fit_example = queries-fit pen none keys key_pagedown (omega arith)
