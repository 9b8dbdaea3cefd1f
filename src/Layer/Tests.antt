-- ===== src/Layer/Tests.antt =====
-- The life of a surface that is eight by four, at a scale of two: it is shown, widened, and hidden.
use stylus_popup.Prelude.{true, some, List, [], ◌∷◌, pos, ◌≡◌, arith}
use stylus_popup.Layer.{made, destroy_pool}
use stylus_popup.Layer.Drawing.{Image, init}
use stylus_popup.Layer.Account.{held_after, nothing_held, held_of}
use stylus_popup.Layer.Ints.{are_ints, IsWide, IsHigh}
use stylus_popup.Layer.Lives.{
  Request, update, commit, conceal, show, configure, close, obey_all, obey_all-held_after,
}

abbrev painted : Image
painted = record { cache_key = pos 7; width = 16; height = 8; bytes_per_line = 64 }

abbrev repainted : Image
repainted = record { cache_key = pos 8; width = 16; height = 8; bytes_per_line = 64 }

abbrev requests : List Request
requests =
    show 3
    ∷ update made painted
    ∷ commit true
    ∷ configure 2 10
    ∷ update made repainted
    ∷ commit true
    ∷ conceal true
    ∷ close
    ∷ []

eight-IsWide : IsWide 2 4 8
eight-IsWide = record { width = omega arith; row = omega arith; image = omega arith }

four-IsHigh : IsHigh 2 4
four-IsHigh = record { some_row = omega arith; height_fits = omega arith; rows = omega arith }

ten-IsWide : IsWide 2 4 10
ten-IsWide = record { width = omega arith; row = omega arith; image = omega arith }

obey_all-held_after_example :
    let s = obey_all requests (init 2 8 4 (some (1, 8)) made true).0 in
    (held_after s.calls ≡ some (held_of s))
    × (held_after (destroy_pool s).calls ≡ some nothing_held)
    × (are_ints (destroy_pool s).calls ≡ true)
obey_all-held_after_example =
    obey_all-held_after 2 8 4 (some (1, 8)) made true requests four-IsHigh eight-IsWide eight-IsWide
      (ten-IsWide, tt)
