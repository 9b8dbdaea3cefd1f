-- ===== src/Layer/Protocol/Tests.antt =====
-- A surface that is eight by four, at a scale of two: it is shown, widened, closed, and hidden.
use stylus_popup.Prelude.{true, false, some, List, [], ◌∷◌, pos, ◌≡◌, refl, arith}
use stylus_popup.Layer.{attaches, made}
use stylus_popup.Layer.Drawing.{Image, init}
use stylus_popup.Layer.Lives.{Request, update, commit, conceal, show, configure, close, obey_all}
use stylus_popup.Layer.Ints.{are_ints, IsWide, IsHigh}
use stylus_popup.Layer.Protocol.{are_lawful, is_lawful, acked}
use stylus_popup.Layer.Protocol.Lawful.{obey_all-lawful}

abbrev painted : Image
painted = record { cache_key = pos 7; width = 16; height = 8; bytes_per_line = 64 }

abbrev requests : List Request
requests =
    show 3
    ∷ update made painted
    ∷ commit true
    ∷ configure 2 0
    ∷ configure 3 10
    ∷ commit true
    ∷ close
    ∷ conceal true
    ∷ []

eight-IsWide : IsWide 2 4 8
eight-IsWide = record { width = omega arith; row = omega arith; image = omega arith }

four-IsHigh : IsHigh 2 4
four-IsHigh = record { some_row = omega arith; height_fits = omega arith; rows = omega arith }

ten-IsWide : IsWide 2 4 10
ten-IsWide = record { width = omega arith; row = omega arith; image = omega arith }

zero-IsWide : IsWide 2 4 0
zero-IsWide = record { width = omega arith; row = omega arith; image = omega arith }

obey_all-lawful_example :
    let s = obey_all requests (init 2 8 4 (some (1, 8)) made true).0 in
    (are_lawful s.calls ≡ true) × (are_ints s.calls ≡ true)
obey_all-lawful_example =
    obey_all-lawful 2 8 4 (some (1, 8)) made true requests (omega arith) (omega arith) four-IsHigh
      eight-IsWide eight-IsWide (zero-IsWide, (ten-IsWide, tt))

-- A buffer that is attached before anything is acknowledged is not lawful.
unacked_attach : are_lawful (attaches 8 1 ∷ []) ≡ false
unfolding are_lawful is_lawful acked
unacked_attach = refl
