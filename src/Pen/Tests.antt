-- ===== src/Pen/Tests.antt =====
-- The reports of an attached pen and of a pen that is away, between an interrupted read and a short
-- one.
use stylus_popup.Prelude.{List, [], ◌∷◌, ◌≡◌, arith}
use stylus_popup.Pen.{Mac, ReadResult, interrupted, received, format_mac}
use stylus_popup.Pen.Address.{bytes_of, IsBytes, bytes_of-format_mac, AreBytes}

abbrev pen_mac : Mac
pen_mac = record { m0 = 18; m1 = 52; m2 = 86; m3 = 120; m4 = 154; m5 = 188 }

pen_mac-IsBytes : IsBytes pen_mac
pen_mac-IsBytes = record {
  b0 = omega arith;
  b1 = omega arith;
  b2 = omega arith;
  b3 = omega arith;
  b4 = omega arith;
  b5 = omega arith;
}

bytes_of-format_mac_example : bytes_of (format_mac pen_mac) ≡ 188 ∷ 154 ∷ 120 ∷ 86 ∷ 52 ∷ 18 ∷ []
bytes_of-format_mac_example = bytes_of-format_mac pen_mac pen_mac-IsBytes

abbrev reads : List ReadResult
reads =
    received (130 ∷ 1 ∷ 1 ∷ 85 ∷ 18 ∷ 52 ∷ 86 ∷ 120 ∷ 154 ∷ 188 ∷ 1 ∷ [])
    ∷ interrupted
    ∷ received (0 ∷ 0 ∷ 0 ∷ 85 ∷ 0 ∷ 0 ∷ 0 ∷ 0 ∷ 0 ∷ 0 ∷ 0 ∷ [])
    ∷ received (40 ∷ [])
    ∷ []

reads-AreBytes : AreBytes reads
reads-AreBytes = ground arith
