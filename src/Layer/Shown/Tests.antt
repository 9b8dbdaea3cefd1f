-- ===== src/Layer/Shown/Tests.antt =====
-- A surface that is eight by four, at a scale of two, with a pool for it: a wider configuration asks for
-- a larger pool, which cannot be mapped. And what its frames and its hiding show.
use stylus_popup.Prelude.{
  ◌*◌, ◌%◌, ◌≢◌, Bool, true, false, some, List, [], ◌∷◌, pos, ◌≡◌, refl, ap, arith,
}
use Prim.Native.Nat.{min}
use mathlib.Core.Bool.{false≢true}
use stylus_popup.Layer.{Surface, PoolAnswer, no_mapping, made}
use stylus_popup.Layer.Drawing.{Image, update_image, commit_frame, hide}
use stylus_popup.Layer.Lives.{Request, update, commit, conceal, show, configure, obey_all}
use stylus_popup.Layer.Ints.{IsWide, IsHigh}
use stylus_popup.Layer.Shown.{shown, unacked, lost_pool_stays}
use stylus_popup.Layer.Frames.{hide_height}

abbrev painted : Image
painted = record { cache_key = pos 7; width = 16; height = 8; bytes_per_line = 64 }

-- A surface that is configured, with its pool and a part to show.
abbrev ready : Surface
ready = record {
  surface = true;
  pool = true;
  buffer = false;
  data_mapped = true;
  fd_open = true;
  pool_size = 512;
  buf_w = 0;
  buf_h = 0;
  width = 8;
  height = 4;
  visible_height = 3;
  scale = 2;
  committed_height = 1;
  last_image_key = pos 0;
  configured = true;
  queue_timer = false;
  calls = [];
}

abbrev small : Surface
small = record ready { pool_size = 256 }

abbrev later : List Request
later = configure 2 4 ∷ show 3 ∷ update made painted ∷ commit true ∷ conceal true ∷ []

abbrev is_made : PoolAnswer → Bool
is_made made = true
is_made _ = false

no_mapping-made : no_mapping ≢ made
no_mapping-made e = false≢true (ap is_made e)

ready-IsWide : IsWide 2 4 8
ready-IsWide = record { width = omega arith; row = omega arith; image = omega arith }

ready-IsHigh : IsHigh 2 4
ready-IsHigh = record { some_row = omega arith; height_fits = omega arith; rows = omega arith }

lost_pool_stays_example :
    let lost = update_image no_mapping painted small in
    let t = obey_all later lost in
    (t.pool ≡ false)
    × (t.buffer ≡ false)
    × (unacked t.calls ≡ unacked lost.calls)
    × (shown t.calls ≡ shown small.calls)
lost_pool_stays_example =
    lost_pool_stays no_mapping painted later small no_mapping-made ready-IsWide refl refl refl refl
      (omega arith)

hide_height_example :
    (shown (commit_frame true ready).calls ≡ some (record { w = 8 * 2; h = min 4 3 * 2 }))
    × (8 * 2 % 2 ≡ 0)
    × (min 4 3 * 2 % 2 ≡ 0)
    × (shown (hide true (commit_frame true ready)).calls ≡ some (record { w = 8 * 2; h = 1 }))
    × (1 % 2 ≢ 0)
hide_height_example =
    hide_height ready refl refl refl (omega arith) (omega arith) (omega arith) ready-IsWide
      ready-IsHigh
