-- ===== src/Layer.antt =====
-- src/waylandlayersurface.cpp: the surface that the island is painted on, with its shared memory and
-- its buffer. What the kernel and the compositor answer is given. A size is a natural number without a
-- bound: it is that of the source as long as an int holds it, as in a configuration of a width from
-- 2 ^ 31 on it does not; Layer/Ints says for which widths and heights it does. Layer/Drawing paints on
-- the surface. `calls` holds what was asked of the kernel and the compositor, the newest first.
pub mod Drawing
pub mod Account
pub mod Resources
pub mod Lives
pub mod Shown
pub mod Ints
pub mod Frames
pub mod Files
pub mod Proxies
pub mod Protocol
pub mod Release
pub mod Setup
mod Tests
use Prim.Native.Nat.{min, max}
use stylus_popup.Prelude.{
  ℕ, zero, suc, ◌+◌, ◌*◌, Bool, true, false, not, ◌&&◌, ◌||◌, Option, none, some, List, [], ◌∷◌, ℤ,
  pos, ◌==◌, ltb, leb, leb_ℤ, if◌then◌else◌,
}

-- What is asked of the kernel, of the shared memory and of the compositor.
pub data Call : Type 0 where
  opens_file closes_file : Call
  maps unmaps : ℕ → Call  -- a length
  writes : ℕ → ℕ → Call  -- an offset into the mapping and a length
  makes_pool : ℕ → Call
  destroys_pool : Call
  makes_buffer : ℕ → ℕ → ℕ → Call  -- width, height and stride, at offset 0 of the pool
  destroys_buffer : Call
  sets_size : ℕ → ℕ → Call
  attaches : ℕ → ℕ → Call  -- the buffer of this width and height
  damages : ℕ → ℕ → Call
  commits : Call
  acks : ℕ → Call

-- The pointers are Booleans that say whether they are set.
pub record Surface : Type 0 where
  pub surface : Bool
  pub pool : Bool
  pub buffer : Bool
  pub data_mapped : Bool
  pub fd_open : Bool
  pub pool_size : ℕ
  pub buf_w : ℕ
  pub buf_h : ℕ
  pub width : ℕ
  pub height : ℕ
  pub visible_height : ℕ
  pub scale : ℕ
  pub committed_height : ℕ
  pub last_image_key : ℤ
  pub configured : Bool
  pub queue_timer : Bool
  pub calls : List Call

abbrev pub fresh_surface : Surface
fresh_surface = record {
  surface = false;
  pool = false;
  buffer = false;
  data_mapped = false;
  fd_open = false;
  pool_size = 0;
  buf_w = 0;
  buf_h = 0;
  width = 0;
  height = 0;
  visible_height = 0;
  scale = 1;
  committed_height = 0;
  last_image_key = pos 0;
  configured = false;
  queue_timer = false;
  calls = [];
}

-- How far `createPool` comes.
pub data PoolAnswer : Type 0 where
  no_fd no_mapping no_pool made : PoolAnswer

unfoldable pub create_pool : PoolAnswer → ℕ → ℕ → Surface → Surface × Bool
create_pool answer w h s =
    let size = w * h * 4 in
    let sized = record s { pool_size = size } in
    let mapped = record sized {
      fd_open = true;
      data_mapped = true;
      calls = writes 0 size ∷ maps size ∷ opens_file ∷ s.calls;
    } in
    elim answer [
      | no_fd ↦ (record sized { fd_open = false }, false)
      | no_mapping ↦ (
        record sized {
          fd_open = false;
          data_mapped = false;
          calls = closes_file ∷ opens_file ∷ s.calls;
        },
        false,
      )
      | no_pool ↦ (record mapped { pool = false }, false)
      | made ↦ (record mapped { pool = true; calls = makes_pool size ∷ mapped.calls }, true)
    ]

-- `wl_buffer_destroy` with the fields that go with it, where there is a buffer.
unfoldable pub drop_buffer : Surface → Surface
drop_buffer s =
    if s.buffer
    then record s { buffer = false; buf_w = 0; buf_h = 0; calls = destroys_buffer ∷ s.calls }
    else s

unfoldable pub drop_pool : Surface → Surface
drop_pool s = if s.pool then record s { pool = false; calls = destroys_pool ∷ s.calls } else s

unfoldable pub drop_mapping : Surface → Surface
drop_mapping s =
    if s.data_mapped
    then record s { data_mapped = false; calls = unmaps s.pool_size ∷ s.calls }
    else s

unfoldable pub drop_file : Surface → Surface
drop_file s = if s.fd_open then record s { fd_open = false; calls = closes_file ∷ s.calls } else s

unfoldable pub destroy_pool : Surface → Surface
destroy_pool s = drop_file (drop_mapping (drop_pool (drop_buffer s)))

-- The length that is needed is computed in int.
unfoldable pub ensure_pool_size : PoolAnswer → ℕ → ℕ → Surface → Surface × Bool
ensure_pool_size answer w h s =
    if leb (w * h * 4) s.pool_size && s.pool
    then (s, true)
    else create_pool answer w h (destroy_pool s)

-- Whether the compositor's library makes the buffer is given.
unfoldable pub ensure_buffer : Bool → ℕ → ℕ → ℕ → Surface → Surface × Bool
ensure_buffer works w h stride s =
    let destroyed =
      if s.buffer then record s { buffer = false; calls = destroys_buffer ∷ s.calls } else s in
    if s.buffer && s.buf_w == w && s.buf_h == h
    then (s, true)
    else if not works
    then (destroyed, false)
    else (
      record destroyed {
        buffer = true;
        buf_w = w;
        buf_h = h;
        calls = makes_buffer w h stride ∷ destroyed.calls;
      },
      true,
    )
