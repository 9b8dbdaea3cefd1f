-- ===== src/Layer/Account.antt =====
-- src/waylandlayersurface.cpp: what is asked of the kernel and the compositor, as they account for it.
use stylus_popup.Prelude.{
  ℕ, ◌+◌, ◌*◌, Bool, true, false, ◌&&◌, Option, none, some, List, [], ◌∷◌, ◌≡◌, ◌==◌, leb,
  if◌then◌else◌,
}
use stylus_popup.Layer.{
  Call, opens_file, closes_file, maps, unmaps, writes, makes_pool, destroys_pool, makes_buffer,
  destroys_buffer, sets_size, attaches, damages, commits, acks, Surface,
}

pub record Size : Type 0 where
  pub w : ℕ
  pub h : ℕ

-- What is held: the file, the mapping and the pool with their lengths, and the buffer with its size.
pub record Held : Type 0 where
  pub file : Bool
  pub mapping : Option ℕ
  pub pool : Option ℕ
  pub buffer : Option Size

abbrev pub nothing_held : Held
nothing_held = record { file = false; mapping = none; pool = none; buffer = none }

-- What a call makes of what is held, `none` where it is out of order: a file is opened where none
-- is; it is mapped where nothing is mapped; a write lies in the mapping; a pool is made of all that
-- is mapped, where there is none; a buffer is made in a pool, where there is none, with rows of its
-- width; what is taken down is there; and the buffer that is attached is the one that is held.
unfoldable pub account : Call → Held → Option Held
account opens_file held = if held.file then none else some (record held { file = true })
account closes_file held = if held.file then some (record held { file = false }) else none
account (maps n) held = elim held.mapping [
  | none ↦ if held.file then some (record held { mapping = some n }) else none
  | some k ↦ none
]
account (unmaps n) held = elim held.mapping [
  | none ↦ none
  | some k ↦ if n == k then some (record held { mapping = none }) else none
]
account (writes offset length) held = elim held.mapping [
  | none ↦ none
  | some k ↦ if leb (offset + length) k then some held else none
]
account (makes_pool n) held = elim held.mapping [
  | none ↦ none
  | some k ↦ elim held.pool [
    | none ↦ if n == k then some (record held { pool = some n }) else none
    | some k' ↦ none
  ]
]
account destroys_pool held = elim held.pool [
  | none ↦ none
  | some k ↦ some (record held { pool = none })
]
account (makes_buffer w h stride) held = elim held.pool [
  | none ↦ none
  | some k ↦ elim held.buffer [
    | none ↦
        if stride == w * 4
        then some (record held { buffer = some (record { w = w; h = h }) })
        else none
    | some size ↦ none
  ]
]
account destroys_buffer held = elim held.buffer [
  | none ↦ none
  | some size ↦ some (record held { buffer = none })
]
account (attaches w h) held = elim held.buffer [
  | none ↦ none
  | some size ↦ if size.w == w && size.h == h then some held else none
]
account (sets_size w h) held = some held
account (damages w h) held = some held
account commits held = some held
account (acks serial) held = some held

-- What is held after some calls, the newest first, from nothing on.
unfoldable pub held_after : List Call → Option Held
held_after [] = some nothing_held
held_after (c ∷ cs) = elim (held_after cs) [ none ↦ none | some held ↦ account c held ]

-- What the surface's own fields say is held.
abbrev pub held_of : Surface → Held
held_of s = record {
  file = s.fd_open;
  mapping = if s.data_mapped then some s.pool_size else none;
  pool = if s.pool then some s.pool_size else none;
  buffer = if s.buffer then some (record { w = s.buf_w; h = s.buf_h }) else none;
}

-- The fields are right, and a buffer is in the pool, the pool in the mapping, and this in the file.
pub record IsHeld (s : Surface) : Type 0 where
  pub agrees : held_after s.calls ≡ some (held_of s)
  pub in_pool : s.buffer ≡ true → s.pool ≡ true
  pub in_mapping : s.pool ≡ true → s.data_mapped ≡ true
  pub in_file : s.data_mapped ≡ s.fd_open
