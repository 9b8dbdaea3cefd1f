-- ===== src/Layer/Release.antt =====
-- src/waylandlayersurface.cpp: the listener of the buffers. Each buffer that is made is an object of its
-- own, numbered in the order of making; the compositor tells of a buffer that it releases it, and
-- the library passes that on only while the object is there.
mod Tests
use native.Mathlib.Decide.{ℕ_discrete}
use stylus_popup.Prelude.{
  ℕ, suc, ◌+◌, ◌≤◌, Bool, true, false, not, ◌&&◌, Option, none, some, List, [], ◌∷◌, ◌≡◌, ◌==◌, ltb,
  if◌then◌else◌, refl, ap, ◌∙◌, inl, inr, arith, Option-cases,
}
use stylus_popup.Layer.{
  Call, opens_file, closes_file, maps, unmaps, writes, makes_pool, destroys_pool, makes_buffer,
  destroys_buffer, sets_size, attaches, damages, commits, acks, Surface, PoolAnswer, destroy_pool,
}
use stylus_popup.Layer.Drawing.{init}
use stylus_popup.Layer.Account.{Held, account, held_after, nothing_held, held_of}
use stylus_popup.Layer.Lives.{Request, obey_all, lived-held_after}

-- `slot` is what `m_buffer` points to, `living` the objects that are there, and `destroyed` those that
-- were, the newest first.
pub record Buffers : Type 0 where
  pub slot : Option ℕ
  pub living : List ℕ
  pub destroyed : List ℕ
  pub next : ℕ

abbrev pub no_buffers : Buffers
no_buffers = record { slot = none; living = []; destroyed = []; next = 0 }

unfoldable pub without : ℕ → List ℕ → List ℕ
without b [] = []
without b (x ∷ xs) = if x == b then without b xs else x ∷ without b xs

-- `wl_buffer_destroy`.
unfoldable pub destroy_buffer : ℕ → Buffers → Buffers
destroy_buffer b o = record o { living = without b o.living; destroyed = b ∷ o.destroyed }

abbrev pub destroy_slot : Option ℕ → Buffers → Buffers
destroy_slot none o = o
destroy_slot (some b) o = record (destroy_buffer b o) { slot = none }

-- What a call does to the buffers: `m_buffer` is made, or destroyed and cleared.
unfoldable pub follow : Call → Buffers → Buffers
follow (makes_buffer w h stride) o = record o {
  slot = some o.next;
  living = o.next ∷ o.living;
  next = o.next + 1;
}
follow destroys_buffer o = destroy_slot o.slot o
follow other o = o

abbrev pub is_slot : Option ℕ → ℕ → Bool
is_slot none b = false
is_slot (some a) b = a == b

-- The listener: a buffer that `m_buffer` does not point to is destroyed.
unfoldable pub on_release : ℕ → Buffers → Buffers
on_release b o = if is_slot o.slot b then o else destroy_buffer b o

abbrev pub is_there : ℕ → List ℕ → Bool
is_there b [] = false
is_there b (x ∷ xs) = if x == b then true else is_there b xs

-- The event, which reaches the listener of a buffer that is there.
unfoldable pub release : ℕ → Buffers → Buffers
release b o = if is_there b o.living then on_release b o else o

-- What happens to the buffers: a call of the surface, or a release that the compositor tells of.
pub data Happening : Type 0 where
  call : Call → Happening
  released : ℕ → Happening

unfoldable pub buffers_of : List Happening → Buffers
buffers_of [] = no_buffers
buffers_of (call c ∷ hs) = follow c (buffers_of hs)
buffers_of (released b ∷ hs) = release b (buffers_of hs)

abbrev pub calls_of : List Happening → List Call
calls_of [] = []
calls_of (call c ∷ hs) = c ∷ calls_of hs
calls_of (released b ∷ hs) = calls_of hs

-- The one buffer that is there, if any, is that of `m_buffer`; and a buffer that was made is there or
-- was destroyed, and that once.
abbrev pub owned : Option ℕ → List ℕ
owned none = []
owned (some b) = b ∷ []

abbrev pub times : ℕ → List ℕ → ℕ
times b [] = 0
times b (x ∷ xs) = (if x == b then 1 else 0) + times b xs

abbrev is_some {ℓ} : {A : Type ℓ} → Option A → Bool
is_some none = false
is_some (some a) = true

record IsOwned (b : ℕ) (h : Held) (o : Buffers) : Type 0 where
  pub living : o.living ≡ owned o.slot
  pub agrees : is_some h.buffer ≡ is_some o.slot
  pub once : times b o.living + times b o.destroyed ≡ (if ltb b o.next then 1 else 0)

follow-IsOwned :
    (b : ℕ) (c : Call) (held h : Held) (o : Buffers)
    → account c held ≡ some h
    → IsOwned b held o
    → IsOwned b h (follow c o)
unfolding account follow destroy_buffer without
follow-IsOwned b opens_file held h o e v = ground (arith, e, v.living, v.agrees, v.once)
follow-IsOwned b closes_file held h o e v = ground (arith, e, v.living, v.agrees, v.once)
follow-IsOwned b (maps n) held h o e v = ground (arith, e, v.living, v.agrees, v.once)
follow-IsOwned b (unmaps n) held h o e v = ground (arith, e, v.living, v.agrees, v.once)
follow-IsOwned b (writes n m) held h o e v = ground (arith, e, v.living, v.agrees, v.once)
follow-IsOwned b (makes_pool n) held h o e v = ground (arith, e, v.living, v.agrees, v.once)
follow-IsOwned b destroys_pool held h o e v = ground (arith, e, v.living, v.agrees, v.once)
follow-IsOwned b (makes_buffer x y z) held h o e v = ground (arith, e, v.living, v.agrees, v.once)
follow-IsOwned b destroys_buffer held h o e v = ground (arith, e, v.living, v.agrees, v.once)
follow-IsOwned b (sets_size x y) held h o e v = ground (arith, e, v.living, v.agrees, v.once)
follow-IsOwned b (attaches x y) held h o e v = ground (arith, e, v.living, v.agrees, v.once)
follow-IsOwned b (damages x y) held h o e v = ground (arith, e, v.living, v.agrees, v.once)
follow-IsOwned b commits held h o e v = ground (arith, e, v.living, v.agrees, v.once)
follow-IsOwned b (acks n) held h o e v = ground (arith, e, v.living, v.agrees, v.once)

-- A release that reaches a listener is of the buffer of `m_buffer`.
release_lem : (b : ℕ) (o : Buffers) → o.living ≡ owned o.slot → release b o ≡ o
unfolding release on_release
release_lem b o own = ground (arith, own)

-- The same happenings with no release.
abbrev pub unreleased : List Happening → List Happening
unreleased [] = []
unreleased (call c ∷ hs) = call c ∷ unreleased hs
unreleased (released b ∷ hs) = unreleased hs

history-IsOwned :
    (b : ℕ) (hs : List Happening) (h : Held)
    → held_after (calls_of hs) ≡ some h
    → IsOwned b h (buffers_of hs) × (buffers_of hs ≡ buffers_of (unreleased hs))
unfolding buffers_of held_after
history-IsOwned b [] h e = ground (arith, e)
history-IsOwned b (released a ∷ hs) h e =
    let (v, same) = history-IsOwned b hs h e in
    let idle = release_lem a (buffers_of hs) v.living in rw idle (v, same)
history-IsOwned b (call c ∷ hs) h e = elim (Option-cases (held_after (calls_of hs))) [
  | inl out ↦ absurd (ground (arith, e, out))
  | inr (held, before) ↦
      let (v, same) = history-IsOwned b hs held before in
      let step : account c held ≡ some h = ground (arith, e, before) in
      (follow-IsOwned b c held h (buffers_of hs) step v, ap (follow c) same)
]

-- Over the whole life of a surface, whatever the kernel and the compositor answer, and with releases of
-- any buffers at any times: the listener destroys nothing, so that the buffers are those of the calls
-- alone; the one that is there, if any, is that of `m_buffer`; each that was made is there or was
-- destroyed, and that once; and when the pool is destroyed at the end, each was destroyed once.
pub releases_idle :
    (scale width height : ℕ) (configures : Option (ℕ × ℕ)) (answer : PoolAnswer) (works : Bool)
    (requests : List Request) (during after : List Happening) (b : ℕ)
    → let s = obey_all requests (init scale width height configures answer works).0 in
      calls_of during ≡ s.calls
      → calls_of after ≡ (destroy_pool s).calls
      → let o = buffers_of during in
        let p = buffers_of after in
        (o ≡ buffers_of (unreleased during))
        × (o.living ≡ owned o.slot)
        × (times b o.living + times b o.destroyed ≡ (if ltb b o.next then 1 else 0))
        × (p ≡ buffers_of (unreleased after))
        × (p.living ≡ [])
        × (times b p.destroyed ≡ (if ltb b p.next then 1 else 0))
releases_idle scale width height configures answer works requests during after b ds es =
    let s = obey_all requests (init scale width height configures answer works).0 in
    let (now, ended) = lived-held_after scale width height configures answer works requests in
    let (v, same) = history-IsOwned b during (held_of s) (ap held_after ds ∙ now) in
    let (w, still) = history-IsOwned b after nothing_held (ap held_after es ∙ ended) in
    let none_left : (buffers_of after).living ≡ [] = ground (arith, w.living, w.agrees) in
    (same, v.living, v.once, still, none_left, ground (arith, none_left, w.once))
