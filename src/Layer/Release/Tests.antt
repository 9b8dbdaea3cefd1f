-- ===== src/Layer/Release/Tests.antt =====
-- A surface is shown, grows, and is hidden, while the compositor releases one of its buffers.
use stylus_popup.Prelude.{◌+◌, true, some, List, [], ◌∷◌, pos, ◌≡◌, refl, ap, ltb, if◌then◌else◌}
use stylus_popup.Layer.{Call, Surface, made, destroy_pool, makes_buffer, destroys_buffer}
use stylus_popup.Layer.Drawing.{Image, init}
use stylus_popup.Layer.Lives.{Request, update, commit, conceal, show, obey_all}
use stylus_popup.Layer.Release.{
  Happening, call, released, buffers_of, calls_of, unreleased, owned, times, follow, destroy_buffer,
  without, release, on_release, releases_idle,
}

abbrev painted : Image
painted = record { cache_key = pos 7; width = 16; height = 8; bytes_per_line = 64 }

abbrev requests : List Request
requests = show 3 ∷ update made painted ∷ commit true ∷ show 4 ∷ commit true ∷ conceal true ∷ []

shown : Surface
shown = obey_all requests (init 2 8 4 (some (1, 8)) made true).0

abbrev called : List Call → List Happening
called [] = []
called (c ∷ calls) = call c ∷ called calls

calls_of-called : (calls : List Call) → calls_of (called calls) ≡ calls
calls_of-called [] = refl
calls_of-called (c ∷ calls) = ap (λ (r : List Call). c ∷ r) (calls_of-called calls)

releases_idle_example :
    let o = buffers_of (released 3 ∷ called shown.calls) in
    let p = buffers_of (released 3 ∷ called (destroy_pool shown).calls) in
    (o ≡ buffers_of (unreleased (called shown.calls)))
    × (o.living ≡ owned o.slot)
    × (times 3 o.living + times 3 o.destroyed ≡ (if ltb 3 o.next then 1 else 0))
    × (p ≡ buffers_of (unreleased (called (destroy_pool shown).calls)))
    × (p.living ≡ [])
    × (times 3 p.destroyed ≡ (if ltb 3 p.next then 1 else 0))
unfolding shown
releases_idle_example =
    releases_idle 2 8 4 (some (1, 8)) made true requests (released 3 ∷ called shown.calls)
      (released 3 ∷ called (destroy_pool shown).calls) 3 (calls_of-called shown.calls)
      (calls_of-called (destroy_pool shown).calls)

-- Of two buffers, the first is destroyed once, and a release of the second changes nothing.
second_released :
    let hs = called (makes_buffer 16 8 64 ∷ destroys_buffer ∷ makes_buffer 16 1 64 ∷ []) in
    (buffers_of (released 1 ∷ hs) ≡ buffers_of hs) × ((buffers_of hs).destroyed ≡ 0 ∷ [])
unfolding buffers_of follow destroy_buffer without release on_release
second_released = (refl, refl)
