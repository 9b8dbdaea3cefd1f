-- ===== src/Layer/Shown.antt =====
-- src/waylandlayersurface.cpp: what the compositor is shown, read off the calls: the buffer and the size
-- that a commit puts into effect, and what a pool that was lost leaves of them.
mod Tests
use Prim.Native.Nat.{min, max}
use stylus_popup.Prelude.{
  ℕ, ◌*◌, ◌≤◌, ◌<◌, Bool, true, false, Option, none, some, List, [], ◌∷◌, ◌≡◌, ◌≢◌, refl, ◌∙◌,
  arith,
}
use stylus_popup.Layer.{
  Call, attaches, sets_size, commits, acks, Surface, PoolAnswer, no_fd, no_mapping, no_pool, made,
  create_pool, destroy_pool, drop_buffer, drop_pool, drop_mapping, drop_file, ensure_pool_size,
  ensure_buffer,
}
use stylus_popup.Layer.Drawing.{
  Image, same_key, copy_image, update_image, present, resize, commit_frame, hide,
  set_visible_height, ls_configure, ls_closed,
}
use stylus_popup.Layer.Account.{Size}
use stylus_popup.Layer.Ints.{IsWide, IsHigh}
use stylus_popup.Layer.Lives.{
  Request, update, commit, conceal, show, configure, close, obey, obey_all,
}

-- Of some calls, the newest first: the buffer that was attached last, and the size asked for last.
unfoldable pub attached : List Call → Option Size
attached [] = none
attached (attaches w h ∷ calls) = some (record { w = w; h = h })
attached (call ∷ calls) = attached calls

unfoldable pub asked_size : List Call → Option Size
asked_size [] = none
asked_size (sets_size w h ∷ calls) = some (record { w = w; h = h })
asked_size (call ∷ calls) = asked_size calls

-- What the last commit put into effect: a buffer, and a size.
unfoldable pub shown : List Call → Option Size
shown [] = none
shown (commits ∷ calls) = attached calls
shown (call ∷ calls) = shown calls

unfoldable pub shown_size : List Call → Option Size
shown_size [] = none
shown_size (commits ∷ calls) = asked_size calls
shown_size (call ∷ calls) = shown_size calls

-- The calls other than the acknowledgements.
unfoldable pub unacked : List Call → List Call
unacked [] = []
unacked (acks serial ∷ calls) = unacked calls
unacked (call ∷ calls) = call ∷ unacked calls

-- What a hidden surface shows: one row of pixels, in a size of one row.
pub hide-shown :
    (s : Surface)
    → s.configured ≡ true
    → s.surface ≡ true
    → s.pool ≡ true
    → let t = hide true s in
      (t.width ≡ s.width)
      × (t.scale ≡ s.scale)
      × (shown t.calls ≡ some (record { w = s.width * s.scale; h = 1 }))
      × (shown_size t.calls ≡ some (record { w = s.width; h = 1 }))
unfolding hide ensure_buffer present shown shown_size attached asked_size
hide-shown s c su p = ground (arith, c, su, p)

-- What a frame shows.
pub commit_frame-shown :
    (s : Surface)
    → s.configured ≡ true
    → s.surface ≡ true
    → s.pool ≡ true
    → 1 ≤ s.height
    → 1 ≤ s.visible_height
    → shown (commit_frame true s).calls
      ≡ some (record { w = s.width * s.scale; h = min s.height s.visible_height * s.scale })
unfolding commit_frame ensure_buffer present resize shown attached
commit_frame-shown s c su p h v = ground (arith, c, su, p)

obey-lost :
    (r : Request) (s : Surface)
    → s.pool ≡ false
    → let t = obey r s in
      (t.pool ≡ false)
      × (t.buffer ≡ s.buffer)
      × (unacked t.calls ≡ unacked s.calls)
      × (shown t.calls ≡ shown s.calls)
unfolding obey update_image commit_frame hide set_visible_height ls_configure ls_closed unacked
    shown
obey-lost (update answer image) s lost = ground (arith, lost)
obey-lost (commit works) s lost = ground (arith, lost)
obey-lost (conceal works) s lost = ground (arith, lost)
obey-lost (show h) s lost = ground (arith, lost)
obey-lost (configure serial w) s lost = ground (arith, lost)
obey-lost close s lost = ground (arith, lost)

obey_all-lost :
    (requests : List Request) (s : Surface)
    → s.pool ≡ false
    → let t = obey_all requests s in
      (t.pool ≡ false)
      × (t.buffer ≡ s.buffer)
      × (unacked t.calls ≡ unacked s.calls)
      × (shown t.calls ≡ shown s.calls)
unfolding obey_all
obey_all-lost [] s lost = (lost, refl, refl, refl)
obey_all-lost (r ∷ rs) s lost =
    let first = obey-lost r s lost in ground (arith, first, obey_all-lost rs (obey r s) first.0)

-- An update that needs a larger pool and does not get it: the old pool is gone already, and the screen
-- shows what it did.
update_image-lost :
    (refused : PoolAnswer) (image : Image) (s : Surface)
    → refused ≢ made
    → s.configured ≡ true
    → s.surface ≡ true
    → s.pool ≡ true
    → same_key image.cache_key s.last_image_key ≡ false
    → s.pool_size < s.width * s.scale * (s.height * s.scale) * 4
    → let lost = update_image refused image s in
      (lost.pool ≡ false) × (lost.buffer ≡ false) × (shown lost.calls ≡ shown s.calls)
unfolding update_image ensure_pool_size create_pool destroy_pool drop_buffer drop_pool drop_mapping
    drop_file shown
update_image-lost no_fd image s other c su p k small = ground arith
update_image-lost no_mapping image s other c su p k small = ground arith
update_image-lost no_pool image s other c su p k small = ground arith
update_image-lost made image s other c su p k small = absurd (other refl)

-- Where an update of a configured surface, of sizes that an int holds, has a new image and needs a
-- larger pool than there is, and the kernel or the library refuses it, the pool and the buffer are lost for good: whatever the island and
-- the compositor do from then on, no pool and no buffer is made, nothing is written, attached or
-- committed, configurations are acknowledged only, and the screen goes on showing what it showed
-- before that update.
pub lost_pool_stays :
    (refused : PoolAnswer) (image : Image) (requests : List Request) (s : Surface)
    → refused ≢ made
    → IsWide s.scale s.height s.width
    → s.configured ≡ true
    → s.surface ≡ true
    → s.pool ≡ true
    → same_key image.cache_key s.last_image_key ≡ false
    → s.pool_size < s.width * s.scale * (s.height * s.scale) * 4
    → let lost = update_image refused image s in
      let t = obey_all requests lost in
      (t.pool ≡ false)
      × (t.buffer ≡ false)
      × (unacked t.calls ≡ unacked lost.calls)
      × (shown t.calls ≡ shown s.calls)
lost_pool_stays refused image requests s other wide c su p k small =
    let (gone, none_left, still) = update_image-lost refused image s other c su p k small in
    let (pool, buffer, same, screen) = obey_all-lost requests (update_image refused image s) gone in
    (pool, buffer ∙ none_left, same, screen ∙ still)
