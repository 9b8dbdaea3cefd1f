-- ===== src/Layer/Lives.antt =====
-- src/waylandlayersurface.cpp: the whole life of a surface, whatever it is asked and answered.
use stylus_popup.Prelude.{
  ℕ, ◌*◌, Bool, true, Option, none, some, List, [], ◌∷◌, ◌≡◌, refl, arith, if_elim,
}
use stylus_popup.Layer.{Surface, PoolAnswer, create_pool, destroy_pool}
use stylus_popup.Layer.Drawing.{
  first_commit, Image, update_image, commit_frame, hide, set_visible_height, ls_configure,
  ls_closed, init,
}
use stylus_popup.Layer.Account.{account, held_after, nothing_held, held_of, IsHeld}
use stylus_popup.Layer.Ints.{
  is_int, are_ints, IsWide, IsHigh, IsSized, create_pool-IsSized, destroy_pool-IsSized,
  update_image-IsSized,
}
use stylus_popup.Layer.Ints.Framed.{commit_frame-IsSized, hide-IsSized}
use stylus_popup.Layer.Resources.{
  create_pool-IsHeld, destroy_pool-IsHeld, update_image-IsHeld, commit_frame-IsHeld, hide-IsHeld,
}

-- What the island and the compositor do to a surface, with the answers to it.
pub data Request : Type 0 where
  update : PoolAnswer → Image → Request
  commit conceal : Bool → Request
  show : ℕ → Request
  configure : ℕ → ℕ → Request
  close : Request

unfoldable pub obey : Request → Surface → Surface
obey (update answer image) s = update_image answer image s
obey (commit works) s = commit_frame works s
obey (conceal works) s = hide works s
obey (show h) s = set_visible_height h s
obey (configure serial w) s = ls_configure serial w s
obey close s = ls_closed s

unfoldable pub obey_all : List Request → Surface → Surface
obey_all [] s = s
obey_all (r ∷ rs) s = obey_all rs (obey r s)

obey-IsHeld : (r : Request) (s : Surface) → IsHeld s → IsHeld (obey r s)
unfolding obey set_visible_height ls_configure ls_closed held_after account
obey-IsHeld (update answer image) s v = update_image-IsHeld answer image s v
obey-IsHeld (commit works) s v = commit_frame-IsHeld works s v
obey-IsHeld (conceal works) s v = hide-IsHeld works s v
obey-IsHeld (show h) s v = ground (arith, v.agrees, v.in_pool, v.in_mapping, v.in_file)
obey-IsHeld (configure serial w) s v = ground (arith, v.agrees, v.in_pool, v.in_mapping, v.in_file)
obey-IsHeld close s v = ground (arith, v.agrees, v.in_pool, v.in_mapping, v.in_file)

obey_all-IsHeld : (rs : List Request) (s : Surface) → IsHeld s → IsHeld (obey_all rs s)
unfolding obey_all
obey_all-IsHeld [] s v = v
obey_all-IsHeld (r ∷ rs) s v = obey_all-IsHeld rs (obey r s) (obey-IsHeld r s v)

fresh-IsHeld :
    (scale width height serial w : ℕ)
    → let asked = first_commit scale width height in
      IsHeld asked × IsHeld (ls_configure serial w asked)
unfolding first_commit ls_configure held_after account
fresh-IsHeld scale width height serial w = ground arith

init-IsHeld :
    (scale width height : ℕ) (configures : Option (ℕ × ℕ)) (answer : PoolAnswer) (works : Bool)
    → IsHeld (init scale width height configures answer works).0
unfolding init
init-IsHeld scale width height none answer works = (fresh-IsHeld scale width height 0 0).0
init-IsHeld scale width height (some (serial, w)) answer works =
    let asked = ls_configure serial w (first_commit scale width height) in
    let pooled = create_pool answer (width * scale) (height * scale) asked in
    let v =
      create_pool-IsHeld answer (width * scale) (height * scale) asked
        (unfold first_commit ls_configure in refl) (fresh-IsHeld scale width height serial w).1 in
    if_elim (λ (p : Surface × Bool). IsHeld p.0) pooled.1 (λ _. hide-IsHeld works pooled.0 v)
      (λ _. v)

-- The widths that the compositor configures are such that an int holds them and what follows from them.
abbrev pub AllWide : (scale height : ℕ) → List Request → Type 0
AllWide scale height [] = Unit
AllWide scale height (configure serial w ∷ rs) = IsWide scale height w × AllWide scale height rs
AllWide scale height (r ∷ rs) = AllWide scale height rs

abbrev pub GivenWide : (scale height : ℕ) → Option (ℕ × ℕ) → Type 0
GivenWide scale height none = Unit
GivenWide scale height (some (serial, w)) = IsWide scale height w

configured-IsSized :
    {scale height : ℕ} (serial w : ℕ) (s : Surface)
    → IsWide scale height w
    → IsSized scale height s
    → IsSized scale height (ls_configure serial w s)
unfolding ls_configure are_ints is_int
configured-IsSized serial w s wide v = ground (arith, v, v.ints, wide)

obey_all-IsSized :
    {scale height : ℕ} (rs : List Request) (s : Surface)
    → IsHigh scale height
    → AllWide scale height rs
    → IsSized scale height s
    → IsSized scale height (obey_all rs s)
unfolding obey_all obey set_visible_height ls_closed
obey_all-IsSized [] s high all v = v
obey_all-IsSized (update answer image ∷ rs) s high all v =
    obey_all-IsSized rs _ high all (update_image-IsSized answer image s v)
obey_all-IsSized (commit works ∷ rs) s high all v =
    obey_all-IsSized rs _ high all (commit_frame-IsSized works s high v)
obey_all-IsSized (conceal works ∷ rs) s high all v =
    obey_all-IsSized rs _ high all (hide-IsSized works s v)
obey_all-IsSized (show h ∷ rs) s high all v = obey_all-IsSized rs _ high all (ground (arith, v))
obey_all-IsSized (configure serial w ∷ rs) s high (wide, all) v =
    obey_all-IsSized rs _ high all (configured-IsSized serial w s wide v)
obey_all-IsSized (close ∷ rs) s high all v = obey_all-IsSized rs _ high all (ground (arith, v))

asked-IsSized :
    (scale width height : ℕ)
    → IsWide scale height width
    → IsSized scale height (first_commit scale width height)
unfolding first_commit are_ints is_int
asked-IsSized scale width height wide = ground (arith, wide)

init-IsSized :
    (scale width height : ℕ) (configures : Option (ℕ × ℕ)) (answer : PoolAnswer) (works : Bool)
    → IsWide scale height width
    → GivenWide scale height configures
    → IsSized scale height (init scale width height configures answer works).0
unfolding init
init-IsSized scale width height none answer works wide given = asked-IsSized scale width height wide
init-IsSized scale width height (some (serial, w)) answer works wide given =
    let asked =
      configured-IsSized serial w (first_commit scale width height) given
        (asked-IsSized scale width height wide) in
    let pooled =
      create_pool answer (width * scale) (height * scale)
        (ls_configure serial w (first_commit scale width height)) in
    let v = create_pool-IsSized answer (width * scale) (height * scale) _ wide.image asked in
    if_elim (λ (p : Surface × Bool). IsSized scale height p.0) pooled.1
      (λ _. hide-IsSized works pooled.0 v) (λ _. v)

-- The surface at any time of its life keeps to the sizes that an int holds.
pub lived-IsSized :
    (scale width height : ℕ) (configures : Option (ℕ × ℕ)) (answer : PoolAnswer) (works : Bool)
    (requests : List Request)
    → IsHigh scale height
    → IsWide scale height width
    → GivenWide scale height configures
    → AllWide scale height requests
    → IsSized scale height (obey_all requests (init scale width height configures answer works).0)
lived-IsSized scale width height configures answer works requests high wide given all =
    obey_all-IsSized requests _ high all
      (init-IsSized scale width height configures answer works wide given)

pub lived-held_after :
    (scale width height : ℕ) (configures : Option (ℕ × ℕ)) (answer : PoolAnswer) (works : Bool)
    (requests : List Request)
    → let s = obey_all requests (init scale width height configures answer works).0 in
      (held_after s.calls ≡ some (held_of s))
      × (held_after (destroy_pool s).calls ≡ some nothing_held)
lived-held_after scale width height configures answer works requests =
    let s = obey_all requests (init scale width height configures answer works).0 in
    let v : IsHeld s =
      obey_all-IsHeld requests _ (init-IsHeld scale width height configures answer works) in
    let (u, b, p, f) = destroy_pool-IsHeld s v in
    (v.agrees, ground (arith, u.agrees, u.in_file, b, p, f))

-- Over the whole life of a surface, where an int holds its height, its widths and the sizes in pixels
-- and in bytes that follow from them, and whatever else the kernel and the compositor answer: no call
-- is out of order, so that no write leaves the mapping, nothing is made twice, taken down twice or used
-- while it is not there, and the buffer that is attached is the one that exists; the fields of the
-- surface say at any time what is held; once the pool is destroyed at the end, nothing is; and no
-- number of a call, and no end of a write, is more than an int holds.
pub obey_all-held_after :
    (scale width height : ℕ) (configures : Option (ℕ × ℕ)) (answer : PoolAnswer) (works : Bool)
    (requests : List Request)
    → IsHigh scale height
    → IsWide scale height width
    → GivenWide scale height configures
    → AllWide scale height requests
    → let s = obey_all requests (init scale width height configures answer works).0 in
      (held_after s.calls ≡ some (held_of s))
      × (held_after (destroy_pool s).calls ≡ some nothing_held)
      × (are_ints (destroy_pool s).calls ≡ true)
obey_all-held_after scale width height configures answer works requests high wide given all =
    let s = obey_all requests (init scale width height configures answer works).0 in
    let (held, at_end) = lived-held_after scale width height configures answer works requests in
    let sized =
      lived-IsSized scale width height configures answer works requests high wide given all in
    (held, at_end, (destroy_pool-IsSized s sized).ints)
