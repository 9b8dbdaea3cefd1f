-- ===== src/Layer/Files/Tests.antt =====
-- A memfd that cannot be sized, and an object of shared memory in its place.
use stylus_popup.Prelude.{true, false, some, List, ℕ, [], ◌∷◌, ◌≡◌}
use stylus_popup.Layer.Files.{make_anon_fd, left_after}
use stylus_popup.Layer.Files.Settled.{only, make_anon_fd-settled}

abbrev random : List ℕ
random = 200 ∷ 47 ∷ 0 ∷ 13 ∷ 77 ∷ 255 ∷ []

sized_in_shm :
    left_after (make_anon_fd (some false) (some (some random)) (some true)).1
    ≡ some (only (make_anon_fd (some false) (some (some random)) (some true)).0)
sized_in_shm = make_anon_fd-settled (some false) (some (some random)) (some true)
