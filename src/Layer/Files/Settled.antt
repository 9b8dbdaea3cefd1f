-- ===== src/Layer/Files/Settled.antt =====
-- src/waylandlayersurface.cpp: what `makeAnonFd` leaves open, and the name that it makes up.
use mathlib.Core.List.{append-nil}
use stylus_popup.Prelude.{
  ℕ, suc, ◌≤◌, Bool, true, false, Option, none, some, List, [], ◌∷◌, ◌++◌, ◌≡◌, refl, arith, length,
  All, map, ap, sym, ◌∙◌,
}
use stylus_popup.Layer.Files.{
  File, FileCall, letter, placeholder, overwritten, filled_in, shm_name, shared_file, make_anon_fd,
  Left, nothing_left, same_name, settle, settle_next, left_after,
}

same_name_refl : (n : List ℕ) → same_name n n ≡ true
unfolding same_name
same_name_refl [] = refl
same_name_refl (c ∷ cs) = ground (arith, same_name_refl cs)

abbrev pub is_made : Option File → Bool
is_made none = false
is_made (some f) = true

-- What is left where only the file that is returned is.
abbrev pub only : Option File → Left
only file = record { open_file = file; is_sized = is_made file; name = none }

-- The calls of the part after a memfd, on top of others that leave nothing.
shared_file-settled :
    (random : Option (Option (List ℕ))) (object : Option Bool) (before : List FileCall)
    → left_after before ≡ some nothing_left
    → let (file, calls) = shared_file random object in
      left_after (calls ++ before) ≡ some (only file)
unfolding shared_file left_after settle settle_next
shared_file-settled none none before e = e
shared_file-settled (some read) none before e = rw (e) refl
shared_file-settled none (some true) before e = rw (e, same_name_refl (shm_name none)) refl
shared_file-settled none (some false) before e = rw (e, same_name_refl (shm_name none)) refl
shared_file-settled (some read) (some true) before e =
    rw (e, same_name_refl (shm_name (some read))) refl
shared_file-settled (some read) (some false) before e =
    rw (e, same_name_refl (shm_name (some read))) refl

-- Whatever the kernel answers: of the files that are opened, only the one that is returned stays
-- open, and it has its size; each is closed once; and no name is left behind.
pub make_anon_fd-settled :
    (memory : Option Bool) (random : Option (Option (List ℕ))) (object : Option Bool)
    → let (file, calls) = make_anon_fd memory random object in left_after calls ≡ some (only file)
unfolding make_anon_fd
make_anon_fd-settled none random object =
    ap left_after (sym (append-nil _))
    ∙ shared_file-settled random object [] (unfold left_after in refl)
make_anon_fd-settled (some true) random object = unfold left_after settle settle_next in refl
make_anon_fd-settled (some false) random object =
    shared_file-settled random object _ (unfold left_after settle settle_next in refl)

letters-All : (cs : List ℕ) → All (λ c. (b'a' ≤ c) × (c ≤ b'p')) (map letter cs)
letters-All [] = tt
letters-All (c ∷ cs) = ((omega arith, omega arith), letters-All cs)

length-overwritten : (xs read : List ℕ) → length (overwritten xs read) ≡ length xs
unfolding overwritten
length-overwritten [] read = refl
length-overwritten (x ∷ xs) [] = refl
length-overwritten (x ∷ xs) (c ∷ read) = ap suc (length-overwritten xs read)

length-map : (cs : List ℕ) → length (map letter cs) ≡ length cs
length-map [] = refl
length-map (c ∷ cs) = ap suc (length-map cs)

-- Six bytes that are read make six letters, each from a to p.
filled_in-letters :
    (read : List ℕ)
    → length read ≡ 6
    → (length (filled_in (some (some read))) ≡ 6)
      × All (λ c. (b'a' ≤ c) × (c ≤ b'p')) (filled_in (some (some read)))
unfolding filled_in
filled_in-letters read six =
    let name = overwritten placeholder read in
    rw (six) (omega (arith, length-map name, length-overwritten placeholder read), letters-All name)
