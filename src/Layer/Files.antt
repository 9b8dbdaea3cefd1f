-- ===== src/Layer/Files.antt =====
-- src/waylandlayersurface.cpp: `makeAnonFd`, the file of the shared memory. What the kernel answers is
-- given; `calls` is what is done to descriptors and names, the newest first.
pub mod Settled
mod Tests
use stylus_popup.Prelude.{
  ℕ, zero, suc, ◌+◌, ◌%◌, ◌≤◌, ◌<◌, Bool, true, false, Option, none, some, List, [], ◌∷◌, ◌++◌, ◌≡◌,
  ◌≢◌, refl, arith, length, All, map, ◌==◌, if◌then◌else◌,
}

pub data File : Type 0 where
  memfd urandom shared : File

pub data FileCall : Type 0 where
  opens closes sizes : File → FileCall
  names : List ℕ → FileCall  -- the object that `shm_open` creates
  unlinks : List ℕ → FileCall

abbrev name_prefix : List ℕ
name_prefix = b'/' ∷ b'l' ∷ b'a' ∷ b'y' ∷ b'e' ∷ b'r' ∷ b'-' ∷ b's' ∷ b'h' ∷ b'm' ∷ b'-' ∷ []

abbrev pub placeholder : List ℕ
placeholder = b'X' ∷ b'X' ∷ b'X' ∷ b'X' ∷ b'X' ∷ b'X' ∷ []

-- `'a' + (c & 0xf)`.
abbrev pub letter : ℕ → ℕ
letter c = b'a' + c % 16

-- The first bytes are those that were read, where there are as many.
unfoldable pub overwritten : List ℕ → List ℕ → List ℕ
overwritten [] read = []
overwritten (x ∷ xs) [] = x ∷ xs
overwritten (x ∷ xs) (c ∷ read) = c ∷ overwritten xs read

-- The six bytes of the template, given what a read of them from /dev/urandom gives, if it is opened:
-- none where the read fails.
unfoldable pub filled_in : Option (Option (List ℕ)) → List ℕ
filled_in none = placeholder
filled_in (some none) = placeholder
filled_in (some (some read)) =
    let name = overwritten placeholder read in
    if length read == length placeholder then map letter name else name

unfoldable pub shm_name : Option (Option (List ℕ)) → List ℕ
shm_name random = name_prefix ++ filled_in random

abbrev pub random_calls : Option (Option (List ℕ)) → List FileCall
random_calls none = []
random_calls (some read) = closes urandom ∷ opens urandom ∷ []

-- The part after a memfd: whether `shm_open` succeeds, and the `ftruncate` of what it opens.
unfoldable pub shared_file : Option (Option (List ℕ)) → Option Bool → Option File × List FileCall
shared_file random none = (none, random_calls random)
shared_file random (some sized) =
    let name = shm_name random in
    let linked = unlinks name ∷ opens shared ∷ names name ∷ random_calls random in
    if sized then (some shared, sizes shared ∷ linked) else (none, closes shared ∷ linked)

-- `memfd_create` gives a descriptor or not, and its `ftruncate` succeeds or not.
unfoldable pub make_anon_fd :
    (memory : Option Bool)
    → (random : Option (Option (List ℕ))) → (object : Option Bool) → Option File × List FileCall
make_anon_fd none random object = shared_file random object
make_anon_fd (some true) random object = (some memfd, sizes memfd ∷ opens memfd ∷ [])
make_anon_fd (some false) random object =
    let (file, calls) = shared_file random object in
    (file, calls ++ closes memfd ∷ opens memfd ∷ [])

-- What is left open, and the names that are left, after some calls: none where a call is out of
-- order, such as a second file while one is open.
pub record Left : Type 0 where
  pub open_file : Option File
  pub is_sized : Bool
  pub name : Option (List ℕ)

abbrev pub same_file : File → File → Bool
same_file memfd memfd = true
same_file urandom urandom = true
same_file shared shared = true
same_file _ _ = false

unfoldable pub same_name : List ℕ → List ℕ → Bool
same_name [] [] = true
same_name (c ∷ cs) (d ∷ ds) = let rest = same_name cs ds in if c == d then rest else false
same_name _ _ = false

unfoldable pub settle : FileCall → Left → Option Left
settle (opens f) left = elim left.open_file [
  | none ↦ some (record left { open_file = some f; is_sized = false })
  | some g ↦ none
]
settle (closes f) left = elim left.open_file [
  | none ↦ none
  | some g ↦ if same_file f g then some (record left { open_file = none }) else none
]
settle (sizes f) left = elim left.open_file [
  | none ↦ none
  | some g ↦ if same_file f g then some (record left { is_sized = true }) else none
]
settle (names n) left = elim left.name [
  | none ↦ some (record left { name = some n })
  | some m ↦ none
]
settle (unlinks n) left = elim left.name [
  | none ↦ none
  | some m ↦ if same_name n m then some (record left { name = none }) else none
]

abbrev pub nothing_left : Left
nothing_left = record { open_file = none; is_sized = false; name = none }

unfoldable pub settle_next : FileCall → Option Left → Option Left
settle_next call none = none
settle_next call (some left) = settle call left

unfoldable pub left_after : List FileCall → Option Left
left_after [] = some nothing_left
left_after (call ∷ calls) = settle_next call (left_after calls)
