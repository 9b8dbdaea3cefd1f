-- ===== src/Buttons/Queries.antt =====
-- src/stylusbuttons.cpp: what the monitor asks of the system about input nodes: their paths, and the
-- name, the address and the keys of one. A C string is its bytes; the folder and the ioctl are given
-- by what they answer, and QString's conversions and sorting are Qt's.
pub mod Bounds
pub mod Names
mod Tests
use Prim.Native.String.{String, ◌++◌}
use Prim.Native.Nat.{◌^◌}
use stylus_popup.Prelude.{
  ℕ, zero, suc, ◌*◌, ◌/◌, ◌%◌, ◌+◌, Bool, true, false, not, ◌&&◌, ◌||◌, Option, none, some, List,
  [], ◌∷◌, leb, ◌==◌, get_elem?, if◌then◌else◌,
}

-- The bytes after a prefix, where a name has it: `strncmp(name, "event", 5)`.
unfoldable pub after_prefix : List ℕ → List ℕ → Option (List ℕ)
after_prefix [] name = some name
after_prefix (c ∷ cs) [] = none
after_prefix (c ∷ cs) (d ∷ name) = let rest = after_prefix cs name in if c == d then rest else none

-- `std::isdigit`.
abbrev pub is_digit : ℕ → Bool
is_digit c = leb b'0' c && leb c b'9'

-- The loop over the rest of the name.
unfoldable pub are_digits : List ℕ → Bool
are_digits [] = true
are_digits (c ∷ cs) = if not (is_digit c) then false else are_digits cs

abbrev pub event_prefix : List ℕ
event_prefix = b'e' ∷ b'v' ∷ b'e' ∷ b'n' ∷ b't' ∷ []

-- What is left of a name is a number.
unfoldable pub is_number : Option (List ℕ) → Bool
unfolding are_digits
is_number none = false
is_number (some []) = false
is_number (some (c ∷ cs)) = are_digits (c ∷ cs)

-- Whether an entry of the folder is an event node.
unfoldable pub is_event_name : List ℕ → Bool
is_event_name name = is_number (after_prefix event_prefix name)

module _ (from_latin1 : List ℕ → String) (sort : List String → List String) where
  -- The loop over the entries.
  unfoldable pub event_paths : List (List ℕ) → List String
  event_paths [] = []
  event_paths (name ∷ names) =
      let paths = event_paths names in
      if is_event_name name then ("/dev/input" ++ "/" ++ from_latin1 name) ∷ paths else paths

  -- The entries of the folder, where it could be opened.
  unfoldable pub input_event_paths : Option (List (List ℕ)) → List String
  input_event_paths none = []
  input_event_paths (some names) = sort (event_paths names)

-- A buffer of that size, filled with zeros, after an ioctl has written to it.
unfoldable pub filled {ℓ} : {A : Type ℓ} → A → ℕ → List A → List A
filled blank zero written = []
filled blank (suc size) [] = blank ∷ filled blank size []
filled blank (suc size) (c ∷ written) = c ∷ filled blank size written

-- `buf[sizeof buf - 1] = '\0'`.
unfoldable pub terminated : List ℕ → List ℕ
terminated [] = []
terminated (c ∷ []) = 0 ∷ []
terminated (c ∷ d ∷ buf) = c ∷ terminated (d ∷ buf)

-- The C string at the beginning of a buffer: none where reading it runs past the end.
unfoldable pub c_string : List ℕ → Option (List ℕ)
c_string [] = none
c_string (zero ∷ buf) = some []
c_string (suc c ∷ buf) = elim (c_string buf) [ none ↦ none | some text ↦ some (suc c ∷ text) ]

-- The string of EVIOCGNAME and of EVIOCGUNIQ, where the query succeeds: QString() is the empty one.
unfoldable pub query_text : ℕ → Option (List ℕ) → Option (List ℕ)
query_text size none = some []
query_text size (some written) = c_string (terminated (filled 0 size written))

abbrev pub evdev_name : Option (List ℕ) → Option (List ℕ)
evdev_name = query_text 256

abbrev pub evdev_uniq : Option (List ℕ) → Option (List ℕ)
evdev_uniq = query_text 64

abbrev pub key_max : ℕ
key_max = 767

-- Whether a bit of a word of 64 bits is set.
abbrev pub has_bit : ℕ → ℕ → Bool
has_bit word bit = not ((word / (2 ^ bit)) % 2 == 0)

unfoldable pub bit_of : Option ℕ → ℕ → Option Bool
bit_of none bit = none
bit_of (some word) bit = some (has_bit word bit)

-- The words of EVIOCGBIT, where the query succeeds: none where the code lies beyond the array.
unfoldable pub evdev_supports_key : Option (List ℕ) → ℕ → Option Bool
unfolding bit_of
evdev_supports_key none code = some false
evdev_supports_key (some words) code =
    bit_of (get_elem? (filled 0 (key_max / 64 + 1) words) (code / 64)) (code % 64)
