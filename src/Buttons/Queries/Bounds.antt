-- ===== src/Buttons/Queries/Bounds.antt =====
-- src/stylusbuttons.cpp: the queries stay within their buffers, and the nodes that are looked at are
-- those that are named "event" and a number.
use stylus_popup.Prelude.{
  ℕ, zero, suc, ◌+◌, ◌/◌, ◌%◌, ◌≤◌, ◌<◌, Bool, false, Option, none, some, List, [], ◌∷◌, ◌≡◌, ◌≢◌,
  refl, arith, length, get_elem?, All, ap,
}
use stylus_popup.Buttons.Queries.{
  filled, terminated, c_string, query_text, evdev_name, evdev_uniq, key_max, has_bit, bit_of,
  evdev_supports_key,
}

length-filled {ℓ} :
    {A : Type ℓ} (blank : A) (size : ℕ) (written : List A)
    → length (filled blank size written) ≡ size
unfolding filled
length-filled blank zero written = refl
length-filled blank (suc size) [] = ap suc (length-filled blank size [])
length-filled blank (suc size) (c ∷ written) = ap suc (length-filled blank size written)

get_elem?-some {ℓ} :
    {A : Type ℓ} (xs : List A) (i : ℕ) → i < length xs → (x : A) × (get_elem? xs i ≡ some x)
get_elem?-some [] i b = ground (arith, b)
get_elem?-some (x ∷ xs) zero b = (x, refl)
get_elem?-some (x ∷ xs) (suc i) b = get_elem?-some xs i (omega arith)

-- A buffer that is not empty holds a C string once its last byte is cleared, shorter than the buffer.
c_string-terminated :
    (c : ℕ) (buf : List ℕ)
    → (text : List ℕ) × (c_string (terminated (c ∷ buf)) ≡ some text)
      × (length text ≤ length buf)
      × All (λ c. c ≢ 0) text
unfolding c_string terminated
c_string-terminated c [] = ([], refl, omega arith, tt)
c_string-terminated zero (d ∷ buf) = ([], refl, omega arith, tt)
c_string-terminated (suc c) (d ∷ buf) =
    let (text, reads, short, full) = c_string-terminated d buf in
    (suc c ∷ text, rw (reads) refl, omega arith, (omega arith, full))

query_text-fits :
    (size : ℕ) (answer : Option (List ℕ))
    → 0 < size
    → (text : List ℕ) × (query_text size answer ≡ some text)
      × (length text < size)
      × All (λ c. c ≢ 0) text
unfolding query_text filled
query_text-fits size none b = ([], refl, b, tt)
query_text-fits zero (some written) b = ground (arith, b)
query_text-fits (suc size) (some []) b =
    let (text, reads, short, full) = c_string-terminated 0 (filled 0 size []) in
    (text, reads, omega (arith, short, length-filled {A = ℕ} 0 size []), full)
query_text-fits (suc size) (some (c ∷ written)) b =
    let (text, reads, short, full) = c_string-terminated c (filled 0 size written) in
    (text, reads, omega (arith, short, length-filled {A = ℕ} 0 size written), full)

evdev_supports_key-answers :
    (words : Option (List ℕ)) (code : ℕ)
    → code ≤ key_max
    → (b : Bool) × (evdev_supports_key words code ≡ some b)
unfolding evdev_supports_key bit_of
evdev_supports_key-answers none code b = (false, refl)
evdev_supports_key-answers (some words) code b =
    let (word, found) =
      get_elem?-some (filled 0 (key_max / 64 + 1) words) (code / 64)
        (omega (arith, length-filled {A = ℕ} 0 (key_max / 64 + 1) words)) in
    (has_bit word (code % 64), ap (λ o. bit_of o (code % 64)) found)

-- Whatever the kernel writes, and for each key code up to KEY_MAX: the name and the address that are
-- read have fewer bytes than their buffers, none of them zero, and the bit of a key lies within the
-- array.
pub queries-fit :
    (name uniq words : Option (List ℕ)) (code : ℕ)
    → code ≤ key_max
    → ((text : List ℕ) × (evdev_name name ≡ some text)
        × (length text < 256)
        × All (λ c. c ≢ 0) text)
      × ((text : List ℕ) × (evdev_uniq uniq ≡ some text)
          × (length text < 64)
          × All (λ c. c ≢ 0) text)
      × ((b : Bool) × (evdev_supports_key words code ≡ some b))
queries-fit name uniq words code b = (
  query_text-fits 256 name (omega arith),
  query_text-fits 64 uniq (omega arith),
  evdev_supports_key-answers words code b,
)
