-- ===== src/Pen/Address.antt =====
-- src/stylusmonitor.cpp: the address that is formatted, and what every report of the driver satisfies.

use Prim.Native.String.{String}
use Prim.Native.Char.{Char, code}
use stylus_popup.Prelude.{
  All, ℕ, zero, suc, ◌+◌, ◌-◌, ◌*◌, ◌/◌, ◌%◌, ◌≤◌, ◌<◌, Bool, true, false, ◌&&◌, none, some, List,
  [], ◌∷◌, ◌≡◌, refl, sym, ap, ◌∙◌, arith, ◌==◌, leb, if◌then◌else◌,
}
use stylus_popup.Pen.{
  StylusState, Mac, Idtp9418Event, hex_digit, format_mac, is_mac_non_zero, state_of, event_of,
  ReadResult, interrupted, failed, received, read_state, run_reads,
}

-- The value of an upper-case hexadecimal digit.
abbrev digit_value : Char → ℕ
digit_value c = if leb (code c) b'9' then code c - b'0' else code c - 55

all_below : ℕ → (ℕ → Bool) → Bool
all_below zero p = true
all_below (suc n) p = p n && all_below n p

all_below_sound : (n : ℕ) (p : ℕ → Bool) (k : ℕ) → all_below n p ≡ true → k < n → p k ≡ true
unfolding all_below
all_below_sound zero p k h lt = absurd (omega arith)
all_below_sound (suc n) p k h lt = ground (arith, all_below_sound n p k)

digits_table : all_below 16 (λ n. digit_value (hex_digit n) == n) ≡ true
unfolding all_below
digits_table = refl

digit_value-hex_digit : (n : ℕ) → n < 16 → digit_value (hex_digit n) ≡ n
digit_value-hex_digit n h =
    ground (arith, all_below_sound 16 (λ k. digit_value (hex_digit k) == k) n digits_table h)

-- The bytes of a text of hexadecimal digits, two to a byte, with a separator between the bytes.
pub bytes_of : String → List ℕ
bytes_of String.[] = []
bytes_of (String.◌∷◌ c String.[]) = []
bytes_of (String.◌∷◌ c (String.◌∷◌ d String.[])) = (digit_value c * 16 + digit_value d) ∷ []
bytes_of (String.◌∷◌ c (String.◌∷◌ d (String.◌∷◌ s rest))) =
    (digit_value c * 16 + digit_value d) ∷ bytes_of rest

byte_value :
    (b : ℕ) → b < 256 → digit_value (hex_digit (b / 16)) * 16 + digit_value (hex_digit (b % 16)) ≡ b
byte_value b h = omega (
  arith,
  digit_value-hex_digit (b / 16) (omega arith),
  digit_value-hex_digit (b % 16) (omega arith),
)

pub record IsBytes (m : Mac) : Type 0 where
  pub b0 : m.m0 < 256
  pub b1 : m.m1 < 256
  pub b2 : m.m2 < 256
  pub b3 : m.m3 < 256
  pub b4 : m.m4 < 256
  pub b5 : m.m5 < 256

cons_eq : {a b : ℕ} {xs ys : List ℕ} → a ≡ b → xs ≡ ys → a ∷ xs ≡ b ∷ ys
cons_eq p q = cc

-- Read back two digits at a time, the address of six bytes gives those bytes, from the last of the
-- array to the first.
pub bytes_of-format_mac :
    (m : Mac) → IsBytes m → bytes_of (format_mac m) ≡ m.m5 ∷ m.m4 ∷ m.m3 ∷ m.m2 ∷ m.m1 ∷ m.m0 ∷ []
unfolding bytes_of format_mac
bytes_of-format_mac m h = cons_eq (byte_value m.m5 h.b5) (
    cons_eq (byte_value m.m4 h.b4) (
      cons_eq (byte_value m.m3 h.b3) (
        cons_eq (byte_value m.m2 h.b2)
          (cons_eq (byte_value m.m1 h.b1) (cons_eq (byte_value m.m0 h.b0) refl)))))

-- The text of the address that has no digit but 0.
abbrev pub zero_address : String
zero_address = "00:00:00:00:00:00"

-- A report: the capacity is a percentage, and the address is valid unless it is all zeros.
pub record IsReport (s : StylusState) : Type 0 where
  pub percent : s.capacity ≤ 100
  pub invalid_zero : s.mac_valid ≡ false → s.mac_address ≡ zero_address
  pub zero_invalid : s.mac_address ≡ zero_address → s.mac_valid ≡ false

-- What a read delivers is bytes.
abbrev pub AreBytes : List ReadResult → Type 0
AreBytes [] = Unit {0}
AreBytes (received bytes ∷ reads) = All (λ b. b < 256) bytes × AreBytes reads
AreBytes (_ ∷ reads) = AreBytes reads

zero_of_invalid : (m : Mac) → is_mac_non_zero m ≡ false → format_mac m ≡ zero_address
unfolding is_mac_non_zero
zero_of_invalid m h = ap format_mac zeros ∙ unfold format_mac in refl
  where
    zeros : m ≡ record { m0 = 0; m1 = 0; m2 = 0; m3 = 0; m4 = 0; m5 = 0 }
    zeros = ground arith

invalid_of_zero : (m : Mac) → IsBytes m → format_mac m ≡ zero_address → is_mac_non_zero m ≡ false
unfolding is_mac_non_zero bytes_of
invalid_of_zero m h e =
    let same : m.m5 ∷ m.m4 ∷ m.m3 ∷ m.m2 ∷ m.m1 ∷ m.m0 ∷ [] ≡ 0 ∷ 0 ∷ 0 ∷ 0 ∷ 0 ∷ 0 ∷ [] =
      sym (bytes_of-format_mac m h) ∙ ap bytes_of e in
    ground (arith, same)

state_of-IsReport : (evt : Idtp9418Event) → IsBytes evt.pen_mac → IsReport (state_of evt)
unfolding state_of
state_of-IsReport evt h = record {
  percent = omega arith;
  invalid_zero = zero_of_invalid evt.pen_mac;
  zero_invalid = invalid_of_zero evt.pen_mac h;
}

event_of-IsBytes :
    (bytes : List ℕ) (evt : Idtp9418Event)
    → All (λ b. b < 256) bytes
    → event_of bytes ≡ some evt
    → IsBytes evt.pen_mac
event_of-IsBytes (b0 ∷ b1 ∷ b2 ∷ b3 ∷ b4 ∷ b5 ∷ b6 ∷ b7 ∷ b8 ∷ b9 ∷ b10 ∷ []) evt h e = ground arith
event_of-IsBytes _ evt h e = cc

-- Every state that the thread emits, whatever the reads deliver, has a capacity of 100 at most, and
-- its address is invalid exactly where its text is all zeros.
run_reads-IsReport : (reads : List ReadResult) → AreBytes reads → All IsReport (run_reads reads)
unfolding run_reads
run_reads-IsReport [] h = tt
run_reads-IsReport (interrupted ∷ reads) h = run_reads-IsReport reads h
run_reads-IsReport (failed ∷ reads) h = tt
run_reads-IsReport (received bytes ∷ reads) (h, hs) =
    elim (event_of bytes)
        as (λ o.
          event_of bytes ≡ o
          → All IsReport (elim o [ none ↦ [] | some evt ↦ state_of evt ∷ run_reads reads ])) [
            | none ↦ λ short. tt
            | some evt ↦ λ whole. (
              state_of-IsReport evt (event_of-IsBytes bytes evt h whole),
              run_reads-IsReport reads hs,
            )
          ]
      refl

-- The thread emits what one `readState` after another reads, as long as they succeed: it goes on
-- with the reads that the last call left, and ends at a call that fails or blocks.
run_reads-read_state :
    (reads : List ReadResult)
    → run_reads reads ≡ elim (read_state reads) [
      | none ↦ []
      | some (none, rest) ↦ []
      | some (some s, rest) ↦ s ∷ run_reads rest
    ]
unfolding run_reads read_state
run_reads-read_state [] = refl
run_reads-read_state (interrupted ∷ reads) = run_reads-read_state reads
run_reads-read_state (failed ∷ reads) = refl
run_reads-read_state (received bytes ∷ reads) = ground arith
