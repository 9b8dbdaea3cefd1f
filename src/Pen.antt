-- ===== src/Pen.antt =====
-- src/stylusmonitor.h and src/stylusmonitor.cpp: the driver's state of the pen, read from
-- /dev/idtp9418. A byte is a number below 256, and the outcome of each read is given.
pub mod Address
pub mod Threads
mod Tests
use Prim.Native.String.{String}
use Prim.Native.Char.{Char}
use Prim.Native.Nat.{min}
use stylus_popup.Prelude.{
  ℕ, zero, suc, ◌/◌, ◌%◌, Bool, false, not, ◌||◌, Option, none, some, List, [], ◌∷◌, ◌==◌,
  if◌then◌else◌,
}

pub data StylusPhase : Type 0 where
  attaching complete : StylusPhase

pub record StylusState : Type 0 where
  pub attached : Bool
  pub charging : Bool
  pub capacity : ℕ
  pub limit : ℕ
  pub mac_address : String
  pub mac_valid : Bool
  pub phase : StylusPhase

abbrev pub default_state : StylusState
default_state = record {
  attached = false;
  charging = false;
  capacity = 0;
  limit = 85;
  mac_address = "";
  mac_valid = false;
  phase = complete;
}

-- The six bytes of `pen_mac`, in the order of the array.
pub record Mac : Type 0 where
  pub m0 : ℕ
  pub m1 : ℕ
  pub m2 : ℕ
  pub m3 : ℕ
  pub m4 : ℕ
  pub m5 : ℕ

pub record Idtp9418Event : Type 0 where
  pub soc : ℕ
  pub is_charging : ℕ
  pub is_attached : ℕ
  pub charge_limit : ℕ
  pub pen_mac : Mac
  pub state : ℕ

-- The character at a position of a text that is long enough.
abbrev char_at : String → ℕ → Char
char_at String.[] i = "0"
char_at (String.◌∷◌ c s) zero = c
char_at (String.◌∷◌ c s) (suc i) = char_at s i

abbrev hex_digit : ℕ → Char
hex_digit n = char_at "0123456789ABCDEF" n

-- A byte as two upper-case hexadecimal digits, before a text.
abbrev hex_byte : ℕ → String → String
hex_byte b rest = String.◌∷◌ (hex_digit (b / 16)) (String.◌∷◌ (hex_digit (b % 16)) rest)

unfoldable pub format_mac : Mac → String
format_mac m = hex_byte m.m5 (
    sep (
      hex_byte m.m4
        (sep (hex_byte m.m3 (sep (hex_byte m.m2 (sep (hex_byte m.m1 (sep (hex_byte m.m0 ""))))))))))
  where
    sep : String → String
    sep s = String.◌∷◌ ":" s

unfoldable pub is_mac_non_zero : Mac → Bool
is_mac_non_zero m =
    not (m.m0 == 0)
    || not (m.m1 == 0)
    || not (m.m2 == 0)
    || not (m.m3 == 0)
    || not (m.m4 == 0)
    || not (m.m5 == 0)

-- The outcome of one `read`: -1 with EINTR, -1 otherwise, or the bytes that came.
pub data ReadResult : Type 0 where
  interrupted failed : ReadResult
  received : List ℕ → ReadResult

-- The bytes laid over the packed struct, where there are as many as it has.
abbrev event_of : List ℕ → Option Idtp9418Event
event_of (b0 ∷ b1 ∷ b2 ∷ b3 ∷ b4 ∷ b5 ∷ b6 ∷ b7 ∷ b8 ∷ b9 ∷ b10 ∷ []) = some (record {
  soc = b0;
  is_charging = b1;
  is_attached = b2;
  charge_limit = b3;
  pen_mac = record { m0 = b4; m1 = b5; m2 = b6; m3 = b7; m4 = b8; m5 = b9 };
  state = b10;
})
event_of _ = none

unfoldable pub state_of : Idtp9418Event → StylusState
unfolding format_mac is_mac_non_zero
state_of evt = record {
  attached = not (evt.is_attached == 0);
  charging = not (evt.is_charging == 0);
  capacity = min evt.soc 100;
  limit = evt.charge_limit;
  mac_address = format_mac evt.pen_mac;
  mac_valid = is_mac_non_zero evt.pen_mac;
  phase = if evt.state == 1 then attaching else complete;
}

abbrev state_of_event : Option Idtp9418Event → Option StylusState
state_of_event none = none
state_of_event (some evt) = some (state_of evt)

-- The reads that one call makes, in order, and what is left of them. Where none is left the call
-- blocks, which is the outer `none`.
unfoldable pub read_state : List ReadResult → Option (Option StylusState × List ReadResult)
unfolding state_of
read_state [] = none
read_state (interrupted ∷ rest) = read_state rest
read_state (failed ∷ rest) = some (none, rest)
read_state (received bytes ∷ rest) = some (state_of_event (event_of bytes), rest)

-- `run` while the thread is not stopped: the states that it emits, until a read fails or blocks.
unfoldable pub run_reads : List ReadResult → List StylusState
unfolding state_of
run_reads [] = []
run_reads (interrupted ∷ rest) = run_reads rest
run_reads (failed ∷ rest) = []
run_reads (received bytes ∷ rest) =
    let later = run_reads rest in
    elim (event_of bytes) [ none ↦ [] | some evt ↦ state_of evt ∷ later ]
