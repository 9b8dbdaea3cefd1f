-- ===== src/Gesture/Budget.antt =====
-- src/stylusgestures.h: "one press produces at most one gesture". The accounts of a whole history
-- of calls, and where auto-repeat breaks the promise.
use stylus_popup.Prelude.{
  ℕ, suc, ◌+◌, ◌≤◌, true, false, not, ◌&&◌, ◌||◌, Option, none, some, List, [], ◌∷◌, ℤ, pos, ◌≤ℤ◌,
  ◌<ℤ◌, ◌-ℤ◌, leb_ℤ, if◌then◌else◌, ◌≡◌, ◌≢◌, refl, arith,
}
use stylus_popup.Gesture.{
  StylusGesture, single, double_click, long_press, GestureTiming, ButtonGestureDetector, configure,
  feed,
}
use stylus_popup.Gesture.Phases.{
  IsConsistent, Call, presses, releases, repeats, ticks, call, configure-IsConsistent,
  call-IsConsistent,
}

-- A gesture uses up one press, and a double click two.
abbrev pub cost : Option StylusGesture → ℕ
cost none = 0
cost (some single) = 1
cost (some double_click) = 2
cost (some long_press) = 1

-- The calls of a history, each at its time, and what their gestures cost together.
pub spent : ButtonGestureDetector → List (Call × ℤ) → ℕ
spent d [] = 0
spent d ((c, now) ∷ cs) = cost (call c d now).1 + spent (call c d now).0 cs

pub press_count : List (Call × ℤ) → ℕ
press_count [] = 0
press_count ((presses, now) ∷ cs) = suc (press_count cs)
press_count ((_, now) ∷ cs) = press_count cs

-- No auto-repeat, and no time before the clock's start.
abbrev pub IsPlain : List (Call × ℤ) → Type 0
IsPlain [] = Unit {0}
IsPlain ((c, now) ∷ cs) = (c ≢ repeats) × (pos 0 ≤ℤ now) × IsPlain cs

-- The press that the detector still owes a gesture for.
abbrev credit : ButtonGestureDetector → ℕ
credit d =
    if d.down && not d.double_fired && not d.long_fired || leb_ℤ (pos 0) d.pending_single
    then 1
    else 0

abbrev presses_of : Call → ℕ
presses_of presses = 1
presses_of _ = 0

call-credit :
    (c : Call) (d : ButtonGestureDetector) (now : ℤ)
    → c ≢ repeats
    → IsConsistent d
    → cost (call c d now).1 + credit (call c d now).0 ≤ credit d + presses_of c
unfolding call
call-credit presses d now n v = ground arith
call-credit releases d now n v = ground arith
call-credit repeats d now n v = absurd (n refl)
call-credit ticks d now n v = ground arith

spent-le-credit :
    (d : ButtonGestureDetector) (cs : List (Call × ℤ))
    → IsConsistent d
    → IsPlain cs
    → spent d cs ≤ credit d + press_count cs
unfolding spent press_count
spent-le-credit d [] v p = omega arith
spent-le-credit d ((presses, now) ∷ cs) v (n, h, p) = omega (
  arith,
  call-credit presses d now n v,
  spent-le-credit (call presses d now).0 cs (call-IsConsistent presses d now h v).0 p,
)
spent-le-credit d ((c, now) ∷ cs) v (n, h, p) = omega (
  arith,
  call-credit c d now n v,
  spent-le-credit (call c d now).0 cs (call-IsConsistent c d now h v).0 p,
)

-- From a configured detector, over every history without auto-repeats: the single clicks, the long
-- presses and twice the double clicks together are no more than the presses.
spent-le-press_count :
    (g : GestureTiming) (d : ButtonGestureDetector) (cs : List (Call × ℤ))
    → IsPlain cs
    → spent (configure g d) cs ≤ press_count cs
spent-le-press_count g d cs p =
    omega (arith, spent-le-credit (configure g d) cs (configure-IsConsistent g d) p, unowed)
  where
    unowed : credit (configure g d) ≡ 0
    unowed = unfold configure in refl

-- An auto-repeat before the long-press threshold, and one at or after it, of a single undecided
-- hold: the first produces a single click and the second a long press.
pub repeat-two_gestures :
    (d : ButtonGestureDetector) (early late : ℤ)
    → d.down ≡ true
    → d.double_fired ≡ false
    → d.long_fired ≡ false
    → early -ℤ d.pressed_at <ℤ d.timing.long_press_ms
    → d.timing.long_press_ms ≤ℤ late -ℤ d.pressed_at
    → ((feed d (pos 2) early).1 ≡ some single)
      × ((feed (feed d (pos 2) early).0 (pos 2) late).1 ≡ some long_press)
unfolding feed
repeat-two_gestures d early late down undoubled unfired e l = ground arith
