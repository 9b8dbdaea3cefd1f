-- ===== src/Buttons/Timeout.antt =====
-- src/stylusbuttons.cpp: the poll timeout as the gesture timer, and the flush after it.
use stylus_popup.Prelude.{
  ℕ, suc, none, List, [], ◌∷◌, ℤ, pos, negsuc, ◌≤ℤ◌, ◌-ℤ◌, ◌≡◌, refl, ◌⊎◌, inl, inr, Option-cases,
  arith, -ℤ_parts,
}
use stylus_popup.Gesture.{ButtonGestureDetector, tick, deadline_ms}
use stylus_popup.Buttons.{Node}
use stylus_popup.Buttons.Deadlines.{
  earlier, earliest_deadline, next_timeout_ms, rescan_ms, flush_detector, flush_fuel,
}

-- For every detector of the nodes.
abbrev pub AllDetectors : (ButtonGestureDetector → Type 0) → List Node → Type 0
AllDetectors P [] = Unit {0}
AllDetectors P (node ∷ nodes) =
    P node.primary_detector × P node.secondary_detector × AllDetectors P nodes

-- A deadline that is set is not before that time.
abbrev IsAfter : ℤ → ℤ → Type 0
IsAfter e deadline = pos 0 ≤ℤ deadline → (pos 0 ≤ℤ e) × (e ≤ℤ deadline)

earlier-IsAfter :
    (deadline e : ℤ) → IsAfter (earlier deadline e) deadline × IsAfter (earlier deadline e) e
unfolding earlier
earlier-IsAfter deadline e = (λ h. ground arith, λ h. ground arith)

earliest-IsAfter :
    (e : ℤ) (nodes : List Node)
    → IsAfter (earliest_deadline e nodes) e
      × AllDetectors (λ d. IsAfter (earliest_deadline e nodes) (deadline_ms d)) nodes
unfolding earliest_deadline
earliest-IsAfter e [] = ((λ h. (h, omega arith)), tt)
earliest-IsAfter e (node ∷ nodes) =
    let d = deadline_ms node.primary_detector in
    let e₂ = deadline_ms node.secondary_detector in
    let (first, rest) = earliest-IsAfter (earlier e₂ (earlier d e)) nodes in
    let (second, kept) = earlier-IsAfter e₂ (earlier d e) in
    let (third, kept') = earlier-IsAfter d e in
    (
      (λ h. ground (arith, first, second, kept, third, kept')),
      (
        (λ h. ground (arith, first, second, kept, third, kept')),
        (λ h. ground (arith, first, second, kept)),
        rest,
      ),
    )

-- What holds of one detector whenever another thing does holds of all.
AllDetectors-map :
    (P Q : ButtonGestureDetector → Type 0)
    → ((d : ButtonGestureDetector) → P d → Q d)
    → (nodes : List Node) → AllDetectors P nodes
    → AllDetectors Q nodes
AllDetectors-map P Q f [] h = tt
AllDetectors-map P Q f (node ∷ nodes) (p, s, h) = (f _ p, f _ s, AllDetectors-map P Q f nodes h)

-- The timeout is between 0 and the period of the re-scan, and no detector's deadline that is set
-- passes during it: the timeout ends at that deadline at the latest, or the deadline is not in the
-- future.
pub next_timeout-covers :
    (now : ℤ) (nodes : List Node)
    → let t = next_timeout_ms now nodes in
      (pos 0 ≤ℤ t)
      × (t ≤ℤ rescan_ms)
      × AllDetectors
          (λ d. pos 0 ≤ℤ deadline_ms d → (t ≤ℤ deadline_ms d -ℤ now) ⊎ (deadline_ms d ≤ℤ now))
          nodes
unfolding next_timeout_ms
next_timeout-covers now nodes =
    let e = earliest_deadline (negsuc 0) nodes in
    (
      ground (arith, -ℤ_parts e now),
      ground (arith, -ℤ_parts e now),
      AllDetectors-map (λ d. IsAfter e (deadline_ms d)) _
          (λ d h due. ground (arith, h, -ℤ_parts e now, -ℤ_parts (deadline_ms d) now)) nodes
          (earliest-IsAfter (negsuc 0) nodes).1,
    )

tick_settles : (d : ButtonGestureDetector) (now : ℤ) → (tick (tick d now).0 now).1 ≡ none
unfolding tick
tick_settles d now = ground arith

tick-none : (d : ButtonGestureDetector) (now : ℤ) → (tick d now).1 ≡ none → (tick d now).0 ≡ d
unfolding tick
tick-none d now h = ground arith

-- The loop of ticks ends: with the two rounds of the fuel, and with any more, it makes the same
-- tick of the detector, and leaves a detector at which no tick at that time produces a gesture.
flush_detector-settles :
    (more : ℕ) (now : ℤ) (d : ButtonGestureDetector)
    → let e = (flush_detector flush_fuel now d).0 in
      (flush_detector (suc (suc more)) now d ≡ flush_detector flush_fuel now d)
      × (e ≡ (tick d now).0)
      × ((tick e now).1 ≡ none)
unfolding flush_detector
flush_detector-settles more now d =
    let settled = tick_settles d now in
    let same = tick-none (tick d now).0 now settled in
    elim (Option-cases (tick d now).1) [
      | inl none_fired ↦ rw (flush_detector, none_fired) (refl, refl, settled)
      | inr (g, fired) ↦ rw (flush_detector, fired, settled, same) (refl, refl, settled)
    ]
