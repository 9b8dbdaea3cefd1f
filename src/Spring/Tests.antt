-- ===== src/Spring/Tests.antt =====
-- A spring of the fixed-point platform that arrives.
use stylus_popup.Prelude.{true, ℤ, pos, ◌+ℤ◌, ◌-ℤ◌, ◌≡◌, refl, arith}
use stylus_popup.Platform.Fixed.{fixed}
use stylus_popup.Spring.{Spring, fresh_spring, settled, euler, euler_rounds, step}
use stylus_popup.Spring.Resting.{RestLaws, IsResting, step-settles}

fixed-RestLaws : RestLaws fixed
unfolding ◌+ℤ◌ ◌-ℤ◌
fixed-RestLaws = record {
  sub_self = λ a. ground arith;
  mul_zero = λ a. ground arith;
  zero_mul = λ a. ground arith;
  add_zero = λ a. ground arith;
}

-- Almost there, a sixtieth of a second before it settles.
abbrev arriving : Spring ℤ
arriving = record (fresh_spring fixed) { value = pos 980; target = pos 1000; velocity = pos 100 }

arriving-settled : settled fixed (step fixed (pos 16) arriving) ≡ true
unfolding settled step euler_rounds euler ◌+ℤ◌ ◌-ℤ◌
arriving-settled = refl

step-settles_example :
    IsResting fixed fixed-RestLaws (step fixed (pos 16) arriving)
    × (step fixed (pos 7) (step fixed (pos 16) arriving) ≡ step fixed (pos 16) arriving)
step-settles_example = step-settles fixed fixed-RestLaws (pos 16) (pos 7) arriving arriving-settled
