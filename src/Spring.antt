-- ===== src/Spring.antt =====
-- src/spring.h: the damped spring behind every animated value.
pub mod Resting
mod Tests
use stylus_popup.Prelude.{ℕ, zero, suc, Bool, ◌&&◌, pos, pos_part, if◌then◌else◌}
use stylus_popup.Platform.{Platform}

pub record Spring (R : Type 0) : Type 0 where
  pub value : R
  pub velocity : R
  pub target : R
  pub stiffness : R
  pub damping : R
  pub epsilon : R

-- `qMax(1, n)`.
abbrev pub at_least_one : ℕ → ℕ
at_least_one zero = 1
at_least_one (suc n) = suc n

module _ (platform : Platform) where
  open platform use {Real, lit, of_int, add, sub, mul, div, neg, abs, lt, ceil}

  -- A spring as its members' initialisers leave it.
  abbrev pub fresh_spring : Spring Real
  fresh_spring = record {
    value = lit 0 1;
    velocity = lit 0 1;
    target = lit 0 1;
    stiffness = lit 380 1;
    damping = lit 26 1;
    epsilon = lit 5 10;
  }

  -- qMin, qMax and qBound.
  abbrev pub real_min : Real → Real → Real
  real_min a b = if lt a b then a else b

  abbrev pub real_max : Real → Real → Real
  real_max a b = if lt a b then b else a

  abbrev pub bound : Real → Real → Real → Real
  bound low x high = real_max low (real_min high x)

  unfoldable pub configure : Real → Real → Spring Real → Spring Real
  configure k c s = record s { stiffness = k; damping = c }

  unfoldable pub settled : Spring Real → Bool
  settled s = lt (abs (sub s.value s.target)) s.epsilon && lt (abs s.velocity) s.epsilon

  -- One round of the loop, over a time of `h`: semi-implicit Euler, the velocity first.
  unfoldable pub euler : Real → Spring Real → Spring Real
  euler h s =
      let accel = sub (mul (neg s.stiffness) (sub s.value s.target)) (mul s.damping s.velocity) in
      let velocity' = add s.velocity (mul accel h) in
      record s { velocity = velocity'; value = add s.value (mul velocity' h) }

  unfoldable pub euler_rounds : ℕ → Real → Spring Real → Spring Real
  unfolding euler
  euler_rounds zero h s = s
  euler_rounds (suc n) h s = euler_rounds n h (euler h s)

  -- `qMax(1, static_cast<int>(std::ceil(dt * 240.0)))`.
  abbrev pub sub_steps : Real → ℕ
  sub_steps dt = at_least_one (pos_part (ceil (mul dt (lit 240 1))))

  unfoldable pub step : Real → Spring Real → Spring Real
  unfolding euler_rounds settled
  step elapsed s =
      let dt = bound (lit 0 1) elapsed (div (lit 1 1) (lit 30 1)) in
      let steps = sub_steps dt in
      let moved = euler_rounds steps (div dt (of_int (pos steps))) s in
      if settled moved then record moved { value = moved.target; velocity = lit 0 1 } else moved

  unfoldable pub snap : Real → Spring Real → Spring Real
  snap v s = record s { value = v; target = v; velocity = lit 0 1 }
