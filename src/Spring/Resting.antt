-- ===== src/Spring/Resting.antt =====
-- src/spring.h: a spring that has settled is at rest, and stays there.
use stylus_popup.Prelude.{
  ℕ, zero, suc, Bool, true, false, ◌≡◌, refl, sym, ap, ◌∙◌, arith, if_elim, if◌then◌else◌,
}
use stylus_popup.Platform.{Platform}
use stylus_popup.Spring.{Spring, euler, euler_rounds, settled, step}

-- What is used of the arithmetic: it holds of finite floating-point numbers, whose two zeros are equal.
pub record RestLaws (platform : Platform) : Type 0 where
  pub sub_self : (a : platform.Real) → platform.sub a a ≡ platform.lit 0 1
  pub mul_zero : (a : platform.Real) → platform.mul a (platform.lit 0 1) ≡ platform.lit 0 1
  pub zero_mul : (a : platform.Real) → platform.mul (platform.lit 0 1) a ≡ platform.lit 0 1
  pub add_zero : (a : platform.Real) → platform.add a (platform.lit 0 1) ≡ a

module _ (platform : Platform) (laws : RestLaws platform) where
  open platform use {Real, lit, sub, mul, neg, add}
  open laws use {sub_self, mul_zero, zero_mul, add_zero}

  pub record IsResting (s : Spring Real) : Type 0 where
    pub arrived : s.value ≡ s.target
    pub still : s.velocity ≡ lit 0 1

  euler-rests : (h : Real) (s : Spring Real) → IsResting s → euler platform h s ≡ s
  unfolding euler
  euler-rests h s v =
      let away : sub s.value s.target ≡ lit 0 1 =
        ap (λ x. sub x s.target) v.arrived ∙ sub_self s.target in
      let pull : mul (neg s.stiffness) (sub s.value s.target) ≡ lit 0 1 =
        ap (mul (neg s.stiffness)) away ∙ mul_zero (neg s.stiffness) in
      let drag : mul s.damping s.velocity ≡ lit 0 1 =
        ap (mul s.damping) v.still ∙ mul_zero s.damping in
      let force : sub (mul (neg s.stiffness) (sub s.value s.target)) (mul s.damping s.velocity)
          ≡ lit 0 1 =
        ap (λ x. sub x (mul s.damping s.velocity)) pull
        ∙ ap (sub (lit 0 1)) drag
        ∙ sub_self (lit 0 1) in
      let kept : (x : Real) → add x (mul (lit 0 1) h) ≡ x =
        λ x. ap (add x) (zero_mul h) ∙ add_zero x in
      let same : Real → Spring Real =
        λ x. record s { velocity = x; value = add s.value (mul x h) } in
      ap same (ap (λ x. add s.velocity (mul x h)) force ∙ kept s.velocity ∙ v.still)
      ∙ ap (λ x. record s { velocity = lit 0 1; value = x }) (kept s.value)
      ∙ ap (λ x. record s { velocity = x }) (sym v.still)

  euler_rounds-rests :
      (n : ℕ) (h : Real) (s : Spring Real) → IsResting s → euler_rounds platform n h s ≡ s
  unfolding euler_rounds
  euler_rounds-rests zero h s v = refl
  euler_rounds-rests (suc n) h s v =
      ap (euler_rounds platform n h) (euler-rests h s v) ∙ euler_rounds-rests n h s v

  step-rests : (dt : Real) (s : Spring Real) → IsResting s → step platform dt s ≡ s
  unfolding step
  step-rests dt s v = rw (euler_rounds-rests _ _ s v) (
      if_elim (λ t. t ≡ s) (settled platform s)
        (λ _.
          ap (λ x. record s { value = x; velocity = lit 0 1 }) (sym v.arrived)
          ∙ ap (λ x. record s { velocity = x }) (sym v.still))
        (λ _. refl))

  snapped : Bool → Spring Real → Spring Real
  snapped b moved = if b then record moved { value = moved.target; velocity = lit 0 1 } else moved

  snapped-IsResting :
      (b : Bool) (moved : Spring Real)
      → settled platform moved ≡ b
      → settled platform (snapped b moved) ≡ true
      → IsResting (snapped b moved)
  unfolding snapped
  snapped-IsResting true moved e there = record { arrived = refl; still = refl }
  snapped-IsResting false moved e there = ground (arith, e, there)

  step-IsResting :
      (dt : Real) (s : Spring Real)
      → settled platform (step platform dt s) ≡ true
      → IsResting (step platform dt s)
  unfolding step snapped
  step-IsResting dt s e = snapped-IsResting _ _ refl e

  -- A spring that has settled after a step has its target as value and no velocity, and no later step
  -- of any length moves it.
  pub step-settles :
      (dt later : Real) (s : Spring Real)
      → settled platform (step platform dt s) ≡ true
      → IsResting (step platform dt s)
        × (step platform later (step platform dt s) ≡ step platform dt s)
  step-settles dt later s e =
      let v = step-IsResting dt s e in (v, step-rests later (step platform dt s) v)
