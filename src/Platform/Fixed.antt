-- ===== src/Platform/Fixed.antt =====
-- A platform for the tests: fixed-point numbers with three decimals in place of `qreal`.
use stylus_popup.Prelude.{
  ℕ, zero, suc, ◌+◌, ◌*◌, ◌/◌, Bool, true, false, ℤ, pos, negsuc, pos_part, neg_part, ltb_ℤ, ◌+ℤ◌,
  ◌-ℤ◌,
}
use stylus_popup.Platform.{Platform}

abbrev negated : ℤ → ℤ
negated (pos zero) = pos 0
negated (pos (suc n)) = negsuc n
negated (negsuc n) = pos (suc n)

-- A magnitude, negated where the flags differ.
abbrev signed : Bool → Bool → ℕ → ℤ
signed true true n = pos n
signed false false n = pos n
signed true false n = negated (pos n)
signed false true n = negated (pos n)

abbrev magnitude : ℤ → ℕ
magnitude a = pos_part a + neg_part a

abbrev is_negative : ℤ → Bool
is_negative (pos n) = false
is_negative (negsuc n) = true

abbrev pub fixed : Platform
fixed = record {
  Real = ℤ;
  lit = λ n d. pos (n * 1000 / d);
  of_int = λ n. signed (is_negative n) false (magnitude n * 1000);
  add = ◌+ℤ◌;
  sub = ◌-ℤ◌;
  mul = λ a b. signed (is_negative a) (is_negative b) (magnitude a * magnitude b / 1000);
  div = λ a b. signed (is_negative a) (is_negative b) (magnitude a * 1000 / magnitude b);
  neg = negated;
  abs = λ a. pos (magnitude a);
  lt = ltb_ℤ;
  ceil = λ a. pos ((pos_part a + 999) / 1000);
  advance = λ text. pos 48000;
  is_chinese = false;
}
