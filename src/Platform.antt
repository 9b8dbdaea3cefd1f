-- ===== src/Platform.antt =====
-- What the popup's code takes from the platform: the floating-point type `qreal` with its
-- operations, the width that a label takes in the compact font, and the language of the system.
pub mod Fixed
use stylus_popup.Prelude.{ℕ, Bool, ℤ}
use Prim.Native.String.{String}

pub record Platform : Type 1 where
  pub Real : Type 0
  pub lit : ℕ → ℕ → Real  -- the literal with that numerator and denominator
  pub of_int : ℤ → Real
  pub add : Real → Real → Real
  pub sub : Real → Real → Real
  pub mul : Real → Real → Real
  pub div : Real → Real → Real
  pub neg : Real → Real
  pub abs : Real → Real  -- qAbs
  pub lt : Real → Real → Bool
  pub ceil : Real → ℤ  -- static_cast<int>(std::ceil(x))
  pub advance : String → Real  -- QFontMetricsF::horizontalAdvance in the compact font
  pub is_chinese : Bool
