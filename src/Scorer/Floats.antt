-- ===== src/Scorer/Floats.antt =====
-- Python's floats, as the scorer uses them: an interface, since they are no part of the program.
use ollama_herd.Common.{ℕ, Bool, true, false, ◌≡◌}

-- `ratio n d` is the float nearest to `n / d`, as a literal or a measured value has it.
pub record Float : Type 1 where
  pub Value : Type 0
  pub ratio : ℕ → ℕ → Value
  pub neg : Value → Value
  pub add : Value → Value → Value
  pub sub : Value → Value → Value
  pub mul : Value → Value → Value
  pub div : Value → Value → Value
  pub ltb : Value → Value → Bool

-- The comparison of floats. A value that is no number, NaN, is above and below nothing, so that the
-- second law is asked only where the value in the middle is a number.
pub record FloatLaws (f : Float) : Type 0 where
  pub is_nan : f.Value → Bool
  pub asymmetric : (x y : f.Value) → f.ltb x y ≡ true → f.ltb y x ≡ false
  pub negatively_transitive :
      (x y z : f.Value)
      → is_nan y ≡ false
      → f.ltb x y ≡ false
      → f.ltb y z ≡ false
      → f.ltb x z ≡ false
