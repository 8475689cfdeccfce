-- ===== src/Float.antt =====
-- The operations of float64 that the SDK uses, as functions on a type of values.
use brainapi_go_sdk.Prelude.{ℕ, Bool, true, false, ◌≡◌}

pub record Float64 (F : Type 0) : Type 0 where
  pub zero_f : F
  pub of_int : ℕ → F  -- float64(n)
  pub add : F → F → F
  pub sub : F → F → F
  pub mul : F → F → F
  pub mul_add : F → F → F → F  -- z + x*y, rounded once or twice
  pub div : F → F → F
  pub sqrt : F → F
  pub abs : F → F
  pub gt : F → F → Bool
  pub is_zero : F → Bool  -- == 0
  pub is_finite : F → Bool  -- neither NaN nor an infinity

-- What IEEE 754 says of the comparison of finite numbers.
pub record IsOrdered {F : Type 0} (fl : Float64 F) : Type 0 where
  pub zero_finite : fl.is_finite fl.zero_f ≡ true
  pub abs_finite : (x : F) → fl.is_finite x ≡ true → fl.is_finite (fl.abs x) ≡ true
  pub gt_asym : (x y : F) → fl.gt x y ≡ true → fl.gt y x ≡ false
  pub gt_negtrans :
      (x y z : F)
      → fl.is_finite y ≡ true
      → fl.gt x y ≡ false
      → fl.gt y z ≡ false
      → fl.gt x z ≡ false
