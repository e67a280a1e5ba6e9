-- ===== src/Float.antt =====
-- Go's float64, which the program uses for quantiles, probe rates and the removal debt: the operations
-- that the code calls, as a parameter, and the facts of IEEE 754 arithmetic that theorems rely on.
use prequal_nc.Base.{ℕ, ◌≤◌, ◌^◌, ℤ, pos, ◌≡◌, Bool, true, false, ◌≤ℤ◌, ◌<ℤ◌}

pub record Float64 : Type 1 where
  pub F : Type 0
  -- float64(n)
  pub of_int : ℤ → F
  -- int(x): the fraction is dropped
  pub trunc : F → ℤ
  pub fadd : F → F → F
  pub fsub : F → F → F
  pub fmul : F → F → F
  pub fdiv : F → F → F
  pub flt : F → F → Bool
  pub fle : F → F → Bool
  pub feq : F → F → Bool

-- Conversion and rounding are monotone, comparison is transitive, and the integers up to 2 ^ 53 are
-- represented exactly.
pub record FloatLaws (fl : Float64) : Type 0 where
  pub fle_trans : (a b c : fl.F) → fl.fle a b ≡ true → fl.fle b c ≡ true → fl.fle a c ≡ true
  pub flt_of_fle : (a b : fl.F) → fl.fle a b ≡ true → fl.flt b a ≡ false
  pub of_int_mono : (m n : ℤ) → m ≤ℤ n → fl.fle (fl.of_int m) (fl.of_int n) ≡ true
  pub scale_le :
      (q : fl.F) (n : ℕ)
      → n ≤ 2 ^ 53
      → fl.fle (fl.of_int (pos 0)) q ≡ true
      → fl.fle (fl.of_int (pos 1)) q ≡ false
      → fl.fle (fl.fmul q (fl.of_int (pos n))) (fl.of_int (pos n)) ≡ true
  pub fle_of_flt : (a b : fl.F) → fl.flt a b ≡ true → fl.fle a b ≡ true
  pub of_int_total :
      (m n : ℤ)
      → fl.flt (fl.of_int m) (fl.of_int n) ≡ false
      → fl.fle (fl.of_int n) (fl.of_int m) ≡ true
  -- A number that is below some number is no NaN.
  pub fle_of_not_flt :
      (a c : fl.F) (n : ℤ)
      → fl.flt a c ≡ true
      → fl.flt a (fl.of_int n) ≡ false
      → fl.fle (fl.of_int n) a ≡ true
  pub trunc_between :
      (x : fl.F) (a b : ℕ)
      → a ≤ 2 ^ 53
      → b ≤ 2 ^ 53
      → fl.fle (fl.of_int (pos a)) x ≡ true
      → fl.fle x (fl.of_int (pos b)) ≡ true
      → (pos a ≤ℤ fl.trunc x) × (fl.trunc x ≤ℤ pos b)
  -- A number with a fraction is not the bound itself.
  pub trunc_frac :
      (x : fl.F) (b : ℕ)
      → b ≤ 2 ^ 53
      → fl.fle (fl.of_int (pos 0)) x ≡ true
      → fl.fle x (fl.of_int (pos b)) ≡ true
      → fl.flt (fl.of_int (pos 0)) (fl.fsub x (fl.of_int (fl.trunc x))) ≡ true
      → fl.trunc x <ℤ pos b
