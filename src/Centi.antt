-- ===== src/Centi.antt =====
-- Numbers in hundredths: an arithmetic that meets the laws asked of float64, to run the model with.
use prequal_nc.Base.{
  ℕ, suc, ◌+◌, ◌*◌, ◌/◌, ◌≤◌, ◌^◌, ℤ, pos, negsuc, pos_part, neg_part, sub_ℕ, ◌+ℤ◌, ◌-ℤ◌, ◌≤ℤ◌,
  ◌<ℤ◌, ltb_ℤ, leb_ℤ, ◌==ℤ◌, ◌≡◌, true, false, arith,
}
use prequal_nc.Float.{Float64, FloatLaws}

-- Division of an integer by a natural number, towards zero.
abbrev pub div_zero : ℤ → ℕ → ℤ
div_zero a d = sub_ℕ (pos_part a / d) (neg_part a / d)

abbrev pub centi_div : ℤ → ℤ → ℤ
centi_div a b = sub_ℕ (100 * pos_part a / pos_part b) (100 * neg_part a / pos_part b)

abbrev pub centi_of_int : ℤ → ℤ
centi_of_int (pos n) = pos (n * 100)
centi_of_int (negsuc n) = negsuc (n * 100 + 99)

abbrev pub centi_mul : ℤ → ℤ → ℤ
centi_mul (pos a) (pos b) = pos (a * b / 100)
centi_mul (pos a) (negsuc b) = sub_ℕ 0 (a * suc b / 100)
centi_mul (negsuc a) (pos b) = sub_ℕ 0 (suc a * b / 100)
centi_mul (negsuc a) (negsuc b) = pos (suc a * suc b / 100)

abbrev pub Centi : Float64
Centi = record {
  F = ℤ;
  of_int = centi_of_int;
  trunc = λ x. div_zero x 100;
  fadd = ◌+ℤ◌;
  fsub = ◌-ℤ◌;
  fmul = centi_mul;
  fdiv = centi_div;
  flt = ltb_ℤ;
  fle = leb_ℤ;
  feq = ◌==ℤ◌;
}

mul_le : (a b c : ℕ) → a ≤ b → (a * c ≤ b * c) × (c * a ≤ b * c)
mul_le a b c h = grind arith

centi_fle_trans : (a b c : ℤ) → leb_ℤ a b ≡ true → leb_ℤ b c ≡ true → leb_ℤ a c ≡ true
centi_fle_trans a b c h k = ground arith

centi_flt_of_fle : (a b : ℤ) → leb_ℤ a b ≡ true → ltb_ℤ b a ≡ false
centi_flt_of_fle a b h = ground arith

centi_of_int_mono : (m n : ℤ) → m ≤ℤ n → leb_ℤ (centi_of_int m) (centi_of_int n) ≡ true
centi_of_int_mono m n h = ground arith

centi_scale_le :
    (q : ℤ) (n : ℕ)
    → n ≤ 2 ^ 53
    → leb_ℤ (centi_of_int (pos 0)) q ≡ true
    → leb_ℤ (centi_of_int (pos 1)) q ≡ false
    → leb_ℤ (centi_mul q (centi_of_int (pos n))) (centi_of_int (pos n)) ≡ true
centi_scale_le (pos q) n b h k = ground (arith, mul_le q 99 (n * 100))
centi_scale_le (negsuc q) n b h k = ground arith

centi_of_int_total :
    (m n : ℤ)
    → ltb_ℤ (centi_of_int m) (centi_of_int n) ≡ false
    → leb_ℤ (centi_of_int n) (centi_of_int m) ≡ true
centi_of_int_total m n h = ground arith

centi_fle_of_not_flt : (a b : ℤ) → ltb_ℤ a b ≡ false → leb_ℤ b a ≡ true
centi_fle_of_not_flt a b h = ground arith

centi_fle_of_flt : (a b : ℤ) → ltb_ℤ a b ≡ true → leb_ℤ a b ≡ true
centi_fle_of_flt a b h = ground arith

centi_trunc_between :
    (x : ℤ) (a b : ℕ)
    → leb_ℤ (pos (a * 100)) x ≡ true
    → leb_ℤ x (pos (b * 100)) ≡ true
    → (pos a ≤ℤ div_zero x 100) × (div_zero x 100 ≤ℤ pos b)
centi_trunc_between (pos x) a b h k = ground arith
centi_trunc_between (negsuc x) a b h k = ground arith

centi_trunc_frac :
    (x : ℤ) (b : ℕ)
    → leb_ℤ (pos 0) x ≡ true
    → leb_ℤ x (pos (b * 100)) ≡ true
    → ltb_ℤ (pos 0) (x -ℤ centi_of_int (div_zero x 100)) ≡ true
    → div_zero x 100 <ℤ pos b
unfolding ◌-ℤ◌
centi_trunc_frac (pos x) b h k f = ground arith
centi_trunc_frac (negsuc x) b h k f = ground arith

pub Centi-laws : FloatLaws Centi
Centi-laws = record {
  fle_trans = centi_fle_trans;
  flt_of_fle = centi_flt_of_fle;
  of_int_mono = centi_of_int_mono;
  scale_le = centi_scale_le;
  fle_of_flt = centi_fle_of_flt;
  of_int_total = centi_of_int_total;
  fle_of_not_flt = λ a c n h k. centi_fle_of_not_flt a (centi_of_int n) k;
  trunc_between = λ x a b r s h k. centi_trunc_between x a b h k;
  trunc_frac = λ x b s h k f. centi_trunc_frac x b h k f;
}
