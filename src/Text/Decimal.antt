-- ===== src/Text/Decimal.antt =====
-- strconv.Atoi reads back what `%d` prints.
use prequal_nc.Base.{
  ℕ, zero, suc, ◌+◌, ◌/◌, ◌%◌, ◌^◌, ◌<◌, ◌≡◌, refl, ap, sym, ◌∙◌, inl, inr, ℤ, pos, negsuc, true,
  some, [], ◌∷◌, arith, All, Bool-cases, ltb, ◌==◌,
}
use prequal_nc.Text.{
  Text, digits, format_int, is_digit, read_digits, read_number, parse_int, positive, negative,
  format_signed,
}

abbrev pub AllDigits : Text → Type 0
AllDigits = All (λ c. is_digit c ≡ true)

digits-AllDigits : (rounds n : ℕ) (out : Text) → AllDigits out → AllDigits (digits rounds n out)
unfolding digits
digits-AllDigits zero n out h = h
digits-AllDigits (suc rounds) n out h = elim (Bool-cases (n == 0)) [
  | inl e ↦ rw e h
  | inr e ↦ rw e (digits-AllDigits rounds (n / 10) _ (ground arith, h))
]

-- Every code point of the print is a digit, and there is one.
pub format_int-AllDigits : (n : ℕ) → AllDigits (format_int n)
unfolding format_int
format_int-AllDigits n = elim (Bool-cases (n == 0)) [
  | inl e ↦ rw e (refl, tt)
  | inr e ↦ rw e (digits-AllDigits 20 n [] tt)
]

digits-cons :
    (rounds n : ℕ) (c : ℕ) (out : Text)
    → (d : ℕ) × (rest : Text) × (digits rounds n (c ∷ out) ≡ d ∷ rest)
unfolding digits
digits-cons zero n c out = (c, out, refl)
digits-cons (suc rounds) n c out = elim (Bool-cases (n == 0)) [
  | inl e ↦ (c, out, rw e refl)
  | inr e ↦ rw e (digits-cons rounds (n / 10) (b'0' + n % 10) (c ∷ out))
]

pub format_int-cons : (n : ℕ) → (d : ℕ) × (rest : Text) × (format_int n ≡ d ∷ rest)
unfolding format_int digits
format_int-cons n = elim (Bool-cases (n == 0)) [
  | inl e ↦ (b'0', [], rw e refl)
  | inr e ↦ rw e (digits-cons 19 (n / 10) (b'0' + n % 10) [])
]

read_digits-last :
    (n : ℕ) (out : Text) → read_digits ((b'0' + n % 10) ∷ out) (n / 10) ≡ read_digits out n
unfolding read_digits
read_digits-last n out = ground arith

ten_times : (rounds n : ℕ) → n < 10 ^ suc rounds → n / 10 < 10 ^ rounds
ten_times rounds n h = grind arith

read_digits-digits :
    (rounds n : ℕ) (out : Text)
    → n < 10 ^ rounds
    → read_digits (digits rounds n out) 0 ≡ read_digits out n
unfolding digits
read_digits-digits zero n out h = ap (read_digits out) (omega arith)
read_digits-digits (suc rounds) n out h = elim (Bool-cases (n == 0)) [
  | inl e ↦ rw e (ap (read_digits out) (ground arith))
  | inr e ↦ rw e (
      read_digits-digits rounds (n / 10) ((b'0' + n % 10) ∷ out) (ten_times rounds n h)
      ∙ read_digits-last n out)
]

pub read_digits-format_int : (n : ℕ) → n < 10 ^ 20 → read_digits (format_int n) 0 ≡ some n
unfolding format_int read_digits
read_digits-format_int n h = elim (Bool-cases (n == 0)) [
  | inl e ↦ rw e (ap some (ground arith))
  | inr e ↦ rw e (read_digits-digits 20 n [] h)
]

read_number-format_int : (n : ℕ) → n < 10 ^ 20 → read_number (format_int n) ≡ some n
unfolding read_number
read_number-format_int n h =
    let (c, s, e) = format_int-cons n in
    ap read_number e ∙ ap (λ t. read_digits t 0) (sym e) ∙ read_digits-format_int n h

-- On digits ParseInt reads a number and tests its range.
pub parse_int-AllDigits :
    (limit c : ℕ) (s : Text)
    → AllDigits (c ∷ s)
    → parse_int limit (c ∷ s) ≡ positive limit (read_digits (c ∷ s) 0)
unfolding parse_int
parse_int-AllDigits limit c s h = ground arith

-- A number in the range is read back from its print.
pub parse_int-format_int :
    (limit n : ℕ) → n < 10 ^ 20 → n < limit → parse_int limit (format_int n) ≡ some (pos n)
parse_int-format_int limit n small h =
    let (c, s, e) = format_int-cons n in
    let all : AllDigits (c ∷ s) = rw e at (format_int-AllDigits n) in
    let within : ltb n limit ≡ true = ground arith in
    ap (parse_int limit) e
    ∙ parse_int-AllDigits limit c s all
    ∙ ap (positive limit) (ap (λ t. read_digits t 0) (sym e) ∙ read_digits-format_int n small)
    ∙ rw within refl

-- The integers that `2 * limit` numbers hold.
abbrev pub IsWithin : ℕ → ℤ → Type 0
IsWithin limit (pos n) = n < limit
IsWithin limit (negsuc n) = n < limit

-- ParseInt reads back what FormatInt prints.
pub parse_int-format_signed :
    (limit : ℕ) (a : ℤ)
    → limit < 10 ^ 20
    → IsWithin limit a
    → parse_int limit (format_signed a) ≡ some a
unfolding format_signed parse_int
parse_int-format_signed limit (pos n) small h = parse_int-format_int limit n (omega arith) h
parse_int-format_signed limit (negsuc n) small h =
    let within : ltb n limit ≡ true = ground arith in
    ap (negative limit) (read_number-format_int (suc n) (omega arith)) ∙ rw within refl
