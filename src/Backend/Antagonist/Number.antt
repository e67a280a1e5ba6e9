-- ===== src/Backend/Antagonist/Number.antt =====
-- backend/main.go, extractServerNum: the number at the end of a server's id.
use prequal_nc.Base.{
  ℕ, zero, suc, ◌+◌, ◌^◌, ◌<◌, ◌≤◌, ◌≡◌, refl, ap, ◌∙◌, pos, true, false, some, [], ◌∷◌, ◌++◌,
  arith, length, length-append, drop, get_or, ◌==◌,
}
use prequal_nc.Text.{Text, is_digit, format_int, atoi}
use prequal_nc.Text.Decimal.{AllDigits, format_int-AllDigits, format_int-cons, parse_int-format_int}
use prequal_nc.Backend.Antagonist.{digits_from, extract_server_num}

get_or-append_right : (xs ys : Text) (i d : ℕ) → get_or (xs ++ ys) (length xs + i) d ≡ get_or ys i d
get_or-append_right [] ys i d = ap (λ k. get_or ys k d) (omega arith)
get_or-append_right (x ∷ xs) ys i d =
    ap (λ k. get_or (x ∷ (xs ++ ys)) k d) {y = suc (length xs + i)} (omega arith)
    ∙ get_or-append_right xs ys i d

get_or-AllDigits :
    (ds : Text) (i : ℕ) → AllDigits ds → i < length ds → is_digit (get_or ds i 0) ≡ true
get_or-AllDigits [] i h k = absurd (omega arith)
get_or-AllDigits (c ∷ ds) zero h k = h.0
get_or-AllDigits (c ∷ ds) (suc i) h k = get_or-AllDigits ds i h.1 (omega arith)

-- Over digits the loop runs down.
digits_from-digits :
    (xs ds : Text) (k : ℕ)
    → AllDigits ds
    → k ≤ length ds
    → digits_from (xs ++ ds) (length xs + k) ≡ digits_from (xs ++ ds) (length xs)
unfolding digits_from
digits_from-digits xs ds zero h le = ap (digits_from (xs ++ ds)) (omega arith)
digits_from-digits xs ds (suc k) h le =
    ap (digits_from (xs ++ ds)) {y = suc (length xs + k)} (omega arith)
    ∙ step (length xs + k)
        (ap is_digit (get_or-append_right xs ds k 0) ∙ get_or-AllDigits ds k h (omega arith))
    ∙ digits_from-digits xs ds k h (omega arith)
  where
    step :
        (i : ℕ)
        → is_digit (get_or (xs ++ ds) i 0) ≡ true
        → digits_from (xs ++ ds) (suc i) ≡ digits_from (xs ++ ds) i
    step i e = rw (e, digits_from) refl

-- At any other code point it stops.
digits_from-other :
    (xs : Text) (c : ℕ) (ds : Text)
    → is_digit c ≡ false
    → digits_from ((xs ++ (c ∷ [])) ++ ds) (suc (length xs)) ≡ suc (length xs)
unfolding digits_from
digits_from-other xs c ds e = stop (ap is_digit (get_or-middle xs c ds) ∙ e)
  where
    get_or-middle :
        (xs : Text) (c : ℕ) (ds : Text) → get_or ((xs ++ (c ∷ [])) ++ ds) (length xs) 0 ≡ c
    get_or-middle [] c ds = refl
    get_or-middle (x ∷ xs) c ds = get_or-middle xs c ds

    stop :
        is_digit (get_or ((xs ++ (c ∷ [])) ++ ds) (length xs) 0) ≡ false
        → digits_from ((xs ++ (c ∷ [])) ++ ds) (suc (length xs)) ≡ suc (length xs)
    stop e = rw (e, digits_from) refl

drop-length-append : (xs ys : Text) → drop (length xs) (xs ++ ys) ≡ ys
drop-length-append [] ys = refl
drop-length-append (x ∷ xs) ys = drop-length-append xs ys

digits_from-id :
    (xs : Text) (c n : ℕ)
    → is_digit c ≡ false
    → let id = (xs ++ (c ∷ [])) ++ format_int n in
      digits_from id (length id) ≡ length (xs ++ (c ∷ []))
digits_from-id xs c n e =
    let front = xs ++ (c ∷ []) in
    let id = front ++ format_int n in
    ap (digits_from id) (length-append front (format_int n))
    ∙ digits_from-digits front (format_int n) (length (format_int n)) (format_int-AllDigits n)
        (omega arith)
    ∙ ap (digits_from id) {y = suc (length xs)} (omega (arith, length-append xs (c ∷ [])))
    ∙ digits_from-other xs c (format_int n) e
    ∙ omega (arith, length-append xs (c ∷ []))

-- The number that was printed at the end of an id, behind anything but a digit, is read back from it.
extract_server_num-format_int :
    (xs : Text) (c n : ℕ)
    → is_digit c ≡ false
    → n < 2 ^ 63
    → extract_server_num ((xs ++ (c ∷ [])) ++ format_int n) ≡ pos n
unfolding extract_server_num
extract_server_num-format_int xs c n e h =
    let front = xs ++ (c ∷ []) in
    let id = front ++ format_int n in
    let (d, ds, shape) = format_int-cons n in
    let more : length id ≡ length front + suc (length ds) =
      length-append front (format_int n) ∙ ap (λ l. length front + length l) shape in
    let other : (length front == length id) ≡ false = ground arith in
    let number : atoi (format_int n) ≡ some (pos n) =
      parse_int-format_int (2 ^ 63) n (omega arith) h in
    rw (digits_from-id xs c n e, other, drop-length-append front (format_int n), number) refl
