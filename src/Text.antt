-- ===== src/Text.antt =====
-- What the program uses of the packages strings, strconv and fmt. A text is the list of its code points:
-- environment variables and ids are taken to be valid UTF-8.
pub mod Trim
pub mod Split
pub mod Decimal
use Prim.Native.Char.{code}
use Prim.Native.String.{String}
use prequal_nc.Base.{
  ℕ, zero, suc, ◌+◌, ◌-◌, ◌*◌, ◌/◌, ◌%◌, ◌^◌, ℤ, pos, negsuc, Bool, true, false, ◌&&◌, ◌||◌, Option,
  none, some, List, [], ◌∷◌, ◌++◌, ltb, leb, ◌==◌, if◌then◌else◌,
}

abbrev pub Text : Type 0
Text = List ℕ

abbrev pub codes : String → Text
codes String.[] = []
codes (String.◌∷◌ c s) = code c ∷ codes s

abbrev pub text_eq : Text → Text → Bool
text_eq [] [] = true
text_eq [] (d ∷ t) = false
text_eq (c ∷ s) [] = false
text_eq (c ∷ s) (d ∷ t) = c == d && text_eq s t

-- `s < t`: the order of the bytes of UTF-8 is that of the code points.
abbrev pub text_ltb : Text → Text → Bool
text_ltb s [] = false
text_ltb [] (d ∷ t) = true
text_ltb (c ∷ s) (d ∷ t) = ltb c d || (c == d && text_ltb s t)

abbrev pub is_empty : Text → Bool
is_empty [] = true
is_empty (c ∷ s) = false

-- unicode.IsSpace.
unfoldable pub is_space : ℕ → Bool
is_space c =
    (leb 9 c && leb c 13)
    || c == 32
    || c == 0x85
    || c == 0xA0
    || c == 0x1680
    || (leb 0x2000 c && leb c 0x200A)
    || c == 0x2028
    || c == 0x2029
    || c == 0x202F
    || c == 0x205F
    || c == 0x3000

unfoldable pub trim_left : Text → Text
trim_left [] = []
trim_left (c ∷ s) = if is_space c then trim_left s else c ∷ s

unfoldable pub trim_right : Text → Text
trim_right [] = []
trim_right (c ∷ s) = let rest = trim_right s in if is_space c && is_empty rest then [] else c ∷ rest

-- strings.TrimSpace.
unfoldable pub trim_space : Text → Text
unfolding trim_left trim_right is_space
trim_space s = trim_right (trim_left s)

-- strings.ToLower, as far as a comparison with an ASCII word can see it: of the code points beyond ASCII
-- only the dotted capital I and the Kelvin sign have an ASCII letter as their lower case.
unfoldable pub lower_code : ℕ → ℕ
lower_code c =
    if leb b'A' c && leb c b'Z'
    then c + 32
    else if c == 0x130
    then b'i'
    else if c == 0x212A
    then b'k'
    else c

abbrev map_text : (ℕ → ℕ) → Text → Text
map_text f [] = []
map_text f (c ∷ s) = f c ∷ map_text f s

unfoldable pub to_lower : Text → Text
unfolding lower_code
to_lower s = map_text lower_code s

-- A code point in front of the first of the parts.
abbrev pub push_head : ℕ → List Text → List Text
push_head c [] = (c ∷ []) ∷ []
push_head c (p ∷ parts) = (c ∷ p) ∷ parts

-- strings.Split at a separator of one code point.
unfoldable pub split_on : ℕ → Text → List Text
split_on sep [] = [] ∷ []
split_on sep (c ∷ s) = let rest = split_on sep s in if c == sep then [] ∷ rest else push_head c rest

-- The print of a number below 10 ^ 20 by `%d`: one round for each digit.
unfoldable pub digits : ℕ → ℕ → Text → Text
digits zero n out = out
digits (suc rounds) n out =
    let rest = digits rounds (n / 10) ((b'0' + n % 10) ∷ out) in if n == 0 then out else rest

unfoldable pub format_int : ℕ → Text
format_int n = if n == 0 then b'0' ∷ [] else digits 20 n []

abbrev pub is_digit : ℕ → Bool
is_digit c = leb b'0' c && leb c b'9'

unfoldable pub read_digits : Text → ℕ → Option ℕ
read_digits [] n = some n
read_digits (c ∷ s) n =
    let rest = read_digits s (n * 10 + (c - b'0')) in if is_digit c then rest else none

-- At least one digit.
unfoldable pub read_number : Text → Option ℕ
unfolding read_digits
read_number [] = none
read_number (c ∷ s) = read_digits (c ∷ s) 0

-- The value, where it is in the range from -limit up to limit - 1.
abbrev pub positive : ℕ → Option ℕ → Option ℤ
positive limit none = none
positive limit (some n) = if ltb n limit then some (pos n) else none

abbrev pub negative : ℕ → Option ℕ → Option ℤ
negative limit none = none
negative limit (some zero) = some (pos 0)
negative limit (some (suc n)) = if ltb n limit then some (negsuc n) else none

-- strconv.ParseInt in base 10 for integers of as many bits as `2 * limit` numbers need; `none` for an error.
unfoldable pub parse_int : ℕ → Text → Option ℤ
unfolding read_number
parse_int limit [] = none
parse_int limit (c ∷ s) =
    if c == b'-'
    then negative limit (read_number s)
    else if c == b'+'
    then positive limit (read_number s)
    else positive limit (read_number (c ∷ s))

-- strconv.Atoi.
abbrev pub atoi : Text → Option ℤ
atoi = parse_int (2 ^ 63)

-- strconv.FormatInt in base 10.
unfoldable pub format_signed : ℤ → Text
format_signed (pos n) = format_int n
format_signed (negsuc n) = b'-' ∷ format_int (suc n)
