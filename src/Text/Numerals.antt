-- ===== src/Text/Numerals.antt =====
-- strconv.ParseUint, strconv.ParseInt and strconv.Itoa, in base 10, and hexadecimal digits.
use nff_go_nat.Base.{
  ℕ, zero, suc, ◌+◌, ◌-◌, ◌*◌, ◌/◌, ◌%◌, ◌^◌, Bool, ◌==◌, ◌&&◌, ltb, leb, if◌then◌else◌, Option,
  none, some, List, [], ◌∷◌, ◌++◌,
}

unfoldable pub is_digit : ℕ → Bool
is_digit c = leb b'0' c && leb c b'9'

-- The number that the digits give after `n`.
unfoldable pub read_digits : ℕ → List ℕ → Option ℕ
unfolding is_digit
read_digits n [] = some n
read_digits n (c ∷ s) = if is_digit c then read_digits (n * 10 + (c - b'0')) s else none

-- At least one digit, and no sign.
unfoldable pub parse_digits : List ℕ → Option ℕ
unfolding read_digits
parse_digits [] = none
parse_digits (c ∷ s) = read_digits 0 (c ∷ s)

abbrev pub at_most : ℕ → Option ℕ → Option ℕ
at_most limit none = none
at_most limit (some n) = if leb n limit then some n else none

-- strconv.ParseUint(s, 10, bits)
unfoldable pub parse_uint : ℕ → List ℕ → Option ℕ
unfolding parse_digits
parse_uint bits s = at_most (2 ^ bits - 1) (parse_digits s)

-- `-n` as an int64 in two's complement.
abbrev pub negated : Option ℕ → Option ℕ
negated none = none
negated (some n) = some ((2 ^ 64 - n) % 2 ^ 64)

-- strconv.ParseInt(s, 10, 32): an int64, in two's complement, from -2 ^ 31 up to 2 ^ 31 - 1.
unfoldable pub parse_int32 : List ℕ → Option ℕ
unfolding parse_digits
parse_int32 [] = none
parse_int32 (c ∷ s) =
    if c == b'-'
    then negated (at_most (2 ^ 31) (parse_digits s))
    else if c == b'+'
    then at_most (2 ^ 31 - 1) (parse_digits s)
    else at_most (2 ^ 31 - 1) (parse_digits (c ∷ s))

-- The decimal digits of a number, with as many rounds as there can be digits.
unfoldable pub digits_of : ℕ → ℕ → List ℕ
digits_of zero n = []
digits_of (suc fuel) n =
    let rest = digits_of fuel (n / 10) in
    if ltb n 10 then (b'0' + n) ∷ [] else rest ++ ((b'0' + n % 10) ∷ [])

-- strconv.Itoa of a number that is not negative
unfoldable pub itoa : ℕ → List ℕ
unfolding digits_of
itoa n = digits_of (suc n) n

unfoldable pub hex_value : ℕ → Option ℕ
unfolding is_digit
hex_value c =
    if is_digit c
    then some (c - b'0')
    else if leb b'a' c && leb c b'f'
    then some (c - b'a' + 10)
    else if leb b'A' c && leb c b'F'
    then some (c - b'A' + 10)
    else none

unfoldable pub read_hex : ℕ → List ℕ → Option ℕ
unfolding hex_value
read_hex n [] = some n
read_hex n (c ∷ s) = elim (hex_value c) [ none ↦ none | some d ↦ read_hex (n * 16 + d) s ]
