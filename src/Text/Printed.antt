-- ===== src/Text/Printed.antt =====
-- Printed numbers: their digits, and the readers of numbers on them.
use nff_go_nat.Base.{
  ℕ, zero, suc, ◌+◌, ◌-◌, ◌*◌, ◌/◌, ◌%◌, ◌^◌, ◌≤◌, ◌<◌, ◌≡◌, refl, ◌∙◌, ap, sym, subst, ◌⊎◌, inl,
  inr, Bool-cases, ltb→lt, ltb_false→le, false, ltb, Option, none, some, [], ◌∷◌, ◌++◌, All, arith,
}
use nff_go_nat.Text.{Text, contains}
use nff_go_nat.Text.Parts.{contains-outside}
use nff_go_nat.Text.Numerals.{is_digit, read_digits, parse_digits, parse_int32, digits_of, itoa}

abbrev pub IsDigit : ℕ → Type 0
IsDigit c = (b'0' ≤ c) × (c ≤ b'9')

-- A number with one more digit behind it.
with_digit : ℕ → Option ℕ → Option ℕ
with_digit c none = none
with_digit c (some n) = some (n * 10 + (c - b'0'))

read_digits-snoc :
    (n : ℕ) (s : Text) (c : ℕ)
    → IsDigit c
    → read_digits n (s ++ (c ∷ [])) ≡ with_digit c (read_digits n s)
unfolding read_digits is_digit with_digit
read_digits-snoc n [] c d = ground (arith, d)
read_digits-snoc n (x ∷ s) c d = ground (arith, read_digits-snoc (n * 10 + (x - b'0')) s c d)

All-snoc : (s : Text) (c : ℕ) → All IsDigit s → IsDigit c → All IsDigit (s ++ (c ∷ []))
All-snoc [] c h d = (d, tt)
All-snoc (x ∷ s) c (h, hs) d = (h, All-snoc s c hs d)

digits_of-IsDigit : (fuel n : ℕ) → All IsDigit (digits_of fuel n)
unfolding digits_of
digits_of-IsDigit zero n = tt
digits_of-IsDigit (suc fuel) n = elim (Bool-cases (ltb n 10)) [
  | inl small ↦ rw small ((omega arith, omega (arith, ltb→lt n 10 small)), tt)
  | inr large ↦ rw large (
      All-snoc (digits_of fuel (n / 10)) _ (digits_of-IsDigit fuel (n / 10))
        (omega arith, omega arith))
]

small_digit : (n : ℕ) → n < 10 → read_digits 0 ((b'0' + n) ∷ []) ≡ some n
unfolding read_digits is_digit
small_digit n h = ground arith

last_digit : (n : ℕ) → with_digit (b'0' + n % 10) (some (n / 10)) ≡ some n
unfolding with_digit
last_digit n = ap some (omega arith)

read-digits_of : (fuel n : ℕ) → n < fuel → read_digits 0 (digits_of fuel n) ≡ some n
unfolding digits_of
read-digits_of zero n h = absurd (omega arith)
read-digits_of (suc fuel) n h = elim (Bool-cases (ltb n 10)) [
  | inl small ↦ rw small (small_digit n (ltb→lt n 10 small))
  | inr large ↦
      rw
        (
          large,
          read_digits-snoc 0 (digits_of fuel (n / 10)) (b'0' + n % 10) (omega arith, omega arith),
          read-digits_of fuel (n / 10) (omega (arith, ltb_false→le n 10 large)),
        )
        (last_digit n)
]

-- strconv.Itoa gives digits, and the readers of numbers take them back.
pub itoa-IsDigit : (n : ℕ) → All IsDigit (itoa n)
unfolding itoa
itoa-IsDigit n = digits_of-IsDigit (suc n) n

Filled : Text → Type 0
Filled s = (c : ℕ) × (rest : Text) × (s ≡ c ∷ rest)

snoc-Filled : (s : Text) (c : ℕ) → Filled (s ++ (c ∷ []))
unfolding Filled
snoc-Filled [] c = (c, [], refl)
snoc-Filled (x ∷ s) c = (x, s ++ (c ∷ []), refl)

digits_of-Filled : (fuel n : ℕ) → Filled (digits_of (suc fuel) n)
unfolding digits_of Filled
digits_of-Filled fuel n = elim (Bool-cases (ltb n 10)) [
  | inl small ↦ rw small (b'0' + n, [], refl)
  | inr large ↦ rw large (snoc-Filled (digits_of fuel (n / 10)) (b'0' + n % 10))
]

pub itoa_head : (n : ℕ) → (c : ℕ) × (rest : Text) × (itoa n ≡ c ∷ rest) × IsDigit c
unfolding itoa Filled
itoa_head n =
    let (c, rest, e) = digits_of-Filled n n in
    (c, rest, e, (subst (All IsDigit) e (digits_of-IsDigit (suc n) n)).0)

pub parse_digits-itoa : (n : ℕ) → parse_digits (itoa n) ≡ some n
unfolding itoa Filled parse_digits
parse_digits-itoa n =
    let (c, rest, e) = digits_of-Filled n n in
    ap parse_digits e ∙ (sym (ap (read_digits 0) e) ∙ read-digits_of (suc n) n (omega arith))

-- A number without a sign.
unsigned_int32 :
    (n c : ℕ) (rest : Text)
    → IsDigit c
    → n ≤ 2 ^ 31 - 1
    → parse_digits (c ∷ rest) ≡ some n
    → parse_int32 (c ∷ rest) ≡ some n
unfolding parse_int32
unsigned_int32 n c rest d h e = ground (arith, e)

pub parse_int32-itoa : (n : ℕ) → n ≤ 2 ^ 31 - 1 → parse_int32 (itoa n) ≡ some n
parse_int32-itoa n h =
    let (c, rest, e, d) = itoa_head n in
    ap parse_int32 e ∙ unsigned_int32 n c rest d h (sym (ap parse_digits e) ∙ parse_digits-itoa n)

All-map : {P Q : ℕ → Type 0} → ((x : ℕ) → P x → Q x) → (s : Text) → All P s → All Q s
All-map f [] h = tt
All-map f (x ∷ s) (h, hs) = (f x h, All-map f s hs)

-- A separator is no digit.
pub contains-itoa : (c n : ℕ) → (c < b'0') ⊎ (b'9' < c) → contains c (itoa n) ≡ false
contains-itoa c n h = contains-outside c (itoa n) (elim h [
  | inl below ↦ inr (All-map (λ x d. omega (arith, below)) (itoa n) (itoa-IsDigit n))
  | inr above ↦ inl (All-map (λ x d. omega (arith, above)) (itoa n) (itoa-IsDigit n))
])
