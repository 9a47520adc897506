-- ===== src/Text/Lengths.antt =====
-- How long the results of the text functions are, and how large.
use nff_go_nat.Base.{
  ℕ, ◌+◌, ◌-◌, ◌^◌, ◌≤◌, ◌≡◌, refl, Bool, true, false, ◌==◌, ltb, if◌then◌else◌, Option, none, some,
  List, [], ◌∷◌, ◌++◌, length, length-append, length-replicate, replicate, arith, ltb→lt,
}
use nff_go_nat.Text.{Text, split}
use nff_go_nat.Text.Numerals.{parse_digits, at_most, parse_uint}
use nff_go_nat.Text.Ip.{
  mapped_prefix, mapped, octets, parse_ipv4, fill_zeros, parse_ipv6, parse_ipv6_parts, parse_ip,
  parse_ip_by, groups,
}

at_most-le : (limit : ℕ) (o : Option ℕ) (n : ℕ) → at_most limit o ≡ some n → n ≤ limit
at_most-le limit none n h = absurd (cc)
at_most-le limit (some m) n h = ground arith

pub parse_uint-le : (bits : ℕ) (s : Text) (n : ℕ) → parse_uint bits s ≡ some n → n ≤ 2 ^ bits - 1
unfolding parse_uint
parse_uint-le bits s n h = at_most-le (2 ^ bits - 1) (parse_digits s) n h

-- Every address has this many bytes, if there is one.
abbrev pub HasLength : ℕ → Option (List ℕ) → Type 0
HasLength n none = Unit
HasLength n (some bytes) = length bytes ≡ n

four_bytes :
    (o : Option (List ℕ))
    → HasLength 4
        (elim o [ none ↦ none | some bytes ↦ if length bytes == 4 then some bytes else none ])
four_bytes none = tt
four_bytes (some bytes) = ground arith

pub parse_ipv4-HasLength : (s : Text) → HasLength 4 (parse_ipv4 s)
unfolding parse_ipv4
parse_ipv4-HasLength s = four_bytes (octets (split b'.' s))

mapped-HasLength : (o : Option (List ℕ)) → HasLength 4 o → HasLength 16 (mapped o)
mapped-HasLength none h = tt
mapped-HasLength (some bytes) h = omega (arith, length-append mapped_prefix bytes)

filled_length :
    (before bytes : List ℕ) (b : Bool)
    → ltb (length before + length bytes) 16 ≡ b
    → HasLength 16 (
        if b
        then some (before ++ (replicate (16 - (length before + length bytes)) 0 ++ bytes))
        else none)
filled_length before bytes true e =
    let n = 16 - (length before + length bytes) in
    omega (
      arith,
      ltb→lt _ _ e,
      length-append before (replicate n 0 ++ bytes),
      length-append (replicate n 0) bytes,
      length-replicate {A = ℕ} n 0,
    )
filled_length before bytes false e = tt

fill_zeros-HasLength : (o : Option (Option (List ℕ) × List ℕ)) → HasLength 16 (fill_zeros o)
unfolding fill_zeros
fill_zeros-HasLength none = tt
fill_zeros-HasLength (some (none, bytes)) = ground arith
fill_zeros-HasLength (some (some before, bytes)) = filled_length before bytes _ refl

pub parts-HasLength : (parts : List Text) → HasLength 16 (parse_ipv6_parts parts)
unfolding parse_ipv6_parts
parts-HasLength [] = fill_zeros-HasLength (groups none [] [])
parts-HasLength ([] ∷ []) = tt
parts-HasLength ([] ∷ ([] ∷ parts)) = fill_zeros-HasLength (groups none [] ([] ∷ parts))
parts-HasLength ([] ∷ ((c ∷ part) ∷ parts)) = tt
parts-HasLength ((c ∷ part) ∷ parts) = fill_zeros-HasLength (groups none [] ((c ∷ part) ∷ parts))

chosen-HasLength :
    (s : Text) (a b : Bool) (later : Option (List ℕ))
    → HasLength 16 later
    → HasLength 16
        (if a then mapped (parse_ipv4 s) else if b then parse_ipv6_parts (split b':' s) else later)
chosen-HasLength s true b later h = mapped-HasLength (parse_ipv4 s) (parse_ipv4-HasLength s)
chosen-HasLength s false true later h = parts-HasLength (split b':' s)
chosen-HasLength s false false later h = h

by-HasLength : (s rest : Text) → HasLength 16 (parse_ip_by s rest)
unfolding parse_ip_by parse_ipv6
by-HasLength s [] = tt
by-HasLength s (c ∷ rest) =
    chosen-HasLength s (c == b'.') (c == b':') (parse_ip_by s rest) (by-HasLength s rest)

-- net.ParseIP gives 16 bytes.
pub parse_ip-HasLength : (s : Text) → HasLength 16 (parse_ip s)
unfolding parse_ip
parse_ip-HasLength s = by-HasLength s s
