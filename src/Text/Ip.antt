-- ===== src/Text/Ip.antt =====
-- net.ParseIP, net.ParseCIDR, net.CIDRMask and IPMask.Size. A net.IP is a list of 16 bytes, an IPv4
-- address in its mapped form, as net.ParseIP gives it.
use nff_go_nat.Base.{
  ℕ, zero, suc, ◌+◌, ◌-◌, ◌*◌, ◌/◌, ◌%◌, ◌^◌, Bool, true, false, ◌==◌, ltb, leb, if◌then◌else◌,
  Option, none, some, List, [], ◌∷◌, ◌++◌, length, replicate,
}
use nff_go_nat.Text.{Text, split, contains, cut_first}
use nff_go_nat.Text.Numerals.{parse_digits, at_most, read_hex}

abbrev pub mapped_prefix : List ℕ
mapped_prefix = 0 ∷ 0 ∷ 0 ∷ 0 ∷ 0 ∷ 0 ∷ 0 ∷ 0 ∷ 0 ∷ 0 ∷ 0xff ∷ 0xff ∷ []

unfoldable pub octet : Text → Option ℕ
unfolding parse_digits
octet part = at_most 255 (parse_digits part)

unfoldable pub octets : List Text → Option (List ℕ)
unfolding octet
octets [] = some []
octets (part ∷ parts) = elim (octet part) [
  | none ↦ none
  | some b ↦ elim (octets parts) [ none ↦ none | some bs ↦ some (b ∷ bs) ]
]

-- Four numbers up to 255 between dots. (Leading zeros are read as Go read them in 2018.)
unfoldable pub parse_ipv4 : Text → Option (List ℕ)
unfolding octets split
parse_ipv4 s = elim (octets (split b'.' s)) [
  | none ↦ none
  | some bytes ↦ if length bytes == 4 then some bytes else none
]

-- The bytes of one group, which may be an IPv4 address where the text ends with it.
unfoldable pub group : Text → List Text → Option (List ℕ)
unfolding parse_ipv4 contains read_hex
group part rest =
    if contains b'.' part
    then (elim rest [ [] ↦ parse_ipv4 part | _ ↦ none ])
    else elim (at_most 0xffff (read_hex 0 part)) [
      | none ↦ none
      | some n ↦ some (n / 256 ∷ n % 256 ∷ [])
    ]

-- The bytes before `::`, if there is one, and the bytes of the groups since.
unfoldable pub groups : Option (List ℕ) → List ℕ → List Text → Option (Option (List ℕ) × List ℕ)
unfolding group
groups before bytes [] = some (before, bytes)
groups none bytes ([] ∷ []) = none
groups none bytes ([] ∷ ([] ∷ [])) = some (some bytes, [])
groups none bytes ([] ∷ (part ∷ parts)) = groups (some bytes) [] (part ∷ parts)
groups (some before) bytes ([] ∷ parts) = none
groups before bytes ((c ∷ part) ∷ parts) = elim (group (c ∷ part) parts) [
  | none ↦ none
  | some new ↦ groups before (bytes ++ new) parts
]

-- The zeros of `::`, at least one byte; without it there must be 16 bytes.
unfoldable pub fill_zeros : Option (Option (List ℕ) × List ℕ) → Option (List ℕ)
fill_zeros none = none
fill_zeros (some (none, bytes)) = if length bytes == 16 then some bytes else none
fill_zeros (some (some before, bytes)) =
    let n = length before + length bytes in
    if ltb n 16 then some (before ++ (replicate (16 - n) 0 ++ bytes)) else none

-- A text may begin with `::`, not with a single colon.
unfoldable pub parse_ipv6_parts : List Text → Option (List ℕ)
unfolding groups fill_zeros
parse_ipv6_parts ([] ∷ ([] ∷ parts)) = fill_zeros (groups none [] ([] ∷ parts))
parse_ipv6_parts ([] ∷ parts) = none
parse_ipv6_parts parts = fill_zeros (groups none [] parts)

unfoldable pub parse_ipv6 : Text → Option (List ℕ)
unfolding parse_ipv6_parts split
parse_ipv6 s = parse_ipv6_parts (split b':' s)

abbrev pub mapped : Option (List ℕ) → Option (List ℕ)
mapped none = none
mapped (some bytes) = some (mapped_prefix ++ bytes)

-- net.ParseIP: what stands first, a dot or a colon, says which family it is.
unfoldable pub parse_ip_by : Text → Text → Option (List ℕ)
unfolding parse_ipv4 parse_ipv6
parse_ip_by s [] = none
parse_ip_by s (c ∷ rest) =
    let later = parse_ip_by s rest in
    if c == b'.' then mapped (parse_ipv4 s) else if c == b':' then parse_ipv6 s else later

unfoldable pub parse_ip : Text → Option (List ℕ)
unfolding parse_ip_by
parse_ip s = parse_ip_by s s

-- net.CIDRMask(n, 8 * len) for n up to 8 * len
unfoldable pub cidr_mask : ℕ → ℕ → List ℕ
cidr_mask n zero = []
cidr_mask n (suc len) =
    if leb 8 n then 0xff ∷ cidr_mask (n - 8) len else (256 - 2 ^ (8 - n)) ∷ replicate len 0

unfoldable pub leading_ones : ℕ → ℕ → Option ℕ
leading_ones zero v = if v == 0 then some 0 else none
leading_ones (suc bits) v =
    let rest = leading_ones bits (v * 2 % 256) in
    if ltb v 128
    then (if v == 0 then some 0 else none)
    else elim rest [ none ↦ none | some n ↦ some (suc n) ]

unfoldable pub all_zero : List ℕ → Bool
all_zero [] = true
all_zero (b ∷ bytes) = if b == 0 then all_zero bytes else false

-- IPMask.Size, its first result: the number of ones if they all lead, and 0 for another mask.
unfoldable pub simple_mask_length : List ℕ → Option ℕ
unfolding leading_ones all_zero
simple_mask_length [] = some 0
simple_mask_length (v ∷ bytes) =
    let rest = simple_mask_length bytes in
    if v == 0xff
    then (elim rest [ none ↦ none | some n ↦ some (8 + n) ])
    else if all_zero bytes
    then leading_ones 8 v
    else none

unfoldable pub mask_size : List ℕ → ℕ
unfolding simple_mask_length
mask_size mask = elim (simple_mask_length mask) [ none ↦ 0 | some n ↦ n ]

unfoldable pub with_mask : ℕ → List ℕ → Option ℕ → Option (List ℕ × List ℕ)
unfolding cidr_mask
with_mask len ip none = none
with_mask len ip (some n) = if leb n (8 * len) then some (ip, cidr_mask n len) else none

unfoldable pub cidr_of : Text → Option ℕ → Option (List ℕ × List ℕ)
unfolding parse_ipv4 parse_ipv6 with_mask
cidr_of addr n = elim (parse_ipv4 addr) [
  | some bytes ↦ with_mask 4 (mapped_prefix ++ bytes) n
  | none ↦ elim (parse_ipv6 addr) [ none ↦ none | some ip ↦ with_mask 16 ip n ]
]

-- net.ParseCIDR: the address and the mask, of four bytes for an IPv4 address.
unfoldable pub parse_cidr : Text → Option (List ℕ × List ℕ)
unfolding cidr_of cut_first parse_digits
parse_cidr s = elim (cut_first b'/' s) [
  | none ↦ none
  | some (addr, bits) ↦ cidr_of addr (parse_digits bits)
]
