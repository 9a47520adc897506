-- ===== src/Unmarshal/Sizes.antt =====
-- The sizes of the source's types, and of what net.ParseCIDR and copy give.
use nff_go_nat.Base.{
  ℕ, zero, suc, ◌-◌, ◌*◌, ◌^◌, ◌≤◌, ◌<◌, ◌≡◌, refl, ◌⊎◌, inl, inr, leb, Option, none, some, List,
  [], ◌∷◌, ◌++◌, length, length-append, length-replicate, Bool-cases, arith,
}
use nff_go_nat.Config.{HostPort, Ipv4Subnet, Ipv6Subnet}
use nff_go_nat.OptionCodec.{to16}
use nff_go_nat.Dhcp.{to4}
use nff_go_nat.Text.{Text, split, cut_first}
use nff_go_nat.Text.Numerals.{parse_digits}
use nff_go_nat.Text.Ip.{
  mapped_prefix, parse_ipv4, parse_ipv6, parse_cidr, cidr_of, with_mask, cidr_mask,
}
use nff_go_nat.Text.Lengths.{HasLength, parse_ipv4-HasLength, parts-HasLength}
use nff_go_nat.Unmarshal.{copy_into}

-- A result that is an error or a good value.
abbrev pub OrError {ℓ} : {A : Type ℓ} → (A → Type 0) → Option A → Type 0
OrError P none = Unit
OrError P (some a) = P a

-- The sizes of the fields: uint32 addresses, arrays of sixteen bytes, a uint16 port.
abbrev pub IsHostPort : HostPort → Type 0
IsHostPort out = (out.addr4 < 2 ^ 32) × (length out.addr6 ≡ 16) × (out.port < 2 ^ 16)

abbrev pub IsSubnet4 : Ipv4Subnet → Type 0
IsSubnet4 out = (out.addr < 2 ^ 32) × (out.mask < 2 ^ 32)

abbrev pub IsSubnet6 : Ipv6Subnet → Type 0
IsSubnet6 out = (length out.addr ≡ 16) × (length out.mask ≡ 16)

pub to4-HasLength : (ip : List ℕ) → HasLength 4 (to4 ip)
unfolding to4
to4-HasLength (a ∷ b ∷ c ∷ d ∷ []) = refl
to4-HasLength
      (zero ∷ zero ∷ zero ∷ zero ∷ zero ∷ zero ∷ zero ∷ zero ∷ zero ∷ zero ∷ x ∷ y ∷ a ∷ b ∷ c ∷ d
        ∷ []) =
    ground arith
to4-HasLength _ = tt

pub cidr_mask-length : (n len : ℕ) → length (cidr_mask n len) ≡ len
unfolding cidr_mask
cidr_mask-length n zero = refl
cidr_mask-length n (suc len) =
    ground (arith, cidr_mask-length (n - 8) len, length-replicate {A = ℕ} len 0)

-- net.ParseCIDR gives sixteen bytes of address, and four or sixteen of mask.
abbrev pub IsCidr : List ℕ × List ℕ → Type 0
IsCidr (ip, mask) = (length ip ≡ 16) × ((length mask ≡ 4) ⊎ (length mask ≡ 16))

with_mask-IsCidr :
    (len : ℕ) (ip : List ℕ) (n : Option ℕ)
    → length ip ≡ 16
    → (len ≡ 4) ⊎ (len ≡ 16)
    → OrError IsCidr (with_mask len ip n)
unfolding with_mask
with_mask-IsCidr len ip none h k = tt
with_mask-IsCidr len ip (some n) h k = elim (Bool-cases (leb n (8 * len))) [
  | inl fits ↦ rw fits (
    h,
    elim k [
      | inl e ↦ inl (omega (arith, cidr_mask-length n len))
      | inr e ↦ inr (omega (arith, cidr_mask-length n len))
    ],
  )
  | inr not_fits ↦ rw not_fits tt
]

either_family :
    (o4 o6 : Option (List ℕ)) (n : Option ℕ)
    → HasLength 4 o4
    → HasLength 16 o6
    → OrError IsCidr (elim o4 [
      | some bytes ↦ with_mask 4 (mapped_prefix ++ bytes) n
      | none ↦ elim o6 [ none ↦ none | some ip ↦ with_mask 16 ip n ]
    ])
either_family (some bytes) o6 n h k =
    with_mask-IsCidr 4 (mapped_prefix ++ bytes) n (omega (arith, length-append mapped_prefix bytes))
      (inl refl)
either_family none none n h k = tt
either_family none (some ip) n h k = with_mask-IsCidr 16 ip n k (inr refl)

cut-IsCidr :
    (o : Option (Text × Text))
    → OrError IsCidr (elim o [ none ↦ none | some (addr, bits) ↦ cidr_of addr (parse_digits bits) ])
unfolding cidr_of parse_ipv6
cut-IsCidr none = tt
cut-IsCidr (some (addr, bits)) =
    either_family (parse_ipv4 addr) (parse_ipv6 addr) (parse_digits bits)
      (parse_ipv4-HasLength addr) (parts-HasLength (split b':' addr))

pub parse_cidr-IsCidr : (s : Text) → OrError IsCidr (parse_cidr s)
unfolding parse_cidr
parse_cidr-IsCidr s = cut-IsCidr (cut_first b'/' s)

-- `copy` of bytes that fit leaves the length of an array.
pub copy_into-length :
    (dst src : List ℕ) → length src ≤ length dst → length (copy_into dst src) ≡ length dst
unfolding copy_into
copy_into-length dst [] h = refl
copy_into-length [] (b ∷ src) h = absurd (omega arith)
copy_into-length (x ∷ dst) (b ∷ src) h = omega (arith, copy_into-length dst src (omega arith))

pub to16-length : (ip : List ℕ) → length ip ≡ 16 → length (to16 ip) ≡ 16
unfolding to16
to16-length ip h = ground arith
