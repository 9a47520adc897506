-- ===== src/Subnet.antt =====
-- Subnet membership and the printed prefix length: nat/config.go.
pub mod PrefixLength
use nff_go_nat.Base.{
  ℕ, zero, suc, ◌+◌, ◌-◌, ◌/◌, ◌%◌, ◌^◌, Bool, ◌==◌, ◌||◌, if◌then◌else◌, List, [], ◌∷◌, ◌++◌,
  bit_and,
}
use nff_go_nat.Nff.{Nff}
use nff_go_nat.Text.{Text, codes}
use nff_go_nat.Text.Numerals.{itoa}
use nff_go_nat.Net.{IPv4Address, IPv6Address, same_bytes}
use nff_go_nat.Config.{Ipv4Subnet, Ipv6Subnet}

-- `addr&subnet.Mask == subnet.Addr&subnet.Mask`
unfoldable pub check_addr_withing_subnet4 : Ipv4Subnet → IPv4Address → Bool
check_addr_withing_subnet4 subnet addr = bit_and addr subnet.mask == bit_and subnet.addr subnet.mask

-- Byte by byte. Addresses and masks are arrays of one length.
unfoldable pub and_bytes : IPv6Address → IPv6Address → IPv6Address
and_bytes [] mask = []
and_bytes (a ∷ addr) [] = []
and_bytes (a ∷ addr) (m ∷ mask) = bit_and a m ∷ and_bytes addr mask

unfoldable pub and_mask : Ipv6Subnet → IPv6Address → IPv6Address
and_mask subnet addr = and_bytes addr subnet.mask

unfoldable pub check_addr_withing_subnet6 : Ipv6Subnet → IPv6Address → Bool
check_addr_withing_subnet6 subnet addr =
    same_bytes (and_mask subnet addr) (and_mask subnet subnet.addr)

-- Count most significant set bits: the loop of ipv4Subnet.String, at most 33 rounds.
unfoldable pub count_bits4 : ℕ → IPv4Address → IPv4Address → ℕ → ℕ
count_bits4 zero mask bit i = i
count_bits4 (suc rounds) mask bit i =
    let rest = count_bits4 rounds mask (bit / 2) (i + 1) in
    if bit_and mask bit == 0 then i else rest

unfoldable pub prefix_bits4 : IPv4Address → ℕ
unfolding count_bits4
prefix_bits4 mask = count_bits4 33 mask (2 ^ 31) 0

-- `a[i]` of an array; the loop below stays inside.
unfoldable pub byte_at : List ℕ → ℕ → ℕ
byte_at [] i = 0
byte_at (b ∷ bytes) zero = b
byte_at (b ∷ bytes) (suc i) = byte_at bytes i

-- The loop of ipv6Subnet.String, which ends at 128 before it reads outside the mask.
unfoldable pub count_bits6 : ℕ → IPv6Address → ℕ → ℕ
unfolding byte_at
count_bits6 zero mask i = i
count_bits6 (suc rounds) mask i =
    let rest = count_bits6 rounds mask (i + 1) in
    if i == 128 || bit_and (byte_at mask (i / 8)) (2 ^ (7 - i % 8)) == 0 then i else rest

unfoldable pub prefix_bits6 : IPv6Address → ℕ
unfolding count_bits6
prefix_bits6 mask = count_bits6 129 mask 0

abbrev pub with_prefix : Text → ℕ → Text
with_prefix addr bits = addr ++ (codes "/" ++ itoa bits)

module _ (nff : Nff) where
  -- ipv4Subnet.String and ipv6Subnet.String. The text of an address is nff-go's.
  unfoldable pub ipv4_subnet_string : Ipv4Subnet → Text
  unfolding prefix_bits4
  ipv4_subnet_string subnet =
      if subnet.address_acquired
      then with_prefix (nff.ipv4_string subnet.addr) (prefix_bits4 subnet.mask)
      else codes "DHCP address not acquired"

  unfoldable pub ipv6_subnet_string : Ipv6Subnet → Text
  unfolding prefix_bits6
  ipv6_subnet_string subnet =
      if subnet.address_acquired
      then with_prefix (nff.ipv6_string subnet.addr) (prefix_bits6 subnet.mask)
      else codes "DHCP address not acquired"
