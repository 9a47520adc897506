-- ===== src/Net/Addresses.antt =====
-- Addresses and the keys of the lookup tables: nat/translation.go (Tuple, Tuple6).
use nff_go_nat.Base.{ℕ, ◌≡◌, ◌↔◌, ℕ_discrete, List, Bool, true, false, replicate, ite, arith}

-- types.IPv4Address is a uint32; types.IPv6Address and types.MACAddress are arrays of 16 and 6 bytes.
abbrev pub IPv4Address : Type 0
IPv4Address = ℕ

abbrev pub IPv6Address : Type 0
IPv6Address = List ℕ

abbrev pub MacAddress : Type 0
MacAddress = List ℕ

-- A Tuple or a Tuple6, as the `interface{}` keys and values of the translation tables hold them.
pub data Endpoint : Type 0 where
  tuple : IPv4Address → ℕ → Endpoint
  tuple6 : IPv6Address → ℕ → Endpoint

unfoldable pub bytes_discrete : Discrete (List ℕ)
unfolding ℕ_discrete
bytes_discrete = hlevel ℕ_discrete

unfoldable pub endpoint_discrete : Discrete Endpoint
unfolding ℕ_discrete
endpoint_discrete = hlevel ℕ_discrete

-- `types.IPv6Address{}` and `types.MACAddress{}`
abbrev pub zero_ipv6_addr : IPv6Address
zero_ipv6_addr = replicate 16 0

abbrev pub zero_mac : MacAddress
zero_mac = replicate 6 0

-- `a == b` on two arrays.
unfoldable pub same_bytes : List ℕ → List ℕ → Bool
unfolding bytes_discrete ℕ_discrete
same_bytes a b = ite (bytes_discrete a b) true false

pub same_bytes_iff : (a b : List ℕ) → (same_bytes a b ≡ true) ↔ (a ≡ b)
unfolding same_bytes
same_bytes_iff a b = ground arith

-- An IPv4Address or an IPv6Address, as the `interface{}` keys of the ARP tables hold them.
pub data IpAddress : Type 0 where
  ip4 : IPv4Address → IpAddress
  ip6 : IPv6Address → IpAddress

unfoldable pub ip_discrete : Discrete IpAddress
unfolding ℕ_discrete
ip_discrete = hlevel ℕ_discrete
