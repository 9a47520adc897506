-- ===== src/Unmarshal.antt =====
-- The UnmarshalJSON methods of nat/config.go: what the texts of a configuration stand for. Their
-- argument is what json.Unmarshal into a string gives, `none` for its error.
pub mod Sizes
pub mod Types
use Prim.Native.String.{String}
use nff_go_nat.Base.{
  ℕ, ◌%◌, ◌^◌, Bool, true, false, if◌then◌else◌, Option, none, some, List, [], ◌∷◌, ◌++◌, length,
  drop, replicate, Outcome, done, ◌>>=◌,
}
use nff_go_nat.Net.{same_bytes}
use nff_go_nat.Nff.{Nff}
use nff_go_nat.Config.{HostPort, ProtocolId, Ipv4Subnet, Ipv6Subnet, tcp_number, udp_number}
use nff_go_nat.Net.{IPv4Address, zero_ipv6_addr}
use nff_go_nat.OptionCodec.{to16}
use nff_go_nat.Dhcp.{to4, convert_ipv4}
use nff_go_nat.Text.{Text, codes, split_host_port}
use nff_go_nat.Text.Numerals.{parse_int32}
use nff_go_nat.Text.Ip.{parse_ip, parse_cidr}

abbrev pub same_text : Text → String → Bool
same_text s t = same_bytes s (codes t)

-- `protocolIdLookup[s]`
unfoldable pub protocol_id_lookup : Text → Option ProtocolId
unfolding same_bytes
protocol_id_lookup s =
    if same_text s "TCP"
    then some (record { id = tcp_number; ipv6 = false })
    else if same_text s "UDP"
    then some (record { id = udp_number; ipv6 = false })
    else if same_text s "TCP6"
    then some (record { id = tcp_number; ipv6 = true })
    else if same_text s "UDP6"
    then some (record { id = udp_number; ipv6 = true })
    else none

-- protocolId.UnmarshalJSON; `none` is an error, here and below.
unfoldable pub unmarshal_protocol_id : Option Text → Option ProtocolId
unfolding protocol_id_lookup
unmarshal_protocol_id none = none
unmarshal_protocol_id (some s) = protocol_id_lookup s

-- `copy(dst[:], src)` of a slice into the front of an array that is at least as long.
unfoldable pub copy_into : List ℕ → List ℕ → List ℕ
copy_into dst src = src ++ drop (length src) dst

abbrev pub acquired4 : Ipv4Subnet → Option IPv4Address → Option IPv4Address → Option Ipv4Subnet
acquired4 out (some addr) (some mask) =
    some (record out { addr = addr; mask = mask; address_acquired = true })
acquired4 out _ _ = none

-- hostPort.UnmarshalJSON, for the address. An address that is not IPv4 is copied as it is.
unfoldable pub with_host : HostPort → List ℕ → Option IPv4Address → HostPort
with_host out ip (some addr) = record out { addr4 = addr }
with_host out ip none = record out { addr4 = 0; addr6 = copy_into out.addr6 (to16 ip); ipv6 = true }

-- `uint16(port)` of the int64 that strconv.ParseInt gives.
unfoldable pub with_port : HostPort → Text → Option HostPort
with_port out [] = some (record out { port = 0 })
with_port out (c ∷ s) = elim (parse_int32 (c ∷ s)) [
  | none ↦ none
  | some port ↦ some (record out { port = port % 2 ^ 16 })
]

module _ (nff : Nff) where
  -- The branch of net.ParseIP, for a text that net.ParseCIDR refuses.
  unfoldable pub single_address4 : Ipv4Subnet → Option (List ℕ) → Outcome (Option Ipv4Subnet)
  single_address4 out none = done none
  single_address4 out (some ip) = do
    addr ← convert_ipv4 nff (to4 ip)
    done (acquired4 out addr (some 0xffffffff))

  unfoldable pub cidr_address4 :
      Ipv4Subnet → Text → Option (List ℕ × List ℕ) → Outcome (Option Ipv4Subnet)
  unfolding single_address4
  cidr_address4 out s none = single_address4 out (parse_ip s)
  cidr_address4 out s (some (ip, ipnet_mask)) = do
    addr ← convert_ipv4 nff (to4 ip)
    mask ← convert_ipv4 nff (some ipnet_mask)
    done (acquired4 out addr mask)

  -- ipv4Subnet.UnmarshalJSON
  unfoldable pub unmarshal_ipv4_subnet : Ipv4Subnet → Option Text → Outcome (Option Ipv4Subnet)
  unfolding cidr_address4 same_bytes
  unmarshal_ipv4_subnet out none = done none
  unmarshal_ipv4_subnet out (some s) =
      if same_text s "dhcp"
      then done (some (record out { addr = 0; mask = 0; address_acquired = false }))
      else cidr_address4 out s (parse_cidr s)

  unfoldable pub with_ip : HostPort → Text → Option (List ℕ) → Outcome (Option HostPort)
  unfolding with_host with_port
  with_ip out port_str none = done none
  with_ip out port_str (some ip) = do
    addr ← convert_ipv4 nff (to4 ip)
    done (with_port (with_host out ip addr) port_str)

  unfoldable pub with_parts : HostPort → Option (Text × Text) → Outcome (Option HostPort)
  unfolding with_ip
  with_parts out none = done none
  with_parts out (some (host_str, port_str)) = with_ip out port_str (parse_ip host_str)

  -- hostPort.UnmarshalJSON
  unfoldable pub unmarshal_host_port : HostPort → Option Text → Outcome (Option HostPort)
  unfolding with_parts
  unmarshal_host_port out none = done none
  unmarshal_host_port out (some s) = with_parts out (split_host_port s)

-- ipv6Subnet.UnmarshalJSON. An IPv4 address is taken too, in its mapped form; the mask of its network
-- has four bytes, which are copied to the front of the sixteen.
unfoldable pub single_address6 : Ipv6Subnet → Option (List ℕ) → Option Ipv6Subnet
single_address6 out none = none
single_address6 out (some ip) = some (record out {
  addr = copy_into out.addr (to16 ip);
  mask = replicate 16 0xff;
  address_acquired = true;
})

unfoldable pub cidr_address6 : Ipv6Subnet → Text → Option (List ℕ × List ℕ) → Option Ipv6Subnet
unfolding single_address6
cidr_address6 out s none = single_address6 out (parse_ip s)
cidr_address6 out s (some (ip, ipnet_mask)) = some (record out {
  addr = copy_into out.addr (to16 ip);
  mask = copy_into out.mask ipnet_mask;
  address_acquired = true;
})

unfoldable pub unmarshal_ipv6_subnet : Ipv6Subnet → Option Text → Option Ipv6Subnet
unfolding cidr_address6 same_bytes
unmarshal_ipv6_subnet out none = none
unmarshal_ipv6_subnet out (some s) =
    if same_text s "dhcp"
    then some
        (record out { addr = zero_ipv6_addr; mask = zero_ipv6_addr; address_acquired = false })
    else cidr_address6 out s (parse_cidr s)
