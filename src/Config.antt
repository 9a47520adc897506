-- ===== src/Config.antt =====
-- The data model of nat/config.go: constants, subnets, ports, port pairs and the whole configuration.
-- A duration and a time are numbers of nanoseconds; the zero time.Time is 0.
use Prim.Native.String.{String}
use text.Mathlib.Text.{◌==◌ as str_eq}
use nff_go_nat.Base.{ℕ, ◌*◌, ◌^◌, Bool, false, not, List}
use nff_go_nat.Base.Slice.{Slice, make}
use nff_go_nat.Net.{IPv4Address, IPv6Address, MacAddress, Table, ArpTable}

-- Values of the constants of nff-go's package types: the IANA protocol numbers.
abbrev pub icmp_number : ℕ
icmp_number = 1

abbrev pub tcp_number : ℕ
tcp_number = 6

abbrev pub udp_number : ℕ
udp_number = 17

abbrev pub icmpv6_number : ℕ
icmpv6_number = 58

-- The directions that a handler answers with.
abbrev pub dir_drop : ℕ
dir_drop = 0

abbrev pub dir_send : ℕ
dir_send = 1

abbrev pub dir_kni : ℕ
dir_kni = 2

abbrev pub port_start : ℕ
port_start = 1024

abbrev pub port_end : ℕ
port_end = 65500

abbrev pub connection_timeout : ℕ
connection_timeout = 60 * 10 ^ 9

abbrev pub port_reuse_timeout : ℕ
port_reuse_timeout = 10 ^ 9

-- A terminationDirection is a uint8.
abbrev pub pri2pub : ℕ
pri2pub = 0x0f

abbrev pub pub2pri : ℕ
pub2pri = 0xf0

pub data InterfaceType : Type 0 where
  i_public i_private : InterfaceType

pub record HostPort : Type 0 where
  pub addr4 : IPv4Address
  pub addr6 : IPv6Address
  pub port : ℕ
  pub ipv6 : Bool

pub record ProtocolId : Type 0 where
  pub id : ℕ
  pub ipv6 : Bool

pub record ForwardedPort : Type 0 where
  pub port : ℕ
  pub destination : HostPort
  pub protocol : ProtocolId

-- The message type that was sent last (0 for none) and the transaction.
pub record DhcpState : Type 0 where
  pub last_dhcp_packet_type_sent : ℕ
  pub dhcp_transaction_id : ℕ

pub record Dhcpv6State : Type 0 where
  pub last_dhcpv6_packet_type_sent : ℕ
  pub dhcpv6_transaction_id : List ℕ

pub record Ipv4Subnet : Type 0 where
  pub addr : IPv4Address
  pub mask : IPv4Address
  pub address_acquired : Bool
  pub kni_address_set : Bool
  pub ds : DhcpState

pub record Ipv6Subnet : Type 0 where
  pub addr : IPv6Address
  pub multicast_addr : IPv6Address
  pub mask : IPv6Address
  pub ll_addr : IPv6Address
  pub ll_multicast_addr : IPv6Address
  pub address_acquired : Bool
  pub kni_address_set : Bool
  pub ds : Dhcpv6State

pub record PortMapEntry : Type 0 where
  pub lastused : ℕ
  pub fin_count : ℕ
  pub termination_direction : ℕ
  pub is_static : Bool

-- `portMapEntry{}`
abbrev pub zero_entry : PortMapEntry
zero_entry = record { lastused = 0; fin_count = 0; termination_direction = 0; is_static = false }

-- `portmap[protocol]`: the inner slices of the protocols that have none are nil, of length 0.
abbrev pub Portmap : Type 0
Portmap = ℕ → Slice PortMapEntry

abbrev pub no_portmap : Portmap
no_portmap _ = make 0 zero_entry

pub record IpPort : Type 0 where
  pub index : ℕ
  pub subnet : Ipv4Subnet
  pub subnet6 : Ipv6Subnet
  pub vlan : ℕ
  pub kni_name : String
  pub forward_ports : List ForwardedPort
  pub dst_mac_address : MacAddress
  pub static_arp_mode : Bool
  pub src_mac_address : MacAddress
  pub interface_type : InterfaceType
  pub portmap : Portmap
  pub portmap6 : Portmap
  pub translation_table : Table
  pub arp_table : ArpTable

-- `port.KNIName != ""`
unfoldable pub has_kni : IpPort → Bool
has_kni port = not (str_eq port.kni_name "")

-- `PublicPort.opposite` is `PrivatePort` and the other way round, so no field holds the pointer.
pub record PortPair : Type 0 where
  pub private_port : IpPort
  pub public_port : IpPort
  pub lastport : ℕ

pub record Config : Type 0 where
  pub host_name : String
  pub port_pairs : List PortPair
  pub set_kni_ip : Bool
  pub bring_up_kni_interfaces : Bool
