-- ===== src/Packets.antt =====
-- A packet as nff-go's package packet hands it to the translator: its headers, already located. A
-- field of a header is in network byte order, as in the source. The payload of an ICMPv6 neighbour
-- message and of UDP is kept beside the header.
use nff_go_nat.Base.{ℕ, List, Option}
use nff_go_nat.Net.{IPv4Address, IPv6Address, MacAddress}

pub record EtherHdr : Type 0 where
  pub saddr : MacAddress
  pub daddr : MacAddress

pub record Ipv4Hdr : Type 0 where
  pub src_addr : IPv4Address
  pub dst_addr : IPv4Address
  pub hdr_checksum : ℕ

pub record Ipv6Hdr : Type 0 where
  pub src_addr : IPv6Address
  pub dst_addr : IPv6Address
  pub hop_limits : ℕ

pub record TcpHdr : Type 0 where
  pub src_port : ℕ
  pub dst_port : ℕ
  pub tcp_flags : ℕ
  pub cksum : ℕ

pub record UdpHdr : Type 0 where
  pub src_port : ℕ
  pub dst_port : ℕ
  pub dgram_cksum : ℕ
  pub payload : List ℕ

-- A link-layer address option of a neighbour message: its type and the address.
pub record NdOption : Type 0 where
  pub option_type : ℕ
  pub link_layer_address : MacAddress

-- An ICMP or ICMPv6 message. The last two fields are there for neighbour messages.
pub record IcmpHdr : Type 0 where
  pub icmp_type : ℕ
  pub code : ℕ
  pub identifier : ℕ
  pub cksum : ℕ
  pub target_addr : IPv6Address
  pub nd_option : Option NdOption

-- What follows the IP header, by its protocol number: 6, 17, 1, 58, or another.
pub data L4 : Type 0 where
  tcp : TcpHdr → L4
  udp : UdpHdr → L4
  icmp : IcmpHdr → L4
  icmpv6 : IcmpHdr → L4
  other_l4 : L4

-- An ARP message: operation, sender's and target's MAC and IPv4 address (the latter as arrays).
pub record ArpHdr : Type 0 where
  pub operation : ℕ
  pub sha : MacAddress
  pub spa : List ℕ
  pub tha : MacAddress
  pub tpa : List ℕ

pub data L3 : Type 0 where
  v4_packet : Ipv4Hdr → L4 → L3
  v6_packet : Ipv6Hdr → L4 → L3
  arp_packet : ArpHdr → L3
  other_packet : L3

-- `ol_flags` is the checksum work left to the network card: lengths of the L2 and L3 headers.
pub record Packet : Type 0 where
  pub ether : EtherHdr
  pub vlan : Option ℕ
  pub l3 : L3
  pub ol_flags : Option (ℕ × ℕ)
