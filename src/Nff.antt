-- ===== src/Nff.antt =====
-- The functions of the nff-go framework (github.com/intel-go/nff-go) and of gopacket, no part of the
-- repository, that the code calls. They are a parameter of the model, with the documented behaviour
-- that proofs rely on as the last fields.
use nff_go_nat.Base.{ℕ, ◌^◌, ◌<◌, ◌≡◌, List, Option}
use nff_go_nat.Net.{IPv4Address, IPv6Address, MacAddress}
use nff_go_nat.Packets.{Packet, Ipv4Hdr, Ipv6Hdr, L4}

-- gopacket's layers.DHCPOption, and what the code reads of a layers.DHCPv4 or writes into one.
pub record DhcpOption : Type 0 where
  pub option_type : ℕ
  pub contents : List ℕ

pub record DhcpReply : Type 0 where
  pub your_client_ip : List ℕ
  pub next_server_ip : List ℕ
  pub options : List DhcpOption

pub record DhcpRequest : Type 0 where
  pub xid : ℕ
  pub client_hw_addr : MacAddress
  pub options : List DhcpOption

-- gopacket's layers.DHCPv6Option: code, declared length and data; and a layers.DHCPv6.
pub record Dhcpv6Option : Type 0 where
  pub code : ℕ
  pub len : ℕ
  pub contents : List ℕ

pub record Dhcpv6 : Type 0 where
  pub msg_type : ℕ
  pub transaction_id : List ℕ
  pub options : List Dhcpv6Option

pub record Nff : Type 0 where
  -- packet.SwapBytesUint16 and packet.SwapBytesIPv4Addr: between network and host byte order.
  pub swap16 : ℕ → ℕ
  pub swap32 : IPv4Address → IPv4Address
  -- types.BytesToIPv4 and types.ArrayToIPv4
  pub bytes_to_ipv4 : ℕ → ℕ → ℕ → ℕ → IPv4Address
  pub array_to_ipv4 : List ℕ → IPv4Address
  -- String of types.IPv4Address and types.IPv6Address, as bytes
  pub ipv4_string : IPv4Address → List ℕ
  pub ipv6_string : IPv6Address → List ℕ
  -- flow.GetPortMACAddress
  pub port_mac : ℕ → MacAddress
  -- packet.CalculateIPv6LinkLocalAddrForMAC, packet.CalculateIPv6MulticastAddrForDstIP and
  -- packet.CalculateIPv6BroadcastMACForDstMulticastIP
  pub link_local_addr : MacAddress → IPv6Address
  pub multicast_addr : IPv6Address → IPv6Address
  pub multicast_mac : IPv6Address → MacAddress
  -- VLANHdr.SetVLANTagIdentifier, as the new TCI for the old one and a tag; Packet.AddVLANTag
  pub set_vlan_tag : ℕ → ℕ → ℕ
  pub add_vlan_tag : Packet → ℕ → Packet
  -- packet.InitARPReplyPacket and packet.InitARPRequestPacket
  pub arp_reply_packet : MacAddress → MacAddress → IPv4Address → IPv4Address → Packet
  pub arp_request_packet : MacAddress → IPv4Address → IPv4Address → Packet
  -- packet.InitICMPv6NeighborAdvertisementPacket and packet.InitICMPv6NeighborSolicitationPacket
  pub advertisement_packet : MacAddress → MacAddress → IPv6Address → IPv6Address → Packet
  pub solicitation_packet : MacAddress → IPv6Address → IPv6Address → Packet
  -- The checksum functions of package packet: of the IPv4 header, of the pseudo header, and of the
  -- L4 data, over the headers as they stand.
  pub ipv4_checksum : Ipv4Hdr → ℕ
  pub pseudo_checksum4 : Ipv4Hdr → L4 → ℕ
  pub l4_checksum4 : Ipv4Hdr → L4 → ℕ
  pub pseudo_checksum6 : Ipv6Hdr → L4 → ℕ
  pub l4_checksum6 : Ipv6Hdr → L4 → ℕ
  -- What GetIPv6NoCheck().DstAddr and .SrcAddr read in an IPv4 packet, and GetIPv4NoCheck().DstAddr in
  -- an IPv6 packet: the bytes at that place.
  pub ipv4_as_ipv6_dst : Ipv4Hdr → L4 → IPv6Address
  pub ipv4_as_ipv6_src : Ipv4Hdr → L4 → IPv6Address
  pub ipv6_as_ipv4_dst : Ipv6Hdr → L4 → IPv4Address
  -- gopacket's DHCP and DHCPv6 layers: to bytes and, where the payload is such a message, back.
  pub serialize_dhcp : DhcpRequest → List ℕ
  pub parse_dhcp : List ℕ → Option DhcpReply
  pub serialize_dhcpv6 : Dhcpv6 → List ℕ
  pub parse_dhcpv6 : List ℕ → Option Dhcpv6
  -- DHCPv6DUID.Encode of the client's identifier, for a MAC address.
  pub client_duid : MacAddress → List ℕ
  -- Swapping bytes twice gives the value back, and stays in the type.
  pub swap16_swap16 : (x : ℕ) → x < 2 ^ 16 → swap16 (swap16 x) ≡ x
  pub swap16-lt : (x : ℕ) → x < 2 ^ 16 → swap16 x < 2 ^ 16
  pub swap32_swap32 : (x : ℕ) → x < 2 ^ 32 → swap32 (swap32 x) ≡ x
