-- ===== src/Samples.antt =====
-- Concrete data for the tests and the witnesses: a byte-swapping framework and a pair of ports.
use nff_go_nat.Base.{
  ℕ, ◌+◌, ◌*◌, ◌/◌, ◌%◌, ◌^◌, ◌<◌, ◌≡◌, true, false, List, [], ◌∷◌, none, some, arith,
}
use nff_go_nat.Packets.{Packet, Ipv4Hdr, UdpHdr, udp, v4_packet, other_packet}
use nff_go_nat.Machine.{Env}
use nff_go_nat.Net.{MacAddress, zero_ipv6_addr, zero_mac, empty}
use nff_go_nat.Nff.{Nff}
use nff_go_nat.Config.{
  IpPort, PortPair, Ipv4Subnet, Ipv6Subnet, InterfaceType, i_public, i_private, no_portmap,
}

abbrev pub swap16 : ℕ → ℕ
swap16 x = x % 256 * 256 + x / 256

abbrev pub swap32 : ℕ → ℕ
swap32 x = x % 256 * 2 ^ 24 + x / 256 % 256 * 2 ^ 16 + x / 2 ^ 16 % 256 * 256 + x / 2 ^ 24

pub swap16_swap16 : (x : ℕ) → x < 2 ^ 16 → swap16 (swap16 x) ≡ x
swap16_swap16 x h = omega arith

pub swap16-lt : (x : ℕ) → x < 2 ^ 16 → swap16 x < 2 ^ 16
swap16-lt x h = omega arith

pub swap32_swap32 : (x : ℕ) → x < 2 ^ 32 → swap32 (swap32 x) ≡ x
swap32_swap32 x h = omega arith

-- The bytes of an address in memory, as a little-endian machine reads them.
abbrev pub le32 : List ℕ → ℕ
le32 [] = 0
le32 (b ∷ bs) = b + 256 * le32 bs

abbrev pub plain_packet : MacAddress → MacAddress → Packet
plain_packet own mac = record {
  ether = record { saddr = own; daddr = mac };
  vlan = none;
  l3 = other_packet;
  ol_flags = none;
}

abbrev pub nff : Nff
nff = record {
  swap16 = swap16;
  swap32 = swap32;
  bytes_to_ipv4 = λ a b c d. a + b * 256 + c * 2 ^ 16 + d * 2 ^ 24;
  array_to_ipv4 = le32;
  ipv4_string = λ addr. addr ∷ [];
  ipv6_string = λ addr. addr;
  port_mac = λ index. 2 ∷ 0 ∷ 0 ∷ 0 ∷ 0 ∷ index ∷ [];
  link_local_addr = λ mac. 0xfe ∷ 0x80 ∷ mac;
  multicast_addr = λ ip. 0xff ∷ ip;
  multicast_mac = λ ip. 0x33 ∷ 0x33 ∷ [];
  set_vlan_tag = λ tci tag. tag;
  add_vlan_tag = λ pkt tag. record pkt { vlan = some tag };
  arp_reply_packet = λ own mac src dst. plain_packet own mac;
  arp_request_packet = λ own src dst. plain_packet own zero_mac;
  advertisement_packet = λ own mac src dst. plain_packet own mac;
  solicitation_packet = λ own src dst. plain_packet own zero_mac;
  ipv4_checksum = λ h. 0;
  pseudo_checksum4 = λ h l4. 0;
  l4_checksum4 = λ h l4. 0;
  pseudo_checksum6 = λ h l4. 0;
  l4_checksum6 = λ h l4. 0;
  ipv4_as_ipv6_dst = λ h l4. zero_ipv6_addr;
  ipv4_as_ipv6_src = λ h l4. zero_ipv6_addr;
  ipv6_as_ipv4_dst = λ h l4. 0;
  serialize_dhcp = λ request. request.client_hw_addr;
  parse_dhcp = λ bytes. none;
  serialize_dhcpv6 = λ message. message.transaction_id;
  parse_dhcpv6 = λ bytes. none;
  client_duid = λ mac. 0 ∷ 3 ∷ 0 ∷ 3 ∷ mac;
  swap16_swap16 = swap16_swap16;
  swap16-lt = swap16-lt;
  swap32_swap32 = swap32_swap32;
}

abbrev pub subnet4 : ℕ → Ipv4Subnet
subnet4 addr = record {
  addr = addr;
  mask = 0xffffff00;
  address_acquired = true;
  kni_address_set = false;
  ds = record { last_dhcp_packet_type_sent = 0; dhcp_transaction_id = 0 };
}

abbrev pub subnet6 : Ipv6Subnet
subnet6 = record {
  addr = zero_ipv6_addr;
  multicast_addr = zero_ipv6_addr;
  mask = zero_ipv6_addr;
  ll_addr = zero_ipv6_addr;
  ll_multicast_addr = zero_ipv6_addr;
  address_acquired = false;
  kni_address_set = false;
  ds = record { last_dhcpv6_packet_type_sent = 0; dhcpv6_transaction_id = 0 ∷ 0 ∷ 0 ∷ [] };
}

abbrev pub port : ℕ → ℕ → InterfaceType → IpPort
port index addr kind = record {
  index = index;
  subnet = subnet4 addr;
  subnet6 = subnet6;
  vlan = 0;
  kni_name = "";
  forward_ports = [];
  dst_mac_address = zero_mac;
  static_arp_mode = false;
  src_mac_address = zero_mac;
  interface_type = kind;
  portmap = no_portmap;
  portmap6 = no_portmap;
  translation_table = empty;
  arp_table = λ _. none;
}

-- 192.168.14.1 and 192.168.16.1
abbrev pub private_addr : ℕ
private_addr = 0xc0a80e01

abbrev pub public_addr : ℕ
public_addr = 0xc0a81001

-- A pair as ReadConfig leaves it.
abbrev pub configured : PortPair
configured = record {
  private_port = port 0 private_addr i_private;
  public_port = port 1 public_addr i_public;
  lastport = 0;
}

-- At 100 seconds, without traces and with checksums.
abbrev pub env : Env
env = record {
  nff = nff;
  now = 100 * 10 ^ 9;
  no_calculate_checksum = false;
  no_hw_tx_checksum = true;
  dump_enabled = λ dir. false;
  host_name = b'n' ∷ b'f' ∷ b'f' ∷ [];
  bring_up = false;
}

-- From 192.168.14.2, port 40000, to 8.8.8.9, port 53.
abbrev pub query_ip : Ipv4Hdr
query_ip = record { src_addr = 0x020ea8c0; dst_addr = 0x09080808; hdr_checksum = 0 }

abbrev pub query_udp : UdpHdr
query_udp = record { src_port = 0x409c; dst_port = 0x3500; dgram_cksum = 0; payload = [] }

abbrev pub query : Packet
query = record {
  ether = record { saddr = 2 ∷ 0 ∷ 0 ∷ 0 ∷ 9 ∷ 9 ∷ []; daddr = 2 ∷ 0 ∷ 0 ∷ 0 ∷ 0 ∷ 0 ∷ [] };
  vlan = none;
  l3 = v4_packet query_ip (udp query_udp);
  ol_flags = none;
}

-- From 8.8.8.9, port 53, to the public address, port 1024.
abbrev pub answer_ip : Ipv4Hdr
answer_ip = record { src_addr = 0x09080808; dst_addr = 0x0110a8c0; hdr_checksum = 0 }

abbrev pub answer_udp : UdpHdr
answer_udp = record { src_port = 0x3500; dst_port = 0x0004; dgram_cksum = 0; payload = [] }

abbrev pub answer : Packet
answer = record query { l3 = v4_packet answer_ip (udp answer_udp) }
