-- ===== src/Translation.antt =====
-- nat/translation.go: the two packet handlers. Each returns the direction and the packet as it
-- leaves the handler; what they share stands here.
pub mod Entries
pub mod Checksummed
pub mod Rewrite
pub mod Local
pub mod Receiving
pub mod Delivery
pub mod Sending
pub mod Departures
pub mod Masquerade
pub mod Cache
pub mod Ingress
pub mod Egress
use nff_go_nat.Base.{
  ℕ, ◌+◌, Bool, true, false, not, ◌==◌, ◌&&◌, ◌||◌, if◌then◌else◌, Option, none, some, Outcome,
  done, panic,
}
use nff_go_nat.Base.Slice.{get}
use nff_go_nat.Net.{
  IPv4Address, IPv6Address, MacAddress, Endpoint, tuple, tuple6, IpAddress, ip4, ip6, same_bytes,
}
use nff_go_nat.Packets.{
  Packet, Ipv4Hdr, Ipv6Hdr, L4, tcp, udp, icmp, icmpv6, other_l4, L3, v4_packet, v6_packet,
  arp_packet, other_packet,
}
use nff_go_nat.Config.{
  IpPort, PortPair, PortMapEntry, InterfaceType, i_public, i_private, dir_drop, dir_send, dir_kni,
  pri2pub, pub2pri, has_kni, tcp_number,
}
use nff_go_nat.PortAlloc.{
  get_portmap, get_public_port_portmap, put_public_port_portmap, delete_old_connection,
}
use nff_go_nat.Connections.{
  allocate_new_egress_connection, check_tcp_termination, get_addr_from_tuple,
}
use nff_go_nat.Checksums.{parse_all_known_l4, with_dst_port, with_src_port, fix_checksum}
use nff_go_nat.Machine.{
  Env, M, ◌>>=◌, ◌>>◌, return, lift, on_pair, the_port, dump_packet, learn, opposite,
}
use nff_go_nat.Neighbours.{handle_arp, get_mac_for_ipv4, get_mac_for_ipv6}
use nff_go_nat.Icmp.{is_stale, handle_icmp}
use nff_go_nat.Dhcp.{handle_dhcp}
use nff_go_nat.Dhcp6.{handle_dhcpv6}

-- `pktIPv4` and `pktIPv6`, one of which is nil.
pub data IpHdr : Type 0 where
  v4_hdr : Ipv4Hdr → IpHdr
  v6_hdr : Ipv6Hdr → IpHdr

unfoldable pub is_ipv6 : IpHdr → Bool
is_ipv6 (v4_hdr h) = false
is_ipv6 (v6_hdr h) = true

-- The key under which the source code stores the sender in the ARP cache: the field as it stands.
unfoldable pub cache_key : IpHdr → IpAddress
cache_key (v4_hdr h) = ip4 h.src_addr
cache_key (v6_hdr h) = ip6 h.src_addr

-- Whether the address of a port's family is known.
unfoldable pub is_acquired : IpPort → Bool → Bool
is_acquired port ipv6 = if ipv6 then port.subnet6.address_acquired else port.subnet.address_acquired

-- A write of the time to an entry of the public portmap.
unfoldable pub touch_entry : ℕ → Bool → ℕ → ℕ → PortPair → Outcome PortPair
touch_entry now ipv6 protocol port pp = elim (get (get_public_port_portmap pp ipv6 protocol) port) [
  | done e ↦ put_public_port_portmap pp ipv6 protocol port (record e { lastused = now })
  | panic ↦ panic
]

-- `pktTCP != nil && !static`: a segment of a dynamic connection may end it.
unfoldable pub note_segment : ℕ → Bool → L4 → ℕ → ℕ → PortPair → Outcome PortPair
note_segment now ipv6 (tcp t) port dir pp =
    elim (get (get_public_port_portmap pp ipv6 tcp_number) port) [
      | done e ↦
          if e.is_static then done pp else check_tcp_termination now pp ipv6 t.tcp_flags port dir
      | panic ↦ panic
    ]
note_segment now ipv6 l4 port dir pp = done pp

-- What a lookup or an allocation gives: both addresses, and the port.
pub record Target : Type 0 where
  pub v4addr : IPv4Address
  pub v6addr : IPv6Address
  pub new_port : ℕ

module _ (env : Env) where
  open env use {nff, now}

  unfoldable pub source_key : IpHdr → ℕ → Endpoint
  source_key (v4_hdr h) port = tuple (nff.swap32 h.src_addr) port
  source_key (v6_hdr h) port = tuple6 h.src_addr port

  unfoldable pub dest_key : IpHdr → ℕ → Endpoint
  dest_key (v4_hdr h) port = tuple (nff.swap32 h.dst_addr) port
  dest_key (v6_hdr h) port = tuple6 h.dst_addr port

  -- The end of a handler that does not forward.
  unfoldable pub finish : InterfaceType → Packet → ℕ → M (ℕ × Packet)
  finish side pkt dir = do dump_packet env side pkt dir; return (dir, pkt)

  -- `if pktICMP != nil { dir := port.handleICMP(…) }`; DirSEND if the handler goes on.
  unfoldable pub check_icmp : InterfaceType → ℕ → Packet → L4 → Endpoint → M ℕ
  check_icmp side protocol pkt (icmp i) key = handle_icmp env side protocol pkt i key
  check_icmp side protocol pkt (icmpv6 i) key = handle_icmp env side protocol pkt i key
  check_icmp side protocol pkt _ key = return dir_send

  unfoldable pub check_dhcp : InterfaceType → Bool → L4 → M Bool
  check_dhcp side true (udp u) = handle_dhcpv6 env side u
  check_dhcp side false (udp u) = handle_dhcp env side u
  check_dhcp side ipv6 _ = return false

  unfoldable pub find_mac : InterfaceType → Bool → IPv4Address → IPv6Address → M (Option MacAddress)
  find_mac side true v4addr v6addr = get_mac_for_ipv6 env side v6addr
  find_mac side false v4addr v6addr = get_mac_for_ipv4 env side v4addr

  -- The Ethernet and VLAN headers of a packet that leaves through `port`.
  unfoldable pub to_port : IpPort → MacAddress → Packet → Packet
  to_port port mac pkt = record pkt {
    ether = record { saddr = port.src_mac_address; daddr = mac };
    vlan = elim pkt.vlan [ none ↦ none | some tci ↦ some (nff.set_vlan_tag tci port.vlan) ];
  }

  unfoldable pub with_dst : IpHdr → L4 → Target → L3
  with_dst (v4_hdr h) l4 t =
      v4_packet (record h { dst_addr = nff.swap32 t.v4addr }) (with_dst_port nff l4 t.new_port)
  with_dst (v6_hdr h) l4 t =
      v6_packet (record h { dst_addr = t.v6addr }) (with_dst_port nff l4 t.new_port)

  unfoldable pub with_src : IpHdr → L4 → Target → L3
  with_src (v4_hdr h) l4 t =
      v4_packet (record h { src_addr = nff.swap32 t.v4addr }) (with_src_port nff l4 t.new_port)
  with_src (v6_hdr h) l4 t =
      v6_packet (record h { src_addr = t.v6addr }) (with_src_port nff l4 t.new_port)

  -- The rewritten packet with its checksums, dumped at the port it leaves through.
  unfoldable pub emit : InterfaceType → Bool → L4 → L3 → MacAddress → Packet → M (ℕ × Packet)
  emit out ipv6 l4 l3 mac pkt = do
    port ← the_port out
    let fixed =
        fix_checksum nff l4 (record (to_port port mac pkt) { l3 = l3 }) ipv6
          (not env.no_calculate_checksum) (not env.no_hw_tx_checksum)
    dump_packet env out fixed dir_send
    return (dir_send, fixed)

  -- What both handlers do with an IP packet before they look it up.
  unfoldable pub check_local :
      InterfaceType → Packet → IpHdr → L4 → ℕ → Endpoint → M (ℕ × Packet) → M (ℕ × Packet)
  check_local side pkt ip l4 protocol key translate = do
    dir ← check_icmp side protocol pkt l4 key
    if not (dir == dir_send) then finish side pkt dir else (do
      handled ← check_dhcp side (is_ipv6 ip) l4
      if handled then finish side pkt dir_drop else translate)

  -- parsePacketAndCheckARP, with what the handler does with an IP packet.
  unfoldable pub parse_packet_and_check_arp :
      InterfaceType → Packet → (IpHdr → L4 → M (ℕ × Packet)) → L3 → M (ℕ × Packet)
  parse_packet_and_check_arp side pkt go_on (v4_packet h l4) = go_on (v4_hdr h) l4
  parse_packet_and_check_arp side pkt go_on (v6_packet h l4) = go_on (v6_hdr h) l4
  parse_packet_and_check_arp side pkt go_on (arp_packet a) = do
    dir ← handle_arp env side a pkt.vlan
    finish side pkt dir
  parse_packet_and_check_arp side pkt go_on other_packet = finish side pkt dir_drop
