-- ===== src/Icmp.antt =====
-- nat/icmp.go: ICMP and ICMPv6 messages for the translator itself.
pub mod Caches
pub mod Kni
use nff_go_nat.Base.{
  ℕ, ◌-◌, Bool, true, false, not, ◌==◌, ◌&&◌, ◌||◌, ltb, if◌then◌else◌, none, some, [], Outcome,
  done, panic,
}
use nff_go_nat.Base.Slice.{get}
use nff_go_nat.Net.{IPv4Address, IPv6Address, Endpoint, same_bytes}
use nff_go_nat.Packets.{Packet, EtherHdr, IcmpHdr, L4, icmp, icmpv6, L3, v4_packet, v6_packet}
use nff_go_nat.Config.{
  IpPort, InterfaceType, PortMapEntry, dir_drop, dir_send, dir_kni, has_kni, icmp_number,
  icmpv6_number, connection_timeout,
}
use nff_go_nat.PortAlloc.{get_portmap}
use nff_go_nat.Checksums.{set_ipv4_icmp_checksum, set_ipv6_icmp_checksum}
use nff_go_nat.Machine.{Env, M, ◌>>=◌, ◌>>◌, return, lift, the_port, send_packet}
use nff_go_nat.Neighbours.{handle_ipv6_neighbor_discovery}

-- Values of the constants of nff-go's package types: echo message types.
abbrev pub echo_request : ℕ
echo_request = 8

abbrev pub echo_response : ℕ
echo_response = 0

abbrev pub echo_request6 : ℕ
echo_request6 = 128

abbrev pub echo_response6 : ℕ
echo_response6 = 129

-- `time.Since(entry.lastused) > connectionTimeout`
unfoldable pub is_stale : ℕ → PortMapEntry → Bool
is_stale now e = ltb connection_timeout (now - e.lastused)

-- How a packet that carries an ICMP message is addressed to a port.
pub record Addressed : Type 0 where
  pub to_us : Bool
  pub to_multicast : Bool

-- swapAddrIPv4 and swapAddrIPv6: the Ethernet and the IP addresses change places.
unfoldable pub swap_ether : EtherHdr → EtherHdr
swap_ether e = record { saddr = e.daddr; daddr = e.saddr }

unfoldable pub swap_addr : L3 → Packet → Packet
swap_addr (v4_packet h l4) pkt = record pkt {
  ether = swap_ether pkt.ether;
  l3 = v4_packet (record h { src_addr = h.dst_addr; dst_addr = h.src_addr }) l4;
}
swap_addr (v6_packet h l4) pkt = record pkt {
  ether = swap_ether pkt.ether;
  l3 = v6_packet (record h { src_addr = h.dst_addr; dst_addr = h.src_addr }) l4;
}
swap_addr _ pkt = pkt

-- `(answerPacket.GetICMPNoCheck()).Type = type`
unfoldable pub with_icmp_type4 : L4 → ℕ → L4
with_icmp_type4 (icmp i) t = icmp (record i { icmp_type = t })
with_icmp_type4 (icmpv6 i) t = icmpv6 (record i { icmp_type = t })
with_icmp_type4 l4 t = l4

unfoldable pub with_icmp_type : Packet → L3 → ℕ → Packet
with_icmp_type pkt (v4_packet h l4) t = record pkt { l3 = v4_packet h (with_icmp_type4 l4 t) }
with_icmp_type pkt (v6_packet h l4) t = record pkt { l3 = v6_packet h (with_icmp_type4 l4 t) }
with_icmp_type pkt _ t = pkt

-- Source and destination as the ICMPv6 code reads them, also in an IPv4 packet.
abbrev pub no_addr : IPv6Address
no_addr = []

module _ (env : Env) (side : InterfaceType) where
  open env use {nff, now}

  unfoldable pub dst_as_ipv4 : L3 → IPv4Address
  dst_as_ipv4 (v4_packet h l4) = h.dst_addr
  dst_as_ipv4 (v6_packet h l4) = nff.ipv6_as_ipv4_dst h l4
  dst_as_ipv4 _ = 0

  unfoldable pub dst_as_ipv6 : L3 → IPv6Address
  dst_as_ipv6 (v4_packet h l4) = nff.ipv4_as_ipv6_dst h l4
  dst_as_ipv6 (v6_packet h l4) = h.dst_addr
  dst_as_ipv6 _ = no_addr

  unfoldable pub src_as_ipv6 : L3 → IPv6Address
  src_as_ipv6 (v4_packet h l4) = nff.ipv4_as_ipv6_src h l4
  src_as_ipv6 (v6_packet h l4) = h.src_addr
  src_as_ipv6 _ = no_addr

  unfoldable pub addressed6 : IpPort → IPv6Address → Addressed
  addressed6 port dst =
      let us = same_bytes dst port.subnet6.addr || same_bytes dst port.subnet6.ll_addr in
      record {
        to_us = us;
        to_multicast =
            not us
            && (same_bytes dst port.subnet6.multicast_addr
                || same_bytes dst port.subnet6.ll_multicast_addr);
      }

  unfoldable pub addressed : IpPort → ℕ → L3 → Addressed
  addressed port protocol l3 =
      if protocol == icmp_number
      then record { to_us = nff.swap32 (dst_as_ipv4 l3) == port.subnet.addr; to_multicast = false }
      else addressed6 port (dst_as_ipv6 l3)

  unfoldable pub answer_echo : ℕ → Packet → M ℕ
  answer_echo protocol pkt = do
    let swapped = swap_addr pkt.l3 pkt
    if protocol == icmp_number
        then (do
          let answer = with_icmp_type swapped swapped.l3 echo_response
          send_packet env side (
              set_ipv4_icmp_checksum nff answer.l3 answer (not env.no_calculate_checksum)
                (not env.no_hw_tx_checksum))
          return dir_drop)
        else (do
          let answer = with_icmp_type swapped swapped.l3 echo_response6
          send_packet env side (
              set_ipv6_icmp_checksum nff answer.l3 answer (not env.no_calculate_checksum)
                (not env.no_hw_tx_checksum))
          return dir_drop)

  -- Whether a message for the port is for its KNI interface: it has no live translation entry.
  unfoldable pub is_for_kni : IpPort → ℕ → Endpoint → IcmpHdr → Outcome Bool
  is_for_kni port protocol key hdr = elim (port.translation_table protocol key) [
    | none ↦ done true
    | some v ↦
        elim (get (get_portmap port (protocol == icmpv6_number) protocol)
          (nff.swap16 hdr.identifier)) [ done e ↦ done (is_stale now e) | panic ↦ panic ]
  ]

  -- An echo request for the port is answered; all else goes on to the translation.
  unfoldable pub handle_echo : ℕ → Packet → IcmpHdr → Bool → M ℕ
  handle_echo protocol pkt hdr to_us =
      if to_us
        && hdr.icmp_type == (if protocol == icmp_number then echo_request else echo_request6)
        && hdr.code == 0
      then answer_echo protocol pkt
      else return dir_send

  unfoldable pub icmp_after_discovery : ℕ → Packet → IcmpHdr → Endpoint → Bool → M ℕ
  icmp_after_discovery protocol pkt hdr key to_us = do
    port ← the_port side
    if to_us && has_kni port
        then (do
          for_kni ← lift (is_for_kni port protocol key hdr)
          if for_kni then return dir_kni else handle_echo protocol pkt hdr to_us)
        else handle_echo protocol pkt hdr to_us

  unfoldable pub handle_icmp : ℕ → Packet → IcmpHdr → Endpoint → M ℕ
  handle_icmp protocol pkt hdr key = do
    port ← the_port side
    let a = addressed port protocol pkt.l3
    if a.to_multicast || (a.to_us && protocol == icmpv6_number)
        then (do
          dir ← handle_ipv6_neighbor_discovery env side hdr (src_as_ipv6 pkt.l3) pkt.vlan
          if dir == dir_send then icmp_after_discovery protocol pkt hdr key a.to_us else return dir)
        else icmp_after_discovery protocol pkt hdr key a.to_us
