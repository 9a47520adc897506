-- ===== src/Checksums.antt =====
-- nat/cksum.go, and the functions of nat/util.go that read and rewrite ports. The checksums
-- themselves are nff-go's. A function that casts the packet to the wrong kind of header is not
-- called in the source; here it leaves the packet alone.
use nff_go_nat.Base.{ℕ, ◌+◌, Bool, if◌then◌else◌, Option, none, some}
use nff_go_nat.Packets.{
  Packet, Ipv4Hdr, Ipv6Hdr, L4, tcp, udp, icmp, icmpv6, other_l4, L3, v4_packet, v6_packet,
}
use nff_go_nat.Nff.{Nff}
use nff_go_nat.Config.{tcp_number, udp_number, icmp_number, icmpv6_number}

-- Values of the constants of nff-go's package types: the lengths of headers.
abbrev pub ether_len : ℕ
ether_len = 14

abbrev pub vlan_len : ℕ
vlan_len = 4

abbrev pub ipv4_min_len : ℕ
ipv4_min_len = 20

abbrev pub ipv6_len : ℕ
ipv6_len = 40

-- The L2 length, with the VLAN header if the packet has one.
unfoldable pub l2len : Option ℕ → ℕ
l2len none = ether_len
l2len (some tci) = ether_len + vlan_len

-- The checksum field of the L4 header.
abbrev pub with_cksum : L4 → ℕ → L4
with_cksum (tcp t) c = tcp (record t { cksum = c })
with_cksum (udp u) c = udp (record u { dgram_cksum = c })
with_cksum (icmp i) c = icmp (record i { cksum = c })
with_cksum (icmpv6 i) c = icmpv6 (record i { cksum = c })
with_cksum other_l4 c = other_l4

module _ (nff : Nff) where
  open nff use {
    swap16, ipv4_checksum, pseudo_checksum4, l4_checksum4, pseudo_checksum6, l4_checksum6,
  }

  -- For UDP and TCP over IPv4: the card gets the pseudo header's checksum, or the code computes both.
  unfoldable pub set_ipv4_transport : Packet → Ipv4Hdr → L4 → Bool → Packet
  set_ipv4_transport pkt h l4 hw =
      if hw
      then (let h' = record h { hdr_checksum = 0 } in
          record pkt {
            l3 = v4_packet h' (with_cksum l4 (swap16 (pseudo_checksum4 h' l4)));
            ol_flags = some (l2len pkt.vlan, ipv4_min_len);
          })
      else let h' = record h { hdr_checksum = swap16 (ipv4_checksum h) } in
        record pkt { l3 = v4_packet h' (with_cksum l4 (swap16 (l4_checksum4 h' l4))) }

  unfoldable pub set_ipv4_udp_checksum : L3 → Packet → Bool → Bool → Packet
  set_ipv4_udp_checksum (v4_packet h (udp u)) pkt calculate hw =
      if calculate then set_ipv4_transport pkt h (udp u) hw else pkt
  set_ipv4_udp_checksum _ pkt calculate hw = pkt

  unfoldable pub set_ipv4_tcp_checksum : L3 → Packet → Bool → Bool → Packet
  set_ipv4_tcp_checksum (v4_packet h (tcp t)) pkt calculate hw =
      if calculate then set_ipv4_transport pkt h (tcp t) hw else pkt
  set_ipv4_tcp_checksum _ pkt calculate hw = pkt

  -- The card does only the IPv4 header here; the ICMP checksum is computed either way.
  unfoldable pub set_ipv4_icmp : Packet → Ipv4Hdr → L4 → Bool → Packet
  set_ipv4_icmp pkt h l4 hw =
      if hw
      then (let h' = record h { hdr_checksum = 0 } in
          record pkt {
            l3 = v4_packet h' (with_cksum l4 (swap16 (l4_checksum4 h' l4)));
            ol_flags = some (l2len pkt.vlan, ipv4_min_len);
          })
      else let h' = record h { hdr_checksum = swap16 (ipv4_checksum h) } in
        record pkt { l3 = v4_packet h' (with_cksum l4 (swap16 (l4_checksum4 h' l4))) }

  unfoldable pub set_ipv4_icmp_checksum : L3 → Packet → Bool → Bool → Packet
  set_ipv4_icmp_checksum (v4_packet h (icmp i)) pkt calculate hw =
      if calculate then set_ipv4_icmp pkt h (icmp i) hw else pkt
  set_ipv4_icmp_checksum (v4_packet h (icmpv6 i)) pkt calculate hw =
      if calculate then set_ipv4_icmp pkt h (icmpv6 i) hw else pkt
  set_ipv4_icmp_checksum _ pkt calculate hw = pkt

  unfoldable pub set_ipv6_transport : Packet → Ipv6Hdr → L4 → Bool → Packet
  set_ipv6_transport pkt h l4 hw =
      if hw
      then record pkt {
        l3 = v6_packet h (with_cksum l4 (swap16 (pseudo_checksum6 h l4)));
        ol_flags = some (l2len pkt.vlan, ipv6_len);
      }
      else record pkt { l3 = v6_packet h (with_cksum l4 (swap16 (l4_checksum6 h l4))) }

  unfoldable pub set_ipv6_udp_checksum : L3 → Packet → Bool → Bool → Packet
  set_ipv6_udp_checksum (v6_packet h (udp u)) pkt calculate hw =
      if calculate then set_ipv6_transport pkt h (udp u) hw else pkt
  set_ipv6_udp_checksum _ pkt calculate hw = pkt

  unfoldable pub set_ipv6_tcp_checksum : L3 → Packet → Bool → Bool → Packet
  set_ipv6_tcp_checksum (v6_packet h (tcp t)) pkt calculate hw =
      if calculate then set_ipv6_transport pkt h (tcp t) hw else pkt
  set_ipv6_tcp_checksum _ pkt calculate hw = pkt

  -- Computed by the code whatever the card can do.
  unfoldable pub set_ipv6_icmp : Packet → Ipv6Hdr → L4 → Packet
  set_ipv6_icmp pkt h l4 = record pkt {
    l3 = v6_packet h (with_cksum l4 (swap16 (l4_checksum6 h l4)));
  }

  unfoldable pub set_ipv6_icmp_checksum : L3 → Packet → Bool → Bool → Packet
  set_ipv6_icmp_checksum (v6_packet h (icmpv6 i)) pkt calculate hw =
      if calculate then set_ipv6_icmp pkt h (icmpv6 i) else pkt
  set_ipv6_icmp_checksum (v6_packet h (icmp i)) pkt calculate hw =
      if calculate then set_ipv6_icmp pkt h (icmp i) else pkt
  set_ipv6_icmp_checksum _ pkt calculate hw = pkt

  -- The checksum after a port was rewritten, by the kind of the L4 header and the family.
  unfoldable pub fix_checksum : L4 → Packet → Bool → Bool → Bool → Packet
  fix_checksum (tcp t) pkt ipv6 calculate hw =
      if ipv6
      then set_ipv6_tcp_checksum pkt.l3 pkt calculate hw
      else set_ipv4_tcp_checksum pkt.l3 pkt calculate hw
  fix_checksum (udp u) pkt ipv6 calculate hw =
      if ipv6
      then set_ipv6_udp_checksum pkt.l3 pkt calculate hw
      else set_ipv4_udp_checksum pkt.l3 pkt calculate hw
  fix_checksum _ pkt ipv6 calculate hw =
      if ipv6
      then set_ipv6_icmp_checksum pkt.l3 pkt calculate hw
      else set_ipv4_icmp_checksum pkt.l3 pkt calculate hw

  -- The header with the destination port, or the ICMP identifier, written.
  unfoldable pub with_dst_port : L4 → ℕ → L4
  with_dst_port (tcp t) port = tcp (record t { dst_port = swap16 port })
  with_dst_port (udp u) port = udp (record u { dst_port = swap16 port })
  with_dst_port (icmp i) port = icmp (record i { identifier = swap16 port })
  with_dst_port (icmpv6 i) port = icmpv6 (record i { identifier = swap16 port })
  with_dst_port other_l4 port = other_l4

  unfoldable pub with_src_port : L4 → ℕ → L4
  with_src_port (tcp t) port = tcp (record t { src_port = swap16 port })
  with_src_port (udp u) port = udp (record u { src_port = swap16 port })
  with_src_port (icmp i) port = icmp (record i { identifier = swap16 port })
  with_src_port (icmpv6 i) port = icmpv6 (record i { identifier = swap16 port })
  with_src_port other_l4 port = other_l4

  -- What ParseAllKnownL4 returns: protocol, source and destination port; `none` for protocol 0.
  unfoldable pub parse_all_known_l4 : L4 → Option (ℕ × ℕ × ℕ)
  parse_all_known_l4 (tcp t) = some (tcp_number, swap16 t.src_port, swap16 t.dst_port)
  parse_all_known_l4 (udp u) = some (udp_number, swap16 u.src_port, swap16 u.dst_port)
  parse_all_known_l4 (icmp i) = some (icmp_number, swap16 i.identifier, swap16 i.identifier)
  parse_all_known_l4 (icmpv6 i) = some (icmpv6_number, swap16 i.identifier, swap16 i.identifier)
  parse_all_known_l4 other_l4 = none
