-- ===== src/Translation/Checksummed.antt =====
-- What the last step of a rewriting, the checksums, leaves of a packet of the translation:
-- its endpoints.
use nff_go_nat.Base.{ℕ, ◌≡◌, refl, Bool, true, false, if◌then◌else◌, Option, none, some}
use nff_go_nat.Net.{Endpoint, tuple, tuple6}
use nff_go_nat.Packets.{
  Packet, Ipv4Hdr, Ipv6Hdr, L4, tcp, udp, icmp, icmpv6, other_l4, L3, v4_packet, v6_packet,
  arp_packet, other_packet,
}
use nff_go_nat.Checksums.{
  with_cksum, set_ipv4_transport, set_ipv4_icmp, set_ipv6_transport, set_ipv6_icmp,
  set_ipv4_udp_checksum, set_ipv4_tcp_checksum, set_ipv4_icmp_checksum, set_ipv6_udp_checksum,
  set_ipv6_tcp_checksum, set_ipv6_icmp_checksum, fix_checksum,
}
use nff_go_nat.Nff.{Nff}
use nff_go_nat.Translation.{IpHdr, v4_hdr, v6_hdr}

-- The ports of an L4 header, in network byte order.
abbrev pub raw_src : L4 → ℕ
raw_src (tcp t) = t.src_port
raw_src (udp u) = u.src_port
raw_src (icmp i) = i.identifier
raw_src (icmpv6 i) = i.identifier
raw_src other_l4 = 0

abbrev pub raw_dst : L4 → ℕ
raw_dst (tcp t) = t.dst_port
raw_dst (udp u) = u.dst_port
raw_dst (icmp i) = i.identifier
raw_dst (icmpv6 i) = i.identifier
raw_dst other_l4 = 0

-- The endpoints of a packet, source first, in network byte order.
abbrev pub endpoints : L3 → Option (Endpoint × Endpoint)
endpoints (v4_packet h l4) = some (tuple h.src_addr (raw_src l4), tuple h.dst_addr (raw_dst l4))
endpoints (v6_packet h l4) = some (tuple6 h.src_addr (raw_src l4), tuple6 h.dst_addr (raw_dst l4))
endpoints (arp_packet a) = none
endpoints other_packet = none

-- The endpoints of an IP header with ports beside it.
abbrev pub source_of : IpHdr → ℕ → Endpoint
source_of (v4_hdr h) port = tuple h.src_addr port
source_of (v6_hdr h) port = tuple6 h.src_addr port

abbrev pub dest_of : IpHdr → ℕ → Endpoint
dest_of (v4_hdr h) port = tuple h.dst_addr port
dest_of (v6_hdr h) port = tuple6 h.dst_addr port

either : {A : Type 0} (P : A → Type 0) (b : Bool) (x y : A) → P x → P y → P (if b then x else y)
either P true x y h k = h
either P false x y h k = k

raw_src-cksum : (l4 : L4) (c : ℕ) → raw_src (with_cksum l4 c) ≡ raw_src l4
raw_src-cksum (tcp t) c = refl
raw_src-cksum (udp u) c = refl
raw_src-cksum (icmp i) c = refl
raw_src-cksum (icmpv6 i) c = refl
raw_src-cksum other_l4 c = refl

raw_dst-cksum : (l4 : L4) (c : ℕ) → raw_dst (with_cksum l4 c) ≡ raw_dst l4
raw_dst-cksum (tcp t) c = refl
raw_dst-cksum (udp u) c = refl
raw_dst-cksum (icmp i) c = refl
raw_dst-cksum (icmpv6 i) c = refl
raw_dst-cksum other_l4 c = refl

module _ (nff : Nff) (hw : Bool) (pkt : Packet) where
  abbrev Keeps : L3 → Packet → Type 0
  Keeps l3 p = endpoints p.l3 ≡ endpoints l3

  transport4 : (h : Ipv4Hdr) (l4 : L4) → Keeps (v4_packet h l4) (set_ipv4_transport nff pkt h l4 hw)
  unfolding set_ipv4_transport
  transport4 h l4 =
      either (Keeps (v4_packet h l4)) hw _ _ (rw (raw_src-cksum l4, raw_dst-cksum l4) refl)
        (rw (raw_src-cksum l4, raw_dst-cksum l4) refl)

  icmp4 : (h : Ipv4Hdr) (l4 : L4) → Keeps (v4_packet h l4) (set_ipv4_icmp nff pkt h l4 hw)
  unfolding set_ipv4_icmp
  icmp4 h l4 =
      either (Keeps (v4_packet h l4)) hw _ _ (rw (raw_src-cksum l4, raw_dst-cksum l4) refl)
        (rw (raw_src-cksum l4, raw_dst-cksum l4) refl)

  transport6 : (h : Ipv6Hdr) (l4 : L4) → Keeps (v6_packet h l4) (set_ipv6_transport nff pkt h l4 hw)
  unfolding set_ipv6_transport
  transport6 h l4 =
      either (Keeps (v6_packet h l4)) hw _ _ (rw (raw_src-cksum l4, raw_dst-cksum l4) refl)
        (rw (raw_src-cksum l4, raw_dst-cksum l4) refl)

  icmp6 : (h : Ipv6Hdr) (l4 : L4) → Keeps (v6_packet h l4) (set_ipv6_icmp nff pkt h l4)
  unfolding set_ipv6_icmp
  icmp6 h l4 = rw (raw_src-cksum l4, raw_dst-cksum l4) refl

module _ (nff : Nff) (calculate hw : Bool) (p : Packet) where
  pub fix4 :
      (h : Ipv4Hdr) (l4 : L4)
      → endpoints (fix_checksum nff l4 (record p { l3 = v4_packet h l4 }) false calculate hw).l3
        ≡ endpoints (v4_packet h l4)
  unfolding fix_checksum set_ipv4_tcp_checksum set_ipv4_udp_checksum set_ipv4_icmp_checksum
  fix4 h (tcp t) =
      either (Keeps nff hw p (v4_packet h (tcp t))) calculate _ _
        (transport4 nff hw (record p { l3 = v4_packet h (tcp t) }) h (tcp t)) refl
  fix4 h (udp u) =
      either (Keeps nff hw p (v4_packet h (udp u))) calculate _ _
        (transport4 nff hw (record p { l3 = v4_packet h (udp u) }) h (udp u)) refl
  fix4 h (icmp i) =
      either (Keeps nff hw p (v4_packet h (icmp i))) calculate _ _
        (icmp4 nff hw (record p { l3 = v4_packet h (icmp i) }) h (icmp i)) refl
  fix4 h (icmpv6 i) =
      either (Keeps nff hw p (v4_packet h (icmpv6 i))) calculate _ _
        (icmp4 nff hw (record p { l3 = v4_packet h (icmpv6 i) }) h (icmpv6 i)) refl
  fix4 h other_l4 = refl

  pub fix6 :
      (h : Ipv6Hdr) (l4 : L4)
      → endpoints (fix_checksum nff l4 (record p { l3 = v6_packet h l4 }) true calculate hw).l3
        ≡ endpoints (v6_packet h l4)
  unfolding fix_checksum set_ipv6_tcp_checksum set_ipv6_udp_checksum set_ipv6_icmp_checksum
  fix6 h (tcp t) =
      either (Keeps nff hw p (v6_packet h (tcp t))) calculate _ _
        (transport6 nff hw (record p { l3 = v6_packet h (tcp t) }) h (tcp t)) refl
  fix6 h (udp u) =
      either (Keeps nff hw p (v6_packet h (udp u))) calculate _ _
        (transport6 nff hw (record p { l3 = v6_packet h (udp u) }) h (udp u)) refl
  fix6 h (icmp i) =
      either (Keeps nff hw p (v6_packet h (icmp i))) calculate _ _
        (icmp6 nff hw (record p { l3 = v6_packet h (icmp i) }) h (icmp i)) refl
  fix6 h (icmpv6 i) =
      either (Keeps nff hw p (v6_packet h (icmpv6 i))) calculate _ _
        (icmp6 nff hw (record p { l3 = v6_packet h (icmpv6 i) }) h (icmpv6 i)) refl
  fix6 h other_l4 = refl
