-- ===== src/Translation/Local.antt =====
-- What both packet handlers do before the lookup: ICMP and DHCP.
use nff_go_nat.Base.{
  ℕ, ◌≡◌, ◌≢◌, refl, ◌∙◌, Bool, true, false, not, ◌==◌, if◌then◌else◌, some, done, arith,
}
use nff_go_nat.Net.{Endpoint, ArpTable}
use nff_go_nat.Packets.{Packet, L3, v4_packet, v6_packet, L4, tcp, udp, icmp, icmpv6, other_l4}
use nff_go_nat.Config.{
  PortPair, InterfaceType, i_public, i_private, tcp_number, udp_number, icmp_number, icmpv6_number,
  dir_send, dir_drop,
}
use nff_go_nat.Nff.{Nff}
use nff_go_nat.Checksums.{parse_all_known_l4}
use nff_go_nat.Connections.WellFormed.{WellFormed}
use nff_go_nat.Machine.{Env, St, M, port_at, ◌>>=◌}
use nff_go_nat.Machine.Posts.{
  Ensures, Ensures-bind, Ensures-if, run_step, SameButArp, SameButArp-refl, with_arp,
}
use nff_go_nat.Dhcp.{handle_dhcp}
use nff_go_nat.Dhcp6.{handle_dhcpv6}
use nff_go_nat.Icmp.Caches.{HasEntry, handle_icmp-SameButArp}
use nff_go_nat.Translation.{
  IpHdr, v4_hdr, v6_hdr, parse_packet_and_check_arp, is_ipv6, is_acquired, finish, check_icmp,
  check_dhcp, check_local,
}
use nff_go_nat.Translation.Rewrite.{is_known}
use nff_go_nat.Translation.Checksummed.{raw_src, raw_dst}
use nff_go_nat.Translation.Entries.{KeptWith, finish-KeptWith, WellFormed-arp}

-- The protocol number that the IP header has for a kind of L4 header.
abbrev pub protocol_of : L4 → ℕ
protocol_of (tcp t) = tcp_number
protocol_of (udp u) = udp_number
protocol_of (icmp i) = icmp_number
protocol_of (icmpv6 i) = icmpv6_number
protocol_of other_l4 = 0

pub parse_all_known_l4_lem :
    (nff : Nff) (l4 : L4)
    → is_known l4 ≡ true
    → parse_all_known_l4 nff l4
      ≡ some (protocol_of l4, nff.swap16 (raw_src l4), nff.swap16 (raw_dst l4))
unfolding parse_all_known_l4
parse_all_known_l4_lem nff (tcp t) e = refl
parse_all_known_l4_lem nff (udp u) e = refl
parse_all_known_l4_lem nff (icmp i) e = refl
parse_all_known_l4_lem nff (icmpv6 i) e = refl
parse_all_known_l4_lem nff other_l4 e = cc

-- For an ICMP message to the port itself, the portmap that the code reads has the entry.
abbrev pub IcmpReady : Env → InterfaceType → Packet → L4 → Endpoint → PortPair → Type 0
IcmpReady env side pkt (icmp i) key pp = HasEntry env side icmp_number pkt i key pp
IcmpReady env side pkt (icmpv6 i) key pp = HasEntry env side icmpv6_number pkt i key pp
IcmpReady env side pkt l4 key pp = Unit {0}

is_acquired-arp :
    (side : InterfaceType) (pp : PortPair) (ipv6 : Bool) (a b : ArpTable)
    → is_acquired (port_at side (with_arp pp a b)) ipv6 ≡ is_acquired (port_at side pp) ipv6
unfolding is_acquired port_at
is_acquired-arp i_public pp ipv6 a b = refl
is_acquired-arp i_private pp ipv6 a b = refl

pub is_acquired-SameButArp :
    (side : InterfaceType) (p q : PortPair) (ipv6 : Bool)
    → SameButArp p q
    → is_acquired (port_at side q) ipv6 ≡ is_acquired (port_at side p) ipv6
is_acquired-SameButArp side p q ipv6 (a, b, e) = rw e (is_acquired-arp side p ipv6 a b)

module _ (env : Env) (side : InterfaceType) where
  -- With an address, the DHCP clients take no packet.
  check_dhcp_passes :
      (ipv6 : Bool) (l4 : L4) (s : St)
      → is_acquired (port_at side s.pp) ipv6 ≡ true
      → check_dhcp env side ipv6 l4 s ≡ done (false, s)
  unfolding check_dhcp handle_dhcp handle_dhcpv6 is_acquired
  check_dhcp_passes true (udp u) s e = rw e refl
  check_dhcp_passes false (udp u) s e = rw e refl
  check_dhcp_passes true (tcp t) s e = refl
  check_dhcp_passes true (icmp i) s e = refl
  check_dhcp_passes true (icmpv6 i) s e = refl
  check_dhcp_passes true other_l4 s e = refl
  check_dhcp_passes false (tcp t) s e = refl
  check_dhcp_passes false (icmp i) s e = refl
  check_dhcp_passes false (icmpv6 i) s e = refl
  check_dhcp_passes false other_l4 s e = refl

  check_icmp-SameButArp :
      (pkt : Packet) (l4 : L4) (key : Endpoint) (s : St)
      → ((pp : PortPair) → SameButArp s.pp pp → IcmpReady env side pkt l4 key pp)
      → Ensures (λ _ pp. SameButArp s.pp pp) (check_icmp env side (protocol_of l4) pkt l4 key) s
  unfolding check_icmp
  check_icmp-SameButArp pkt (icmp i) key s h = handle_icmp-SameButArp env side _ pkt i key s h
  check_icmp-SameButArp pkt (icmpv6 i) key s h = handle_icmp-SameButArp env side _ pkt i key s h
  check_icmp-SameButArp pkt (tcp t) key s h = SameButArp-refl s.pp s.pp refl
  check_icmp-SameButArp pkt (udp u) key s h = SameButArp-refl s.pp s.pp refl
  check_icmp-SameButArp pkt other_l4 key s h = SameButArp-refl s.pp s.pp refl

not_send : (dir : ℕ) → not (dir == dir_send) ≡ true → dir ≢ dir_send
not_send dir h e = ground (arith, h, e)

module _ (env : Env) (side : InterfaceType) (X : Packet → PortPair → Type 0) (pkt : Packet)
    (ip : IpHdr) (l4 : L4) (key : Endpoint) (translate : M (ℕ × Packet)) (s : St)
    (w : WellFormed s.pp) (acquired : is_acquired (port_at side s.pp) (is_ipv6 ip) ≡ true)
    (ready : (pp : PortPair) → SameButArp s.pp pp → IcmpReady env side pkt l4 key pp)
    (after : (s' : St) → SameButArp s.pp s'.pp → Ensures (KeptWith X) translate s') where
  after_dhcp :
      (s' : St)
      → SameButArp s.pp s'.pp
      → Ensures
          (KeptWith X)
          (check_dhcp env side (is_ipv6 ip) l4 >>= λ handled.
            if handled then finish env side pkt dir_drop else translate)
          s'
  after_dhcp s' same =
      run_step (KeptWith X) (check_dhcp env side (is_ipv6 ip) l4) false s'
        (λ handled. if handled then finish env side pkt dir_drop else translate) s'
        (check_dhcp_passes env side (is_ipv6 ip) l4 s'
          (is_acquired-SameButArp side s.pp s'.pp (is_ipv6 ip) same ∙ acquired))
        (after s' same)

  -- What is neither answered nor taken by a client goes on to the translation, in a pair that has
  -- other ARP caches at most.
  pub check_local-KeptWith :
      Ensures (KeptWith X) (check_local env side pkt ip l4 (protocol_of l4) key translate) s
  unfolding check_local
  check_local-KeptWith =
      Ensures-bind (λ _ pp. SameButArp s.pp pp) (KeptWith X) s
        (check_icmp env side (protocol_of l4) pkt l4 key)
        (λ dir.
          if not (dir == dir_send)
          then finish env side pkt dir
          else check_dhcp env side (is_ipv6 ip) l4 >>= λ handled.
              if handled then finish env side pkt dir_drop else translate)
        (check_icmp-SameButArp env side pkt l4 key s ready)
        (λ dir s' same.
          Ensures-if (KeptWith X) s' (not (dir == dir_send)) _ _
            (λ e.
              finish-KeptWith env X side pkt dir s' (WellFormed-arp s.pp s'.pp same w)
                (not_send dir e))
            (λ _. after_dhcp s' same))

-- An IP packet's L3 part.
abbrev pub l3_of : IpHdr → L4 → L3
l3_of (v4_hdr h) l4 = v4_packet h l4
l3_of (v6_hdr h) l4 = v6_packet h l4

pub parse_ip :
    (env : Env) (side : InterfaceType) (pkt : Packet) (go_on : IpHdr → L4 → M (ℕ × Packet))
    (ip : IpHdr) (l4 : L4) (s : St) (P : ℕ × Packet → PortPair → Type 0)
    → Ensures P (go_on ip l4) s
    → Ensures P (parse_packet_and_check_arp env side pkt go_on (l3_of ip l4)) s
unfolding parse_packet_and_check_arp
parse_ip env side pkt go_on (v4_hdr h) l4 s P k = k
parse_ip env side pkt go_on (v6_hdr h) l4 s P k = k
