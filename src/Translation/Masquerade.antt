-- ===== src/Translation/Masquerade.antt =====
-- PrivateToPublicTranslation of nat/translation.go: what it sends, and in whose name.
use nff_go_nat.Base.{◌≡◌, sym, subst, Bool, true, false, ◌&&◌}
use nff_go_nat.Net.{Endpoint}
use nff_go_nat.Packets.{Packet, L4, icmp, icmpv6, tcp, udp, other_l4}
use nff_go_nat.Config.{PortPair, i_private, dir_send, has_kni}
use nff_go_nat.Connections.WellFormed.{WellFormed, is_translated}
use nff_go_nat.Machine.{Env, St, port_at, dump_packet}
use nff_go_nat.Machine.Posts.{Ensures, Ensures-bind, Ensures-weaken, SameButArp, dump_packet-pp}
use nff_go_nat.Translation.{IpHdr, is_ipv6, is_acquired, parse_packet_and_check_arp}
use nff_go_nat.Translation.Egress.{
  egress_lookup, egress_parsed, egress, private_to_public_translation,
}
use nff_go_nat.Translation.Checksummed.{raw_src}
use nff_go_nat.Translation.Entries.{KeptWith, WellFormed-arp}
use nff_go_nat.Translation.Local.{
  protocol_of, IcmpReady, parse_all_known_l4_lem, check_local-KeptWith, l3_of, parse_ip,
}
use nff_go_nat.Translation.Delivery.{is_translated-known}
use nff_go_nat.Translation.Sending.{key, Masqueraded, Masqueraded-arp}
use nff_go_nat.Translation.Departures.{egress_lookup-Kept}

-- An ICMP message on a private port with a KNI interface may panic: the port has no portmap.
abbrev pub is_icmp : L4 → Bool
is_icmp (icmp i) = true
is_icmp (icmpv6 i) = true
is_icmp l4 = false

ready_private :
    (env : Env) (pkt : Packet) (l4 : L4) (k : Endpoint) (pp : PortPair)
    → (is_icmp l4 && has_kni pp.private_port) ≡ false
    → IcmpReady env i_private pkt l4 k pp
unfolding port_at
ready_private env pkt (icmp i) k pp h = λ v e kni. cc
ready_private env pkt (icmpv6 i) k pp h = λ v e kni. cc
ready_private env pkt (tcp t) k pp h = tt
ready_private env pkt (udp u) k pp h = tt
ready_private env pkt other_l4 k pp h = tt

has_kni-arp :
    (l4 : L4) (p q : PortPair)
    → SameButArp p q
    → (is_icmp l4 && has_kni p.private_port) ≡ false
    → (is_icmp l4 && has_kni q.private_port) ≡ false
unfolding has_kni
has_kni-arp l4 p q (a, b, e) h =
    subst (λ x. (is_icmp l4 && has_kni x.private_port) ≡ false) (sym e) h

module _ (env : Env) (pkt : Packet) (ip : IpHdr) (l4 : L4)
    (translated : is_translated (is_ipv6 ip) (protocol_of l4) ≡ true) where
  open env use {nff}

  egress-Kept :
      (s : St)
      → WellFormed s.pp
      → is_acquired s.pp.private_port (is_ipv6 ip) ≡ true
      → (is_icmp l4 && has_kni s.pp.private_port) ≡ false
      → Ensures (KeptWith (Masqueraded env ip l4 s.pp)) (egress env pkt ip l4) s
  unfolding egress egress_parsed port_at
  egress-Kept s w acquired no_kni =
      let X = Masqueraded env ip l4 s.pp in
      subst (λ o. Ensures (KeptWith X) (egress_parsed env pkt ip l4 o) s)
        (sym (parse_all_known_l4_lem nff l4 (is_translated-known (is_ipv6 ip) l4 translated)))
        (check_local-KeptWith env i_private X pkt ip l4 (key env ip l4)
          (egress_lookup env pkt ip l4 (protocol_of l4) (nff.swap16 (raw_src l4))) s w acquired
          (λ pp same.
            ready_private env pkt l4 (key env ip l4) pp (has_kni-arp l4 s.pp pp same no_kni))
          (λ s' same.
            Ensures-weaken (KeptWith X) s' (KeptWith (Masqueraded env ip l4 s'.pp))
              (egress_lookup env pkt ip l4 (protocol_of l4) (nff.swap16 (raw_src l4)))
              (egress_lookup-Kept env pkt ip l4 translated s' (WellFormed-arp s.pp s'.pp same w))
              (λ r pp h. (h.0, λ d. Masqueraded-arp env ip l4 s.pp s'.pp r.1 pp same (h.1 d)))))

-- For a well-formed pair whose private address is known, and an IP packet of a protocol that is
-- translated in its family, no ICMP message if the private port has a KNI interface:
-- PrivateToPublicTranslation does not panic and leaves the pair well formed. A packet that it sends
-- out has for its source the endpoint that the private table has for the packet's source or, if it
-- has none, the public address with the next port that can be reused; its destination is as before
-- but for an ICMP identifier. Unless it is a TCP segment, both tables then lead from one of the two
-- endpoints to the other, so that a reply finds its way back.
pub private_to_public_translation_lem :
    (env : Env) (pkt : Packet) (ip : IpHdr) (l4 : L4) (s : St)
    → pkt.l3 ≡ l3_of ip l4
    → is_translated (is_ipv6 ip) (protocol_of l4) ≡ true
    → WellFormed s.pp
    → is_acquired s.pp.private_port (is_ipv6 ip) ≡ true
    → (is_icmp l4 && has_kni s.pp.private_port) ≡ false
    → Ensures (KeptWith (Masqueraded env ip l4 s.pp)) (private_to_public_translation env pkt) s
unfolding private_to_public_translation
private_to_public_translation_lem env pkt ip l4 s e translated w acquired no_kni =
    Ensures-bind (λ _ pp. pp ≡ s.pp) (KeptWith (Masqueraded env ip l4 s.pp)) s
      (dump_packet env i_private pkt dir_send) _ (dump_packet-pp env i_private pkt dir_send s)
      (λ a s' same.
        subst
          (λ l3.
            Ensures (KeptWith (Masqueraded env ip l4 s.pp))
              (parse_packet_and_check_arp env i_private pkt (egress env pkt) l3) s')
          (sym e)
          (parse_ip env i_private pkt (egress env pkt) ip l4 s'
            (KeptWith (Masqueraded env ip l4 s.pp))
            (subst
              (λ pp.
                WellFormed pp
                → is_acquired pp.private_port (is_ipv6 ip) ≡ true
                → (is_icmp l4 && has_kni pp.private_port) ≡ false
                → s'.pp ≡ pp
                → Ensures (KeptWith (Masqueraded env ip l4 pp)) (egress env pkt ip l4) s')
              same (λ w' a' k' _. egress-Kept env pkt ip l4 translated s' w' a' k') w acquired
              no_kni same)))
