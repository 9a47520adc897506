-- ===== src/Translation/Delivery.antt =====
-- PublicToPrivateTranslation of nat/translation.go: what it lets through.
use nff_go_nat.Base.{
  ℕ, ◌<◌, ◌≡◌, ◌≢◌, refl, sym, subst, ◌∙◌, Bool, true, false, if◌then◌else◌, Option, none, some,
}
use nff_go_nat.Base.Slice.{get_in_range}
use nff_go_nat.Net.{Endpoint}
use nff_go_nat.Packets.{Packet, L4, icmp, icmpv6, tcp, udp, other_l4}
use nff_go_nat.Config.{
  PortPair, i_public, port_end, dir_send, dir_drop, dir_kni, icmp_number, icmpv6_number,
}
use nff_go_nat.PortAlloc.{get_portmap, get_public_port_portmap}
use nff_go_nat.Connections.Links.{is_v6, port_number}
use nff_go_nat.Connections.WellFormed.{WellFormed, is_translated, capacity}
use nff_go_nat.Machine.{dump_packet, Env, St, port_at, learn}
use nff_go_nat.Machine.Posts.{
  Ensures, Ensures-bind, Ensures-weaken, SameButArp, learn-SameButArp, dump_packet-pp,
}
use nff_go_nat.Translation.{
  parse_packet_and_check_arp, IpHdr, v4_hdr, v6_hdr, is_ipv6, is_acquired, cache_key, dest_key,
}
use nff_go_nat.Translation.Ingress.{
  ingress_found, ingress_unknown, ingress_by, ingress_lookup, ingress_parsed, ingress,
  public_to_private_translation,
}
use nff_go_nat.Translation.Rewrite.{is_known}
use nff_go_nat.Translation.Checksummed.{raw_dst}
use nff_go_nat.Translation.Entries.{inside_translated, Kept, finish-Kept, WellFormed-arp}
use nff_go_nat.Translation.Local.{
  protocol_of, IcmpReady, l3_of, parse_ip, parse_all_known_l4_lem, check_local-KeptWith,
}
use nff_go_nat.Translation.Receiving.{kni_not_send, drop_not_send, Forwarded, ingress_found-Kept}

dest_key_parts :
    (env : Env) (ip : IpHdr) (port : ℕ)
    → (is_v6 (dest_key env ip port) ≡ is_ipv6 ip) × (port_number (dest_key env ip port) ≡ port)
unfolding dest_key is_ipv6
dest_key_parts env (v4_hdr h) port = (refl, refl)
dest_key_parts env (v6_hdr h) port = (refl, refl)

-- An entry of the public table for a packet: of its family, and in the range of the portmap.
entry_fits :
    (env : Env) (ip : IpHdr) (protocol port : ℕ) (v : Endpoint) (pp : PortPair)
    → WellFormed pp
    → is_translated (is_ipv6 ip) protocol ≡ true
    → pp.public_port.translation_table protocol (dest_key env ip port) ≡ some v
    → (is_v6 v ≡ is_ipv6 ip) × (port < port_end)
entry_fits env ip protocol port v pp w translated e =
    let (family, fits) = w.public_entries protocol (dest_key env ip port) v e in
    let (f, n) = dest_key_parts env ip port in (family ∙ f, subst (λ x. x) bound_path fits)
  where
    bound_path :
        (port_number (dest_key env ip port) < capacity (is_v6 (dest_key env ip port)) protocol)
        ≡ (port < port_end)
    bound_path = let (f, n) = dest_key_parts env ip port in rw (f, n, translated) refl

ready_public :
    (env : Env) (pkt : Packet) (ip : IpHdr) (l4 : L4)
    → is_translated (is_ipv6 ip) (protocol_of l4) ≡ true
    → (pp : PortPair) → WellFormed pp
    → IcmpReady env i_public pkt l4 (dest_key env ip (env.nff.swap16 (raw_dst l4))) pp
unfolding port_at is_ipv6 is_translated
ready_public env pkt (v4_hdr h) (icmp i) t pp w = λ v e kni.
    let (family, fits) =
      entry_fits env (v4_hdr h) icmp_number (env.nff.swap16 i.identifier) v pp w t e in
    (
      _,
      get_in_range (get_portmap pp.public_port false icmp_number) (env.nff.swap16 i.identifier) (
          unfold get_public_port_portmap in
          inside_translated 0 pp false w icmp_number (env.nff.swap16 i.identifier) t fits),
    )
ready_public env pkt (v6_hdr h) (icmpv6 i) t pp w = λ v e kni.
    let (family, fits) =
      entry_fits env (v6_hdr h) icmpv6_number (env.nff.swap16 i.identifier) v pp w t e in
    (
      _,
      get_in_range (get_portmap pp.public_port true icmpv6_number) (env.nff.swap16 i.identifier) (
          unfold get_public_port_portmap in
          inside_translated 0 pp true w icmpv6_number (env.nff.swap16 i.identifier) t fits),
    )
ready_public env pkt (v4_hdr h) (icmpv6 i) t pp w = cc
ready_public env pkt (v6_hdr h) (icmp i) t pp w = cc
ready_public env pkt ip (tcp k) t pp w = tt
ready_public env pkt ip (udp k) t pp w = tt
ready_public env pkt ip other_l4 t pp w = tt

pub is_translated-known :
    (ipv6 : Bool) (l4 : L4) → is_translated ipv6 (protocol_of l4) ≡ true → is_known l4 ≡ true
unfolding is_translated
is_translated-known ipv6 (tcp t) e = refl
is_translated-known ipv6 (udp u) e = refl
is_translated-known ipv6 (icmp i) e = refl
is_translated-known ipv6 (icmpv6 i) e = refl
is_translated-known true other_l4 e = cc
is_translated-known false other_l4 e = cc

module _ (env : Env) (pkt : Packet) (ip : IpHdr) (l4 : L4)
    (translated : is_translated (is_ipv6 ip) (protocol_of l4) ≡ true) where
  open env use {nff}

  abbrev port : ℕ
  port = nff.swap16 (raw_dst l4)

  Forwarded-arp :
      (p q : PortPair) (out : Packet)
      → SameButArp p q
      → Forwarded env ip l4 q out
      → Forwarded env ip l4 p out
  unfolding get_public_port_portmap
  Forwarded-arp p q out (a, b, e) f =
      subst (λ x. Forwarded env ip l4 x out → Forwarded env ip l4 p out) (sym e) (λ g. g) f

  chosen_not_send : (b : Bool) → (if b then dir_kni else dir_drop) ≢ dir_send
  chosen_not_send true = kni_not_send
  chosen_not_send false = drop_not_send

  ingress_by-Kept :
      (s : St) (o : Option Endpoint)
      → WellFormed s.pp
      → s.pp.public_port.translation_table (protocol_of l4) (dest_key env ip port) ≡ o
      → Ensures
          (Kept (Forwarded env ip l4 s.pp))
          (ingress_by env pkt ip l4 (protocol_of l4) port o)
          s
  unfolding ingress_by ingress_unknown port_at
  ingress_by-Kept s none w e =
      Ensures-bind (λ _ pp. SameButArp s.pp pp) (Kept (Forwarded env ip l4 s.pp)) s
        (learn i_public (cache_key ip) pkt.ether.saddr) _
        (learn-SameButArp i_public (cache_key ip) pkt.ether.saddr s)
        (λ a s' same.
          finish-Kept env (Forwarded env ip l4 s.pp) i_public pkt _ s'
            (WellFormed-arp s.pp s'.pp same w) (chosen_not_send _))
  ingress_by-Kept s (some v) w e =
      let (family, fits) = entry_fits env ip (protocol_of l4) port v s.pp w translated e in
      Ensures-weaken (Kept (Forwarded env ip l4 s.pp)) s _
        (ingress_found env pkt ip l4 (protocol_of l4) port v)
        (ingress_found-Kept env pkt ip l4 (is_translated-known (is_ipv6 ip) l4 translated)
          translated port v s family fits w)
        (λ r pp h. (h.0, λ d. (v, e, h.1 d)))

  ingress_lookup-Kept :
      (s : St)
      → WellFormed s.pp
      → Ensures
          (Kept (Forwarded env ip l4 s.pp))
          (ingress_lookup env pkt ip l4 (protocol_of l4) port)
          s
  unfolding ingress_lookup port_at
  ingress_lookup-Kept s w = ingress_by-Kept s _ w refl

  ingress-Kept :
      (s : St)
      → WellFormed s.pp
      → is_acquired s.pp.public_port (is_ipv6 ip) ≡ true
      → Ensures (Kept (Forwarded env ip l4 s.pp)) (ingress env pkt ip l4) s
  unfolding ingress ingress_parsed port_at
  ingress-Kept s w acquired =
      subst (λ o. Ensures (Kept (Forwarded env ip l4 s.pp)) (ingress_parsed env pkt ip l4 o) s)
        (sym (parse_all_known_l4_lem nff l4 (is_translated-known (is_ipv6 ip) l4 translated)))
        (check_local-KeptWith env i_public (λ out _. Forwarded env ip l4 s.pp out) pkt ip l4
          (dest_key env ip port) (ingress_lookup env pkt ip l4 (protocol_of l4) port) s w acquired
          (λ pp same. ready_public env pkt ip l4 translated pp (WellFormed-arp s.pp pp same w))
          (λ s' same.
            Ensures-weaken (Kept (Forwarded env ip l4 s.pp)) s' (Kept (Forwarded env ip l4 s'.pp))
              (ingress_lookup env pkt ip l4 (protocol_of l4) port)
              (ingress_lookup-Kept s' (WellFormed-arp s.pp s'.pp same w))
              (λ r pp h. (h.0, λ d. Forwarded-arp s.pp s'.pp r.1 same (h.1 d)))))

-- For a well-formed pair whose public address is known, and an IP packet of a protocol that is
-- translated in its family: PublicToPrivateTranslation does not panic and leaves the pair well
-- formed. It forwards the packet only if the public table has an entry for the packet's destination,
-- one that does not stand for the KNI interface and that is static or was used within the last
-- connectionTimeout. The packet then has the private endpoint of the entry for its destination, and
-- its source as before but for an ICMP identifier.
pub public_to_private_translation_lem :
    (env : Env) (pkt : Packet) (ip : IpHdr) (l4 : L4) (s : St)
    → pkt.l3 ≡ l3_of ip l4
    → is_translated (is_ipv6 ip) (protocol_of l4) ≡ true
    → WellFormed s.pp
    → is_acquired s.pp.public_port (is_ipv6 ip) ≡ true
    → Ensures (Kept (Forwarded env ip l4 s.pp)) (public_to_private_translation env pkt) s
unfolding public_to_private_translation
public_to_private_translation_lem env pkt ip l4 s e translated w acquired =
    Ensures-bind (λ _ pp. pp ≡ s.pp) (Kept (Forwarded env ip l4 s.pp)) s
      (dump_packet env i_public pkt dir_send) _ (dump_packet-pp env i_public pkt dir_send s)
      (λ a s' same.
        subst
          (λ l3.
            Ensures (Kept (Forwarded env ip l4 s.pp))
              (parse_packet_and_check_arp env i_public pkt (ingress env pkt) l3) s')
          (sym e)
          (parse_ip env i_public pkt (ingress env pkt) ip l4 s' (Kept (Forwarded env ip l4 s.pp)) (
            subst
              (λ pp.
                WellFormed pp
                → is_acquired pp.public_port (is_ipv6 ip) ≡ true
                → s'.pp ≡ pp
                → Ensures (Kept (Forwarded env ip l4 pp)) (ingress env pkt ip l4) s')
              same (λ w' a' _. ingress-Kept env pkt ip l4 translated s' w' a') w acquired same)))
