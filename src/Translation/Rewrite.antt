-- ===== src/Translation/Rewrite.antt =====
-- What a packet that leaves a handler says: its endpoints, as they stand in the headers.
use nff_go_nat.Base.{ℕ, ◌≡◌, refl, Bool, true, false, Option, some}
use nff_go_nat.Net.{MacAddress, Endpoint, tuple, tuple6}
use nff_go_nat.Packets.{Packet, L4, tcp, udp, icmp, icmpv6, other_l4}
use nff_go_nat.Config.{PortPair, InterfaceType, dir_send}
use nff_go_nat.Checksums.{fix_checksum, with_dst_port, with_src_port}
use nff_go_nat.Nff.{Nff}
use nff_go_nat.Machine.{Env, St, port_at, dump_packet}
use nff_go_nat.Machine.Posts.{Ensures, Ensures-bind, dump_packet-pp}
use nff_go_nat.Translation.{
  IpHdr, v4_hdr, v6_hdr, is_ipv6, Target, to_port, with_dst, with_src, emit,
}
use nff_go_nat.Translation.Checksummed.{endpoints, source_of, dest_of, fix4, fix6}

-- Whether nff-go finds an L4 header that the code knows.
abbrev pub is_known : L4 → Bool
is_known other_l4 = false
is_known l4 = true

-- A table's endpoint as a packet writes it, in network byte order.
abbrev pub to_network : Nff → Endpoint → Endpoint
to_network nff (tuple addr port) = tuple (nff.swap32 addr) (nff.swap16 port)
to_network nff (tuple6 addr port) = tuple6 addr (nff.swap16 port)

abbrev pub target_of : Bool → Target → Endpoint
target_of true t = tuple6 t.v6addr t.new_port
target_of false t = tuple t.v4addr t.new_port

module _ (env : Env) where
  open env use {nff}

  -- The ports that the rewriting leaves or, for ICMP, writes twice.
  abbrev pub other_src : L4 → ℕ → ℕ
  other_src (tcp t) port = t.src_port
  other_src (udp u) port = u.src_port
  other_src l4 port = nff.swap16 port

  abbrev pub other_dst : L4 → ℕ → ℕ
  other_dst (tcp t) port = t.dst_port
  other_dst (udp u) port = u.dst_port
  other_dst l4 port = nff.swap16 port

  fix_with_dst :
      (ip : IpHdr) (l4 : L4) (t : Target) (calculate hw : Bool) (p : Packet)
      → is_known l4 ≡ true
      → endpoints
          (fix_checksum nff l4
            (record p { l3 = with_dst env ip l4 t })
            (is_ipv6 ip)
            calculate
            hw).l3
        ≡ some (source_of ip (other_src l4 t.new_port), to_network nff (target_of (is_ipv6 ip) t))
  unfolding with_dst with_dst_port is_ipv6 fix_checksum
  fix_with_dst (v4_hdr h) (tcp k) t c hw p e =
      fix4 nff c hw p (record h { dst_addr = nff.swap32 t.v4addr })
        (tcp (record k { dst_port = nff.swap16 t.new_port }))
  fix_with_dst (v4_hdr h) (udp k) t c hw p e =
      fix4 nff c hw p (record h { dst_addr = nff.swap32 t.v4addr })
        (udp (record k { dst_port = nff.swap16 t.new_port }))
  fix_with_dst (v4_hdr h) (icmp k) t c hw p e =
      fix4 nff c hw p (record h { dst_addr = nff.swap32 t.v4addr })
        (icmp (record k { identifier = nff.swap16 t.new_port }))
  fix_with_dst (v4_hdr h) (icmpv6 k) t c hw p e =
      fix4 nff c hw p (record h { dst_addr = nff.swap32 t.v4addr })
        (icmpv6 (record k { identifier = nff.swap16 t.new_port }))
  fix_with_dst (v6_hdr h) (tcp k) t c hw p e =
      fix6 nff c hw p (record h { dst_addr = t.v6addr })
        (tcp (record k { dst_port = nff.swap16 t.new_port }))
  fix_with_dst (v6_hdr h) (udp k) t c hw p e =
      fix6 nff c hw p (record h { dst_addr = t.v6addr })
        (udp (record k { dst_port = nff.swap16 t.new_port }))
  fix_with_dst (v6_hdr h) (icmp k) t c hw p e =
      fix6 nff c hw p (record h { dst_addr = t.v6addr })
        (icmp (record k { identifier = nff.swap16 t.new_port }))
  fix_with_dst (v6_hdr h) (icmpv6 k) t c hw p e =
      fix6 nff c hw p (record h { dst_addr = t.v6addr })
        (icmpv6 (record k { identifier = nff.swap16 t.new_port }))
  fix_with_dst ip other_l4 t c hw p e = cc

  fix_with_src :
      (ip : IpHdr) (l4 : L4) (t : Target) (calculate hw : Bool) (p : Packet)
      → is_known l4 ≡ true
      → endpoints
          (fix_checksum nff l4
            (record p { l3 = with_src env ip l4 t })
            (is_ipv6 ip)
            calculate
            hw).l3
        ≡ some (to_network nff (target_of (is_ipv6 ip) t), dest_of ip (other_dst l4 t.new_port))
  unfolding with_src with_src_port is_ipv6 fix_checksum
  fix_with_src (v4_hdr h) (tcp k) t c hw p e =
      fix4 nff c hw p (record h { src_addr = nff.swap32 t.v4addr })
        (tcp (record k { src_port = nff.swap16 t.new_port }))
  fix_with_src (v4_hdr h) (udp k) t c hw p e =
      fix4 nff c hw p (record h { src_addr = nff.swap32 t.v4addr })
        (udp (record k { src_port = nff.swap16 t.new_port }))
  fix_with_src (v4_hdr h) (icmp k) t c hw p e =
      fix4 nff c hw p (record h { src_addr = nff.swap32 t.v4addr })
        (icmp (record k { identifier = nff.swap16 t.new_port }))
  fix_with_src (v4_hdr h) (icmpv6 k) t c hw p e =
      fix4 nff c hw p (record h { src_addr = nff.swap32 t.v4addr })
        (icmpv6 (record k { identifier = nff.swap16 t.new_port }))
  fix_with_src (v6_hdr h) (tcp k) t c hw p e =
      fix6 nff c hw p (record h { src_addr = t.v6addr })
        (tcp (record k { src_port = nff.swap16 t.new_port }))
  fix_with_src (v6_hdr h) (udp k) t c hw p e =
      fix6 nff c hw p (record h { src_addr = t.v6addr })
        (udp (record k { src_port = nff.swap16 t.new_port }))
  fix_with_src (v6_hdr h) (icmp k) t c hw p e =
      fix6 nff c hw p (record h { src_addr = t.v6addr })
        (icmp (record k { identifier = nff.swap16 t.new_port }))
  fix_with_src (v6_hdr h) (icmpv6 k) t c hw p e =
      fix6 nff c hw p (record h { src_addr = t.v6addr })
        (icmpv6 (record k { identifier = nff.swap16 t.new_port }))
  fix_with_src ip other_l4 t c hw p e = cc

  -- What `emit` returns, for a packet whose L3 part has these endpoints after the checksums.
  abbrev pub Sends : Option (Endpoint × Endpoint) → PortPair → ℕ × Packet → PortPair → Type 0
  Sends ends pp r pp' = (r.0 ≡ dir_send) × (endpoints r.1.l3 ≡ ends) × (pp' ≡ pp)

  pub emit-dst :
      (out : InterfaceType) (ip : IpHdr) (l4 : L4) (t : Target) (mac : MacAddress) (pkt : Packet)
      (s : St)
      → is_known l4 ≡ true
      → Ensures
          (Sends
            (some
              (source_of ip (other_src l4 t.new_port), to_network nff (target_of (is_ipv6 ip) t)))
            s.pp)
          (emit env out (is_ipv6 ip) l4 (with_dst env ip l4 t) mac pkt)
          s
  unfolding emit
  emit-dst out ip l4 t mac pkt s known =
      Ensures-bind (λ _ pp. pp ≡ s.pp) _ s (dump_packet env out _ dir_send) _
        (dump_packet-pp env out _ dir_send s)
        (λ a s' e.
          (refl, fix_with_dst ip l4 t _ _ (to_port env (port_at out s.pp) mac pkt) known, e))

  pub emit-src :
      (out : InterfaceType) (ip : IpHdr) (l4 : L4) (t : Target) (mac : MacAddress) (pkt : Packet)
      (s : St)
      → is_known l4 ≡ true
      → Ensures
          (Sends
            (some (to_network nff (target_of (is_ipv6 ip) t), dest_of ip (other_dst l4 t.new_port)))
            s.pp)
          (emit env out (is_ipv6 ip) l4 (with_src env ip l4 t) mac pkt)
          s
  unfolding emit
  emit-src out ip l4 t mac pkt s known =
      Ensures-bind (λ _ pp. pp ≡ s.pp) _ s (dump_packet env out _ dir_send) _
        (dump_packet-pp env out _ dir_send s)
        (λ a s' e.
          (refl, fix_with_src ip l4 t _ _ (to_port env (port_at out s.pp) mac pkt) known, e))
