-- ===== src/Icmp/Caches.antt =====
-- nat/icmp.go changes the ARP caches of a pair and nothing else of it.
use nff_go_nat.Base.{
  ℕ, ◌≡◌, refl, ◌∙◌, inl, inr, Bool, true, false, not, ◌==◌, ◌||◌, ◌&&◌, if◌then◌else◌, some,
  Option-cases, done,
}
use nff_go_nat.Base.Slice.{get}
use nff_go_nat.Net.{Endpoint}
use nff_go_nat.Packets.{Packet, IcmpHdr}
use nff_go_nat.Config.{
  IpPort, PortPair, InterfaceType, has_kni, icmp_number, icmpv6_number, dir_send, dir_drop, dir_kni,
}
use nff_go_nat.PortAlloc.{get_portmap}
use nff_go_nat.Machine.{Env, St, ◌>>=◌, return, lift, port_at, send_packet}
use nff_go_nat.Machine.Posts.{
  Ensures, Ensures-bind, Ensures-if, Ensures-weaken, lift_returns, send_packet-pp, SameButArp,
  SameButArp-refl, SameButArp-trans,
}
use nff_go_nat.Neighbours.{handle_ipv6_neighbor_discovery}
use nff_go_nat.Neighbours.Caches.{handle_ipv6_neighbor_discovery-SameButArp}
use nff_go_nat.Checksums.{set_ipv4_icmp_checksum, set_ipv6_icmp_checksum}
use nff_go_nat.Icmp.{
  echo_request, echo_response, echo_request6, echo_response6, swap_addr, with_icmp_type, addressed,
  is_stale, is_for_kni, src_as_ipv6, answer_echo, handle_echo, icmp_after_discovery, handle_icmp,
}

second_of : (a : Bool) {b : Bool} → (a && b) ≡ true → b ≡ true
second_of true e = e
second_of false e = cc

module _ (env : Env) (side : InterfaceType) (protocol : ℕ) (pkt : Packet) (hdr : IcmpHdr)
    (key : Endpoint) where
  open env use {nff}

  -- The test for the KNI interface reads the port's own portmap, where it has an entry for the key.
  abbrev pub HasEntry : PortPair → Type 0
  HasEntry pp =
      (v : Endpoint)
      → (port_at side pp).translation_table protocol key ≡ some v
      → has_kni (port_at side pp) ≡ true
      → (e : _) × (get (get_portmap (port_at side pp) (protocol == icmpv6_number) protocol)
            (nff.swap16 hdr.identifier)
          ≡ done e)

  answered :
      (s : St) (answer : Packet)
      → Ensures (λ _ pp. pp ≡ s.pp) (send_packet env side answer >>= λ _. return dir_drop) s
  answered s answer =
      Ensures-bind (λ _ pp. pp ≡ s.pp) (λ _ pp. pp ≡ s.pp) s (send_packet env side answer) _
        (send_packet-pp env side answer s) (λ a s' e. e)

  abbrev echo : ℕ → Packet
  echo t = with_icmp_type (swap_addr pkt.l3 pkt) (swap_addr pkt.l3 pkt).l3 t

  answer_echo-pp : (s : St) → Ensures (λ _ pp. pp ≡ s.pp) (answer_echo env side protocol pkt) s
  unfolding answer_echo
  answer_echo-pp s =
      Ensures-if (λ _ pp. pp ≡ s.pp) s (protocol == icmp_number) _ _
        (λ _. answered s (
          set_ipv4_icmp_checksum nff (echo echo_response).l3 (echo echo_response)
            (not env.no_calculate_checksum) (not env.no_hw_tx_checksum)))
        (λ _. answered s (
          set_ipv6_icmp_checksum nff (echo echo_response6).l3 (echo echo_response6)
            (not env.no_calculate_checksum) (not env.no_hw_tx_checksum)))

  pub handle_echo-pp :
      (to_us : Bool) (s : St)
      → Ensures (λ _ pp. pp ≡ s.pp) (handle_echo env side protocol pkt hdr to_us) s
  unfolding handle_echo
  handle_echo-pp to_us s =
      Ensures-if (λ _ pp. pp ≡ s.pp) s
        (to_us
          && hdr.icmp_type == (if protocol == icmp_number then echo_request else echo_request6)
          && hdr.code == 0)
        _ _ (λ _. answer_echo-pp s) (λ _. refl)

  is_for_kni_returns :
      (pp : PortPair)
      → HasEntry pp
      → has_kni (port_at side pp) ≡ true
      → (b : Bool) × (is_for_kni env side (port_at side pp) protocol key hdr ≡ done b)
  unfolding is_for_kni
  is_for_kni_returns pp h kni =
      elim (Option-cases ((port_at side pp).translation_table protocol key)) [
        | inl e ↦ (true, rw (is_for_kni, e) refl)
        | inr (v, e) ↦
            let (entry, g) = h v e kni in (is_stale env.now entry, rw (is_for_kni, e, g) refl)
      ]

  icmp_after_discovery-pp :
      (to_us : Bool) (s : St)
      → HasEntry s.pp
      → Ensures (λ _ pp. pp ≡ s.pp) (icmp_after_discovery env side protocol pkt hdr key to_us) s
  unfolding icmp_after_discovery
  icmp_after_discovery-pp to_us s h =
      Ensures-if (λ _ pp. pp ≡ s.pp) s (to_us && has_kni (port_at side s.pp)) _ _
        (λ kni.
          let (b, e) = is_for_kni_returns s.pp h (second_of to_us kni) in
          Ensures-bind (λ b' pp. (b' ≡ b) × (pp ≡ s.pp)) (λ _ pp. pp ≡ s.pp) s
            (lift (is_for_kni env side (port_at side s.pp) protocol key hdr))
            (λ for_kni.
              if for_kni then return dir_kni else handle_echo env side protocol pkt hdr to_us)
            (lift_returns _ b s e)
            (λ b' s' q.
              Ensures-if (λ _ pp. pp ≡ s.pp) s' b' _ _ (λ _. q.1)
                (λ _.
                  Ensures-weaken (λ _ pp. pp ≡ s.pp) s' (λ _ pp. pp ≡ s'.pp)
                    (handle_echo env side protocol pkt hdr to_us) (handle_echo-pp to_us s')
                    (λ a pp e'. e' ∙ q.1))))
        (λ _. handle_echo-pp to_us s)

  -- handleICMP does not panic, and changes the ARP caches at most.
  pub handle_icmp-SameButArp :
      (s : St)
      → ((pp : PortPair) → SameButArp s.pp pp → HasEntry pp)
      → Ensures (λ _ pp. SameButArp s.pp pp) (handle_icmp env side protocol pkt hdr key) s
  unfolding handle_icmp
  handle_icmp-SameButArp s h =
      let a = addressed env side port protocol pkt.l3 in
      let after = λ (s' : St) (same : SameButArp s.pp s'.pp).
        Ensures-weaken (λ _ pp. SameButArp s.pp pp) s' (λ _ pp. pp ≡ s'.pp)
          (icmp_after_discovery env side protocol pkt hdr key a.to_us)
          (icmp_after_discovery-pp a.to_us s' (h s'.pp same))
          (λ d pp e. SameButArp-trans s.pp s'.pp pp same (SameButArp-refl s'.pp pp e)) in
      Ensures-if (λ _ pp. SameButArp s.pp pp) s
        (a.to_multicast || (a.to_us && protocol == icmpv6_number)) _ _
        (λ _.
          Ensures-bind (λ _ pp. SameButArp s.pp pp) (λ _ pp. SameButArp s.pp pp) s
            (handle_ipv6_neighbor_discovery env side hdr (src_as_ipv6 env side pkt.l3) pkt.vlan)
            (λ dir.
              if dir == dir_send
              then icmp_after_discovery env side protocol pkt hdr key a.to_us
              else return dir)
            (handle_ipv6_neighbor_discovery-SameButArp env side s hdr (src_as_ipv6 env side pkt.l3)
              pkt.vlan)
            (λ dir s' same.
              Ensures-if (λ _ pp. SameButArp s.pp pp) s' (dir == dir_send) _ _ (λ _. after s' same)
                (λ _. same)))
        (λ _. after s (SameButArp-refl s.pp s.pp refl))
    where
      port : IpPort
      port = port_at side s.pp
