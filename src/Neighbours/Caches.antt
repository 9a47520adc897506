-- ===== src/Neighbours/Caches.antt =====
-- nat/arp.go and nat/neigh.go change the ARP caches of a pair and nothing else of it.
use nff_go_nat.Base.{
  ℕ, ◌≡◌, ◌≢◌, refl, inl, inr, not, ◌==◌, ◌||◌, Option, Bool-cases, Option-cases, arith,
}
use nff_go_nat.Net.{IPv4Address, IPv6Address, ip4, ip6, same_bytes}
use nff_go_nat.Packets.{Packet, IcmpHdr, ArpHdr, NdOption}
use nff_go_nat.Config.{IpPort, PortPair, InterfaceType, dir_send, dir_drop, dir_kni, has_kni}
use nff_go_nat.Machine.{Env, St, ◌>>=◌, return, port_at, send_packet, learn}
use nff_go_nat.Machine.Posts.{
  Ensures, Ensures-bind, Ensures-if, Ensures-weaken, send_packet-pp, SameButArp, SameButArp-refl,
  learn-SameButArp,
}
use nff_go_nat.Neighbours.{
  arp_request, arp_reply, neighbor_solicitation, neighbor_advertisement,
  nd_source_link_layer_address, nd_target_link_layer_address, kni_or_drop, tag_answer, answer_arp,
  asks_for_us, handle_arp, send_arp_request, get_mac_for_ipv4, fix_icmp6, answer_solicitation,
  note_advertisement, handle_ipv6_neighbor_discovery, send_nd_neighbor_solicitation_request,
  get_mac_for_ipv6,
}

kni_or_drop-not_send : (port : IpPort) → kni_or_drop port ≢ dir_send
kni_or_drop-not_send port = elim (Bool-cases (has_kni port)) [
  | inl e ↦ rw e λ h. omega (arith, h)
  | inr e ↦ rw e λ h. omega (arith, h)
]

module _ (env : Env) (side : InterfaceType) (s : St) where
  open env use {nff}

  send_arp_request-pp :
      (ip : IPv4Address) → Ensures (λ _ pp. pp ≡ s.pp) (send_arp_request env side ip) s
  unfolding send_arp_request
  send_arp_request-pp ip = send_packet-pp env side _ s

  send_solicitation-pp :
      (ip : IPv6Address)
      → Ensures (λ _ pp. pp ≡ s.pp) (send_nd_neighbor_solicitation_request env side ip) s
  unfolding send_nd_neighbor_solicitation_request
  send_solicitation-pp ip = send_packet-pp env side _ s

  -- Looking for a MAC address may send a request, and leaves the pair alone.
  pub get_mac_for_ipv4-pp :
      (ip : IPv4Address) → Ensures (λ _ pp. pp ≡ s.pp) (get_mac_for_ipv4 env side ip) s
  unfolding get_mac_for_ipv4
  get_mac_for_ipv4-pp ip =
      Ensures-if _ s (port_at side s.pp).static_arp_mode _ _ (λ _. refl)
        λ _. elim (Option-cases ((port_at side s.pp).arp_table (ip4 ip))) [
          | inl e ↦ rw e (
              Ensures-bind (λ _ pp. pp ≡ s.pp) (λ _ pp. pp ≡ s.pp) s (send_arp_request env side ip)
                _ (send_arp_request-pp ip) (λ a s' h. h))
          | inr (mac, e) ↦ rw e refl
        ]

  pub get_mac_for_ipv6-pp :
      (ip : IPv6Address) → Ensures (λ _ pp. pp ≡ s.pp) (get_mac_for_ipv6 env side ip) s
  unfolding get_mac_for_ipv6
  get_mac_for_ipv6-pp ip =
      Ensures-if _ s (port_at side s.pp).static_arp_mode _ _ (λ _. refl)
        λ _. elim (Option-cases ((port_at side s.pp).arp_table (ip6 ip))) [
          | inl e ↦ rw e (
              Ensures-bind (λ _ pp. pp ≡ s.pp) (λ _ pp. pp ≡ s.pp) s
                (send_nd_neighbor_solicitation_request env side ip) _ (send_solicitation-pp ip)
                (λ a s' h. h))
          | inr (mac, e) ↦ rw e refl
        ]

  -- What a handler of neighbour messages may do: it does not ask for a translation.
  abbrev pub Local : ℕ → PortPair → Type 0
  Local dir pp = (dir ≢ dir_send) × SameButArp s.pp pp

  drop_after_send :
      (pkt : Packet) → Ensures Local (send_packet env side pkt >>= λ _. return dir_drop) s
  drop_after_send pkt =
      Ensures-bind (λ _ pp. pp ≡ s.pp) Local s (send_packet env side pkt) _
        (send_packet-pp env side pkt s)
        (λ a s' e. (λ d. omega (arith, d), SameButArp-refl s.pp s'.pp e))

  kni_or_drop-Local : (port : IpPort) → Local (kni_or_drop port) s.pp
  kni_or_drop-Local port = (kni_or_drop-not_send port, SameButArp-refl s.pp s.pp refl)

  Local-drop : Local dir_drop s.pp
  Local-drop = (λ d. omega (arith, d), SameButArp-refl s.pp s.pp refl)

  Local-kni : Local dir_kni s.pp
  Local-kni = (λ d. omega (arith, d), SameButArp-refl s.pp s.pp refl)

  answer_arp-Local :
      (arp : ArpHdr) (vlan : Option ℕ) → Ensures Local (answer_arp env side arp vlan) s
  unfolding answer_arp
  answer_arp-Local arp vlan = drop_after_send (
      tag_answer env side
        (nff.arp_reply_packet (port_at side s.pp).src_mac_address arp.sha
          (nff.array_to_ipv4 arp.tpa) (nff.array_to_ipv4 arp.spa))
        vlan)

  -- handleARP never asks for a translation, and changes the ARP caches at most.
  pub handle_arp-Local :
      (arp : ArpHdr) (vlan : Option ℕ) → Ensures Local (handle_arp env side arp vlan) s
  unfolding handle_arp
  handle_arp-Local arp vlan =
      let port = port_at side s.pp in
      Ensures-if Local s (not (nff.swap16 arp.operation == arp_request)) _ _
        (λ _.
          Ensures-if Local s (nff.swap16 arp.operation == arp_reply) _ _
            (λ _.
              Ensures-bind (λ _ pp. SameButArp s.pp pp) Local s
                (learn side (ip4 (nff.swap32 (nff.array_to_ipv4 arp.spa))) arp.sha)
                (λ _. return (kni_or_drop port))
                (learn-SameButArp side (ip4 (nff.swap32 (nff.array_to_ipv4 arp.spa))) arp.sha s)
                (λ a s' h. (kni_or_drop-not_send port, h)))
            (λ _. kni_or_drop-Local port))
        λ _.
          Ensures-if Local s (has_kni port) _ _ (λ _. Local-kni)
            λ _.
              Ensures-if Local s (asks_for_us env side port arp) _ _
                (λ _. answer_arp-Local arp vlan) (λ _. Local-drop)

  abbrev advertisement_for : IcmpHdr → NdOption → IPv6Address → Option ℕ → Packet
  advertisement_for icmp o src vlan = fix_icmp6 env side (
      tag_answer env side
        (nff.advertisement_packet (port_at side s.pp).src_mac_address o.link_layer_address
          icmp.target_addr src)
        vlan)

  answer_solicitation-Local :
      (icmp : IcmpHdr) (src : IPv6Address) (vlan : Option ℕ)
      → Ensures Local (answer_solicitation env side icmp src vlan) s
  unfolding answer_solicitation
  answer_solicitation-Local icmp src vlan = elim (Option-cases icmp.nd_option) [
    | inl e ↦ rw e Local-drop
    | inr (o, e) ↦ rw e (
        Ensures-if Local s (o.option_type == nd_source_link_layer_address)
          (send_packet env side (advertisement_for icmp o src vlan) >>= λ _. return dir_drop)
          (return dir_drop) (λ _. drop_after_send (advertisement_for icmp o src vlan))
          (λ _. Local-drop))
  ]

  note_advertisement-SameButArp :
      (icmp : IcmpHdr) → Ensures (λ _ pp. SameButArp s.pp pp) (note_advertisement env side icmp) s
  unfolding note_advertisement
  note_advertisement-SameButArp icmp = elim (Option-cases icmp.nd_option) [
    | inl e ↦ rw e (SameButArp-refl s.pp s.pp refl)
    | inr (o, e) ↦ rw e (
        Ensures-if (λ _ pp. SameButArp s.pp pp) s (o.option_type == nd_target_link_layer_address)
          (learn side (ip6 icmp.target_addr) o.link_layer_address) (return tt)
          (λ _. learn-SameButArp side (ip6 icmp.target_addr) o.link_layer_address s)
          (λ _. SameButArp-refl s.pp s.pp refl))
  ]

  -- handleIPv6NeighborDiscovery changes the ARP caches at most.
  pub handle_ipv6_neighbor_discovery-SameButArp :
      (icmp : IcmpHdr) (src : IPv6Address) (vlan : Option ℕ)
      → Ensures
          (λ _ pp. SameButArp s.pp pp)
          (handle_ipv6_neighbor_discovery env side icmp src vlan)
          s
  unfolding handle_ipv6_neighbor_discovery
  handle_ipv6_neighbor_discovery-SameButArp icmp src vlan =
      let port = port_at side s.pp in
      let same = SameButArp-refl s.pp s.pp refl in
      Ensures-if (λ _ pp. SameButArp s.pp pp) s (icmp.icmp_type == neighbor_solicitation) _ _
        (λ _.
          Ensures-if (λ _ pp. SameButArp s.pp pp) s (has_kni port) _ _ (λ _. same)
            λ _.
              Ensures-if (λ _ pp. SameButArp s.pp pp) s
                (same_bytes icmp.target_addr port.subnet6.addr
                  || same_bytes icmp.target_addr port.subnet6.ll_addr)
                _ _
                (λ _.
                  Ensures-weaken (λ _ pp. SameButArp s.pp pp) s Local
                    (answer_solicitation env side icmp src vlan)
                    (answer_solicitation-Local icmp src vlan) (λ a pp h. h.1))
                (λ _. same))
        λ _.
          Ensures-if (λ _ pp. SameButArp s.pp pp) s (icmp.icmp_type == neighbor_advertisement) _ _
            (λ _.
              Ensures-bind (λ _ pp. SameButArp s.pp pp) (λ _ pp. SameButArp s.pp pp) s
                (note_advertisement env side icmp) (λ _. return (kni_or_drop port))
                (note_advertisement-SameButArp icmp) (λ a s' h. h))
            (λ _. same)
