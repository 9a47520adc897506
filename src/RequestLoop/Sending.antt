-- ===== src/RequestLoop/Sending.antt =====
-- What sending a request and setting an address leave of a pair.
use nff_go_nat.Base.{ℕ, ◌≡◌, refl, ap, Bool, if◌then◌else◌, List}
use nff_go_nat.Nff.{DhcpOption, Dhcpv6Option}
use nff_go_nat.Config.{IpPort, PortPair, InterfaceType, i_public, i_private, has_kni}
use nff_go_nat.Machine.{
  Env, St, port_at, set_port, send_packet, set_link_ipv4_kni_address, set_link_ipv6_kni_address,
}
use nff_go_nat.Machine.Posts.{Ensures, Ensures-bind, Ensures-if, send_packet-pp}
use nff_go_nat.Dhcp.{discover, compose_and_send_dhcp_packet, note_sent}
use nff_go_nat.Dhcp6.{solicit, compose_and_send_dhcpv6_packet, note_sent6}
use nff_go_nat.RequestLoop.{set_kni_address4, set_kni_address6}

-- A port after its IPv4 part: without an address, a new transaction in which a discover request is the
-- last packet; with one, at most a note whether the KNI interface has it.
abbrev pub asked4 : ℕ → Bool → IpPort → IpPort
asked4 xid kni_set port =
    if port.subnet.address_acquired then set_kni_address4 kni_set port else record port {
      subnet = record port.subnet {
        ds = record { last_dhcp_packet_type_sent = discover; dhcp_transaction_id = xid };
      };
    }

-- The same for IPv6, with a solicitation.
abbrev pub asked6 : List ℕ → Bool → IpPort → IpPort
asked6 id kni_set port =
    if port.subnet6.address_acquired then set_kni_address6 kni_set port else record port {
      subnet6 = record port.subnet6 {
        ds = record { last_dhcpv6_packet_type_sent = solicit; dhcpv6_transaction_id = id };
      };
    }

module _ (env : Env) (side : InterfaceType) where
  pub set_link4-pp :
      (a b c d : ℕ) (s : St)
      → Ensures (λ _ pp. pp ≡ s.pp) (set_link_ipv4_kni_address env side a b c d) s
  unfolding set_link_ipv4_kni_address
  set_link4-pp a b c d s =
      Ensures-if (λ _ pp. pp ≡ s.pp) s (has_kni (port_at side s.pp)) _ _ (λ _. refl) (λ _. refl)

  pub composed4 :
      (packet_type : ℕ) (options : List DhcpOption) (s : St)
      → Ensures
          (λ _ pp. pp ≡ set_port side s.pp (note_sent packet_type (port_at side s.pp)))
          (compose_and_send_dhcp_packet env side packet_type options)
          s
  unfolding compose_and_send_dhcp_packet
  composed4 packet_type options s =
      Ensures-bind (λ _ pp. pp ≡ s.pp) _ s (send_packet env side _) _ (send_packet-pp env side _ s)
        (λ a s' e. ap (λ p. set_port side p (note_sent packet_type (port_at side p))) e)

  pub set_link6-pp :
      (a b c d : List ℕ) (s : St)
      → Ensures (λ _ pp. pp ≡ s.pp) (set_link_ipv6_kni_address env side a b c d) s
  unfolding set_link_ipv6_kni_address
  set_link6-pp a b c d s =
      Ensures-if (λ _ pp. pp ≡ s.pp) s (has_kni (port_at side s.pp)) _ _ (λ _. refl) (λ _. refl)

  pub composed6 :
      (packet_type : ℕ) (options : List Dhcpv6Option) (s : St)
      → Ensures
          (λ _ pp. pp ≡ set_port side s.pp (note_sent6 packet_type (port_at side s.pp)))
          (compose_and_send_dhcpv6_packet env side packet_type options)
          s
  unfolding compose_and_send_dhcpv6_packet
  composed6 packet_type options s =
      Ensures-bind (λ _ pp. pp ≡ s.pp) _ s (send_packet env side _) _ (send_packet-pp env side _ s)
        (λ a s' e. ap (λ p. set_port side p (note_sent6 packet_type (port_at side p))) e)

-- Two changes of one port.
pub set_port_twice :
    (side : InterfaceType) (pp : PortPair) (p : IpPort) (f : IpPort → IpPort)
    → set_port side (set_port side pp p) (f (port_at side (set_port side pp p)))
      ≡ set_port side pp (f p)
unfolding port_at set_port
set_port_twice i_public pp p f = refl
set_port_twice i_private pp p f = refl

pub set_port_self : (side : InterfaceType) (pp : PortPair) → pp ≡ set_port side pp (port_at side pp)
unfolding set_port port_at
set_port_self i_public pp = refl
set_port_self i_private pp = refl
