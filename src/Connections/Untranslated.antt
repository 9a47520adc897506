-- ===== src/Connections/Untranslated.antt =====
-- allocateNewEgressConnection for a protocol that InitFlows makes no portmap for.
use nff_go_nat.Base.{ℕ, ◌≡◌, refl, ◌∙◌, Bool, false, panic}
use nff_go_nat.Net.{Endpoint}
use nff_go_nat.Config.{PortPair}
use nff_go_nat.PortAlloc.Unallocated.{alloc_new_port_panics}
use nff_go_nat.Connections.{allocate_new_egress_connection}
use nff_go_nat.Connections.WellFormed.{WellFormed, is_translated, capacity}

-- In a well-formed pair, allocateNewEgressConnection panics for every protocol that is not
-- translated in the packet's family: ICMPv6 in an IPv4 packet, or ICMP in an IPv6 packet.
pub allocate_new_egress_connection_panics :
    (now : ℕ) (pp : PortPair) (ipv6 : Bool) (protocol : ℕ) (priv_entry : Endpoint)
    → WellFormed pp
    → is_translated ipv6 protocol ≡ false
    → allocate_new_egress_connection now pp ipv6 protocol priv_entry ≡ panic
unfolding allocate_new_egress_connection
allocate_new_egress_connection_panics now pp ipv6 protocol priv_entry w untranslated =
    rw
      (alloc_new_port_panics now pp ipv6 protocol
        (w.allocated ipv6 protocol ∙ no_capacity untranslated) w.lower w.upper)
      refl
  where
    no_capacity : is_translated ipv6 protocol ≡ false → capacity ipv6 protocol ≡ 0
    no_capacity e = rw e refl
