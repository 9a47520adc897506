-- ===== src/Setup.antt =====
-- How InitFlows of nat/config.go sets up the state of a port pair. (The flow graph that it builds
-- next is nff-go's.)
pub mod Fresh
use nff_go_nat.Base.{ℕ, Bool, true, false, not, ◌==◌, ◌||◌, if◌then◌else◌, Outcome, done, ◌>>=◌}
use nff_go_nat.Base.Slice.{make}
use nff_go_nat.Net.{zero_ipv6_addr, same_bytes, empty}
use nff_go_nat.Nff.{Nff}
use nff_go_nat.Config.{
  IpPort, PortPair, Portmap, zero_entry, icmp_number, tcp_number, udp_number, icmpv6_number,
  port_start, port_end,
}
use nff_go_nat.Forwarding.{init_port_port_forwarding_entries}

-- `make([][]portMapEntry, 256)`, and `make([]portMapEntry, portEnd)` for three protocols.
unfoldable pub portmap_for : ℕ → Portmap
portmap_for icmp q =
    if q == icmp || q == tcp_number || q == udp_number
    then make port_end zero_entry
    else make 0 zero_entry

unfoldable pub allocate_public_port_port_map : IpPort → IpPort
allocate_public_port_port_map port = record port {
  portmap = portmap_for icmp_number;
  portmap6 = portmap_for icmpv6_number;
}

unfoldable pub allocate_lookup_map : IpPort → IpPort
allocate_lookup_map port = record port { translation_table = empty }

module _ (nff : Nff) where
  -- initLocalMACs, for one port
  unfoldable pub init_local_mac : IpPort → IpPort
  init_local_mac port = record port { src_mac_address = nff.port_mac port.index }

  unfoldable pub init_ipv6_ll_addresses : IpPort → IpPort
  init_ipv6_ll_addresses port =
      let ll = nff.link_local_addr port.src_mac_address in
      let s = record port.subnet6 { ll_addr = ll; ll_multicast_addr = nff.multicast_addr ll } in
      record port {
        subnet6 =
            if same_bytes s.addr zero_ipv6_addr
            then s
            else record s { multicast_addr = nff.multicast_addr s.addr };
      }

  -- The state before the forwarding rules: MAC and link-local addresses, empty tables, the portmaps
  -- of the public port, and the place where the search for a port begins.
  unfoldable pub init_state : PortPair → PortPair
  unfolding init_local_mac init_ipv6_ll_addresses allocate_lookup_map allocate_public_port_port_map
      portmap_for
  init_state pp = record pp {
    private_port = allocate_lookup_map (init_ipv6_ll_addresses (init_local_mac pp.private_port));
    public_port =
        allocate_public_port_port_map
          (allocate_lookup_map (init_ipv6_ll_addresses (init_local_mac pp.public_port)));
    lastport = port_start;
  }

  -- The rules of the private port, and then those of the public port.
  unfoldable pub init_rules : ℕ → PortPair → Outcome PortPair
  init_rules now pp = do
    (private1, public1) ←
        init_port_port_forwarding_entries now pp.private_port pp.public_port
          pp.private_port.forward_ports
    (public2, private2) ←
        init_port_port_forwarding_entries now public1 private1 public1.forward_ports
    done (record pp { private_port = private2; public_port = public2 })

  unfoldable pub init_pair : ℕ → PortPair → Outcome PortPair
  init_pair now pp = init_rules now (init_state pp)
