-- ===== src/System.antt =====
-- A running translator: the packets on a pair and the requests of the gRPC server that Step has. A
-- handler and a request are one step each.
pub mod Reachable
use nff_go_nat.Base.{
  ℕ, ◌%◌, ◌^◌, ◌<◌, ◌≡◌, Bool, true, false, ◌&&◌, List, ◌∷◌, ◌++◌, map, All, Outcome, done,
}
use nff_go_nat.Nff.{Nff}
use nff_go_nat.Packets.{Packet, L4}
use nff_go_nat.Config.{PortPair, port_end, has_kni}
use nff_go_nat.Connections.WellFormed.{is_translated}
use nff_go_nat.Setup.{init_state}
use nff_go_nat.Machine.{Env, St}
use nff_go_nat.Kernel.{Kernel}
use nff_go_nat.Control.Replacing.{IsTyped}
use nff_go_nat.Translation.{IpHdr, is_ipv6, is_acquired}
use nff_go_nat.Translation.Ingress.{public_to_private_translation}
use nff_go_nat.Translation.Egress.{private_to_public_translation}
use nff_go_nat.Translation.Masquerade.{is_icmp}
use nff_go_nat.Translation.Local.{l3_of, protocol_of}
use nff_go_nat.Server.{
  Reply, ServerState, InterfaceAddressChangeRequest, PortForwardingChangeRequest,
  handle_port_forwarding,
}
use nff_go_nat.Server.Address.{change_interface_address}
use nff_go_nat.Server.Pairs.{IsLongEnough}

unfoldable pub with_pairs : ServerState → List PortPair → ServerState
with_pairs st pps = record st { config = record st.config { port_pairs = pps } }

-- The state after InitFlows, without forwarding rules.
unfoldable pub started : Nff → ServerState → ServerState
unfolding with_pairs init_state
started nff st = with_pairs st (map (init_state nff) st.config.port_pairs)

-- What can happen. The packets are those of protocols that are translated in their family, on a port
-- whose address is known; ICMP messages from a private port with a KNI interface are left out, and so
-- are requests that would panic: for a source port from `portEnd` on, or with an address of one to
-- three bytes.
pub data Step (nff : Nff) (kernel : Kernel) (st : ServerState) (st' : ServerState) : Type 0 where
  from_public :
      (env : Env) (before after : List PortPair) (pkt : Packet) (ip : IpHdr) (l4 : L4) (s s' : St)
      (r : ℕ × Packet)
      → st.config.port_pairs ≡ before ++ (s.pp ∷ after)
      → pkt.l3 ≡ l3_of ip l4
      → is_translated (is_ipv6 ip) (protocol_of l4) ≡ true
      → is_acquired s.pp.public_port (is_ipv6 ip) ≡ true
      → public_to_private_translation env pkt s ≡ done (r, s')
      → st' ≡ with_pairs st (before ++ (s'.pp ∷ after))
      → Step nff kernel st st'
  from_private :
      (env : Env) (before after : List PortPair) (pkt : Packet) (ip : IpHdr) (l4 : L4) (s s' : St)
      (r : ℕ × Packet)
      → st.config.port_pairs ≡ before ++ (s.pp ∷ after)
      → pkt.l3 ≡ l3_of ip l4
      → is_translated (is_ipv6 ip) (protocol_of l4) ≡ true
      → is_acquired s.pp.private_port (is_ipv6 ip) ≡ true
      → (is_icmp l4 && has_kni s.pp.private_port) ≡ false
      → private_to_public_translation env pkt s ≡ done (r, s')
      → st' ≡ with_pairs st (before ++ (s'.pp ∷ after))
      → Step nff kernel st st'
  rule_changed :
      (now : ℕ) (request : PortForwardingChangeRequest) (reply : Reply)
      → All IsTyped st.config.port_pairs
      → request.rule.source_port_number % 2 ^ 16 < port_end
      → IsLongEnough request.rule.target_address
      → handle_port_forwarding nff now request st ≡ done (reply, st')
      → Step nff kernel st st'
  address_changed :
      (request : InterfaceAddressChangeRequest) (reply : Reply)
      → All IsTyped st.config.port_pairs
      → IsLongEnough request.port_subnet.address
      → change_interface_address nff kernel request st ≡ done (reply, st')
      → Step nff kernel st st'

pub data Reach (nff : Nff) (kernel : Kernel) (st : ServerState) : ServerState → Type 0 where
  here : Reach nff kernel st st
  next : {t u : ServerState} → Reach nff kernel st t → Step nff kernel t u → Reach nff kernel st u
