-- ===== src/Forwarding.antt =====
-- Port forwarding rules: checkPortForwarding, enableStaticPortForward and the setting up of the
-- rules of a configuration, in nat/config.go.
pub mod Checks
pub mod Rules
use nff_go_nat.Base.{
  ℕ, ◌+◌, Bool, true, false, not, ◌==◌, if◌then◌else◌, ite, List, [], ◌∷◌, Outcome, done, ◌>>=◌,
}
use nff_go_nat.Base.Slice.{put}
use nff_go_nat.Net.{Endpoint, tuple, tuple6, zero_ipv6_addr, same_bytes, store}
use nff_go_nat.Config.{
  IpPort, PortPair, PortMapEntry, ForwardedPort, HostPort, InterfaceType, i_public, i_private,
  has_kni,
}
use nff_go_nat.PortAlloc.{get_portmap, set_portmap}
use nff_go_nat.Connections.{fresh_entry}
use nff_go_nat.Subnet.{check_addr_withing_subnet4, check_addr_withing_subnet6}

-- The errors of checkPortForwarding, in the order of its tests.
pub data ForwardError : Type 0 where
  family_differs kni_name_needed kni_port_differs only_kni_on_private outside_subnet : ForwardError

-- An accepted rule, whose destination port may have been filled in, and whether NeedKNI is set.
pub data Checked : Type 0 where
  accepted : ForwardedPort → Bool → Checked
  refused : ForwardError → Checked

-- `fp.Destination.ipv6 != fp.Protocol.ipv6`
abbrev pub same_bool : Bool → Bool → Bool
same_bool true b = b
same_bool false b = not b

unfoldable pub is_addr_zero : HostPort → Bool
is_addr_zero d = if d.ipv6 then same_bytes d.addr6 zero_ipv6_addr else d.addr4 == 0

unfoldable pub is_private : InterfaceType → Bool
is_private i_private = true
is_private i_public = false

-- Whether the destination lies in the network of the opposite port.
unfoldable pub is_within : IpPort → HostPort → Bool
is_within opposite d =
    if d.ipv6
    then check_addr_withing_subnet6 opposite.subnet6 d.addr6
    else check_addr_withing_subnet4 opposite.subnet d.addr4

unfoldable pub fill_port : ForwardedPort → ForwardedPort
fill_port fp =
    if fp.destination.port == 0
    then record fp { destination = record fp.destination { port = fp.port } }
    else fp

unfoldable pub check_port_forwarding : IpPort → IpPort → ForwardedPort → Checked
check_port_forwarding port opposite fp =
    if not (same_bool fp.destination.ipv6 fp.protocol.ipv6)
    then refused family_differs
    else if is_addr_zero fp.destination
    then (if not (has_kni port)
        then refused kni_name_needed
        else if not (fp.destination.port == fp.port)
        then refused kni_port_differs
        else accepted fp true)
    else if is_private port.interface_type
    then refused only_kni_on_private
    else if not (is_within opposite fp.destination)
    then refused outside_subnet
    else accepted (fill_port fp) false

-- The key and the value that a rule stores, both of the family of its protocol.
unfoldable pub key_entry : IpPort → ForwardedPort → Endpoint
key_entry port fp =
    if fp.protocol.ipv6 then tuple6 port.subnet6.addr fp.port else tuple port.subnet.addr fp.port

unfoldable pub val_entry : ForwardedPort → Endpoint
val_entry fp =
    if fp.protocol.ipv6
    then tuple6 fp.destination.addr6 fp.destination.port
    else tuple fp.destination.addr4 fp.destination.port

-- `fp.Destination.Addr6 != zeroIPv6Addr` or `fp.Destination.Addr4 != 0`, by the protocol's family.
unfoldable pub has_target : ForwardedPort → Bool
has_target fp =
    if fp.protocol.ipv6
    then not (same_bytes fp.destination.addr6 zero_ipv6_addr)
    else not (fp.destination.addr4 == 0)

-- The two table entries of a rule.
unfoldable pub store_rule : IpPort → IpPort → ForwardedPort → IpPort × IpPort
store_rule port opposite fp =
    let key = key_entry port fp in
    let val = val_entry fp in
    (
      record port { translation_table = store fp.protocol.id key val port.translation_table },
      if has_target fp
          then record opposite {
            translation_table = store fp.protocol.id val key opposite.translation_table;
          }
          else opposite,
    )

-- The port and its opposite after the call. On a public port the portmap entry is written, and
-- panics if the port number is not inside the slice.
unfoldable pub enable_static_port_forward :
    ℕ → IpPort → IpPort → ForwardedPort → Outcome (IpPort × IpPort)
enable_static_port_forward now port opposite fp =
    let (port', opposite') = store_rule port opposite fp in
    if is_private port.interface_type then done (port', opposite') else do
      s ← put (get_portmap port' fp.protocol.ipv6 fp.protocol.id) fp.port (fresh_entry now true)
      done (set_portmap port' fp.protocol.ipv6 fp.protocol.id s, opposite')

-- The loop over `port.ForwardPorts`.
unfoldable pub init_port_port_forwarding_entries :
    ℕ → IpPort → IpPort → List ForwardedPort → Outcome (IpPort × IpPort)
init_port_port_forwarding_entries now port opposite [] = done (port, opposite)
init_port_port_forwarding_entries now port opposite (fp ∷ fps) = do
  (port', opposite') ← enable_static_port_forward now port opposite fp
  init_port_port_forwarding_entries now port' opposite' fps

-- The same on a port pair, at the port that has the rule.
unfoldable pub enable_on : ℕ → PortPair → InterfaceType → ForwardedPort → Outcome PortPair
enable_on now pp i_public fp = do
  (port, opposite) ← enable_static_port_forward now pp.public_port pp.private_port fp
  done (record pp { public_port = port; private_port = opposite })
enable_on now pp i_private fp = do
  (port, opposite) ← enable_static_port_forward now pp.private_port pp.public_port fp
  done (record pp { private_port = port; public_port = opposite })
