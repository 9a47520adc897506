-- ===== src/Reading/Readable.antt =====
-- What a readable configuration is, and what reading makes of it: a description of ReadConfig that does
-- not go step by step.
use Prim.Native.String.{String}
use text.Mathlib.Text.{◌==◌ as str_eq}
use nff_go_nat.Base.{
  ◌≡◌, ◌⊎◌, Bool, true, false, not, ◌==◌, ◌||◌, if◌then◌else◌, List, [], ◌∷◌, map, All,
}
use nff_go_nat.Config.{IpPort, PortPair, Config, ForwardedPort, has_kni}
use nff_go_nat.Forwarding.{is_addr_zero, fill_port}
use nff_go_nat.Forwarding.Checks.{IsKniRule, IsHostRule}
use nff_go_nat.Reading.{Needs, set_static_arp, set_types, set_flags}

-- A rule that a port with this opposite may have.
abbrev pub IsRule : IpPort → IpPort → ForwardedPort → Type 0
IsRule port opposite fp =
    (fp.destination.ipv6 ≡ fp.protocol.ipv6) × (IsKniRule port fp ⊎ IsHostRule port opposite fp)

abbrev pub IsReadablePort : String → IpPort → IpPort → Type 0
IsReadablePort host_name port opposite =
    ((port.subnet.address_acquired ≡ true) ⊎ (str_eq host_name "" ≡ false))
    × All (IsRule port opposite) port.forward_ports

-- What is asked of a pair: VLAN tags on both sides or on none, no KNI interface on a private port
-- with a tag, and of both ports, under their types, a source of addresses and good rules.
abbrev pub IsReadablePair : String → PortPair → Type 0
IsReadablePair host_name pp =
    ((pp.private_port.vlan == 0) ≡ (pp.public_port.vlan == 0))
    × (((pp.private_port.vlan == 0) ≡ true) ⊎ (has_kni pp.private_port ≡ false))
    × IsReadablePort host_name (set_types pp).private_port (set_types pp).public_port
    × IsReadablePort host_name (set_types pp).public_port (set_types pp).private_port

abbrev pub IsReadable : Config → Type 0
IsReadable config = All (IsReadablePair config.host_name) config.port_pairs

-- A rule, a port and a pair as they are afterwards.
abbrev pub filled : ForwardedPort → ForwardedPort
filled fp = if is_addr_zero fp.destination then fp else fill_port fp

abbrev pub finished : IpPort → IpPort
finished port = set_static_arp (record port { forward_ports = map filled port.forward_ports })

abbrev pub finished_pair : PortPair → PortPair
finished_pair pp = record pp {
  private_port = finished (set_types pp).private_port;
  public_port = finished (set_types pp).public_port;
}

-- Whether a port needs something.
abbrev pub any : (IpPort → Bool) → List PortPair → Bool
any p [] = false
any p (pp ∷ pps) = (p pp.private_port || p pp.public_port) || any p pps

abbrev pub lacks_address : IpPort → Bool
lacks_address port = not port.subnet.address_acquired

-- The configuration and the flags that ReadConfig leaves.
abbrev pub reading : Config → Bool → Bool → Config × Needs
reading decoded set_kni_ip bring_up = (
  record (set_flags set_kni_ip bring_up decoded) {
    port_pairs = map finished_pair decoded.port_pairs;
  },
  record { kni = any has_kni decoded.port_pairs; dhcp = any lacks_address decoded.port_pairs },
)
