-- ===== src/Reading.antt =====
-- ReadConfig of nat/config.go, on the configuration that the JSON decoder hands over, and the other
-- functions that go through the configuration's pairs.
pub mod Readable
pub mod Rules
pub mod Ports
pub mod Accepts
use Prim.Native.String.{String}
use text.Mathlib.Text.{◌==◌ as str_eq}
use nff_go_nat.Base.{
  ℕ, Bool, true, false, not, ◌==◌, ◌&&◌, ◌||◌, if◌then◌else◌, List, [], ◌∷◌, ◌++◌,
}
use nff_go_nat.Base.Results.{Result, ok, err, ◌>>=◌}
use nff_go_nat.Net.{same_bytes, zero_mac}
use nff_go_nat.Config.{IpPort, PortPair, Config, ForwardedPort, i_public, i_private, has_kni}
use nff_go_nat.Forwarding.{ForwardError, Checked, accepted, refused, check_port_forwarding}

-- The errors of ReadConfig after decoding.
pub data ConfigError : Type 0 where
  private_untagged public_untagged vlan_with_kni no_host_name : ConfigError
  bad_rule : ForwardError → ConfigError

-- What is read so far, with the flags NeedKNI and NeedDHCP.
pub record Needs : Type 0 where
  pub kni : Bool
  pub dhcp : Bool

unfoldable pub note_kni : Bool → Needs → Needs
note_kni b needs = record needs { kni = needs.kni || b }

unfoldable pub note_dhcp : Bool → Needs → Needs
note_dhcp b needs = record needs { dhcp = needs.dhcp || b }

unfoldable pub checked_rule : Checked → Result ConfigError (ForwardedPort × Bool)
checked_rule (accepted fp need_kni) = ok (fp, need_kni)
checked_rule (refused e) = err (bad_rule e)

-- The loop over `port.ForwardPorts`, which checkPortForwarding may fill in.
unfoldable pub read_rules :
    IpPort → IpPort → Needs → List ForwardedPort → Result ConfigError (List ForwardedPort × Needs)
unfolding checked_rule note_kni
read_rules port opposite needs [] = ok ([], needs)
read_rules port opposite needs (fp ∷ fps) = do
  (fp', need_kni) ← checked_rule (check_port_forwarding port opposite fp)
  (fps', needs') ← read_rules port opposite (note_kni need_kni needs) fps
  ok (fp' ∷ fps', needs')

-- `port.DstMACAddress != (types.MACAddress{})`
unfoldable pub set_static_arp : IpPort → IpPort
unfolding same_bytes
set_static_arp port =
    if same_bytes port.dst_mac_address zero_mac
    then port
    else record port { static_arp_mode = true }

-- The body of the loop over the two ports of a pair.
unfoldable pub read_port : String → IpPort → IpPort → Needs → Result ConfigError (IpPort × Needs)
unfolding read_rules set_static_arp note_dhcp note_kni has_kni
read_port host_name port opposite needs =
    if not port.subnet.address_acquired && str_eq host_name "" then err no_host_name else do
      let needs' = note_kni (has_kni port) (note_dhcp (not port.subnet.address_acquired) needs)
      (rules, needs'') ← read_rules port opposite needs' port.forward_ports
      ok (set_static_arp (record port { forward_ports = rules }), needs'')

-- `Type` and `opposite`, of which the second is not a field here.
unfoldable pub set_types : PortPair → PortPair
set_types pp = record pp {
  private_port = record pp.private_port { interface_type = i_private };
  public_port = record pp.public_port { interface_type = i_public };
}

-- The tests on VLAN tags and KNI names. The last one names the private port twice, as the source does.
unfoldable pub check_vlans : PortPair → Result ConfigError (Unit {0})
unfolding has_kni
check_vlans pp =
    if pp.private_port.vlan == 0 && not (pp.public_port.vlan == 0)
    then err private_untagged
    else if not (pp.private_port.vlan == 0) && pp.public_port.vlan == 0
    then err public_untagged
    else if (not (pp.private_port.vlan == 0) && has_kni pp.private_port)
        || (not (pp.private_port.vlan == 0) && has_kni pp.private_port)
    then err vlan_with_kni
    else ok tt

-- The private port first, and then the public one.
unfoldable pub read_ports : String → PortPair → Needs → Result ConfigError (PortPair × Needs)
unfolding read_port
read_ports host_name pp needs = do
  (private', needs') ← read_port host_name pp.private_port pp.public_port needs
  (public', needs'') ← read_port host_name pp.public_port private' needs'
  ok (record pp { private_port = private'; public_port = public' }, needs'')

unfoldable pub read_pair : String → PortPair → Needs → Result ConfigError (PortPair × Needs)
unfolding set_types check_vlans read_ports
read_pair host_name pp needs =
    check_vlans (set_types pp) >>= λ _. read_ports host_name (set_types pp) needs

unfoldable pub read_pairs :
    String → List PortPair → Needs → Result ConfigError (List PortPair × Needs)
unfolding read_pair
read_pairs host_name [] needs = ok ([], needs)
read_pairs host_name (pp ∷ pps) needs = do
  (pp', needs') ← read_pair host_name pp needs
  (pps', needs'') ← read_pairs host_name pps needs'
  ok (pp' ∷ pps', needs'')

-- The two flags of the command line are set, and never cleared.
unfoldable pub set_flags : Bool → Bool → Config → Config
set_flags set_kni_ip bring_up config = record config {
  set_kni_ip = config.set_kni_ip || set_kni_ip;
  bring_up_kni_interfaces = config.bring_up_kni_interfaces || bring_up;
}

unfoldable pub read_config : Config → Bool → Bool → Result ConfigError (Config × Needs)
unfolding read_pairs set_flags
read_config decoded set_kni_ip bring_up = do
  let config = set_flags set_kni_ip bring_up decoded
  (pps, needs) ←
      read_pairs config.host_name config.port_pairs (record { kni = false; dhcp = false })
  ok (record config { port_pairs = pps }, needs)
