-- ===== src/Reading/Accepts.antt =====
-- Which configurations ReadConfig accepts, and what it makes of them.
use Prim.Native.String.{String}
use nff_go_nat.Base.{
  ◌≡◌, refl, ap, sym, subst, ◌∙◌, ◌↔◌, ◌⊎◌, Bool, true, false, ◌==◌, ◌||◌, List, [], ◌∷◌, map, All,
  arith,
}
use nff_go_nat.Base.Results.{ok, >>=-eq-ok, ok_inj}
use nff_go_nat.Config.{PortPair, Config, has_kni}
use nff_go_nat.Reading.{
  Needs, note_kni, note_dhcp, read_port, set_types, check_vlans, read_ports, read_pair, read_pairs,
  set_flags, read_config,
}
use nff_go_nat.Reading.Readable.{
  IsReadablePort, IsReadablePair, IsReadable, finished, finished_pair, any, lacks_address, reading,
}
use nff_go_nat.Reading.Ports.{
  port_needs, read_port_complete, read_port_sound, IsReadablePort-same, is_within-finished,
}

check_vlans_complete :
    (pp : PortPair)
    → (pp.private_port.vlan == 0) ≡ (pp.public_port.vlan == 0)
    → ((pp.private_port.vlan == 0) ≡ true) ⊎ (has_kni pp.private_port ≡ false)
    → check_vlans pp ≡ ok tt
unfolding check_vlans
check_vlans_complete pp same kni = ground arith

check_vlans_sound :
    (pp : PortPair)
    → check_vlans pp ≡ ok tt
    → ((pp.private_port.vlan == 0) ≡ (pp.public_port.vlan == 0))
      × (((pp.private_port.vlan == 0) ≡ true) ⊎ (has_kni pp.private_port ≡ false))
unfolding check_vlans
check_vlans_sound pp h = ground arith

abbrev pair_needs : PortPair → Needs → Needs
pair_needs pp needs = port_needs pp.public_port (port_needs pp.private_port needs)

read_pair_complete :
    (host_name : String) (pp : PortPair) (needs : Needs)
    → IsReadablePair host_name pp
    → read_pair host_name pp needs ≡ ok (finished_pair pp, pair_needs pp needs)
unfolding read_pair read_ports set_types
read_pair_complete host_name pp needs (vlans, kni, private, public) =
    let private_port = (set_types pp).private_port in
    let public_port = (set_types pp).public_port in
    rw
      (
        check_vlans_complete (set_types pp) vlans kni,
        read_port_complete host_name private_port public_port needs private,
        read_port_complete host_name public_port (finished private_port)
            (port_needs private_port needs)
            (IsReadablePort-same host_name public_port private_port (finished private_port)
              (λ d. sym (is_within-finished private_port d)) public),
      )
      refl

read_pair_sound :
    (host_name : String) (pp : PortPair) (needs : Needs) (r : PortPair × Needs)
    → read_pair host_name pp needs ≡ ok r
    → IsReadablePair host_name pp
unfolding read_pair read_ports set_types
read_pair_sound host_name pp needs r h =
    let private_port = (set_types pp).private_port in
    let public_port = (set_types pp).public_port in
    let (u, e0, h0) = >>=-eq-ok (check_vlans (set_types pp)) _ r h in
    let (a, e1, h1) = >>=-eq-ok (read_port host_name private_port public_port needs) _ r h0 in
    let (b, e2, h2) = >>=-eq-ok (read_port host_name public_port a.0 a.1) _ r h1 in
    let private = read_port_sound host_name private_port public_port needs a e1 in
    let result : a ≡ (finished private_port, port_needs private_port needs) =
      ok_inj _ _ (sym e1 ∙ read_port_complete host_name private_port public_port needs private) in
    let (vlans, kni) = check_vlans_sound (set_types pp) e0 in
    (
      vlans,
      kni,
      private,
      IsReadablePort-same host_name public_port (finished private_port) private_port
          (is_within-finished private_port)
          (subst (λ x. IsReadablePort host_name public_port x.0) result
            (read_port_sound host_name public_port a.0 a.1 b e2)),
    )

abbrev list_needs : List PortPair → Needs → Needs
list_needs pps needs = record {
  kni = needs.kni || any has_kni pps;
  dhcp = needs.dhcp || any lacks_address pps;
}

list_needs-cons :
    (pp : PortPair) (pps : List PortPair) (needs : Needs)
    → list_needs pps (pair_needs pp needs) ≡ list_needs (pp ∷ pps) needs
unfolding note_kni note_dhcp has_kni
list_needs-cons pp pps needs = ground arith

list_needs-nil : (needs : Needs) → needs ≡ list_needs [] needs
list_needs-nil needs = ground arith

read_pairs_complete :
    (host_name : String) (pps : List PortPair) (needs : Needs)
    → All (IsReadablePair host_name) pps
    → read_pairs host_name pps needs ≡ ok (map finished_pair pps, list_needs pps needs)
unfolding read_pairs
read_pairs_complete host_name [] needs h = ap (λ n. ok ([], n)) (list_needs-nil needs)
read_pairs_complete host_name (pp ∷ pps) needs (h, hs) =
    rw
      (
        read_pair_complete host_name pp needs h,
        read_pairs_complete host_name pps (pair_needs pp needs) hs,
      )
      (ap (λ n. ok (map finished_pair (pp ∷ pps), n)) (list_needs-cons pp pps needs))

read_pairs_sound :
    (host_name : String) (pps : List PortPair) (needs : Needs) (r : List PortPair × Needs)
    → read_pairs host_name pps needs ≡ ok r
    → All (IsReadablePair host_name) pps
unfolding read_pairs
read_pairs_sound host_name [] needs r h = tt
read_pairs_sound host_name (pp ∷ pps) needs r h =
    let (a, e, h1) = >>=-eq-ok (read_pair host_name pp needs) _ r h in
    let (b, e', h2) = >>=-eq-ok (read_pairs host_name pps a.1) _ r h1 in
    (read_pair_sound host_name pp needs a e, read_pairs_sound host_name pps a.1 b e')

read_config_complete :
    (decoded : Config) (set_kni_ip bring_up : Bool)
    → IsReadable decoded
    → read_config decoded set_kni_ip bring_up ≡ ok (reading decoded set_kni_ip bring_up)
unfolding read_config set_flags
read_config_complete decoded set_kni_ip bring_up h =
    rw (read_pairs_complete decoded.host_name decoded.port_pairs _ h) refl

read_config_sound :
    (decoded : Config) (set_kni_ip bring_up : Bool) (r : Config × Needs)
    → read_config decoded set_kni_ip bring_up ≡ ok r
    → IsReadable decoded
unfolding read_config set_flags
read_config_sound decoded set_kni_ip bring_up r h =
    let (a, e, h1) = >>=-eq-ok (read_pairs decoded.host_name decoded.port_pairs _) _ r h in
    read_pairs_sound decoded.host_name decoded.port_pairs _ a e

-- ReadConfig on a decoded configuration succeeds exactly for a readable one: in every pair both ports
-- have a VLAN tag or none has, a tagged private port has no KNI interface, a port without an address
-- has a host name for DHCP, and every forwarding rule is one of the two kinds. Then the result is
-- that of `reading`: types set, destination ports filled in, static ARP where a MAC address is given,
-- the two flags of the command line added, NeedKNI set exactly if some port has a KNI interface, and
-- NeedDHCP exactly if some port has no IPv4 address.
pub read_config_iff :
    (decoded : Config) (set_kni_ip bring_up : Bool) (r : Config × Needs)
    → (read_config decoded set_kni_ip bring_up ≡ ok r)
      ↔ (IsReadable decoded × (r ≡ reading decoded set_kni_ip bring_up))
read_config_iff decoded set_kni_ip bring_up r = (there, back)
  where
    complete :
        IsReadable decoded
        → read_config decoded set_kni_ip bring_up ≡ ok (reading decoded set_kni_ip bring_up)
    complete = read_config_complete decoded set_kni_ip bring_up

    there :
        read_config decoded set_kni_ip bring_up ≡ ok r
        → IsReadable decoded × (r ≡ reading decoded set_kni_ip bring_up)
    there h =
        let readable = read_config_sound decoded set_kni_ip bring_up r h in
        (readable, ok_inj _ _ (sym h ∙ complete readable))

    back :
        IsReadable decoded × (r ≡ reading decoded set_kni_ip bring_up)
        → read_config decoded set_kni_ip bring_up ≡ ok r
    back (readable, e) = complete readable ∙ ap ok (sym e)
