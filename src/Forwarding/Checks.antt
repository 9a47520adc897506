-- ===== src/Forwarding/Checks.antt =====
-- checkPortForwarding: which rules it accepts.
use nff_go_nat.Base.{◌≡◌, ◌↔◌, ◌⊎◌, inl, inr, Bool, true, false, arith}
use nff_go_nat.Config.{IpPort, ForwardedPort, i_public, has_kni}
use nff_go_nat.Forwarding.{
  accepted, is_addr_zero, is_private, is_within, fill_port, check_port_forwarding,
}

-- A rule that hands packets to the KNI interface of the port.
pub record IsKniRule (port : IpPort) (fp : ForwardedPort) : Type 0 where
  pub zero : is_addr_zero fp.destination ≡ true
  pub kni : has_kni port ≡ true
  pub same_port : fp.destination.port ≡ fp.port

-- A rule of a public port for a host in the network of the private port.
pub record IsHostRule (port opposite : IpPort) (fp : ForwardedPort) : Type 0 where
  pub nonzero : is_addr_zero fp.destination ≡ false
  pub on_public : port.interface_type ≡ i_public
  pub within : is_within opposite fp.destination ≡ true

-- What an accepted rule is, what is returned for it, and whether NeedKNI is set.
abbrev pub IsAccepted : IpPort → IpPort → ForwardedPort → ForwardedPort → Bool → Type 0
IsAccepted port opposite fp fp' need_kni =
    (fp.destination.ipv6 ≡ fp.protocol.ipv6)
    × ((IsKniRule port fp × (fp' ≡ fp) × (need_kni ≡ true))
        ⊎ (IsHostRule port opposite fp × (fp' ≡ fill_port fp) × (need_kni ≡ false)))

pub check_port_forwarding_accepts :
    (port opposite : IpPort) (fp fp' : ForwardedPort) (need_kni : Bool)
    → check_port_forwarding port opposite fp ≡ accepted fp' need_kni
    → IsAccepted port opposite fp fp' need_kni
unfolding check_port_forwarding is_private
check_port_forwarding_accepts port opposite fp fp' need_kni h = ground arith

pub check_port_forwarding_kni :
    (port opposite : IpPort) (fp : ForwardedPort)
    → fp.destination.ipv6 ≡ fp.protocol.ipv6
    → IsKniRule port fp
    → check_port_forwarding port opposite fp ≡ accepted fp true
unfolding check_port_forwarding is_private
check_port_forwarding_kni port opposite fp family r = ground arith

pub check_port_forwarding_host :
    (port opposite : IpPort) (fp : ForwardedPort)
    → fp.destination.ipv6 ≡ fp.protocol.ipv6
    → IsHostRule port opposite fp
    → check_port_forwarding port opposite fp ≡ accepted (fill_port fp) false
unfolding check_port_forwarding is_private
check_port_forwarding_host port opposite fp family r = ground arith

-- checkPortForwarding accepts a rule exactly when the families of destination and protocol agree and
-- it is either a rule for the KNI interface, with a zero destination, a KNI name and equal ports, or
-- a rule of a public port for a host inside the opposite port's subnet. The first sets NeedKNI and is
-- left alone; in the second a zero destination port becomes the forwarded port.
pub check_port_forwarding_iff :
    (port opposite : IpPort) (fp fp' : ForwardedPort) (need_kni : Bool)
    → (check_port_forwarding port opposite fp ≡ accepted fp' need_kni)
      ↔ IsAccepted port opposite fp fp' need_kni
check_port_forwarding_iff port opposite fp fp' need_kni =
    (check_port_forwarding_accepts port opposite fp fp' need_kni, back)
  where
    back :
        IsAccepted port opposite fp fp' need_kni
        → check_port_forwarding port opposite fp ≡ accepted fp' need_kni
    back (family, inl (r, e, n)) = cc (check_port_forwarding_kni port opposite fp family r)
    back (family, inr (r, e, n)) = cc (check_port_forwarding_host port opposite fp family r)
