-- ===== src/RequestLoop.antt =====
-- sendDHCPRequests of nat/dhcp.go: one round of its endless loop, every ten seconds.
pub mod Sending
pub mod Ipv4Part
pub mod Ipv6Part
pub mod Rounds
pub mod Acquisition
use nff_go_nat.Base.{
  ℕ, Bool, true, false, not, ◌&&◌, if◌then◌else◌, List, [], ◌∷◌, Outcome, done, panic,
}
use nff_go_nat.Net.{zero_ipv6_addr}
use nff_go_nat.Config.{IpPort, PortPair, InterfaceType, i_public, i_private, has_kni}
use nff_go_nat.Machine.{
  Env, Event, link_ipv4, link_ipv6, St, M, ◌>>=◌, ◌>>◌, return, the_port, modify_port,
  set_link_ipv4_kni_address, set_link_ipv6_kni_address,
}
use nff_go_nat.Dhcp.{send_dhcp_discover_request}
use nff_go_nat.Dhcp6.{single_ip_mask, send_dhcpv6_solicit_request}

unfoldable pub set_kni_address4 : Bool → IpPort → IpPort
set_kni_address4 b port = record port { subnet = record port.subnet { kni_address_set = b } }

unfoldable pub set_kni_address6 : Bool → IpPort → IpPort
set_kni_address6 b port = record port { subnet6 = record port.subnet6 { kni_address_set = b } }

-- The random numbers of a round, for each port: a transaction of either family, and an association.
pub record Draws : Type 0 where
  pub xid : InterfaceType → ℕ
  pub xid6 : InterfaceType → List ℕ
  pub iaid : InterfaceType → ℕ

-- `links` is the kernel's answer: whether setting an address succeeds, after the events so far.
module _ (env : Env) (set_kni_ip : Bool) (links : List Event → Event → Bool) where
  -- `err == nil` of setLinkIPv4KNIAddress and setLinkIPv6KNIAddress for the address of the port.
  unfoldable pub linked4 : IpPort → St → Bool
  linked4 port s =
      if has_kni port
      then links s.log (link_ipv4 port.index port.subnet.addr port.subnet.mask 0 0 env.bring_up)
      else true

  unfoldable pub linked6 : IpPort → St → Bool
  linked6 port s =
      if has_kni port
      then links s.log (
          link_ipv6 port.index port.subnet6.addr port.subnet6.mask zero_ipv6_addr zero_ipv6_addr
            env.bring_up)
      else true

  unfoldable pub link_again4 : InterfaceType → IpPort → M (Unit {0})
  link_again4 side port s =
      (do
        set_link_ipv4_kni_address env side port.subnet.addr port.subnet.mask 0 0
        modify_port side (set_kni_address4 (linked4 port s)))
        s

  unfoldable pub link_again6 : InterfaceType → IpPort → M (Unit {0})
  link_again6 side port s =
      (do
        set_link_ipv6_kni_address env side port.subnet6.addr port.subnet6.mask zero_ipv6_addr
            zero_ipv6_addr
        modify_port side (set_kni_address6 (linked6 port s)))
        s

  unfoldable pub request_ipv4 : InterfaceType → ℕ → M (Unit {0})
  request_ipv4 side xid = do
    port ← the_port side
    if not port.subnet.address_acquired
        then send_dhcp_discover_request env side xid
        else if set_kni_ip && not port.subnet.kni_address_set
        then link_again4 side port
        else return tt

  -- The link-local address is set before each solicitation; an error is only printed.
  unfoldable pub request_ipv6 : InterfaceType → List ℕ → ℕ → M (Unit {0})
  request_ipv6 side xid6 iaid = do
    port ← the_port side
    if not port.subnet6.address_acquired
        then (do
          set_link_ipv6_kni_address env side port.subnet6.ll_addr single_ip_mask zero_ipv6_addr
              zero_ipv6_addr
          send_dhcpv6_solicit_request env side xid6 iaid)
        else if set_kni_ip && not port.subnet6.kni_address_set
        then link_again6 side port
        else return tt

  -- The body of the loop, for one port and for a pair: the public port first.
  unfoldable pub request_port : Draws → InterfaceType → M (Unit {0})
  request_port draws side = do
    request_ipv4 side (draws.xid side)
    request_ipv6 side (draws.xid6 side) (draws.iaid side)

  unfoldable pub request_pair : Draws → M (Unit {0})
  request_pair draws = do request_port draws i_public; request_port draws i_private
