-- ===== src/Server/Address.antt =====
-- ChangeInterfaceAddress of nat/grpc.go, with convertSubnet of nat/util.go.
use nff_go_nat.Base.{
  ℕ, ◌+◌, ◌-◌, ◌*◌, ◌%◌, ◌^◌, Bool, true, false, ◌==◌, ltb, leb, if◌then◌else◌, Option, none, some,
  List, [], ◌++◌, length, Outcome, done, ◌>>=◌,
}
use nff_go_nat.Base.Results.{ok, err}
use nff_go_nat.Net.{IPv4Address, zero_ipv6_addr}
use nff_go_nat.Nff.{Nff}
use nff_go_nat.Config.{IpPort, Ipv4Subnet, Ipv6Subnet}
use nff_go_nat.Subnet.{ipv4_subnet_string, ipv6_subnet_string}
use nff_go_nat.Text.{Text, codes}
use nff_go_nat.Text.Numerals.{itoa}
use nff_go_nat.Text.Ip.{cidr_mask}
use nff_go_nat.Dhcp.{no_dhcp_state, convert_ipv4}
use nff_go_nat.Dhcp6.{no_dhcpv6_state, single_ip_mask}
use nff_go_nat.Unmarshal.{copy_into}
use nff_go_nat.Machine.{set_port}
use nff_go_nat.Kernel.{Kernel, KernelCall, set_link_ipv4, set_link_ipv6}
use nff_go_nat.Control.{bytes_of}
use nff_go_nat.Server.{
  InterfaceAddressChangeRequest, SubnetMessage, interface_not_found, bad_address, link_failed,
  Reply, ServerState, Found, found_port, put_back, get_port_and_pair_by_id,
}

-- What convertSubnet returns: one of two pointers is not nil, or there is an error.
pub data NewSubnet : Type 0 where
  new_ipv4 : Ipv4Subnet → NewSubnet
  new_ipv6 : Ipv6Subnet → NewSubnet
  no_subnet : NewSubnet

-- `ipv4Subnet{…}` and `ipv6Subnet{…}` with an address and a mask alone.
abbrev pub plain_subnet4 : IPv4Address → IPv4Address → Ipv4Subnet
plain_subnet4 addr mask = record {
  addr = addr;
  mask = mask;
  address_acquired = false;
  kni_address_set = false;
  ds = no_dhcp_state;
}

abbrev pub plain_subnet6 : List ℕ → List ℕ → Ipv6Subnet
plain_subnet6 addr mask = record {
  addr = addr;
  multicast_addr = zero_ipv6_addr;
  mask = mask;
  ll_addr = zero_ipv6_addr;
  ll_multicast_addr = zero_ipv6_addr;
  address_acquired = false;
  kni_address_set = false;
  ds = no_dhcpv6_state;
}

-- `types.IPv4Address(0xffffffff) << (32 - bits)` in uint32: a shift by 32 or more gives 0, and so
-- does one by the large number that the difference is when it wraps.
unfoldable pub shifted_mask : ℕ → IPv4Address
shifted_mask bits =
    let shift = (2 ^ 32 + 32 - bits) % 2 ^ 32 in
    if ltb shift 32 then (0xffffffff * 2 ^ shift) % 2 ^ 32 else 0

-- net.CIDRMask(bits, 128), which is nil for more than 128 bits.
unfoldable pub mask6 : ℕ → List ℕ
mask6 bits = if leb bits 128 then cidr_mask bits 16 else []

-- The branch for an address that is not IPv4: net.IP.To16 takes sixteen bytes (four do not get here).
unfoldable pub convert_subnet6 : SubnetMessage → NewSubnet
unfolding mask6 bytes_of copy_into
convert_subnet6 s =
    if length (bytes_of s.address) == 16
    then new_ipv6 (
        plain_subnet6 (copy_into zero_ipv6_addr (bytes_of s.address))
          (copy_into zero_ipv6_addr (mask6 s.mask_bits_number)))
    else no_subnet

unfoldable pub subnet_of : SubnetMessage → Option IPv4Address → NewSubnet
unfolding convert_subnet6 shifted_mask
subnet_of s none = convert_subnet6 s
subnet_of s (some addr) = new_ipv4 (plain_subnet4 addr (shifted_mask s.mask_bits_number))

-- convertSubnet
unfoldable pub convert_subnet : Nff → SubnetMessage → Outcome NewSubnet
unfolding subnet_of
convert_subnet nff s = do addr ← convert_ipv4 nff s.address; done (subnet_of s addr)

-- A change of one port, with the kernel calls that it made.
unfoldable pub update_port : ServerState → Found → IpPort → List KernelCall → ServerState
unfolding put_back set_port
update_port st f port calls = record st {
  config = record st.config { port_pairs = put_back f (set_port f.side f.pair port) };
  calls = calls;
}

abbrev pub success_text : ℕ → Text → Text
success_text port_id subnet =
    codes "Successfully set port " ++ (itoa port_id ++ (codes " subnet to " ++ subnet))

abbrev pub address_reply : ℕ → Bool → Text → Reply
address_reply port_id linked subnet =
    if linked then ok (success_text port_id subnet) else err link_failed

module _ (nff : Nff) (kernel : Kernel) where
  -- The IPv4 part of ChangeInterfaceAddress. The address is not acquired if the kernel refuses it.
  unfoldable pub change_address4 : ℕ → ServerState → Found → Ipv4Subnet → Reply × ServerState
  unfolding found_port update_port set_link_ipv4 ipv4_subnet_string
  change_address4 port_id st f new =
      let port = found_port f in
      let subnet = record port.subnet { addr = new.addr; mask = new.mask } in
      let (linked, calls) =
        set_link_ipv4 kernel st.calls port subnet.addr subnet.mask port.subnet.addr port.subnet.mask
          st.config.bring_up_kni_interfaces in
      let subnet' = record subnet { address_acquired = linked } in
      (
        address_reply port_id linked (ipv4_subnet_string nff subnet'),
        update_port st f (record port { subnet = subnet' }) calls,
      )

  -- The link-local address comes first for a port that has no address yet; its error is ignored.
  unfoldable pub link_local_first : ServerState → IpPort → List KernelCall
  unfolding set_link_ipv6
  link_local_first st port =
      if port.subnet6.address_acquired
      then st.calls
      else (set_link_ipv6 kernel st.calls port port.subnet6.ll_addr single_ip_mask zero_ipv6_addr
          zero_ipv6_addr st.config.bring_up_kni_interfaces).1

  unfoldable pub acquired6 : Ipv6Subnet → Bool → Ipv6Subnet
  acquired6 subnet linked =
      if linked
      then record subnet {
        address_acquired = true;
        multicast_addr = nff.multicast_addr subnet.addr;
      }
      else record subnet { address_acquired = false }

  -- The IPv6 part.
  unfoldable pub change_address6 : ℕ → ServerState → Found → Ipv6Subnet → Reply × ServerState
  unfolding found_port update_port set_link_ipv6 link_local_first acquired6 ipv6_subnet_string
  change_address6 port_id st f new =
      let port = found_port f in
      let subnet = record port.subnet6 { addr = new.addr; mask = new.mask } in
      let (linked, calls) =
        set_link_ipv6 kernel (link_local_first st port) port subnet.addr subnet.mask
          port.subnet6.addr port.subnet6.mask st.config.bring_up_kni_interfaces in
      let subnet' = acquired6 subnet linked in
      (
        address_reply port_id linked (ipv6_subnet_string nff subnet'),
        update_port st f (record port { subnet6 = subnet' }) calls,
      )

  unfoldable pub change_address : ℕ → ServerState → Found → NewSubnet → Reply × ServerState
  unfolding change_address4 change_address6
  change_address port_id st f no_subnet = (err bad_address, st)
  change_address port_id st f (new_ipv4 subnet) = change_address4 port_id st f subnet
  change_address port_id st f (new_ipv6 subnet) = change_address6 port_id st f subnet

  unfoldable pub change_address_of :
      InterfaceAddressChangeRequest → ServerState → Option Found → Outcome (Reply × ServerState)
  unfolding change_address convert_subnet
  change_address_of request st none = done (err interface_not_found, st)
  change_address_of request st (some f) = do
    subnet ← convert_subnet nff request.port_subnet
    done (change_address request.interface_id st f subnet)

  -- ChangeInterfaceAddress
  unfoldable pub change_interface_address :
      InterfaceAddressChangeRequest → ServerState → Outcome (Reply × ServerState)
  unfolding change_address_of get_port_and_pair_by_id
  change_interface_address request st =
      change_address_of request st
        (get_port_and_pair_by_id st.config.port_pairs request.interface_id)
