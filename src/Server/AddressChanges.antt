-- ===== src/Server/AddressChanges.antt =====
-- What ChangeInterfaceAddress keeps of the pairs.
use nff_go_nat.Base.{◌≡◌, refl, ◌∙◌, Option, none, some, All, Returns, Returns-bind}
use nff_go_nat.Nff.{Nff}
use nff_go_nat.Config.{IpPort, PortPair, InterfaceType, i_public, i_private}
use nff_go_nat.Dhcp.{convert_ipv4}
use nff_go_nat.Machine.{port_at, set_port}
use nff_go_nat.Machine.Ports.{set_port-WellFormed}
use nff_go_nat.Kernel.{Kernel}
use nff_go_nat.Control.Replacing.{IsSound}
use nff_go_nat.Server.{
  InterfaceAddressChangeRequest, ServerState, Found, found_port, put_back, get_port_and_pair_by_id,
}
use nff_go_nat.Server.Address.{
  NewSubnet, new_ipv4, new_ipv6, no_subnet, update_port, change_address4, change_address6,
  change_address, change_address_of, change_interface_address, convert_subnet,
}
use nff_go_nat.Server.Pairs.{AllSound, IsLongEnough, convert_ipv4-Returns, found-All}

-- A write of a port that keeps its tables, portmaps and type.
set_port-IsSound :
    (side : InterfaceType) (pp : PortPair) (port : IpPort)
    → port.translation_table ≡ (port_at side pp).translation_table
    → port.portmap ≡ (port_at side pp).portmap
    → port.portmap6 ≡ (port_at side pp).portmap6
    → port.interface_type ≡ (port_at side pp).interface_type
    → IsSound pp
    → IsSound (set_port side pp port)
unfolding set_port port_at
set_port-IsSound i_public pp port t m m6 i (w, types) =
    (set_port-WellFormed i_public pp port t m m6 w, (i ∙ types.0, types.1))
set_port-IsSound i_private pp port t m m6 i (w, types) =
    (set_port-WellFormed i_private pp port t m m6 w, (types.0, i ∙ types.1))

module _ (nff : Nff) (kernel : Kernel) (request : InterfaceAddressChangeRequest) (st : ServerState)
    (sound : AllSound st) where
  change_address-AllSound :
      (f : Found) (new : NewSubnet)
      → IsSound f.pair
      → ((pp : PortPair) → IsSound pp → All IsSound (put_back f pp))
      → AllSound (change_address nff kernel request.interface_id st f new).1
  unfolding change_address change_address4 change_address6 update_port found_port
  change_address-AllSound f no_subnet here back = sound
  change_address-AllSound f (new_ipv4 subnet) here back =
      back _ (set_port-IsSound f.side f.pair _ refl refl refl refl here)
  change_address-AllSound f (new_ipv6 subnet) here back =
      back _ (set_port-IsSound f.side f.pair _ refl refl refl refl here)

  address_of-AllSound :
      (o : Option Found)
      → get_port_and_pair_by_id st.config.port_pairs request.interface_id ≡ o
      → IsLongEnough request.port_subnet.address
      → Returns (λ r. AllSound r.1) (change_address_of nff kernel request st o)
  unfolding change_address_of convert_subnet
  address_of-AllSound none e long = sound
  address_of-AllSound (some f) e long =
      let (here, back) = found-All IsSound st.config.port_pairs request.interface_id f e sound in
      Returns-bind (λ _. Unit) (λ r. AllSound r.1) (convert_subnet nff request.port_subnet) _
        (Returns-bind (λ _. Unit) (λ _. Unit) (convert_ipv4 nff request.port_subnet.address) _
          (convert_ipv4-Returns nff request.port_subnet.address long) (λ addr h. tt))
        (λ new h. change_address-AllSound f new here back)

  -- A request for a new address that is nil or has at least four bytes, when the pairs are well formed
  -- and typed: for any port, address, prefix length and answers of the kernel, ChangeInterfaceAddress
  -- does not panic, and all pairs are well formed and typed afterwards.
  pub change_interface_address-AllSound :
      IsLongEnough request.port_subnet.address
      → Returns (λ r. AllSound r.1) (change_interface_address nff kernel request st)
  unfolding change_interface_address
  change_interface_address-AllSound long = address_of-AllSound _ refl long
